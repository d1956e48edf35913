-- ===== src/Providers/OpenRouter/Tests.antt =====
-- Runs of the OAuth flow and of the model requests on the same tab.
use fleet_agent.Base.{
  strip_slashes, ℕ, String, ◌≡◌, refl, false, some, List, [], ◌∷◌, All, zero, suc, err, arith,
}
use fleet_agent.Json.{arr, obj, cons, nil, end, property, Json, str}
use fleet_agent.Browser.{Tab, get_item, remove_item}
use fleet_agent.Providers.OpenRouter.{verifier_key}
use fleet_agent.Providers.OpenRouter.Base64.{
  IsByte, base64url, btoa, digit, url_unit, strip_padding,
}
use fleet_agent.Providers.OpenRouter.OAuth.{
  missing_verifier, has_oauth_callback_pending, begin_exchange,
}
use fleet_agent.Providers.OpenRouter.OAuth.Laws.{begin_exchange-once}
use fleet_agent.Providers.Models.{models_url}
use fleet_agent.Providers.Tests.{storage, tab}

-- A tab in which a flow has been started with this verifier.
abbrev started_tab : Tab
started_tab = record tab { session = record storage { items = (verifier_key, "secret") ∷ [] } }

begin_exchange-once_example :
    (get_item started_tab.session verifier_key ≡ some (some "secret"))
    × (has_oauth_callback_pending tab ≡ false)
    × (begin_exchange tab ≡ err missing_verifier)
begin_exchange-once_example =
    begin_exchange-once started_tab tab "secret"
      (unfold begin_exchange in unfold get_item in unfold remove_item in refl)

verifier_text : base64url (0xfb ∷ 0xff ∷ 0 ∷ 1 ∷ []) ≡ b'-' ∷ b'_' ∷ b'8' ∷ b'A' ∷ b'A' ∷ b'Q' ∷ []
unfolding base64url btoa digit url_unit strip_padding
verifier_text = refl

-- A number of bytes 251.
abbrev bytes : ℕ → List ℕ
bytes zero = []
bytes (suc n) = 251 ∷ bytes n

bytes-IsByte : (n : ℕ) → All IsByte (bytes n)
bytes-IsByte zero = tt
bytes-IsByte (suc n) = (omega arith, bytes-IsByte n)

abbrev text_of : Json → String
text_of (str s) = s
text_of _ = "0"

-- A list with a model, a model without an id, and a text.
abbrev model_list : Json
model_list = obj (
    property "data"
      (arr (
        cons (obj (property "id" (str " m1 ") end))
          (cons (obj (property "id" (str " ") end)) (cons (str "m2") nil))))
      end)

models_url_test : models_url "mine" (some "https://a.example//") ≡ some "https://a.example/models"
unfolding models_url strip_slashes
models_url_test = refl
