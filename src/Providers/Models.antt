-- ===== src/Providers/Models.antt =====
-- use-provider-models.ts: the request for a provider's models and the reading of its answer.
-- `String(v)` of a value that is not a text is a parameter.
pub mod Laws
pub mod Fingerprint
use Prim.Native.String
use fleet_agent.Base.{
  ℕ, String, Bool, true, false, not, Option, none, some, List, [], ◌∷◌, ◌==◌, ◌&&◌, trim, is_empty,
  strip_slashes, Result, ok, err, if◌then◌else◌,
}
use fleet_agent.Json.{
  Json, Items, Fields, null, bool, num, other_num, str, arr, obj, nil, cons, end, field, get,
  truthy,
}
use fleet_agent.Providers.Readiness.{Headers}
use fleet_agent.Providers.Profiles.{
  openrouter_profile_id, openrouter_base_url, opencode_zen_profile_id, opencode_zen_base_url,
}

pub record ProviderModel : Type 0 where
  pub id : String
  pub name : String
  pub description : Option String
  pub context_length : Option Json

abbrev authorization : Option String → Headers
authorization none = []
authorization (some key) =
    if is_empty key then [] else ("Authorization", String.◌++◌ "Bearer " key) ∷ []

abbrev models_headers : Option String → Headers
models_headers key = ("Accept", "application/json") ∷ authorization key

-- The URL, unless there is none to ask.
unfoldable pub models_url : String → Option String → Option String
models_url provider_id base_url =
    if provider_id == openrouter_profile_id
    then some (String.◌++◌ openrouter_base_url "/models")
    else if provider_id == opencode_zen_profile_id
    then some (String.◌++◌ opencode_zen_base_url "/models")
    else elim base_url [
      | none ↦ none
      | some url ↦ if is_empty url then none else some (String.◌++◌ (strip_slashes url) "/models")
    ]

-- The request that is sent: its URL and its headers.
unfoldable pub models_request : String → Option String → Option String → Option (String × Headers)
models_request provider_id base_url key = elim (models_url provider_id base_url) [
  | none ↦ none
  | some url ↦ some (url, models_headers key)
]

abbrev pub or_truthy : Option Json → Json → Json
or_truthy none other = other
or_truthy (some v) other = if truthy v then v else other

abbrev text_field : Option Json → Option String
text_field (some (str s)) = some s
text_field _ = none

abbrev number_field : Option Json → Option Json
number_field (some (num n)) = some (num n)
number_field (some (other_num which floor)) = some (other_num which floor)
number_field _ = none

-- `Array.isArray(json) ? json : Array.isArray(json?.data) ? json.data : []`
unfoldable pub raw_list : Json → Items
raw_list (arr items) = items
raw_list (obj fs) = elim (field "data" fs) [ some (arr items) ↦ items | _ ↦ nil ]
raw_list _ = nil

module _ (string_of : Json → String) where
  -- One round of the loop, on the properties of an object.
  unfoldable pub read_fields : Fields → Option ProviderModel
  read_fields fs =
      let name = field "name" fs in
      let id = trim (string_of (or_truthy (field "id" fs) (or_truthy name (str "")))) in
      if is_empty id
      then none
      else some (record {
        id = id;
        name = trim (string_of (or_truthy name (str id)));
        description = text_field (field "description" fs);
        context_length = number_field (field "context_length" fs);
      })

  -- An array is an object too, without these properties.
  unfoldable pub read_model : Json → Option ProviderModel
  read_model (obj fs) = read_fields fs
  read_model (arr items) = read_fields end
  read_model _ = none

  unfoldable pub read_models : Items → List ProviderModel
  read_models nil = []
  read_models (cons item items) =
      let rest = read_models items in
      elim (read_model item) [ none ↦ rest | some model ↦ model ∷ rest ]

  unfoldable pub provider_models : Json → List ProviderModel
  provider_models json = read_models (raw_list json)
