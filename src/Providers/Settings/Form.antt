-- ===== src/Providers/Settings/Form.antt =====
-- settings-dialog.tsx and provider-form.tsx: the form of a custom provider. Its calls of the store
-- are those of the hook `useProviders`; the bytes and texts of a random id are parameters.
pub mod Laws
pub mod Editing
use Prim.Native.Char.{code}
use Prim.Native.String.{[], ◌∷◌}
use fleet_agent.Base.{
  ℕ, zero, suc, String, Bool, true, false, not, Option, none, some, is_some, List, trim, is_empty,
  prefixed, nat_eq, hex, pad_zeros, Result, ok, err, ◌>>=◌, ◌||◌, ◌&&◌, if◌then◌else◌,
}
use fleet_agent.Json.{Json, null, str}
use fleet_agent.Browser.{Tab}
use fleet_agent.Providers.Profiles.{
  ProviderProfile, ResponseFormat, MessagesFormat, native_function_calling, system_role,
}
use fleet_agent.Providers.Readiness.{ProviderError, trimmed! }
use fleet_agent.Providers.Registry.{ProvidersView, choose, save, delete, edit_providers}

-- The fields that a stored profile does not type hold any JSON here too.
pub record ProviderFormData : Type 0 where
  pub name : String
  pub api_key : Json
  pub model_id : Json
  pub base_url : Json
  pub response_format : ResponseFormat
  pub messages_format : MessagesFormat

abbrev pub empty_form : ProviderFormData
empty_form = record {
  name = [];
  api_key = str [];
  model_id = str [];
  base_url = str [];
  response_format = native_function_calling;
  messages_format = system_role;
}

-- What `onChange` of each input, and of each group of options, does to the form.
pub data FieldChange : Type 0 where
  set_name set_base_url set_api_key set_model_id : String → FieldChange
  set_response_format : ResponseFormat → FieldChange
  set_messages_format : MessagesFormat → FieldChange

abbrev pub change_field : FieldChange → ProviderFormData → ProviderFormData
change_field (set_name value) d = record d { name = value }
change_field (set_base_url value) d = record d { base_url = str value }
change_field (set_api_key value) d = record d { api_key = str value }
change_field (set_model_id value) d = record d { model_id = str value }
change_field (set_response_format value) d = record d { response_format = value }
change_field (set_messages_format value) d = record d { messages_format = value }

-- `s.slice(from, to)` of a text of single code units
abbrev slice : ℕ → ℕ → String → String
slice from to [] = []
slice zero zero (c ∷ s) = []
slice zero (suc to) (c ∷ s) = c ∷ slice zero to s
slice (suc from) zero (c ∷ s) = []
slice (suc from) (suc to) (c ∷ s) = slice from to s

-- What `crypto` offers: `randomUUID`, `getRandomValues` with its bytes, or nothing, with the texts
-- of the time and of the random number in base 36.
pub data Randomness : Type 0 where
  random_uuid : String → Randomness
  random_values : List ℕ → Randomness
  no_crypto : String → String → Randomness

-- `byte.toString(16).padStart(2, '0')` of each byte, joined
unfoldable pub hex_bytes : List ℕ → String
unfolding hex pad_zeros
hex_bytes List.[] = []
hex_bytes (List.◌∷◌ byte bytes) = prefixed (pad_zeros 2 (hex byte)) (hex_bytes bytes)

-- The text of the fraction is cut as `slice(2, 10)` does.
unfoldable pub new_profile_id : Randomness → String
unfolding hex_bytes
new_profile_id (random_uuid id) = id
new_profile_id (random_values bytes) = hex_bytes bytes
new_profile_id (no_crypto time fraction) = prefixed time (slice 2 10 fraction)

-- The part of the dialog's state that belongs to the form.
pub record FormState : Type 0 where
  pub show_provider_form : Bool
  pub editing_profile_id : Option String
  pub provider_form : ProviderFormData
  pub provider_form_error : Option String

abbrev pub closed_form : FormState
closed_form = record {
  show_provider_form = false;
  editing_profile_id = none;
  provider_form = empty_form;
  provider_form_error = none;
}

unfoldable pub start_create_provider : FormState → FormState
start_create_provider f = record {
  show_provider_form = true;
  editing_profile_id = none;
  provider_form = empty_form;
  provider_form_error = none;
}

-- `v ?? ''`
abbrev pub or_empty : Option Json → Json
or_empty none = str []
or_empty (some null) = str []
or_empty (some v) = v

abbrev pub form_of : ProviderProfile → ProviderFormData
form_of p = record {
  name = p.name;
  api_key = or_empty p.api_key;
  model_id = or_empty p.model_id;
  base_url = or_empty p.base_url;
  response_format = p.response_format;
  messages_format = p.messages_format;
}

unfoldable pub start_edit_provider : ProviderProfile → FormState → FormState
start_edit_provider p f = record {
  show_provider_form = true;
  editing_profile_id = some p.id;
  provider_form = form_of p;
  provider_form_error = none;
}

-- The button beside the section's title: it hides the form, or opens an empty one.
unfoldable pub toggle_provider_form : FormState → FormState
unfolding start_create_provider
toggle_provider_form f =
    if f.show_provider_form
    then record f { show_provider_form = false }
    else start_create_provider f

-- `onCancel` of the form
unfoldable pub cancel_provider_form : FormState → FormState
cancel_provider_form f = closed_form

-- The text after a letter, which may be a capital.
abbrev after_letter : ℕ → ℕ → String → Option String
after_letter small capital [] = none
after_letter small capital (c ∷ s) =
    if nat_eq (code c) small || nat_eq (code c) capital then some s else none

abbrev optional_s : String → String
optional_s [] = []
optional_s (c ∷ s) = if nat_eq (code c) b's' || nat_eq (code c) b'S' then s else c ∷ s

abbrev pub is_line_end : ℕ → Bool
is_line_end n = nat_eq n b'\n' || nat_eq n b'\r' || nat_eq n 0x2028 || nat_eq n 0x2029

abbrev begins_a_line : String → Bool
begins_a_line [] = false
begins_a_line (c ∷ s) = not (is_line_end (code c))

abbrev after_letters : List (ℕ × ℕ) → String → Option String
after_letters List.[] s = some s
after_letters (List.◌∷◌ (small, capital) rest) s = elim (after_letter small capital s) [
  | none ↦ none
  | some s' ↦ after_letters rest s'
]

abbrev http : List (ℕ × ℕ)
http =
    List.◌∷◌ (b'h', b'H')
      (List.◌∷◌ (b't', b'T') (List.◌∷◌ (b't', b'T') (List.◌∷◌ (b'p', b'P') List.[])))

abbrev separator : List (ℕ × ℕ)
separator = List.◌∷◌ (b':', b':') (List.◌∷◌ (b'/', b'/') (List.◌∷◌ (b'/', b'/') List.[]))

-- `/^https?:\/\/.+/i.test(url)`
unfoldable pub is_http_url : String → Bool
is_http_url url = elim (after_letters http url) [
  | none ↦ false
  | some rest ↦ elim (after_letters separator (optional_s rest)) [
    | none ↦ false
    | some host ↦ begins_a_line host
  ]
]

-- The texts of the form without their margins.
pub record Entered : Type 0 where
  pub name : String
  pub api_key : String
  pub model_id : String
  pub base_url : String

-- The first lines of `handleProviderSubmit`, which throw on a field that is no text.
unfoldable pub entered_texts : ProviderFormData → Result ProviderError Entered
entered_texts d = do
  api_key ← trimmed! (some d.api_key)
  model_id ← trimmed! (some d.model_id)
  base_url ← trimmed! (some d.base_url)
  ok (record { name = trim d.name; api_key = api_key; model_id = model_id; base_url = base_url })

abbrev pub name_missing : String
name_missing = "Please enter a provider name."

abbrev pub url_invalid : String
url_invalid = "Please enter a valid base URL (https://…)."

abbrev pub key_missing : String
key_missing = "Please enter an API key for this provider."

unfoldable pub entry_error : Entered → Option String
entry_error x =
    if is_empty x.name
    then some name_missing
    else if not (is_http_url x.base_url)
    then some url_invalid
    else if is_empty x.api_key
    then some key_missing
    else none

abbrev pub profile_id : Option String → String → String
profile_id (some id) new_id = id
profile_id none new_id = prefixed "profile-" new_id

abbrev pub profile_of : String → Entered → ProviderFormData → ProviderProfile
profile_of id x d = record {
  id = id;
  name = x.name;
  base_url = some (str x.base_url);
  api_key = some (str x.api_key);
  model_id = if is_empty x.model_id then none else some (str x.model_id);
  chat_completion_format = "openai-chat-completions";
  response_format = d.response_format;
  messages_format = d.messages_format;
}

-- The calls of the store: an upsert, and the selection of a profile that is new.
unfoldable pub store_profile :
    Option String → ProviderProfile → Tab × ProvidersView → Tab × ProvidersView
store_profile (some id) p r = edit_providers (save p) r
store_profile none p r = edit_providers (choose (some p.id)) (edit_providers (save p) r)

-- `handleProviderSubmit`, with the text that `newProfileId` returns if it is called
unfoldable pub submit_provider :
    String → (Tab × ProvidersView) × FormState → (Tab × ProvidersView) × FormState
unfolding entered_texts entry_error store_profile
submit_provider new_id (r, f) = elim (entered_texts f.provider_form) [
  | err e ↦ (r, f)
  | ok x ↦ elim (entry_error x) [
    | some message ↦ (r, record f { provider_form_error = some message })
    | none ↦ (
      store_profile f.editing_profile_id
          (profile_of (profile_id f.editing_profile_id new_id) x f.provider_form) r,
      closed_form,
    )
  ]
]

-- `onDelete` of a card: the store forgets the profile, and the form stays as it is.
unfoldable pub delete_provider :
    String → (Tab × ProvidersView) × FormState → (Tab × ProvidersView) × FormState
delete_provider id (r, f) = (edit_providers (delete id) r, f)
