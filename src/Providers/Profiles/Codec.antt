-- ===== src/Providers/Profiles/Codec.antt =====
-- What `JSON.stringify` writes of a store, and what `isValidStore` lets `JSON.parse` read back.
use fleet_agent.Base.{
  String, ◌≡◌, refl, Bool, false, arith, Option, none, some, List, [], ◌∷◌, ◌==◌, if◌then◌else◌,
  nat_eq,
}
use fleet_agent.Json.{
  Json, Items, Fields, get, field, null, num, str, arr, obj, nil, cons, end, property,
}
use fleet_agent.Providers.Profiles.{
  ResponseFormat, native_function_calling, json_tool_calls, MessagesFormat, system_role,
  developer_role, ProviderProfile, ProviderStore, StoredProviderStore,
}

infixl 5 ◌>>=◌
abbrev pub ◌>>=◌ : {A B : Type 0} → Option A → (A → Option B) → Option B
none >>= k = none
some a >>= k = k a

abbrev or_else : Option Json → Option Json → Option Json
or_else none o = o
or_else (some v) o = some v

abbrev text : Json → Option String
text (str s) = some s
text _ = none

read_response_format : Json → Option ResponseFormat
read_response_format (str s) =
    if s == "native_function_calling"
    then some native_function_calling
    else if s == "json_tool_calls"
    then some json_tool_calls
    else none
read_response_format _ = none

read_messages_format : Json → Option MessagesFormat
read_messages_format (str s) =
    if s == "system_role"
    then some system_role
    else if s == "developer_role"
    then some developer_role
    else none
read_messages_format _ = none

-- The test of one profile in `isValidStore`, with the profile that passes.
pub read_profile : Json → Option ProviderProfile
unfolding get
read_profile j = do
  id ← get "id" j >>= text
  name ← get "name" j >>= text
  chat ← get "chatCompletionFormat" j >>= text
  response ← get "responseFormat" j >>= read_response_format
  messages ← get "messagesFormat" j >>= read_messages_format
  some (record {
    id = id;
    name = name;
    base_url = get "baseUrl" j;
    api_key = get "apiKey" j;
    model_id = get "modelId" j;
    chat_completion_format = chat;
    response_format = response;
    messages_format = messages;
  })

pub read_profiles : Items → Option (List ProviderProfile)
read_profiles nil = some []
read_profiles (cons j rest) = do p ← read_profile j; ps ← read_profiles rest; some (p ∷ ps)

abbrev is_version_one : Option Json → Bool
is_version_one (some (num n)) = nat_eq n 1
is_version_one _ = false

read_profile_array : Option Json → Option (List ProviderProfile)
unfolding read_profiles
read_profile_array (some (arr items)) = read_profiles items
read_profile_array _ = none

-- `isValidStore`, with the store that passes
unfoldable pub read_store : Json → Option StoredProviderStore
unfolding read_profile_array get read_profile read_response_format read_messages_format
read_store j =
    if is_version_one (get "version" j)
    then (do
      ps ← read_profile_array (get "profiles" j)
      some (record { profiles = ps; active_provider_id = get "activeProviderId" j }))
    else none

-- `JSON.stringify` leaves a field that is `undefined` out
optional : String → Option Json → Fields → Fields
optional k none rest = rest
optional k (some v) rest = property k v rest

unfoldable pub response_name : ResponseFormat → String
response_name native_function_calling = "native_function_calling"
response_name json_tool_calls = "json_tool_calls"

unfoldable pub messages_name : MessagesFormat → String
messages_name system_role = "system_role"
messages_name developer_role = "developer_role"

abbrev pub nullable : Option String → Json
nullable none = null
nullable (some s) = str s

pub write_profile : ProviderProfile → Json
write_profile p = obj (
    property "id" (str p.id) (
      property "name" (str p.name) (
        optional "baseUrl" p.base_url (
          optional "apiKey" p.api_key (
            optional "modelId" p.model_id (
              property "chatCompletionFormat" (str p.chat_completion_format) (
                property "responseFormat" (str (response_name p.response_format))
                  (property "messagesFormat" (str (messages_name p.messages_format)) end))))))))

pub write_profiles : List ProviderProfile → Items
write_profiles [] = nil
write_profiles (p ∷ ps) = cons (write_profile p) (write_profiles ps)

unfoldable pub write_store : ProviderStore → Json
unfolding write_profiles write_profile optional response_name messages_name
write_store s = obj (
    property "version" (num 1) (
      property "profiles" (arr (write_profiles s.profiles))
        (property "activeProviderId" (nullable s.active_provider_id) end)))

field-optional :
    (k j : String) (o : Option Json) (rest : Fields)
    → field k (optional j o rest) ≡ (if j == k then or_else o (field k rest) else field k rest)
unfolding field optional
field-optional k j none rest = ground arith
field-optional k j (some v) rest = ground arith

read-response_name : (r : ResponseFormat) → read_response_format (str (response_name r)) ≡ some r
unfolding read_response_format response_name
read-response_name native_function_calling = refl
read-response_name json_tool_calls = refl

read-messages_name : (g : MessagesFormat) → read_messages_format (str (messages_name g)) ≡ some g
unfolding read_messages_format messages_name
read-messages_name system_role = refl
read-messages_name developer_role = refl

or_else-none : (o : Option Json) → or_else o none ≡ o
or_else-none none = refl
or_else-none (some v) = refl

-- A profile that is written is read back as it was.
pub read_profile-write_profile : (p : ProviderProfile) → read_profile (write_profile p) ≡ some p
unfolding read_profile write_profile field get
read_profile-write_profile p =
    simp (field-optional, read-response_name, read-messages_name, or_else-none)

pub read_profiles-write_profiles :
    (ps : List ProviderProfile) → read_profiles (write_profiles ps) ≡ some ps
unfolding read_profiles write_profiles
read_profiles-write_profiles [] = refl
read_profiles-write_profiles (p ∷ ps) =
    rw (read_profile-write_profile p, read_profiles-write_profiles ps)

-- A store that is written is read back as it was, its selection as `null` or a string.
pub read_store-write_store :
    (s : ProviderStore)
    → read_store (write_store s)
      ≡ some (record {
        profiles = s.profiles;
        active_provider_id = some (nullable s.active_provider_id);
      })
unfolding read_store write_store
read_store-write_store s = rw (read_profiles-write_profiles s.profiles)
