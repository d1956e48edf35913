-- ===== src/Threads/Bootstrap.antt =====
-- threads-api.ts: the validation of the bootstrap envelope.
pub mod Laws
use fleet_agent.Base.{
  ℕ, String, Bool, true, false, Option, none, some, List, ◌==◌, ◌||◌, nat_eq, Result, ok, err,
  ◌>>=◌, if◌then◌else◌,
}
use fleet_agent.Json.{Json, Items, Fields, null, bool, num, str, arr, obj, nil, cons, field}

pub data BootstrapError : Type 0 where
  invalid_response invalid_repository unsupported_format : BootstrapError
  unsupported_schema : Option Json → BootstrapError  -- with the version that was found

abbrev pub is_record : Json → Bool
is_record (obj fs) = true
is_record _ = false

abbrev pub is_record? : Option Json → Bool
is_record? none = false
is_record? (some j) = is_record j

abbrev pub is_array? : Option Json → Bool
is_array? (some (arr xs)) = true
is_array? _ = false

abbrev pub is_version : Option Json → Bool
is_version (some (num n)) = nat_eq n 1
is_version _ = false

abbrev pub is_known_format : Option Json → Bool
is_known_format (some (str s)) = s == "ag-ui/v1" || s == "aui/v0"
is_known_format _ = false

-- one round of the loop over the repository's messages
unfoldable pub validate_entry : Json → Result BootstrapError (Unit {0})
validate_entry (obj fs) =
    if is_record? (field "content" fs)
    then (if is_known_format (field "format" fs) then ok tt else err unsupported_format)
    else err invalid_repository
validate_entry _ = err invalid_repository

unfoldable pub validate_entries : Items → Result BootstrapError (Unit {0})
unfolding validate_entry
validate_entries nil = ok tt
validate_entries (cons e es) = validate_entry e >>= λ _. validate_entries es

unfoldable pub validate_messages : Option Json → Result BootstrapError (Unit {0})
validate_messages (some (arr entries)) = validate_entries entries
validate_messages _ = err invalid_repository

unfoldable pub validate_repository : Option Json → Result BootstrapError (Unit {0})
validate_repository none = ok tt
validate_repository (some (obj fs)) = validate_messages (field "messages" fs)
validate_repository (some _) = err invalid_repository

unfoldable pub validate_thread_bootstrap : Json → Result BootstrapError Json
validate_thread_bootstrap (obj fs) =
    if is_version (field "schemaVersion" fs)
    then (if is_record? (field "thread" fs)
        then (if is_array? (field "messages" fs)
            then (validate_repository (field "messageRepository" fs) >>= λ _. ok (obj fs))
            else err invalid_response)
        else err invalid_response)
    else err (unsupported_schema (field "schemaVersion" fs))
validate_thread_bootstrap _ = err invalid_response
