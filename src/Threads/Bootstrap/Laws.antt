-- ===== src/Threads/Bootstrap/Laws.antt =====
-- Which envelopes are accepted.
use fleet_agent.Base.{
  String, ◌≡◌, ◌≢◌, ◌↔◌, refl, sym, subst, Bool-cases, true, Option, none, some, All, ◌⊎◌, inl, inr,
  eq_iff, ok, err, >>=-eq-ok, arith,
}
use fleet_agent.Json.{Json, Items, Fields, num, str, arr, obj, nil, cons, field, to_list}
use fleet_agent.Threads.Bootstrap.{
  unsupported_schema, is_record?, is_array?, is_version, is_known_format, validate_entry,
  validate_entries, validate_messages, validate_repository, validate_thread_bootstrap,
}

-- A record under a key.
abbrev HasRecord : String → Fields → Type 0
HasRecord k fs = (r : Fields) × (field k fs ≡ some (obj r))

-- A stored message: its content is a record, and its format one of the two known ones.
abbrev pub IsEntry : Json → Type 0
IsEntry (obj fs) =
    HasRecord "content" fs
    × ((field "format" fs ≡ some (str "ag-ui/v1")) ⊎ (field "format" fs ≡ some (str "aui/v0")))
IsEntry _ = ⊥

-- A repository may be left out; one that is there is a record with an array of stored messages.
abbrev pub IsRepository : Option Json → Type 0
IsRepository none = Unit
IsRepository (some (obj fs)) =
    (es : Items) × (field "messages" fs ≡ some (arr es)) × All IsEntry (to_list es)
IsRepository (some _) = ⊥

pub record IsEnvelope (fs : Fields) : Type 0 where
  pub version : field "schemaVersion" fs ≡ some (num 1)
  pub thread : HasRecord "thread" fs
  pub messages : (xs : Items) × (field "messages" fs ≡ some (arr xs))
  pub repository : IsRepository (field "messageRepository" fs)

abbrev items_of : Option Json → Items
items_of (some (arr xs)) = xs
items_of _ = nil

record_of : (o : Option Json) → is_record? o ≡ true → (r : Fields) × (o ≡ some (obj r))
record_of none h = cc
record_of (some (obj r)) h = (r, refl)
record_of (some _) h = cc

array_of : (o : Option Json) → is_array? o ≡ true → (xs : Items) × (o ≡ some (arr xs))
array_of none h = cc
array_of (some (arr xs)) h = (xs, refl)
array_of (some _) h = cc

format_of :
    (o : Option Json)
    → is_known_format o ≡ true
    → (o ≡ some (str "ag-ui/v1")) ⊎ (o ≡ some (str "aui/v0"))
format_of none h = cc
format_of (some (str s)) h = ground (arith, eq_iff s "ag-ui/v1", eq_iff s "aui/v0")
format_of (some _) h = cc

version_of : (o : Option Json) → is_version o ≡ true → o ≡ some (num 1)
version_of none h = cc
version_of (some (num n)) h = ground arith
version_of (some _) h = cc

validate_entry_iff : (e : Json) → (validate_entry e ≡ ok tt) ↔ IsEntry e
unfolding validate_entry
validate_entry_iff (obj fs) = (
  λ h.
      (record_of (field "content" fs) (ground arith), format_of (field "format" fs) (ground arith)),
  λ ((r, at), f). elim f [ inl e ↦ rw at (rw e) | inr e ↦ rw at (rw e) ],
)
validate_entry_iff _ = (λ h. cc, λ h. absurd h)

validate_entries_iff : (es : Items) → (validate_entries es ≡ ok tt) ↔ All IsEntry (to_list es)
unfolding validate_entries
validate_entries_iff nil = (λ _. tt, λ _. refl)
validate_entries_iff (cons e es) = (
  λ h.
      let (u, first, rest) = >>=-eq-ok (validate_entry e) _ h in
      ((validate_entry_iff e).0 first, (validate_entries_iff es).0 rest),
  λ (first, rest). rw ((validate_entry_iff e).1 first) ((validate_entries_iff es).1 rest),
)

validate_messages_iff :
    (o : Option Json)
    → (validate_messages o ≡ ok tt)
      ↔ ((es : Items) × (o ≡ some (arr es)) × All IsEntry (to_list es))
unfolding validate_messages
validate_messages_iff none = (λ h. cc, λ (es, e, h). cc)
validate_messages_iff (some (arr es)) = (
  λ h. (es, refl, (validate_entries_iff es).0 h),
  λ (es', e, h).
      (validate_entries_iff es).1 (subst (λ o. All IsEntry (to_list (items_of o))) (sym e) h),
)
validate_messages_iff (some _) = (λ h. cc, λ (es, e, h). cc)

validate_repository_iff : (o : Option Json) → (validate_repository o ≡ ok tt) ↔ IsRepository o
unfolding validate_repository
validate_repository_iff none = (λ _. tt, λ _. refl)
validate_repository_iff (some (obj fs)) = validate_messages_iff (field "messages" fs)
validate_repository_iff (some _) = (λ h. cc, λ h. absurd h)

accepted :
    (fs : Fields) (k : Json)
    → validate_thread_bootstrap (obj fs) ≡ ok k
    → (k ≡ obj fs) × IsEnvelope fs
unfolding validate_thread_bootstrap
accepted fs k h = elim (Bool-cases (is_version (field "schemaVersion" fs))) [
  | inr e ↦ absurd (ground arith)
  | inl version ↦ elim (Bool-cases (is_record? (field "thread" fs))) [
    | inr e ↦ absurd (ground arith)
    | inl thread ↦ elim (Bool-cases (is_array? (field "messages" fs))) [
      | inr e ↦ absurd (ground arith)
      | inl messages ↦
          let (u, checked, same) =
            >>=-eq-ok (validate_repository (field "messageRepository" fs)) (λ _. ok (obj fs))
              (rw messages at (rw thread at (rw version at h))) in
          (
            ground arith,
            record {
              version = version_of (field "schemaVersion" fs) version;
              thread = record_of (field "thread" fs) thread;
              messages = array_of (field "messages" fs) messages;
              repository = (validate_repository_iff (field "messageRepository" fs)).0 checked;
            },
          )
    ]
  ]
]

accepts : (fs : Fields) → IsEnvelope fs → validate_thread_bootstrap (obj fs) ≡ ok (obj fs)
unfolding validate_thread_bootstrap
accepts fs v = rw v.version (
    rw (v.thread.1) (
      rw (v.messages.1)
        (rw ((validate_repository_iff (field "messageRepository" fs)).1 v.repository))))

-- A payload is accepted exactly when it is an envelope: a record of version 1 with a thread, an array
-- of messages and, if there is a repository, only messages of a known format in it. It is then
-- returned unchanged.
pub validate_iff :
    (j k : Json)
    → (validate_thread_bootstrap j ≡ ok k)
      ↔ ((fs : Fields) × (j ≡ obj fs) × (k ≡ obj fs) × IsEnvelope fs)
validate_iff (obj fs) k = (
  λ h. let (same, envelope) = accepted fs k h in (fs, refl, same, envelope),
  λ (gs, e, same, v). cc (accepts gs v),
)
validate_iff _ k = (λ h. unfold validate_thread_bootstrap in cc, λ (gs, e, same, v). cc)

-- A record whose version is not 1 is refused with the version that was found, whatever else it holds.
pub unknown_version_refused :
    (fs : Fields)
    → field "schemaVersion" fs ≢ some (num 1)
    → validate_thread_bootstrap (obj fs) ≡ err (unsupported_schema (field "schemaVersion" fs))
unfolding validate_thread_bootstrap
unknown_version_refused fs h = elim (Bool-cases (is_version (field "schemaVersion" fs))) [
  | inl e ↦ absurd (h (version_of (field "schemaVersion" fs) e))
  | inr e ↦ rw e
]
