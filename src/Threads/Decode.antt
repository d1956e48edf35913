-- ===== src/Threads/Decode.antt =====
-- assistant-thread-adapter.ts, the loading half: stored entries become messages, and reasoning parts
-- are taken out. `fromAgUiMessages` belongs to assistant-ui, and `String(v)` to JavaScript; both are
-- parameters.
pub mod Laws
use Prim.Native.Char.{code}
use Prim.Native.String
use fleet_agent.Base.{
  ℕ, ◌+◌, zero, suc, String, Bool, true, false, not, Option, none, some, List, [], ◌∷◌, ◌==◌, ◌&&◌,
  ◌||◌, any, keep, length, get_elem?, leb, nat_eq, units, if◌then◌else◌,
}
use fleet_agent.Json.{
  Json, Items, Fields, null, bool, num, other_num, str, arr, obj, nil, cons, end, property, field,
  to_list, of_list, truthy,
}
use fleet_agent.Threads.Units.{same}

abbrev is_alphanumeric : ℕ → Bool
is_alphanumeric c =
    (leb b'a' c && leb c b'z') || (leb b'A' c && leb c b'Z') || (leb b'0' c && leb c b'9')

abbrev lower : ℕ → ℕ
lower c = if leb b'A' c && leb c b'Z' then c + 32 else c

-- `s.replace(/[^a-z0-9]/gi, '').toLowerCase()`, as code units
unfoldable pub normalized : String → List ℕ
normalized String.[] = []
normalized (String.◌∷◌ c s) =
    let rest = normalized s in if is_alphanumeric (code c) then lower (code c) ∷ rest else rest

unfoldable pub includes : List (List ℕ) → List ℕ → Bool
includes [] x = false
includes (y ∷ ys) x = same y x || includes ys x

abbrev pub kind_keys : List (List ℕ)
kind_keys = units "type" ∷ units "kind" ∷ units "parttype" ∷ units "contenttype" ∷ []

abbrev pub reasoning_kinds : List (List ℕ)
reasoning_kinds =
    units "reasoning"
    ∷ units "thought"
    ∷ units "thinking"
    ∷ units "chainofthought"
    ∷ units "analysis"
    ∷ []

abbrev pub normalized_value : Json → List ℕ
normalized_value (str s) = normalized s
normalized_value _ = []

-- `Object.entries(part).some(…)`
unfoldable pub has_reasoning_entry : Fields → Bool
has_reasoning_entry end = false
has_reasoning_entry (property k v rest) =
    (includes kind_keys (normalized k) && includes reasoning_kinds (normalized_value v))
    || has_reasoning_entry rest

unfoldable pub is_reasoning_part : Json → Bool
is_reasoning_part (obj fs) = has_reasoning_entry fs
is_reasoning_part _ = false

-- `{ ...message, content }`
unfoldable pub set_field : String → Json → Fields → Fields
set_field k v end = property k v end
set_field k v (property j w rest) =
    if j == k then property k v rest else property j w (set_field k v rest)

abbrev pub stripped : Items → Fields → Fields
stripped content message =
    let safe = keep (λ part. not (is_reasoning_part part)) (to_list content) in
    if nat_eq (length safe) (length (to_list content))
    then message
    else set_field "content" (arr (of_list safe)) message

abbrev pub with_content : Option Json → Fields → Fields
with_content (some (arr content)) message = stripped content message
with_content _ message = message

unfoldable pub strip_reasoning_parts : Fields → Fields
strip_reasoning_parts message = with_content (field "content" message) message

-- A stored message, whose content is a record.
pub record Entry : Type 0 where
  pub id : String
  pub parent_id : Option String
  pub format : String
  pub content : Fields
  pub run_config : Option Json

abbrev if_truthy : Option Json → Option Json
if_truthy none = none
if_truthy (some v) = if truthy v then some v else none

-- What `load` hands to the runtime for each entry.
pub record Item {ℓ} (Message : Type ℓ) : Type ℓ where
  pub message : Message
  pub parent_id : Option String
  pub run_config : Option Json

module _ {ℓ} {Message : Type ℓ} (of_fields : Fields → Message) (from_ag_ui : Fields → Message) where
  unfoldable pub decode_entry : Entry → Item Message
  decode_entry e = record {
    message =
        (if e.format == "aui/v0"
          then of_fields (strip_reasoning_parts e.content)
          else from_ag_ui e.content);
    parent_id = e.parent_id;
    run_config = if_truthy e.run_config;
  }

-- `row?.id`
abbrev id_field : Option Fields → Option Json
id_field none = none
id_field (some row) = field "id" row

module _ (string_of : Json → String) where
  -- `String(content.id ?? fallback)`
  abbrev id_or : String → Option Json → String
  id_or fallback none = fallback
  id_or fallback (some null) = fallback
  id_or fallback (some v) = string_of v

  -- the id of the legacy row at an index, or beyond the rows
  unfoldable pub legacy_id : List Fields → ℕ → String
  legacy_id all index =
      id_or (String.◌++◌ "legacy-" (string_of (num index))) (id_field (get_elem? all index))

  unfoldable pub legacy_parent : List Fields → ℕ → Option String
  legacy_parent all zero = none
  legacy_parent all (suc index) = some (legacy_id all index)

  -- `.map` from an index on
  unfoldable pub legacy_map : List Fields → ℕ → List Fields → List Entry
  legacy_map all index [] = []
  legacy_map all index (content ∷ rest) =
      record {
        id = id_or (String.◌++◌ "legacy-" (string_of (num index))) (field "id" content);
        parent_id = legacy_parent all index;
        format = "ag-ui/v1";
        content = content;
        run_config = none;
      }
      ∷ legacy_map all (suc index) rest

  unfoldable pub legacy_entries : List Fields → List Entry
  legacy_entries rows = legacy_map rows 0 rows

-- `entries.at(-1)?.id ?? null`
unfoldable pub last_id : List Entry → Option String
last_id [] = none
last_id (e ∷ []) = some e.id
last_id (e ∷ f ∷ es) = last_id (f ∷ es)
