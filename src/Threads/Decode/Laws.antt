-- ===== src/Threads/Decode/Laws.antt =====
-- No reasoning part reaches the runtime, and nothing else is lost.
use fleet_agent.Base.{
  ℕ, suc, String, ◌≡◌, refl, ap, ◌∙◌, ◌+◌, Bool, not, Option, none, some, List, [], get_elem?, ◌∷◌,
  ◌==◌, keep, map, length, length-keep-le, nat_eq, eq_iff, arith, if◌then◌else◌, Bool-cases, inl,
  inr, keep-keep,
}
use fleet_agent.Json.{Json, Items, Fields, arr, nil, cons, end, property, field, to_list, of_list}
use fleet_agent.Threads.Decode.{
  is_reasoning_part, set_field, stripped, with_content, strip_reasoning_parts, Entry, legacy_id,
  legacy_parent, legacy_map, legacy_entries,
}

-- The content that is left: the parts that are not reasoning, in their order.
abbrev pub safe_content : Option Json → Option Json
safe_content (some (arr xs)) =
    some (arr (of_list (keep (λ part. not (is_reasoning_part part)) (to_list xs))))
safe_content o = o

field-set_field :
    (k j : String) (v : Json) (fs : Fields)
    → field j (set_field k v fs) ≡ (if k == j then some v else field j fs)
unfolding field set_field
field-set_field k j v end = refl
field-set_field k j v (property i w fs) =
    ground (arith, field-set_field k j v fs, eq_iff i k, eq_iff i j, eq_iff k j)

keep_of_length :
    (p : Json → Bool) (xs : List Json) → length (keep p xs) ≡ length xs → keep p xs ≡ xs
keep_of_length p [] h = refl
keep_of_length p (x ∷ xs) h = ground (arith, keep_of_length p xs, length-keep-le p xs)

of_list-to_list : (xs : Items) → of_list (to_list xs) ≡ xs
of_list-to_list nil = refl
of_list-to_list (cons x xs) = ap (cons x) (of_list-to_list xs)

to_list-of_list : (xs : List Json) → to_list (of_list xs) ≡ xs
to_list-of_list [] = refl
to_list-of_list (x ∷ xs) = ap (λ (l : List Json). x ∷ l) (to_list-of_list xs)

not_content :
    (o : Option Json) (k : String) (message : Fields)
    → field "content" message ≡ o
    → field k message ≡ (if "content" == k then o else field k message)
not_content o k message h = ground (arith, eq_iff "content" k)

-- The parts of a content that are no reasoning.
safe : Items → List Json
safe xs = keep (λ part. not (is_reasoning_part part)) (to_list xs)

field-stripped :
    (xs : Items) (k : String) (message : Fields)
    → field "content" message ≡ some (arr xs)
    → field k (stripped xs message)
      ≡ (if "content" == k then some (arr (of_list (safe xs))) else field k message)
unfolding safe
field-stripped xs k message h =
    elim (Bool-cases (nat_eq (length (safe xs)) (length (to_list xs)))) [
      | inl e ↦ rw e (
          rw (keep_of_length (λ part. not (is_reasoning_part part)) (to_list xs) (ground arith))
            (rw (of_list-to_list xs) (not_content (some (arr xs)) k message h)))
      | inr e ↦ rw e (field-set_field "content" k (arr (of_list (safe xs))) message)
    ]

field-with_content :
    (o : Option Json) (k : String) (message : Fields)
    → field "content" message ≡ o
    → field k (with_content o message)
      ≡ (if "content" == k then safe_content o else field k message)
unfolding safe
field-with_content (some (arr xs)) k message h = field-stripped xs k message h
field-with_content none k message h = not_content none k message h
field-with_content (some j) k message h = not_content (some j) k message h

stripped-again : (xs : Items) (message : Fields) → stripped (of_list (safe xs)) message ≡ message
unfolding safe
stripped-again xs message =
    let p = (λ (part : Json). not (is_reasoning_part part)) in
    rw (to_list-of_list (keep p (to_list xs))) (rw (keep-keep p (to_list xs)) (ground arith))

-- Every field but the content stays, and the content loses exactly its reasoning parts.
pub field-strip_reasoning_parts :
    (k : String) (message : Fields)
    → field k (strip_reasoning_parts message)
      ≡ (if "content" == k then safe_content (field "content" message) else field k message)
unfolding strip_reasoning_parts
field-strip_reasoning_parts k message = field-with_content (field "content" message) k message refl

strip-with_content :
    (o : Option Json) (message : Fields)
    → field "content" message ≡ safe_content o
    → strip_reasoning_parts message ≡ message
unfolding strip_reasoning_parts safe
strip-with_content (some (arr xs)) message h = rw h (stripped-again xs message)
strip-with_content none message h = rw h
strip-with_content (some _) message h = rw h

-- Stripping a second time changes nothing.
strip_reasoning_parts_idem :
    (message : Fields)
    → strip_reasoning_parts (strip_reasoning_parts message) ≡ strip_reasoning_parts message
strip_reasoning_parts_idem message =
    strip-with_content (field "content" message) (strip_reasoning_parts message)
      (field-strip_reasoning_parts "content" message)

-- Every row has the row before it for its parent, and the first one `parent`.
abbrev pub IsChain : Option String → List Entry → Type 0
IsChain parent [] = Unit
IsChain parent (e ∷ es) = (e.parent_id ≡ parent) × IsChain (some e.id) es

-- The rows stand in `all` from `index` on.
abbrev StandsAt : List Fields → ℕ → List Fields → Type 0
StandsAt all index rows = (i : ℕ) → get_elem? all (index + i) ≡ get_elem? rows i

StandsAt-tail :
    (all : List Fields) (index : ℕ) (x : Fields) (rest : List Fields)
    → StandsAt all index (x ∷ rest)
    → StandsAt all (suc index) rest
StandsAt-tail all index x rest h i =
    let same : suc index + i ≡ index + suc i = omega arith in ap (get_elem? all) same ∙ h (suc i)

get_elem?-at :
    (all : List Fields) (index : ℕ) (x : Fields) (rest : List Fields)
    → StandsAt all index (x ∷ rest)
    → get_elem? all index ≡ some x
get_elem?-at all index x rest h =
    let same : index ≡ index + 0 = omega arith in ap (get_elem? all) same ∙ h 0

legacy_map-IsChain :
    (string_of : Json → String) (all : List Fields) (index : ℕ) (rows : List Fields)
    → StandsAt all index rows
    → IsChain (legacy_parent string_of all index) (legacy_map string_of all index rows)
      × (map (λ e. e.content) (legacy_map string_of all index rows) ≡ rows)
unfolding legacy_map legacy_parent legacy_id
legacy_map-IsChain string_of all index [] h = (tt, refl)
legacy_map-IsChain string_of all index (x ∷ rest) h =
    let (chain, same) =
      legacy_map-IsChain string_of all (suc index) rest (StandsAt-tail all index x rest h) in
    ((refl, rw (get_elem?-at all index x rest h) at chain), ap (λ (l : List Fields). x ∷ l) same)

-- Legacy rows become one linear conversation, in their order and with their content.
legacy_entries-IsChain :
    (string_of : Json → String) (rows : List Fields)
    → IsChain none (legacy_entries string_of rows)
      × (map (λ e. e.content) (legacy_entries string_of rows) ≡ rows)
unfolding legacy_entries legacy_parent
legacy_entries-IsChain string_of rows =
    legacy_map-IsChain string_of rows 0 rows
      (λ i. let same : 0 + i ≡ i = omega arith in ap (get_elem? rows) same)
