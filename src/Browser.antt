-- ===== src/Browser.antt =====
-- What the client uses of a browser tab: `localStorage`, `sessionStorage` and the listeners that
-- features/providers/*.ts keep. Storage may be absent, unreadable or full.
pub mod Laws
use fleet_agent.Base.{
  ℕ, String, Bool, true, false, Option, none, some, List, [], ◌∷◌, ◌++◌, ◌==◌, ◌&&◌, nat_eq,
  if◌then◌else◌,
}
use fleet_agent.Json.{Json}

-- `getItem` of a storage that holds the item
unfoldable pub lookup : String → List (String × String) → Option String
lookup k [] = none
lookup k ((j, v) ∷ items) = if j == k then some v else lookup k items

unfoldable pub remove : String → List (String × String) → List (String × String)
remove k [] = []
remove k ((j, v) ∷ items) = let rest = remove k items in if j == k then rest else (j, v) ∷ rest

pub record TextStore : Type 0 where
  pub items : List (String × String)
  pub readable : Bool
  pub accepts : String → String → Bool  -- whether a write of this value at this key is taken

-- Each call is `none` where the browser throws.
unfoldable pub get_item : TextStore → String → Option (Option String)
unfolding lookup
get_item s k = if s.readable then some (lookup k s.items) else none

unfoldable pub set_item : TextStore → String → String → Option TextStore
unfolding remove
set_item s k v =
    if s.accepts k v then some (record s { items = (k, v) ∷ remove k s.items }) else none

unfoldable pub remove_item : TextStore → String → Option TextStore
unfolding remove
remove_item s k = if s.readable then some (record s { items = remove k s.items }) else none

-- The item `fleet_providers_v1`, as `JSON.parse` reads it.
pub data Document : Type 0 where
  unparsable : Document
  parsed : Json → Document

pub record Tab : Type 0 where
  pub window : Bool  -- typeof window !== 'undefined'
  pub local : TextStore
  pub document : Option Document
  pub accepts_document : Json → Bool
  pub session : TextStore
  pub listeners : List (String × ℕ)  -- the sets of listeners, under the key of their module
  pub calls : List ℕ  -- the listeners called so far

unfoldable pub registered : String → ℕ → List (String × ℕ) → Bool
registered topic fn [] = false
registered topic fn ((j, g) ∷ rest) =
    if j == topic && nat_eq g fn then true else registered topic fn rest

unfoldable pub unregister : String → ℕ → List (String × ℕ) → List (String × ℕ)
unregister topic fn [] = []
unregister topic fn ((j, g) ∷ rest) =
    let others = unregister topic fn rest in
    if j == topic && nat_eq g fn then others else (j, g) ∷ others

-- the listeners that `listeners.forEach` calls
unfoldable pub called : String → List (String × ℕ) → List ℕ
called topic [] = []
called topic ((j, g) ∷ rest) =
    let others = called topic rest in if j == topic then g ∷ others else others

-- `listeners.add(fn)`: a `Set` keeps one copy
unfoldable pub subscribe : String → ℕ → Tab → Tab
unfolding registered
subscribe topic fn t =
    if registered topic fn t.listeners
    then t
    else record t { listeners = t.listeners ++ (topic, fn) ∷ [] }

unfoldable pub unsubscribe : String → ℕ → Tab → Tab
unfolding unregister
unsubscribe topic fn t = record t { listeners = unregister topic fn t.listeners }

unfoldable pub notify : String → Tab → Tab
unfolding called
notify topic t = record t { calls = t.calls ++ called topic t.listeners }
