-- ===== src/Threads/HeadSync.antt =====
-- assistant-thread-adapter.ts: `HistoryHeadSync`, the component that persists the head of the branch
-- that is shown. Its refs are a record; a render, the end of a request and the unmounting are
-- operations on it. `undefined` is `none`, and a head is a message id or `null`.
pub mod Sound
pub mod Reachable
pub mod Laws
use text.Mathlib.Text.{starts_with}
use fleet_agent.Base.{
  ℕ, suc, ◌+◌, String, Bool, true, false, not, Option, none, some, List, [], ◌∷◌, ◌++◌, ◌≡◌, ◌==◌,
  ◌&&◌, ◌||◌, nat_eq, any, if◌then◌else◌,
}

abbrev pub Head : Type 0
Head = Option String

-- A call of `persistThreadHeadWithRetry` that has not ended, with what its `isCurrent` closes over.
pub record Task : Type 0 where
  pub generation : ℕ
  pub controller : ℕ
  pub head : Head

pub record Sync : Type 0 where
  pub last_persisted : Option Head
  pub pending_head : Option Head
  pub desired_head : Option Head
  pub generation : ℕ  -- retryGeneration
  pub controller : Option ℕ  -- retryAbort, by its number
  pub loaded : Bool
  pub controllers : ℕ  -- how many controllers have been made
  pub aborted : List ℕ
  pub tasks : List Task  -- the calls under way, the latest first

abbrev pub mounted : Head → Sync
mounted initial = record {
  last_persisted = some initial;
  pending_head = none;
  desired_head = some initial;
  generation = 0;
  controller = none;
  loaded = false;
  controllers = 0;
  aborted = [];
  tasks = [];
}

unfoldable pub same_head : Head → Head → Bool
same_head none none = true
same_head (some a) (some b) = a == b
same_head _ _ = false

abbrev pub is_head : Option Head → Head → Bool
is_head none h = false
is_head (some g) h = same_head g h

unfoldable pub is_aborted : ℕ → List ℕ → Bool
is_aborted n ns = any (λ m. nat_eq m n) ns

-- `isCurrent()` of a task
unfoldable pub is_current : Task → Sync → Bool
is_current t s =
    nat_eq s.generation t.generation
    && is_head s.pending_head t.head
    && not (is_aborted t.controller s.aborted)

abbrev pub abort : Option ℕ → List ℕ → List ℕ
abort none ns = ns
abort (some n) ns = n ∷ ns

-- a new generation: the retry chain that is under way is cut
unfoldable pub invalidate : Sync → Sync
invalidate s = record s {
  generation = suc s.generation;
  aborted = abort s.controller s.aborted;
  controller = none;
  pending_head = none;
}

-- the first test of the effect
unfoldable pub desire : Head → Sync → Sync
desire head s =
    if is_head s.desired_head head then s else record (invalidate s) { desired_head = some head }

-- `headId.startsWith("__optimistic__")`, of a head that is a string
unfoldable pub is_optimistic : Head → Bool
is_optimistic none = false
is_optimistic (some id) = starts_with id "__optimistic__"

-- the last part of the effect: a request starts, unless this head is stored or on its way
unfoldable pub persist : Head → Sync → Sync
persist head s =
    if is_head s.last_persisted head || is_head s.pending_head head then s else record s {
      controller = some s.controllers;
      pending_head = some head;
      controllers = suc s.controllers;
      tasks =
          record { generation = s.generation; controller = s.controllers; head = head } ∷ s.tasks;
    }

-- The effect, after a render with this head; `empty` says that no message is shown.
unfoldable pub rendered : Head → Bool → Bool → Sync → Sync
rendered head empty is_running s =
    let d = desire head s in
    if is_running || is_optimistic head
    then d
    else if d.loaded
    then persist head d
    else if empty
    then d
    else persist head (record d { loaded = true })

-- What a call does when it has ended, in `then` and `finally`; `rest` are the other calls.
unfoldable pub ended : Task → List Task → Bool → Sync → Sync
ended t rest persisted s =
    if is_current t s
    then record s {
      last_persisted = (if persisted then some t.head else s.last_persisted);
      pending_head = none;
      controller = none;
      tasks = rest;
    }
    else record s { tasks = rest }

-- The cleanup of the first effect.
unfoldable pub unmounted : Sync → Sync
unmounted s = invalidate s

pub data Step (s : Sync) : Sync → Type 0 where
  renders : (head : Head) (empty is_running : Bool) → Step s (rendered head empty is_running s)
  ends :
      (before behind : List Task) (t : Task) (persisted : Bool)
      → s.tasks ≡ before ++ t ∷ behind
      → Step s (ended t (before ++ behind) persisted s)
  unmounts : Step s (unmounted s)

pub data IsReachable : Sync → Type 0 where
  start : (initial : Head) → IsReachable (mounted initial)
  after : {s r : Sync} → IsReachable s → Step s r → IsReachable r
