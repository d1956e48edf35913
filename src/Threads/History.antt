-- ===== src/Threads/History.antt =====
-- assistant-thread-adapter.ts: the queue of history writes of one thread and its barrier, which the
-- adapters of the thread share (`threadWriteBarriers`). A promise is the number of its write, and a
-- write that settles also settles the barrier that follows it.
pub mod Chain
pub mod Laws
use fleet_agent.Base.{
  ℕ, suc, ◌+◌, Bool, true, false, not, Option, none, some, List, [], ◌∷◌, ◌++◌, ◌&&◌, nat_eq, any,
  ◌≡◌, if◌then◌else◌,
}

-- A call of `append` or `update`, through the adapter that has this number; `chained_on` is the write
-- that `writes` was the end of, in `writes.then(operation)`.
pub record Write : Type 0 where
  pub adapter : ℕ
  pub number : ℕ
  pub chained_on : Option ℕ

pub record History : Type 0 where
  pub calls : List Write  -- all writes so far
  pub pending : List Write  -- the ones that have not settled, in the order of the calls
  pub settled : List Write  -- the other ones, in the order in which they settled
  pub failed : List ℕ  -- the rejected ones
  pub writes : ℕ → Option ℕ  -- the last write in `writes` of each adapter, none at first
  pub barrier : Option ℕ  -- threadWriteBarriers.get(threadId)
  pub next : ℕ

abbrev pub empty : History
empty = record {
  calls = [];
  pending = [];
  settled = [];
  failed = [];
  writes = λ _. none;
  barrier = none;
  next = 0;
}

abbrev pub is_barrier : ℕ → Option ℕ → Bool
is_barrier n none = false
is_barrier n (some m) = nat_eq m n

unfoldable pub is_pending : ℕ → List Write → Bool
is_pending n ws = any (λ w. nat_eq w.number n) ws

unfoldable pub is_failed : ℕ → List ℕ → Bool
is_failed n ns = any (λ m. nat_eq m n) ns

-- Whether the operation of a write has been started: the write that it is chained on has settled,
-- well or not (`writes = next.catch(…)`).
unfoldable pub is_started : Write → List Write → Bool
unfolding is_pending
is_started w ws = elim w.chained_on [ none ↦ true | some n ↦ not (is_pending n ws) ]

-- `enqueue`: the write is chained on the last one of its adapter, and its barrier replaces the one
-- that is there.
unfoldable pub enqueue : ℕ → History → History
enqueue adapter h =
    let w : Write = record { adapter = adapter; number = h.next; chained_on = h.writes adapter } in
    record h {
      calls = h.calls ++ w ∷ [];
      pending = h.pending ++ w ∷ [];
      writes = (λ a. if nat_eq a adapter then some h.next else h.writes a);
      barrier = some h.next;
      next = suc h.next;
    }

-- The two handlers of `barrier = next.then(…)`.
unfoldable pub finished : Write → List Write → Bool → History → History
finished w rest true h = record h {
  pending = rest;
  settled = h.settled ++ w ∷ [];
  barrier = (if is_barrier w.number h.barrier then none else h.barrier);
}
finished w rest false h = record h {
  pending = rest;
  settled = h.settled ++ w ∷ [];
  failed = w.number ∷ h.failed;
}

pub data Wait : Type 0 where
  blocked returned threw : Wait

-- `waitForThreadHistoryWrites`, with the barrier that it has read
unfoldable pub wait_for : Option ℕ → Bool → History → Wait × History
unfolding is_pending is_failed
wait_for none consume h = (returned, h)
wait_for (some n) consume h =
    if is_pending n h.pending
    then (blocked, h)
    else if is_failed n h.failed
    then (threw, (if consume && is_barrier n h.barrier then record h { barrier = none } else h))
    else (returned, h)

-- What can happen to a thread's history: any write whose operation has been started may settle next.
pub data Step (h : History) : History → Type 0 where
  called : (adapter : ℕ) → Step h (enqueue adapter h)
  ended :
      (before behind : List Write) (w : Write) (fulfilled : Bool)
      → h.pending ≡ before ++ w ∷ behind
      → is_started w h.pending ≡ true
      → Step h (finished w (before ++ behind) fulfilled h)
  waited : (read : Option ℕ) (consume : Bool) → Step h (wait_for read consume h).1

pub data IsReachable : History → Type 0 where
  start : IsReachable empty
  after : {h k : History} → IsReachable h → Step h k → IsReachable k
