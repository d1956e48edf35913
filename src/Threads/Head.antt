-- ===== src/Threads/Head.antt =====
-- assistant-thread-adapter.ts: `persistThreadHeadWithRetry`. What each attempt meets is an argument.
pub mod Retry
use fleet_agent.Base.{ℕ, zero, suc, ◌+◌, Bool, true, false, not, ◌&&◌, ◌||◌, nat_eq, if◌then◌else◌}

-- What one round of the loop meets: what `isCurrent` says where it is called, whether
-- `waitForThreadHistoryWrites` returns, and whether the server takes the head.
pub record Attempt : Type 0 where
  pub current : Bool
  pub written : Bool
  pub current_when_written : Bool
  pub accepted : Bool
  pub current_when_accepted : Bool
  pub current_when_failed : Bool

pub data Round : Type 0 where
  answered : Bool → Round
  retried : Round

-- the `catch` branch
abbrev failed_round : Attempt → Bool → Round
failed_round a last = if not a.current_when_failed || last then answered false else retried

-- One round of the loop; `last` says that `attempt >= maxRetries`.
unfoldable pub round : Attempt → Bool → Round
round a last =
    if not a.current
    then answered false
    else if a.written
    then (if not a.current_when_written
        then answered false
        else if a.accepted
        then answered a.current_when_accepted
        else failed_round a last)
    else failed_round a last

-- the requests that a round sends
unfoldable pub sent : Attempt → ℕ
sent a = if a.current && a.written && a.current_when_written then 1 else 0

abbrev is_zero : ℕ → Bool
is_zero zero = true
is_zero (suc n) = false

-- The loop from an attempt on, with this many retries left: its result and the number of its
-- requests. A round that is retried is not the last one, so no retries left ends the loop.
unfoldable pub persist_from : (ℕ → Attempt) → ℕ → ℕ → Bool × ℕ
persist_from attempts attempt zero = elim (round (attempts attempt) true) [
  | answered b ↦ (b, sent (attempts attempt))
  | retried ↦ (false, sent (attempts attempt))
]
persist_from attempts attempt (suc left) =
    let rest = persist_from attempts (suc attempt) left in
    elim (round (attempts attempt) false) [
      | answered b ↦ (b, sent (attempts attempt))
      | retried ↦ (rest.0, sent (attempts attempt) + rest.1)
    ]

unfoldable pub persist_thread_head_with_retry : ℕ → (ℕ → Attempt) → Bool × ℕ
persist_thread_head_with_retry max_retries attempts = persist_from attempts 0 max_retries
