-- ===== src/Threads/Route/Laws.antt =====
-- That a thread is renamed once at most, and when a route goes on.
use fleet_agent.Base.{
  ℕ, ◌≤◌, String, not, Option, none, some, List, [], ◌∷◌, ◌==◌, ◌&&◌, keep, length, eq_iff, arith,
  Bool-cases, Option-cases, inl, inr, if◌then◌else◌,
}
use fleet_agent.Threads.Title.{derive_thread_title}
use fleet_agent.Threads.Route.{is_default, Persisted, was_tried, handle_user_message}

abbrev with_request : Option (String × List ℕ) → List (String × List ℕ) → List (String × List ℕ)
with_request none rest = rest
with_request (some r) rest = r ∷ rest

-- The renames that a sequence of messages requests.
abbrev pub renames : List Persisted → List String → List (String × List ℕ)
renames [] attempts = []
renames (p ∷ rest) attempts =
    let after = handle_user_message p attempts in with_request after.1 (renames rest after.0)

-- Those of one thread.
abbrev pub renames_of : String → List (String × List ℕ) → ℕ
renames_of id rs = length (keep (λ (r : String × List ℕ). r.0 == id) rs)

abbrev allowance : List String → String → ℕ
allowance attempts id = if was_tried attempts id then 0 else 1

renames-few :
    (id : String) (ps : List Persisted) (attempts : List String)
    → renames_of id (renames ps attempts) ≤ allowance attempts id
unfolding handle_user_message
renames-few id [] attempts = ground arith
renames-few id (p ∷ rest) attempts = elim (Option-cases p.thread) [
  | inl e ↦ rw e (renames-few id rest attempts)
  | inr (t, e) ↦
      rw e
        (elim (Bool-cases (
          (is_default p.title && not (was_tried attempts t))
          && not (is_default (derive_thread_title p.text)))) [
            | inl f ↦ rw f (ground (arith, renames-few id rest (t ∷ attempts), eq_iff t id))
            | inr f ↦ rw f (renames-few id rest attempts)
          ])
]

-- Whatever messages are sent, in whatever threads, a thread is renamed at most once.
pub renames-once : (ps : List Persisted) (id : String) → renames_of id (renames ps []) ≤ 1
renames-once ps id = renames-few id ps []
