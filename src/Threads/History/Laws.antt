-- ===== src/Threads/History/Laws.antt =====
-- The writes of an adapter settle in their order, and a barrier always stands for a write that is
-- pending or has failed.
use fleet_agent.Base.{
  ℕ, ◌≡◌, refl, ◌∙◌, Bool, true, false, Option, none, some, List, [], ◌∷◌, ◌++◌, ◌||◌, nat_eq,
  any-append, keep, keep-append, append_assoc, append-nil, Option-cases, arith, Bool-cases, inl,
  inr, ◌⊎◌,
}
use fleet_agent.Threads.History.{
  Write, History, is_barrier, is_pending, is_failed, enqueue, finished, returned, threw, wait_for,
  Step, called, ended, waited, IsReachable, start, after,
}
use fleet_agent.Threads.History.Chain.{
  by_adapter, IsFirst, IsChained, ended-IsFirst, reachable-IsChained,
}

-- A barrier stands for a write that is pending or has failed.
abbrev IsLive : History → Type 0
IsLive h = (n : ℕ) → h.barrier ≡ some n → (is_pending n h.pending || is_failed n h.failed) ≡ true

-- Each adapter's writes have settled in the order of its calls, and the pending ones are the rest.
abbrev IsOrdered : History → Type 0
IsOrdered h = (a : ℕ) → by_adapter a h.calls ≡ by_adapter a h.settled ++ by_adapter a h.pending

is_pending-whole :
    (a n : ℕ) (ws rest : List Write) (w : Write)
    → IsFirst a ws rest w
    → is_pending n ws ≡ (nat_eq w.number n || is_pending n rest)
unfolding is_pending
is_pending-whole a n ws rest w r = ground (
  arith,
  any-append (λ v. nat_eq v.number n) r.before (w ∷ r.behind),
  any-append (λ v. nat_eq v.number n) r.before r.behind,
)

by_adapter-moved :
    (a b : ℕ) (settled ws rest : List Write) (w : Write)
    → IsFirst a ws rest w
    → by_adapter b settled ++ by_adapter b ws
      ≡ by_adapter b (settled ++ w ∷ []) ++ by_adapter b rest
by_adapter-moved a b settled ws rest w r =
    let p = (λ (v : Write). nat_eq v.adapter b) in
    elim (Bool-cases (nat_eq w.adapter b)) [
      | inl e ↦
          let same : a ≡ b = ground arith in
          ground (
            arith,
            keep-append p settled (w ∷ []),
            keep-append p r.before (w ∷ r.behind),
            keep-append p r.before r.behind,
            append_assoc (keep p settled) (w ∷ []) (keep p r.behind),
          )
      | inr e ↦ ground (
        arith,
        keep-append p settled (w ∷ []),
        keep-append p r.before (w ∷ r.behind),
        keep-append p r.before r.behind,
        append-nil (keep p settled),
      )
    ]

IsLive-finished :
    (a : ℕ) (w : Write) (rest : List Write) (fulfilled : Bool) (h : History)
    → IsFirst a h.pending rest w
    → IsLive h
    → IsLive (finished w rest fulfilled h)
unfolding finished is_failed
IsLive-finished a w rest true h r live n e = elim (Bool-cases (is_barrier w.number h.barrier)) [
  | inl own ↦ absurd (ground arith)
  | inr other ↦
      let at : h.barrier ≡ some n = ground arith in
      ground (arith, live n at, is_pending-whole a n h.pending rest w r)
]
IsLive-finished a w rest false h r live n e =
    ground (arith, live n, is_pending-whole a n h.pending rest w r)

IsLive-enqueue : (a : ℕ) (h : History) → IsLive h → IsLive (enqueue a h)
unfolding enqueue is_pending
IsLive-enqueue a h live n e = ground (
  arith,
  any-append (λ v. nat_eq v.number n) h.pending
      (record { adapter = a; number = h.next; chained_on = h.writes a } ∷ []),
)

IsLive-wait_for :
    (read : Option ℕ) (consume : Bool) (h : History) → IsLive h → IsLive (wait_for read consume h).1
unfolding wait_for
IsLive-wait_for none consume h live n e = live n e
IsLive-wait_for (some m) consume h live n e = ground (arith, live n)

IsOrdered-step : {h k : History} → Step h k → IsChained h → IsOrdered h → IsOrdered k
unfolding enqueue finished wait_for
IsOrdered-step {h} {k} (called a) chained ordered b =
    let p = (λ (v : Write). nat_eq v.adapter b) in
    let w : Write = record { adapter = a; number = h.next; chained_on = h.writes a } in
    ground (
      arith,
      ordered b,
      keep-append p h.calls (w ∷ []),
      keep-append p h.pending (w ∷ []),
      append_assoc (keep p h.settled) (keep p h.pending) (keep p (w ∷ [])),
    )
IsOrdered-step {h} {k} (ended before behind w true e run) chained ordered b =
    ordered b
    ∙ by_adapter-moved w.adapter b h.settled h.pending (before ++ behind) w
        (ended-IsFirst h before behind w chained e run)
IsOrdered-step {h} {k} (ended before behind w false e run) chained ordered b =
    ordered b
    ∙ by_adapter-moved w.adapter b h.settled h.pending (before ++ behind) w
        (ended-IsFirst h before behind w chained e run)
IsOrdered-step {h} {k} (waited none consume) chained ordered b = ordered b
IsOrdered-step {h} {k} (waited (some n) consume) chained ordered b = ground (arith, ordered b)

IsLive-step : {h k : History} → Step h k → IsChained h → IsLive h → IsLive k
IsLive-step {h} {k} (called a) chained live = IsLive-enqueue a h live
IsLive-step {h} {k} (ended before behind w fulfilled e run) chained live =
    IsLive-finished w.adapter w (before ++ behind) fulfilled h
      (ended-IsFirst h before behind w chained e run) live
IsLive-step {h} {k} (waited read consume) chained live = IsLive-wait_for read consume h live

reachable-IsLive : {h : History} → IsReachable h → IsLive h
reachable-IsLive start = λ n e. cc
reachable-IsLive (after r s) = IsLive-step s (reachable-IsChained r) (reachable-IsLive r)

-- In every reachable state, where any write may settle whose predecessor in the chain of its adapter
-- has settled, well or not: the writes of an adapter have settled in the order of its calls, and those
-- that are pending are the later ones; no call is lost.
pub reachable-order :
    {h : History}
    → IsReachable h
    → (a : ℕ) → by_adapter a h.calls ≡ by_adapter a h.settled ++ by_adapter a h.pending
reachable-order start a = refl
reachable-order (after r s) a =
    IsOrdered-step s (reachable-IsChained r) (λ b. reachable-order r b) a

-- In every reachable state, a thread whose writes have all settled never blocks a run: waiting for
-- its barrier returns or throws. If the waiting throws and consumes, the next waiting returns.
pub reachable_wait :
    {h : History}
    → IsReachable h
    → h.pending ≡ []
    → ((wait_for h.barrier true h ≡ (returned, h)) × (h.barrier ≡ none))
      ⊎ (((wait_for h.barrier true h).0 ≡ threw)
          × (wait_for (wait_for h.barrier true h).1.barrier true (wait_for h.barrier true h).1
              ≡ (returned, (wait_for h.barrier true h).1))
          × (wait_for h.barrier false h ≡ (threw, h)))
unfolding wait_for is_pending
reachable_wait {h} r none_pending = elim (Option-cases h.barrier) [
  | inl e ↦ inl (rw e refl, e)
  | inr (n, e) ↦ inr (
    ground (arith, reachable-IsLive r n e),
    ground (arith, reachable-IsLive r n e),
    ground (arith, reachable-IsLive r n e),
  )
]
