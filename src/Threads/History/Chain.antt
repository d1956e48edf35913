-- ===== src/Threads/History/Chain.antt =====
-- The chain of one adapter's writes: each is chained on the one before, so only the first can run.
use fleet_agent.Base.{
  ℕ, ◌≡◌, refl, ap, subst, sym, ◌∙◌, Bool, true, false, Option, none, some, List, [], ◌∷◌, ◌++◌,
  ◌&&◌, nat_eq, any-append, keep, keep-append, append-nil, arith, Bool-cases, inl, inr, ◌⊎◌,
}
use fleet_agent.Threads.History.{
  Write, History, is_barrier, is_pending, is_failed, enqueue, finished, is_started, wait_for, Step,
  called, ended, waited, IsReachable, start, after,
}

-- The writes of one adapter.
abbrev pub by_adapter : ℕ → List Write → List Write
by_adapter a ws = keep (λ w. nat_eq w.adapter a) ws

-- Where the running write of an adapter stands.
pub record IsFirst (a : ℕ) (ws rest : List Write) (w : Write) : Type 0 where
  pub before : List Write
  pub behind : List Write
  pub whole : ws ≡ before ++ w ∷ behind
  pub others : rest ≡ before ++ behind
  pub none_before : by_adapter a before ≡ []
  pub mine : nat_eq w.adapter a ≡ true

-- Each write of an adapter is chained on the one before, and the last is the end of its chain.
abbrev IsLinked : List Write → Option ℕ → Type 0
IsLinked [] end = Unit
IsLinked (w ∷ []) end = end ≡ some w.number
IsLinked (w ∷ v ∷ ws) end = (v.chained_on ≡ some w.number) × IsLinked (v ∷ ws) end

abbrev pub IsChained : History → Type 0
IsChained h = (a : ℕ) → IsLinked (by_adapter a h.pending) (h.writes a)

IsLinked-append :
    (ws : List Write) (w : Write) (end : Option ℕ)
    → IsLinked ws end
    → w.chained_on ≡ end
    → IsLinked (ws ++ w ∷ []) (some w.number)
IsLinked-append [] w end h e = refl
IsLinked-append (v ∷ []) w end h e = (e ∙ h, refl)
IsLinked-append (v ∷ u ∷ ws) w end h e = (h.0, IsLinked-append (u ∷ ws) w end h.1 e)

IsLinked-tail :
    (w : Write) (ws : List Write) (end : Option ℕ) → IsLinked (w ∷ ws) end → IsLinked ws end
IsLinked-tail w [] end h = tt
IsLinked-tail w (v ∷ ws) end h = h.1

-- The first write of a chain, or one that is chained on an earlier one.
linked_before :
    (us vs : List Write) (w : Write) (end : Option ℕ)
    → IsLinked (us ++ w ∷ vs) end
    → (us ≡ []) ⊎ ((n : ℕ) × (w.chained_on ≡ some n) × (is_pending n us ≡ true))
unfolding is_pending
linked_before [] vs w end h = inl refl
linked_before (u ∷ []) vs w end h = inr (u.number, h.0, ground arith)
linked_before (u ∷ u' ∷ us) vs w end h = elim (linked_before (u' ∷ us) vs w end h.1) [
  | inl e ↦ absurd (ground arith)
  | inr (n, at, there) ↦ inr (n, at, ground arith)
]

pending_by_adapter :
    (a n : ℕ) (ws : List Write) → is_pending n (by_adapter a ws) ≡ true → is_pending n ws ≡ true
unfolding is_pending
pending_by_adapter a n [] h = h
pending_by_adapter a n (w ∷ ws) h = ground (arith, pending_by_adapter a n ws)

pending_of_split :
    (a n : ℕ) (ws before behind : List Write) (w : Write)
    → by_adapter a ws ≡ by_adapter a before ++ w ∷ by_adapter a behind
    → is_pending n (by_adapter a before) ≡ true
    → is_pending n (by_adapter a ws) ≡ true
unfolding is_pending
pending_of_split a n ws before behind w split there = rw split (
    any-append (λ v. nat_eq v.number n) (by_adapter a before) (w ∷ by_adapter a behind)
    ∙ rw there refl)

-- A write that has been started is the first pending one of its adapter.
started-IsFirst :
    (ws before behind : List Write) (w : Write) (end : Option ℕ)
    → ws ≡ before ++ w ∷ behind
    → is_started w ws ≡ true
    → IsLinked (by_adapter w.adapter ws) end
    → IsFirst w.adapter ws (before ++ behind) w
unfolding is_started
started-IsFirst ws before behind w end e run linked =
    let a = w.adapter in
    let mine : nat_eq w.adapter a ≡ true = ground arith in
    let split : by_adapter a ws ≡ by_adapter a before ++ w ∷ by_adapter a behind =
      ap (by_adapter a) e
      ∙ keep-append (λ v. nat_eq v.adapter a) before (w ∷ behind)
      ∙ rw mine refl in
    let first : by_adapter a before ≡ [] =
      elim (linked_before (by_adapter a before) (by_adapter a behind) w end
        (subst (λ vs. IsLinked vs end) split linked)) [
          | inl none_there ↦ none_there
          | inr (n, at, there) ↦
              let still : is_pending n ws ≡ true =
                pending_by_adapter a n ws (pending_of_split a n ws before behind w split there) in
              absurd (ground arith)
        ] in
    record {
      before = before;
      behind = behind;
      whole = e;
      others = refl;
      none_before = first;
      mine = mine;
    }

IsChained-finished :
    (a b : ℕ) (ws rest : List Write) (w : Write) (end : Option ℕ)
    → IsFirst a ws rest w
    → IsLinked (by_adapter b ws) end
    → IsLinked (by_adapter b rest) end
IsChained-finished a b ws rest w end r linked =
    let p = (λ (v : Write). nat_eq v.adapter b) in
    elim (Bool-cases (nat_eq w.adapter b)) [
      | inl e ↦
          let same : a ≡ b = ground arith in
          let none_left : keep p r.before ≡ [] =
            subst (λ c. by_adapter c r.before ≡ []) same r.none_before in
          let whole : keep p ws ≡ w ∷ keep p r.behind =
            ground (arith, keep-append p r.before (w ∷ r.behind)) in
          let left : keep p rest ≡ keep p r.behind =
            ground (arith, keep-append p r.before r.behind) in
          subst (λ vs. IsLinked vs end) (sym left)
            (IsLinked-tail w (keep p r.behind) end (subst (λ vs. IsLinked vs end) whole linked))
      | inr e ↦
          let same : keep p ws ≡ keep p rest =
            ground
              (arith, keep-append p r.before (w ∷ r.behind), keep-append p r.before r.behind) in
          subst (λ vs. IsLinked vs end) same linked
    ]

IsChained-enqueue : (a : ℕ) (h : History) → IsChained h → IsChained (enqueue a h)
unfolding enqueue
IsChained-enqueue a h chained b =
    let p = (λ (v : Write). nat_eq v.adapter b) in
    let w : Write = record { adapter = a; number = h.next; chained_on = h.writes a } in
    elim (Bool-cases (nat_eq a b)) [
      | inl e ↦
          let same : a ≡ b = ground arith in
          let turned : nat_eq b a ≡ true = ground arith in
          let grown : keep p (h.pending ++ w ∷ []) ≡ keep p h.pending ++ w ∷ [] =
            keep-append p h.pending (w ∷ []) ∙ rw e refl in
          rw turned (
            subst (λ vs. IsLinked vs (some h.next)) (sym grown)
              (IsLinked-append (keep p h.pending) w (h.writes b) (chained b) (ap h.writes same)))
      | inr e ↦
          let turned : nat_eq b a ≡ false = ground arith in
          let kept : keep p (h.pending ++ w ∷ []) ≡ keep p h.pending =
            keep-append p h.pending (w ∷ []) ∙ rw e (append-nil (keep p h.pending)) in
          rw turned (subst (λ vs. IsLinked vs (h.writes b)) (sym kept) (chained b))
    ]

-- The write that settles in a step is the first pending one of its adapter.
pub ended-IsFirst :
    (h : History) (before behind : List Write) (w : Write)
    → IsChained h
    → h.pending ≡ before ++ w ∷ behind
    → is_started w h.pending ≡ true
    → IsFirst w.adapter h.pending (before ++ behind) w
ended-IsFirst h before behind w chained e run =
    started-IsFirst h.pending before behind w (h.writes w.adapter) e run (chained w.adapter)

wait_for-keeps :
    (read : Option ℕ) (consume : Bool) (h : History)
    → ((wait_for read consume h).1.pending ≡ h.pending)
      × ((wait_for read consume h).1.writes ≡ h.writes)
unfolding wait_for
wait_for-keeps none consume h = (refl, refl)
wait_for-keeps (some n) consume h = elim (Bool-cases (is_pending n h.pending)) [
  | inl e ↦ rw e (refl, refl)
  | inr e ↦ elim (Bool-cases (is_failed n h.failed)) [
    | inr e' ↦ rw (e, e') (refl, refl)
    | inl e' ↦ elim (Bool-cases (consume && is_barrier n h.barrier)) [
      | inl own ↦ rw (e, e', own) (refl, refl)
      | inr other ↦ rw (e, e', other) (refl, refl)
    ]
  ]
]

IsChained-step : {h k : History} → Step h k → IsChained h → IsChained k
unfolding finished wait_for
IsChained-step {h} {k} (called a) chained b = IsChained-enqueue a h chained b
IsChained-step {h} {k} (ended before behind w true e run) chained b =
    IsChained-finished w.adapter b h.pending (before ++ behind) w (h.writes b)
      (ended-IsFirst h before behind w chained e run) (chained b)
IsChained-step {h} {k} (ended before behind w false e run) chained b =
    IsChained-finished w.adapter b h.pending (before ++ behind) w (h.writes b)
      (ended-IsFirst h before behind w chained e run) (chained b)
IsChained-step {h} {k} (waited read consume) chained b =
    let kept = wait_for-keeps read consume h in
    subst (λ ws. IsLinked (by_adapter b ws) ((wait_for read consume h).1.writes b)) (sym kept.0)
      (subst (λ (q : ℕ → Option ℕ). IsLinked (by_adapter b h.pending) (q b)) (sym kept.1)
        (chained b))

pub reachable-IsChained : {h : History} → IsReachable h → IsChained h
reachable-IsChained start = λ a. tt
reachable-IsChained (after r s) = IsChained-step s (reachable-IsChained r)
