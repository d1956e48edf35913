-- ===== src/Threads/HeadSync/Reachable.antt =====
-- The end of a call keeps the invariant, which so holds in every reachable state.
use fleet_agent.Base.{
  ℕ, ◌≤◌, ◌≡◌, ◌∙◌, Bool, true, false, Option, none, some, List, [], ◌∷◌, ◌++◌, nat_eq, keep,
  keep-append, All, arith, Bool-cases, inl, inr,
}
use fleet_agent.Threads.HeadSync.{
  Head, Task, Sync, is_head, is_aborted, is_current, ended, unmounted, Step, renders, ends,
  unmounts, IsReachable, start, after,
}
use fleet_agent.Threads.HeadSync.Sound.{
  same_head_iff, of_generation, IsMatched, IsSound, IsSound-mounted, IsSound-invalidate,
  IsSound-rendered,
}

All-removed :
    (P : Task → Type 0) (before behind : List Task) (t : Task)
    → All P (before ++ t ∷ behind)
    → All P (before ++ behind)
All-removed P [] behind t (x, h) = h
All-removed P (u ∷ us) behind t (x, h) = (x, All-removed P us behind t h)

-- The only element of a list of one.
alone : (us vs : List Task) (t u : Task) → us ++ t ∷ vs ≡ u ∷ [] → (t ≡ u) × (us ++ vs ≡ [])
alone [] vs t u h = (ground arith, ground arith)
alone (w ∷ []) vs t u h = absurd (ground arith)
alone (w ∷ x ∷ us) vs t u h = absurd (ground arith)

-- A call of the present generation is the one that is pending.
generation_matched :
    (pending desired : Option Head) (c : Option ℕ) (aborted : List ℕ) (us vs : List Task) (t : Task)
    → IsMatched pending desired c aborted (us ++ t ∷ vs)
    → (is_head pending t.head ≡ true)
      × (is_aborted t.controller aborted ≡ false)
      × (us ++ vs ≡ [])
      × (desired ≡ some t.head)
      × (c ≡ some t.controller)
generation_matched none desired c aborted [] vs t m = cc
generation_matched none desired c aborted (u ∷ us) vs t m = cc
generation_matched (some h) desired c aborted us vs t (u, e, th, dh, ct, ab) =
    let (same, rest) = alone us vs t u e in
    ((same_head_iff h t.head).1 (ground arith), ground arith, rest, ground arith, ground arith)

-- Of the calls under way, those of the present generation.
pub record IsLone (s : Sync) (t : Task) (rest : List Task) : Type 0 where
  pub current : is_current t s ≡ true
  pub idle : of_generation s.generation rest ≡ []
  pub desired : s.desired_head ≡ some t.head
  pub controlled : s.controller ≡ some t.controller

pub IsLone-of_generation :
    (s : Sync) (before behind : List Task) (t : Task)
    → IsSound s
    → s.tasks ≡ before ++ t ∷ behind
    → nat_eq s.generation t.generation ≡ true
    → IsLone s t (before ++ behind)
unfolding is_current
IsLone-of_generation s before behind t i e g =
    let p = (λ (u : Task). nat_eq s.generation u.generation) in
    let split : of_generation s.generation s.tasks ≡ keep p before ++ t ∷ keep p behind =
      ground (arith, keep-append p before (t ∷ behind)) in
    let (head, alive, rest, desired, controlled) =
      generation_matched s.pending_head s.desired_head s.controller s.aborted (keep p before)
        (keep p behind) t (rw split at i.matched) in
    record {
      current = ground arith;
      idle = keep-append p before behind ∙ rest;
      desired = desired;
      controlled = controlled;
    }

pub current-generation :
    (t : Task) (s : Sync) → is_current t s ≡ true → nat_eq s.generation t.generation ≡ true
unfolding is_current
current-generation t s h = ground arith

IsSound-ended :
    (s : Sync) (before behind : List Task) (t : Task) (persisted : Bool)
    → IsSound s
    → s.tasks ≡ before ++ t ∷ behind
    → IsSound (ended t (before ++ behind) persisted s)
unfolding ended
IsSound-ended s before behind t persisted i e =
    let old = All-removed (λ u. u.generation ≤ s.generation) before behind t (rw e at i.old) in
    elim (Bool-cases (is_current t s)) [
      | inl now ↦
          let l = IsLone-of_generation s before behind t i e (current-generation t s now) in
          rw now (record { old = old; made = i.made; owned = λ n o. cc; matched = l.idle })
      | inr gone ↦ elim (Bool-cases (nat_eq s.generation t.generation)) [
        | inl g ↦ absurd (ground (arith, (IsLone-of_generation s before behind t i e g).current))
        | inr g ↦
            let p = (λ (u : Task). nat_eq s.generation u.generation) in
            let kept : of_generation s.generation s.tasks
                ≡ of_generation s.generation (before ++ behind) =
              ground (arith, keep-append p before (t ∷ behind), keep-append p before behind) in
            rw gone
              (record { old = old; made = i.made; owned = i.owned; matched = rw kept at i.matched })
      ]
    ]

IsSound-step : {s r : Sync} → Step s r → IsSound s → IsSound r
unfolding unmounted
IsSound-step {s} {r} (renders head empty is_running) i = IsSound-rendered head empty is_running s i
IsSound-step {s} {r} (ends before behind t persisted e) i =
    IsSound-ended s before behind t persisted i e
IsSound-step {s} {r} unmounts i = IsSound-invalidate s i

pub reachable-IsSound : {s : Sync} → IsReachable s → IsSound s
reachable-IsSound (start initial) = IsSound-mounted initial
reachable-IsSound (after r step) = IsSound-step step (reachable-IsSound r)
