-- ===== src/Threads/HeadSync/Laws.antt =====
-- At most one call is current, and only a call for the head that was shown last is.
use fleet_agent.Base.{
  ℕ, ◌≡◌, ◌≢◌, refl, sym, ap, subst, ◌∙◌, Bool, true, false, Option, none, some, List, [], ◌∷◌,
  ◌++◌, ◌||◌, nat_eq, any, if◌then◌else◌, arith, Bool-cases, inl, inr, ◌⊎◌,
}
use fleet_agent.Threads.HeadSync.{
  Head, Task, Sync, is_head, is_aborted, is_current, invalidate, desire, is_optimistic, persist,
  rendered, ended, IsReachable,
}
use fleet_agent.Threads.HeadSync.Sound.{same_head_iff, of_generation, IsMatched}
use fleet_agent.Threads.HeadSync.Reachable.{
  IsLone-of_generation, current-generation, reachable-IsSound,
}

none_current :
    (s : Sync) (ts : List Task)
    → of_generation s.generation ts ≡ []
    → any (λ u. is_current u s) ts ≡ false
none_current s [] h = refl
none_current s (t ∷ ts) h = elim (Bool-cases (nat_eq s.generation t.generation)) [
  | inl e ↦ absurd (ground arith)
  | inr e ↦ ground (arith, current-generation t s, none_current s ts)
]

-- The call is the only current one, for the head that was shown last, and its end stores that head if
-- it was persisted.
abbrev pub EndsCurrent : Task → List Task → Bool → Sync → Sync → Type 0
EndsCurrent t rest persisted s r =
    (is_current t s ≡ true)
    × (s.desired_head ≡ some t.head)
    × (s.controller ≡ some t.controller)
    × (any (λ u. is_current u s) rest ≡ false)
    × (r.last_persisted ≡ (if persisted then s.desired_head else s.last_persisted))
    × (r.pending_head ≡ none)

-- The call is not current, and its end changes nothing else.
abbrev pub EndsSuperseded : Task → List Task → Sync → Sync → Type 0
EndsSuperseded t rest s r =
    (is_current t s ≡ false)
    × (r.last_persisted ≡ s.last_persisted)
    × (r.pending_head ≡ s.pending_head)
    × (r.controller ≡ s.controller)
    × (r.tasks ≡ rest)

-- In every reachable state, a call that ends is either the only current one and for the head that was
-- shown last, which is then stored if the call was persisted; or it is superseded, and its end leaves
-- the head that is stored, the one that is pending and the controller as they are.
pub current_lem :
    {s : Sync}
    → IsReachable s
    → (before behind : List Task) (t : Task) (persisted : Bool) → s.tasks ≡ before ++ t ∷ behind
    → EndsCurrent t (before ++ behind) persisted s (ended t (before ++ behind) persisted s)
      ⊎ EndsSuperseded t (before ++ behind) s (ended t (before ++ behind) persisted s)
unfolding ended
current_lem {s} r before behind t persisted e = elim (Bool-cases (is_current t s)) [
  | inr other ↦ inr (rw (other, EndsSuperseded) (refl, refl, refl, refl, refl))
  | inl now ↦
      let l =
        IsLone-of_generation s before behind t (reachable-IsSound r) e
          (current-generation t s now) in
      inl (
        now,
        l.desired,
        l.controlled,
        none_current s (before ++ behind) l.idle,
        rw now (rw l.desired refl),
        rw now refl,
      )
]

one_current :
    (s : Sync) (ts : List Task) (t : Task)
    → of_generation s.generation ts ≡ t ∷ []
    → (nat_eq s.generation t.generation ≡ true → is_current t s ≡ true)
    → any (λ u. is_current u s) ts ≡ true
one_current s [] t h now = cc
one_current s (u ∷ ts) t h now = elim (Bool-cases (nat_eq s.generation u.generation)) [
  | inl e ↦
      let same : u ≡ t = ground arith in
      let here : is_current u s ≡ true =
        ap (λ v. is_current v s) same
        ∙ now (ap (λ v. nat_eq s.generation v.generation) (sym same) ∙ e) in
      rw here refl
  | inr e ↦ ground (arith, one_current s ts t (ground arith) now)
]

pending-IsMatched :
    (pending desired : Option Head) (c : Option ℕ) (aborted : List ℕ) (ts : List Task) (h : Head)
    → IsMatched pending desired c aborted ts
    → pending ≡ some h
    → IsMatched (some h) desired c aborted ts
pending-IsMatched pending desired c aborted ts h m e =
    subst (λ o. IsMatched o desired c aborted ts) e m

pending_current :
    (s : Sync) (t : Task) (h : Head)
    → s.pending_head ≡ some h
    → t.head ≡ h
    → is_aborted t.controller s.aborted ≡ false
    → nat_eq s.generation t.generation ≡ true
    → is_current t s ≡ true
unfolding is_current
pending_current s t h e th alive g = ground (arith, same_head_iff h t.head)

-- In every reachable state, a head that is pending has a current call under way, so the end of a call
-- clears it: no head stays pending for ever without a request.
pub pending_lem :
    {s : Sync} {head : Head}
    → IsReachable s
    → s.pending_head ≡ some head
    → any (λ u. is_current u s) s.tasks ≡ true
pending_lem {s} {head} r e =
    let (t, lone, th, desired, controlled, alive) =
      pending-IsMatched s.pending_head s.desired_head s.controller s.aborted
        (of_generation s.generation s.tasks) head (reachable-IsSound r).matched e in
    one_current s s.tasks t lone (pending_current s t head e th alive)

desire-keeps :
    (head : Head) (s : Sync)
    → ((desire head s).tasks ≡ s.tasks)
      × ((desire head s).loaded ≡ s.loaded)
      × ((desire head s).last_persisted ≡ s.last_persisted)
unfolding desire invalidate
desire-keeps head s = ground arith

-- A call for this head has started.
abbrev pub IsStarted : Head → Sync → Sync → Type 0
IsStarted head s r =
    (t : Task) × (r.tasks ≡ t ∷ s.tasks) × (t.head ≡ head) × (s.last_persisted ≢ some head)

persist_cases :
    (head : Head) (s : Sync)
    → ((persist head s).tasks ≡ s.tasks) ⊎ IsStarted head s (persist head s)
unfolding persist
persist_cases head s =
    elim (Bool-cases (is_head s.last_persisted head || is_head s.pending_head head)) [
      | inl e ↦ inl (rw e refl)
      | inr e ↦
          let t : Task = record {
            generation = s.generation;
            controller = s.controllers;
            head = head;
          } in
          inr (
            t,
            rw e refl,
            refl,
            λ stored. absurd (
                ground (
                  arith,
                  ap (λ (o : Option Head). is_head o head) stored,
                  same_head_iff head head,
                )),
          )
    ]

-- The calls under way grow only by one for the head that is shown, and only if no run is going on,
-- the head is no placeholder, a message has been shown before or is now, and the head is not the one
-- that is stored.
pub rendered_lem :
    (head : Head) (empty is_running : Bool) (s : Sync)
    → ((rendered head empty is_running s).tasks ≡ s.tasks)
      ⊎ (IsStarted head s (rendered head empty is_running s)
          × (is_running ≡ false)
          × (is_optimistic head ≡ false)
          × ((s.loaded ≡ true) ⊎ (empty ≡ false)))
unfolding rendered
rendered_lem head empty is_running s =
    let d = desire head s in
    let (tasks, loaded, stored) = desire-keeps head s in
    elim (Bool-cases (is_running || is_optimistic head)) [
      | inl e ↦ inl (rw e tasks)
      | inr e ↦ elim (Bool-cases d.loaded) [
        | inl l ↦ elim (persist_cases head d) [
          | inl same ↦ inl (ground arith)
          | inr (t, grown, own, new) ↦ inr (
            (t, ground arith, own, λ o. new (stored ∙ o)),
            ground arith,
            ground arith,
            inl (ground arith),
          )
        ]
        | inr l ↦ elim (Bool-cases empty) [
          | inl m ↦ inl (ground arith)
          | inr m ↦ elim (persist_cases head (record d { loaded = true })) [
            | inl same ↦ inl (ground arith)
            | inr (t, grown, own, new) ↦
                inr
                  ((t, ground arith, own, λ o. new (stored ∙ o)), ground arith, ground arith, inr m)
          ]
        ]
      ]
    ]
