-- ===== src/Threads/HeadSync/Sound.antt =====
-- What holds of the calls under way, and that every render keeps it.
use fleet_agent.Base.{
  ℕ, suc, ◌≤◌, ◌<◌, ◌≡◌, ◌↔◌, refl, ap, Bool, true, false, Option, none, some, List, [], ◌∷◌, ◌||◌,
  nat_eq, keep, All, if◌then◌else◌, arith, eq_iff, Bool-cases, inl, inr,
}
use fleet_agent.Threads.HeadSync.{
  Head, Task, Sync, mounted, same_head, is_head, is_aborted, invalidate, desire, abort,
  is_optimistic, persist, rendered,
}

pub same_head_iff : (g h : Head) → (same_head g h ≡ true) ↔ (g ≡ h)
unfolding same_head
same_head_iff none none = (λ _. refl, λ _. refl)
same_head_iff none (some b) = (λ e. cc, λ e. cc)
same_head_iff (some a) none = (λ e. cc, λ e. cc)
same_head_iff (some a) (some b) =
    (λ e. ap some ((eq_iff a b).0 e), λ e. (eq_iff a b).1 (ground arith))

-- The calls of this generation.
abbrev pub of_generation : ℕ → List Task → List Task
of_generation g ts = keep (λ t. nat_eq g t.generation) ts

-- The calls of the generation, for the head that is pending and the head that is desired.
abbrev pub IsMatched : Option Head → Option Head → Option ℕ → List ℕ → List Task → Type 0
IsMatched none desired controller aborted ts = ts ≡ []
IsMatched (some h) desired controller aborted ts =
    (t : Task) × (ts ≡ t ∷ [])
    × (t.head ≡ h)
    × (desired ≡ some h)
    × (controller ≡ some t.controller)
    × (is_aborted t.controller aborted ≡ false)

pub record IsSound (s : Sync) : Type 0 where
  pub old : All (λ t. t.generation ≤ s.generation) s.tasks
  pub made : All (λ n. n < s.controllers) s.aborted
  pub owned : (n : ℕ) → s.controller ≡ some n → n < s.controllers
  pub matched :
      IsMatched s.pending_head s.desired_head s.controller s.aborted
        (of_generation s.generation s.tasks)

none_newer :
    (g : ℕ) (ts : List Task) → All (λ t. t.generation ≤ g) ts → of_generation (suc g) ts ≡ []
none_newer g [] h = refl
none_newer g (t ∷ ts) (x, h) = ground (arith, none_newer g ts h)

All-older :
    (g : ℕ) (ts : List Task) → All (λ t. t.generation ≤ g) ts → All (λ t. t.generation ≤ suc g) ts
All-older g [] h = tt
All-older g (t ∷ ts) (x, h) = (omega arith, All-older g ts h)

All-below : (n : ℕ) (ns : List ℕ) → All (λ m. m < n) ns → All (λ m. m < suc n) ns
All-below n [] h = tt
All-below n (m ∷ ns) (x, h) = (omega arith, All-below n ns h)

not_aborted : (n : ℕ) (ns : List ℕ) → All (λ m. m < n) ns → is_aborted n ns ≡ false
unfolding is_aborted
not_aborted n [] h = refl
not_aborted n (m ∷ ns) (x, h) = ground (arith, not_aborted n ns h)

pub IsSound-mounted : (initial : Head) → IsSound (mounted initial)
IsSound-mounted initial = record { old = tt; made = tt; owned = λ n e. cc; matched = refl }

All-abort :
    (o : Option ℕ) (n : ℕ) (ns : List ℕ)
    → ((m : ℕ) → o ≡ some m → m < n)
    → All (λ m. m < n) ns
    → All (λ m. m < n) (abort o ns)
All-abort none n ns owned h = h
All-abort (some m) n ns owned h = (owned m refl, h)

pub IsSound-invalidate : (s : Sync) → IsSound s → IsSound (invalidate s)
unfolding invalidate
IsSound-invalidate s i = record {
  old = All-older s.generation s.tasks i.old;
  made = All-abort s.controller s.controllers s.aborted i.owned i.made;
  owned = λ n e. cc;
  matched = none_newer s.generation s.tasks i.old;
}

IsSound-desire : (head : Head) (s : Sync) → IsSound s → IsSound (desire head s)
unfolding desire invalidate
IsSound-desire head s i = elim (Bool-cases (is_head s.desired_head head)) [
  | inl e ↦ rw e i
  | inr e ↦
      let j = IsSound-invalidate s i in
      rw e (record { old = j.old; made = j.made; owned = j.owned; matched = j.matched })
]

desired_of_desire : (head : Head) (s : Sync) → is_head (desire head s).desired_head head ≡ true
unfolding desire
desired_of_desire head s = elim (Bool-cases (is_head s.desired_head head)) [
  | inl e ↦ rw e e
  | inr e ↦ rw e ((same_head_iff head head).1 refl)
]

desired_is :
    (desired : Option Head) (head : Head) → is_head desired head ≡ true → desired ≡ some head
desired_is none head h = cc
desired_is (some g) head h = ap some ((same_head_iff g head).0 h)

unmatched :
    (pending desired : Option Head) (c : Option ℕ) (aborted : List ℕ) (ts : List Task) (head : Head)
    → IsMatched pending desired c aborted ts
    → is_head desired head ≡ true
    → is_head pending head ≡ false
    → ts ≡ []
unmatched none desired c aborted ts head m d p = m
unmatched (some h) desired c aborted ts head (t, e, th, dh, ct, ab) d p =
    let same : same_head h head ≡ true =
      (same_head_iff h head).1 (cc (desired_is desired head d)) in
    absurd (ground arith)

IsSound-persist :
    (head : Head) (s : Sync)
    → is_head s.desired_head head ≡ true
    → IsSound s
    → IsSound (persist head s)
unfolding persist
IsSound-persist head s d i =
    elim (Bool-cases (is_head s.last_persisted head || is_head s.pending_head head)) [
      | inl e ↦ rw e i
      | inr e ↦
          let idle : of_generation s.generation s.tasks ≡ [] =
            unmatched s.pending_head s.desired_head s.controller s.aborted
              (of_generation s.generation s.tasks) head i.matched d (ground arith) in
          let t : Task = record {
            generation = s.generation;
            controller = s.controllers;
            head = head;
          } in
          rw e (record {
            old = (omega arith, i.old);
            made = All-below s.controllers s.aborted i.made;
            owned = λ n o. ground arith;
            matched = (
              t,
              ground arith,
              refl,
              desired_is s.desired_head head d,
              refl,
              not_aborted s.controllers s.aborted i.made,
            );
          })
    ]

IsSound-if : (b : Bool) {x y : Sync} → IsSound x → IsSound y → IsSound (if b then x else y)
IsSound-if true p q = p
IsSound-if false p q = q

pub IsSound-rendered :
    (head : Head) (empty is_running : Bool) (s : Sync)
    → IsSound s
    → IsSound (rendered head empty is_running s)
unfolding rendered
IsSound-rendered head empty is_running s i =
    let d = desire head s in
    let j = IsSound-desire head s i in
    let h = desired_of_desire head s in
    let k : IsSound (record d { loaded = true }) = record {
      old = j.old;
      made = j.made;
      owned = j.owned;
      matched = j.matched;
    } in
    IsSound-if (is_running || is_optimistic head) j (
      IsSound-if d.loaded (IsSound-persist head d h j)
        (IsSound-if empty j (IsSound-persist head (record d { loaded = true }) h k)))
