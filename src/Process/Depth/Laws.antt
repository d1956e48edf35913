-- ===== src/Process/Depth/Laws.antt =====
-- That the depths are found, and what they are.
use fleet_agent.Base.{
  ℕ, zero, suc, ◌+◌, ◌<◌, ◌≡◌, refl, sym, ◌∙◌, subst, String, true, false, none, some, List, [],
  ◌∷◌, ◌==◌, is_some, length, eq_iff, eq_refl, inl, inr, arith, Bool-cases, Option-cases, All,
}
use mathlib.Core.Option.{some-injective}
use fleet_agent.Process.State.{ProcessStep}
use fleet_agent.Process.Depth.{
  parent_of, Depths, depth_at, is_visiting, depth_of, depths_of_all, step_depths,
}
use fleet_agent.Process.Depth.Visits.{
  enough, unvisited, HasDepth, HasDepth-unique, parent_of-any, unvisited-less,
}

module _ (steps : List ProcessStep) where
  -- What is known of the depths so far is right.
  abbrev Sound : Depths → Type 0
  Sound ds = (id : String) (d n : ℕ) → depth_at ds id ≡ some d → HasDepth steps n id → d ≡ n

  -- The steps being visited are deeper.
  abbrev Deeper : List String → String → Type 0
  Deeper visiting id =
      (v : String) (n m : ℕ)
      → is_visiting visiting v ≡ true
      → HasDepth steps n id
      → HasDepth steps m v
      → n < m

  Sound-cons :
      (ds : Depths) (id : String) (d : ℕ)
      → Sound ds
      → ((n : ℕ) → HasDepth steps n id → d ≡ n)
      → Sound ((id, d) ∷ ds)
  unfolding depth_at
  Sound-cons ds id d sound right k e n f h = elim (Bool-cases (id == k)) [
    | inl i ↦ ground (arith, right n, eq_iff id k)
    | inr i ↦ sound k e n (ground (arith, f)) h
  ]

  Deeper-cons :
      (visiting : List String) (id p : String)
      → parent_of steps id ≡ some p
      → Deeper visiting id
      → Deeper (id ∷ visiting) p
  unfolding is_visiting
  Deeper-cons visiting id p e deeper v n m f h i = elim (Bool-cases (id == v)) [
    | inl j ↦
        let k =
          HasDepth-unique steps (suc n) m v
            (subst (HasDepth steps (suc n)) ((eq_iff id v).0 j) (p, e, h)) i in
        omega arith
    | inr j ↦ let k = deeper v (suc n) m (ground arith) (p, e, h) i in omega arith
  ]

  -- What a call of `depthOf` finds, and leaves known.
  record Outcome (fuel : ℕ) (visiting : List String) (ds : Depths) (id : String) : Type 0 where
    d : ℕ
    after : Depths
    returns : depth_of fuel steps visiting ds id ≡ some (d, after)
    sound : Sound after
    right : (n : ℕ) → HasDepth steps n id → d ≡ n
    known : is_visiting visiting id ≡ false → is_some (depth_at after id) ≡ true
    keeps : (k : String) → is_some (depth_at ds k) ≡ true → is_some (depth_at after k) ≡ true

  is_some-cons :
      (ds : Depths) (id k : String) (d : ℕ)
      → is_some (depth_at ds k) ≡ true
      → is_some (depth_at ((id, d) ∷ ds) k) ≡ true
  unfolding depth_at
  is_some-cons ds id k d h = ground arith

  is_some-here : (ds : Depths) (id : String) (d : ℕ) → is_some (depth_at ((id, d) ∷ ds) id) ≡ true
  unfolding depth_at
  is_some-here ds id d = rw (eq_refl id) refl

  right-child :
      (id p : String) (d : ℕ)
      → parent_of steps id ≡ some p
      → ((n : ℕ) → HasDepth steps n p → d ≡ n)
      → (n : ℕ) → HasDepth steps n id
      → d + 1 ≡ n
  right-child id p d f right zero h = cc
  right-child id p d f right (suc n) (q, g, h) =
      let e = right n (subst (HasDepth steps n) (some-injective _ _ (sym g ∙ f)) h) in omega arith

  cached_step :
      (fuel : ℕ) (visiting : List String) (ds : Depths) (id : String) (c : ℕ)
      → depth_at ds id ≡ some c
      → depth_of (suc fuel) steps visiting ds id ≡ some (c, ds)
  unfolding depth_of
  cached_step fuel visiting ds id c e = rw (depth_of, e) refl

  visiting_step :
      (fuel : ℕ) (visiting : List String) (ds : Depths) (id : String)
      → depth_at ds id ≡ none
      → is_visiting visiting id ≡ true
      → depth_of (suc fuel) steps visiting ds id ≡ some (0, ds)
  unfolding depth_of
  visiting_step fuel visiting ds id e v = rw (depth_of, e, v) refl

  root_step :
      (fuel : ℕ) (visiting : List String) (ds : Depths) (id : String)
      → depth_at ds id ≡ none
      → is_visiting visiting id ≡ false
      → parent_of steps id ≡ none
      → depth_of (suc fuel) steps visiting ds id ≡ some (0, (id, 0) ∷ ds)
  unfolding depth_of
  root_step fuel visiting ds id e v f = rw (depth_of, e, v, f) refl

  child_step :
      (fuel : ℕ) (visiting : List String) (ds : Depths) (id p : String) (d : ℕ) (after : Depths)
      → depth_at ds id ≡ none
      → is_visiting visiting id ≡ false
      → parent_of steps id ≡ some p
      → depth_of fuel steps (id ∷ visiting) ds p ≡ some (d, after)
      → depth_of (suc fuel) steps visiting ds id ≡ some (d + 1, (id, d + 1) ∷ after)
  unfolding depth_of
  child_step fuel visiting ds id p d after e v f r = rw (depth_of, e, v, f, r) refl

  all_step :
      (fuel : ℕ) (s : ProcessStep) (rest : List ProcessStep) (ds : Depths) (d : ℕ)
      (after last : Depths)
      → depth_of fuel steps [] ds s.id ≡ some (d, after)
      → depths_of_all fuel steps rest after ≡ some last
      → depths_of_all fuel steps (s ∷ rest) ds ≡ some last
  unfolding depths_of_all
  all_step fuel s rest ds d after last e r = rw (depths_of_all, e) r

  -- With more fuel than there are steps to visit, the call returns, and it returns the depth of a
  -- step that has one.
  depth_of-Outcome :
      (fuel : ℕ) (visiting : List String) (ds : Depths) (id : String)
      → unvisited steps visiting < fuel
      → Sound ds
      → Deeper visiting id
      → Outcome fuel visiting ds id
  depth_of-Outcome zero visiting ds id h sound deeper = absurd (omega arith)
  depth_of-Outcome (suc fuel) visiting ds id h sound deeper = elim (Option-cases (depth_at ds id)) [
    | inr (c, e) ↦ record {
      d = c;
      after = ds;
      returns = cached_step fuel visiting ds id c e;
      sound = sound;
      right = λ n i. sound id c n e i;
      known = λ i. rw e refl;
      keeps = λ k i. i;
    }
    | inl e ↦ elim (Bool-cases (is_visiting visiting id)) [
      | inl v ↦ record {
        d = 0;
        after = ds;
        returns = visiting_step fuel visiting ds id e v;
        sound = sound;
        right = λ n i. let k = deeper id n n v i i in omega arith;
        known = λ i. absurd (cc);
        keeps = λ k i. i;
      }
      | inr v ↦ elim (Option-cases (parent_of steps id)) [
        | inl f ↦ record {
          d = 0;
          after = (id, 0) ∷ ds;
          returns = root_step fuel visiting ds id e v f;
          sound = Sound-cons ds id 0 sound (λ n i. HasDepth-unique steps 0 n id f i);
          right = λ n i. HasDepth-unique steps 0 n id f i;
          known = λ i. is_some-here ds id 0;
          keeps = λ k i. is_some-cons ds id k 0 i;
        }
        | inr (p, f) ↦
            let o =
              depth_of-Outcome fuel (id ∷ visiting) ds p
                (let k = unvisited-less steps visiting id v (parent_of-any steps id p f) in
                  omega arith)
                sound (Deeper-cons visiting id p f deeper) in
            let right = right-child id p o.d f o.right in
            record {
              d = o.d + 1;
              after = (id, o.d + 1) ∷ o.after;
              returns = child_step fuel visiting ds id p o.d o.after e v f o.returns;
              sound = Sound-cons o.after id (o.d + 1) o.sound right;
              right = right;
              known = λ i. is_some-here o.after id (o.d + 1);
              keeps = λ k i. is_some-cons o.after id k (o.d + 1) (o.keeps k i);
            }
      ]
    ]
  ]

  -- What is known after all of the steps.
  record AllKnown (fuel : ℕ) (rest : List ProcessStep) (ds : Depths) : Type 0 where
    after : Depths
    returns : depths_of_all fuel steps rest ds ≡ some after
    sound : Sound after
    known : All (λ (s : ProcessStep). is_some (depth_at after s.id) ≡ true) rest
    keeps : (k : String) → is_some (depth_at ds k) ≡ true → is_some (depth_at after k) ≡ true

  depths_of_all-AllKnown :
      (fuel : ℕ) (rest : List ProcessStep) (ds : Depths)
      → unvisited steps [] < fuel
      → Sound ds
      → AllKnown fuel rest ds
  depths_of_all-AllKnown fuel [] ds h sound = record {
    after = ds;
    returns = unfold depths_of_all in refl;
    sound = sound;
    known = tt;
    keeps = λ k i. i;
  }
  depths_of_all-AllKnown fuel (s ∷ rest) ds h sound =
      let none_visited : (v : String) → is_visiting [] v ≡ false =
        λ v. unfold is_visiting in refl in
      let o =
        depth_of-Outcome fuel [] ds s.id h sound
          (λ v n m i. absurd (let k = none_visited v in cc)) in
      let a = depths_of_all-AllKnown fuel rest o.after h o.sound in
      record {
        after = a.after;
        returns = all_step fuel s rest ds o.d o.after a.after o.returns a.returns;
        sound = a.sound;
        known = (a.keeps s.id (o.known (none_visited s.id)), a.known);
        keeps = λ k i. a.keeps k (o.keeps k i);
      }

  Sound-nil : Sound []
  unfolding depth_at
  Sound-nil id d n h i = cc

-- The depths of all steps are found, even where parents form a cycle, and every step has one.
pub step_depths-All :
    (steps : List ProcessStep)
    → (ds : Depths) × (step_depths steps ≡ some ds)
      × All (λ (s : ProcessStep). is_some (depth_at ds s.id) ≡ true) steps
step_depths-All steps =
    let a =
      depths_of_all-AllKnown steps (length steps + 1) steps [] (enough steps) (Sound-nil steps) in
    (a.after, unfold step_depths in a.returns, a.known)

-- The depth found of a step whose parents end after n steps is n.
pub depth_at-HasDepth :
    (steps : List ProcessStep) (ds : Depths) (id : String) (d n : ℕ)
    → step_depths steps ≡ some ds
    → depth_at ds id ≡ some d
    → HasDepth steps n id
    → d ≡ n
depth_at-HasDepth steps ds id d n h e i =
    let a =
      depths_of_all-AllKnown steps (length steps + 1) steps [] (enough steps) (Sound-nil steps) in
    let r : step_depths steps ≡ some a.after = unfold step_depths in a.returns in
    subst (Sound steps) (some-injective _ _ (sym r ∙ h)) a.sound id d n e i
