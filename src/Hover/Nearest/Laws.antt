-- ===== src/Hover/Nearest/Laws.antt =====
-- Which item `pickNearest` picks.
use fleet_agent.Base.{
  ℕ, suc, ◌+◌, ◌≡◌, refl, sym, ap, ◌∙◌, subst, ◌⊎◌, inl, inr, Bool, true, false, not, Option, none,
  some, List, [], ◌∷◌, ◌&&◌, ◌||◌, get_elem?, arith, Bool-cases, if◌then◌else◌,
}
use mathlib.Core.Option.{some-injective}
use fleet_agent.Hover.Numbers.{Numbers}
use fleet_agent.Hover.Nearest.{
  ItemRect, Input, contains, distance, Found, look_at, look_from, nothing_found, nullish,
  pick_nearest,
}

module _ (F : Numbers) (i : Input F) where
  -- An item that is registered and not disabled passes a test.
  abbrev pub any_from : (ItemRect F → Bool) → ℕ → List (Option (ItemRect F)) → Bool
  any_from test index [] = false
  any_from test index (none ∷ rest) = any_from test (suc index) rest
  any_from test index (some r ∷ rest) =
      (not (i.is_disabled index) && test r) || any_from test (suc index) rest

  -- The item at this index, which is not disabled.
  pub record IsItem (index : ℕ) (rects : List (Option (ItemRect F))) (k : ℕ) (r : ItemRect F)
      : Type 0 where
    pub slot : ℕ
    pub at_slot : k ≡ index + slot
    pub registered : get_elem? rects slot ≡ some (some r)
    pub enabled : i.is_disabled k ≡ false

  later :
      (o : Option (ItemRect F)) (index : ℕ) (rest : List (Option (ItemRect F))) (k : ℕ)
      (r : ItemRect F)
      → IsItem (suc index) rest k r
      → IsItem index (o ∷ rest) k r
  later o index rest k r it = record {
    slot = suc it.slot;
    at_slot = omega (arith, it.at_slot);
    registered = it.registered;
    enabled = it.enabled;
  }

  here :
      (index : ℕ) (rest : List (Option (ItemRect F))) (r : ItemRect F)
      → i.is_disabled index ≡ false
      → IsItem index (some r ∷ rest) index r
  here index rest r e = record { slot = 0; at_slot = omega arith; registered = refl; enabled = e }

  abbrev nearer_than : F.N → ItemRect F → Bool
  nearer_than d r = F.lt (distance F i r) d

  -- A distance is the same or smaller.
  abbrev IsUnder : F.N → F.N → Type 0
  IsUnder d c = (d ≡ c) ⊎ (F.lt d c ≡ true)

  not_nearer : (d c : F.N) → IsUnder d c → F.lt c d ≡ false
  not_nearer d c (inl e) = subst (λ (t : F.N). F.lt c t ≡ false) (sym e) (F.lt_irrefl c)
  not_nearer d c (inr e) = elim (Bool-cases (F.lt c d)) [
    | inl f ↦ absurd (let g = F.lt_trans c d c f e in let k = F.lt_irrefl c in ground arith)
    | inr f ↦ f
  ]

  under-under : (d c b : F.N) → IsUnder d c → F.lt c b ≡ true → F.lt d b ≡ true
  under-under d c b (inl e) f = subst (λ (t : F.N). F.lt t b ≡ true) (sym e) f
  under-under d c b (inr e) f = F.lt_trans d c b e f

  under_over : (d c b : F.N) → IsUnder d c → F.lt b d ≡ true → F.lt b c ≡ true
  under_over d c b (inl e) f = subst (λ (t : F.N). F.lt b t ≡ true) e f
  under_over d c b (inr e) f = F.lt_trans b d c f e

  -- One round of the loop, on the distances.
  step_lem :
      (off : Bool) (d dr c : F.N)
      → IsUnder d (if off then c else if F.lt dr c then dr else c)
      → ((not off && F.lt dr d) ≡ false) × IsUnder d c
  step_lem true d dr c h = (refl, h)
  step_lem false d dr c h = elim (Bool-cases (F.lt dr c)) [
    | inl n ↦
        let k : IsUnder d dr = subst (λ (t : Bool). IsUnder d (if t then dr else c)) n h in
        (not_nearer d dr k, inr (under-under d dr c k n))
    | inr n ↦
        let k : IsUnder d c = subst (λ (t : Bool). IsUnder d (if t then dr else c)) n h in
        (
          elim (Bool-cases (F.lt dr d)) [
            | inl m ↦ absurd (let g = under_over d c dr k m in ground arith)
            | inr m ↦ m
          ],
          k,
        )
  ]

  distance_after :
      (off : Bool) (index : ℕ) (r : ItemRect F) (s : Found F)
      → (if off then s else look_at F i index r s).closest_distance ≡ (
          if off
          then s.closest_distance
          else if F.lt (distance F i r) s.closest_distance
          then distance F i r
          else s.closest_distance)
  unfolding look_at
  distance_after true index r s = refl
  distance_after false index r s = refl

  -- No item is nearer than the distance that the loop ends with, and that is the first one or smaller.
  far_lem :
      (rects : List (Option (ItemRect F))) (index : ℕ) (s : Found F) (f : Found F)
      → look_from F i index rects s ≡ f
      → (any_from (nearer_than f.closest_distance) index rects ≡ false)
        × IsUnder f.closest_distance s.closest_distance
  unfolding look_from
  far_lem [] index s f h = (refl, inl (ap (λ (g : Found F). g.closest_distance) (sym h)))
  far_lem (none ∷ rest) index s f h = far_lem rest (suc index) s f h
  far_lem (some r ∷ rest) index s f h =
      let off = i.is_disabled index in
      let k = far_lem rest (suc index) (if off then s else look_at F i index r s) f h in
      let j =
        step_lem off f.closest_distance (distance F i r) s.closest_distance
          (subst (IsUnder f.closest_distance) (distance_after off index r s) k.1) in
      (ground (arith, j.0, k.0), j.1)

  abbrev round : ℕ → ItemRect F → Found F → Found F
  round index q s = if i.is_disabled index then s else look_at F i index q s

  closest_after :
      (index : ℕ) (q : ItemRect F) (s : Found F)
      → (((round index q s).closest ≡ s.closest)
          × ((round index q s).closest_distance ≡ s.closest_distance))
        ⊎ (((round index q s).closest ≡ some index)
            × ((round index q s).closest_distance ≡ distance F i q)
            × (i.is_disabled index ≡ false))
  unfolding look_at
  closest_after index q s = elim (Bool-cases (i.is_disabled index)) [
    | inl e ↦ inl (rw e refl, rw e refl)
    | inr e ↦ elim (Bool-cases (F.lt (distance F i q) s.closest_distance)) [
      | inl n ↦ inr (rw (e, n) refl, rw (e, n) refl, e)
      | inr n ↦ inl (rw (e, n) refl, rw (e, n) refl)
    ]
  ]

  containing_after :
      (index : ℕ) (q : ItemRect F) (s : Found F)
      → (((round index q s).containing ≡ s.containing)
          × ((not (i.is_disabled index) && contains F i q) ≡ false))
        ⊎ (((round index q s).containing ≡ some index)
            × (contains F i q ≡ true)
            × (i.is_disabled index ≡ false))
  unfolding look_at
  containing_after index q s = elim (Bool-cases (i.is_disabled index)) [
    | inl e ↦ inl (rw e refl, rw e refl)
    | inr e ↦ elim (Bool-cases (contains F i q)) [
      | inl n ↦ inr (rw (e, n) refl, n, e)
      | inr n ↦ inl (rw (e, n) refl, rw (e, n) refl)
    ]
  ]

  -- Where the nearest item is, or that the loop found none nearer than it began with.
  closest_lem :
      (rects : List (Option (ItemRect F))) (index : ℕ) (s : Found F) (f : Found F)
      → look_from F i index rects s ≡ f
      → ((f.closest ≡ s.closest) × (f.closest_distance ≡ s.closest_distance))
        ⊎ ((k : ℕ) × (r : ItemRect F) × (f.closest ≡ some k)
            × (f.closest_distance ≡ distance F i r)
            × IsItem index rects k r)
  unfolding look_from
  closest_lem [] index s f h =
      inl
        (ap (λ (g : Found F). g.closest) (sym h), ap (λ (g : Found F). g.closest_distance) (sym h))
  closest_lem (none ∷ rest) index s f h = elim (closest_lem rest (suc index) s f h) [
    | inl e ↦ inl e
    | inr (k, r, a, b, it) ↦ inr (k, r, a, b, later none index rest k r it)
  ]
  closest_lem (some q ∷ rest) index s f h =
      elim (closest_lem rest (suc index) (round index q s) f h) [
        | inr (k, r, a, b, it) ↦ inr (k, r, a, b, later (some q) index rest k r it)
        | inl (a, b) ↦ elim (closest_after index q s) [
          | inl (c, d) ↦ inl (a ∙ c, b ∙ d)
          | inr (c, d, e) ↦ inr (index, q, a ∙ c, b ∙ d, here index rest q e)
        ]
      ]

  -- Where the last item that the pointer is in is, or that there is none.
  containing_lem :
      (rects : List (Option (ItemRect F))) (index : ℕ) (s : Found F) (f : Found F)
      → look_from F i index rects s ≡ f
      → ((f.containing ≡ s.containing) × (any_from (contains F i) index rects ≡ false))
        ⊎ ((k : ℕ) × (r : ItemRect F) × (f.containing ≡ some k)
            × (contains F i r ≡ true)
            × IsItem index rects k r)
  unfolding look_from
  containing_lem [] index s f h = inl (ap (λ (g : Found F). g.containing) (sym h), refl)
  containing_lem (none ∷ rest) index s f h = elim (containing_lem rest (suc index) s f h) [
    | inl e ↦ inl e
    | inr (k, r, a, b, it) ↦ inr (k, r, a, b, later none index rest k r it)
  ]
  containing_lem (some q ∷ rest) index s f h =
      elim (containing_lem rest (suc index) (round index q s) f h) [
        | inr (k, r, a, b, it) ↦ inr (k, r, a, b, later (some q) index rest k r it)
        | inl (a, b) ↦ elim (containing_after index q s) [
          | inl (c, d) ↦ inl (a ∙ c, rw (d, b) refl)
          | inr (c, d, e) ↦ inr (index, q, a ∙ c, d, here index rest q e)
        ]
      ]

-- What makes an item the one to highlight: the pointer is in it, or the pointer is in none and no
-- other is nearer.
abbrev pub IsBest : (F : Numbers) → Input F → List (Option (ItemRect F)) → ItemRect F → Type 0
IsBest F i rects r =
    (contains F i r ≡ true)
    ⊎ ((any_from F i (contains F i) 0 rects ≡ false)
        × (any_from F i (λ q. F.lt (distance F i q) (distance F i r)) 0 rects ≡ false))

picked-IsBest :
    (F : Numbers) (i : Input F) (rects : List (Option (ItemRect F))) (f : Found F) (k : ℕ)
    → look_from F i 0 rects (nothing_found F) ≡ f
    → nullish f.containing f.closest ≡ some k
    → (r : ItemRect F) × IsItem F i 0 rects k r × IsBest F i rects r
picked-IsBest F i rects f k h e = elim (containing_lem F i rects 0 (nothing_found F) f h) [
  | inr (j, r, a, b, it) ↦
      let m : j ≡ k = some-injective _ _ (sym (ap (λ (o : Option ℕ). nullish o f.closest) a) ∙ e) in
      (r, subst (λ n. IsItem F i 0 rects n r) m it, inl b)
  | inl (a, b) ↦
      let g : f.closest ≡ some k = sym (ap (λ (o : Option ℕ). nullish o f.closest) a) ∙ e in
      elim (closest_lem F i rects 0 (nothing_found F) f h) [
        | inl (c, d) ↦ absurd (let n : none ≡ some k = sym c ∙ g in cc)
        | inr (j, r, c, d, it) ↦
            let m : j ≡ k = some-injective _ _ (sym c ∙ g) in
            (
              r,
              subst (λ n. IsItem F i 0 rects n r) m it,
              inr (
                b,
                subst (λ (t : F.N). any_from F i (λ q. F.lt (distance F i q) t) 0 rects ≡ false) d
                    (far_lem F i rects 0 (nothing_found F) f h).0,
              ),
            )
      ]
]

-- The item that is highlighted is registered and not disabled, and the pointer is in it, or it is in
-- no item and none has a nearer centre.
pub pick_nearest-IsBest :
    (F : Numbers) (i : Input F) (rects : List (Option (ItemRect F))) (k : ℕ)
    → pick_nearest F i rects ≡ some k
    → (r : ItemRect F) × IsItem F i 0 rects k r × IsBest F i rects r
pick_nearest-IsBest F i rects k e =
    picked-IsBest F i rects (look_from F i 0 rects (nothing_found F)) k refl
      (unfold pick_nearest in e)
