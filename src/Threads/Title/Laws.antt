-- ===== src/Threads/Title/Laws.antt =====
-- A derived title is short, visible and tidy, and deriving it again gives the same title.
use fleet_agent.Base.{
  ℕ, zero, suc, ◌≤◌, ◌≡◌, refl, Bool, true, false, not, ◌&&◌, some, List, [], ◌∷◌, ◌++◌, map, find,
  take, length, length-take, length-append, is_space_table, leb, nat_eq, is_space, if◌then◌else◌,
  arith, Bool-cases, Option-cases, inl, inr,
}
use fleet_agent.Threads.Units.{is_blank, trim, trim_start, trim_end}
use fleet_agent.Threads.Title.{
  max_thread_title_length, ellipsis, split_lines, starts_with_space, collapse, first_visible_line,
  shorten, derive_thread_title,
}

-- The only space is U+0020, and no space follows another, or `after_space`.
spaced : Bool → List ℕ → Bool
spaced after_space [] = true
spaced after_space (c ∷ cs) =
    (if is_space c then nat_eq c b' ' && not after_space else true) && spaced (is_space c) cs

-- A text of words, with one space between two of them.
unfoldable pub tidy : Bool → List ℕ → Bool
tidy after_space [] = not after_space
tidy after_space (c ∷ cs) =
    (if is_space c then nat_eq c b' ' && not after_space else true) && tidy (is_space c) cs

collapse-spaced :
    (p : Bool) (cs : List ℕ) → (starts_with_space cs && p) ≡ false → spaced p (collapse cs) ≡ true
unfolding spaced collapse
collapse-spaced p [] h = refl
collapse-spaced p (c ∷ cs) h =
    ground (
      arith,
      collapse-spaced p cs,
      collapse-spaced true cs,
      collapse-spaced false cs,
      is_space_table,
    )

spaced_weaken : (p : Bool) (cs : List ℕ) → spaced true cs ≡ true → spaced p cs ≡ true
unfolding spaced
spaced_weaken p [] h = refl
spaced_weaken p (c ∷ cs) h = ground arith

trim_start-spaced :
    (p : Bool) (cs : List ℕ) → spaced p cs ≡ true → spaced true (trim_start cs) ≡ true
unfolding spaced trim_start
trim_start-spaced p [] h = refl
trim_start-spaced p (c ∷ cs) h = ground (arith, trim_start-spaced (is_space c) cs)

take-spaced : (p : Bool) (n : ℕ) (cs : List ℕ) → spaced p cs ≡ true → spaced p (take n cs) ≡ true
unfolding spaced
take-spaced p zero cs h = refl
take-spaced p (suc n) [] h = refl
take-spaced p (suc n) (c ∷ cs) h = ground (arith, take-spaced (is_space c) n cs)

trim_end-spaced : (p : Bool) (cs : List ℕ) → spaced p cs ≡ true → spaced p (trim_end cs) ≡ true
unfolding spaced trim_end
trim_end-spaced p [] h = refl
trim_end-spaced p (c ∷ cs) h = ground (arith, trim_end-spaced (is_space c) cs)

tidy_after :
    (c : ℕ) (cs : List ℕ)
    → (is_space c && is_blank cs) ≡ false
    → (is_blank cs ≡ false → tidy (is_space c) cs ≡ true)
    → tidy (is_space c) cs ≡ true
unfolding tidy is_blank
tidy_after c [] h f = ground arith
tidy_after c (d ∷ ds) h f = f refl

spaced-starts : (cs : List ℕ) → spaced true cs ≡ true → starts_with_space cs ≡ false
unfolding spaced
spaced-starts [] h = refl
spaced-starts (c ∷ cs) h = ground arith

tidy-visible : (cs : List ℕ) → tidy true cs ≡ true → is_blank cs ≡ false
unfolding tidy is_blank
tidy-visible [] h = cc
tidy-visible (c ∷ cs) h = refl

trim_end-tidy :
    (p : Bool) (cs : List ℕ)
    → spaced p cs ≡ true
    → is_blank (trim_end cs) ≡ false
    → tidy p (trim_end cs) ≡ true
unfolding spaced trim_end is_blank tidy
trim_end-tidy p [] h n = cc
trim_end-tidy p (c ∷ cs) h n = elim (Bool-cases (is_space c && is_blank (trim_end cs))) [
  | inl e ↦ absurd (ground arith)
  | inr e ↦ rw e (
      ground
        (arith, tidy_after c (trim_end cs) e (λ k. trim_end-tidy (is_space c) cs (ground arith) k)))
]

ellipsis-tidy : (p : Bool) (cs : List ℕ) → spaced p cs ≡ true → tidy p (cs ++ ellipsis ∷ []) ≡ true
unfolding spaced tidy
ellipsis-tidy p [] h = ground (arith, is_space_table)
ellipsis-tidy p (c ∷ cs) h = ground (arith, ellipsis-tidy (is_space c) cs)

length-trim_end-le : (cs : List ℕ) → length (trim_end cs) ≤ length cs
unfolding trim_end
length-trim_end-le [] = omega arith
length-trim_end-le (c ∷ cs) = ground (arith, length-trim_end-le cs)

split_lines-spaced : (p : Bool) (cs : List ℕ) → spaced p cs ≡ true → split_lines cs ≡ cs ∷ []
unfolding spaced split_lines
split_lines-spaced p [] h = refl
split_lines-spaced p (c ∷ cs) h = ground (arith, split_lines-spaced (is_space c) cs, is_space_table)

collapse_of_spaced : (p : Bool) (cs : List ℕ) → spaced p cs ≡ true → collapse cs ≡ cs
unfolding spaced collapse
collapse_of_spaced p [] h = refl
collapse_of_spaced p (c ∷ cs) h =
    ground (arith, collapse_of_spaced (is_space c) cs, spaced-starts cs)

trim_start_of_spaced : (cs : List ℕ) → spaced true cs ≡ true → trim_start cs ≡ cs
unfolding spaced trim_start
trim_start_of_spaced [] h = refl
trim_start_of_spaced (c ∷ cs) h = ground arith

trim_end_of_tidy : (p : Bool) (cs : List ℕ) → tidy p cs ≡ true → trim_end cs ≡ cs
unfolding tidy trim_end is_blank
trim_end_of_tidy p [] h = refl
trim_end_of_tidy p (c ∷ cs) h = ground (arith, trim_end_of_tidy (is_space c) cs, tidy-visible cs)

spaced_of_tidy : (p : Bool) (cs : List ℕ) → tidy p cs ≡ true → spaced p cs ≡ true
unfolding tidy spaced
spaced_of_tidy p [] h = refl
spaced_of_tidy p (c ∷ cs) h = ground (arith, spaced_of_tidy (is_space c) cs)

-- A tidy, visible text of at most 48 units.
pub record IsTitle (cs : List ℕ) : Type 0 where
  pub short : length cs ≤ max_thread_title_length
  pub visible : is_blank cs ≡ false
  pub tidied : tidy true cs ≡ true

trimmed_line :
    (line : List ℕ)
    → is_blank (trim (collapse line)) ≡ false
    → tidy true (trim (collapse line)) ≡ true
unfolding trim
trimmed_line line h =
    trim_end-tidy true (trim_start (collapse line))
      (trim_start-spaced false (collapse line) (collapse-spaced false line (ground arith))) h

append-visible : (cs : List ℕ) (c : ℕ) → is_blank (cs ++ c ∷ []) ≡ false
unfolding is_blank
append-visible [] c = refl
append-visible (d ∷ ds) c = refl

shorten-IsTitle :
    (line : List ℕ) → is_blank line ≡ false → tidy true line ≡ true → IsTitle (shorten line)
unfolding shorten
shorten-IsTitle line n h = elim (Bool-cases (leb (length line) max_thread_title_length)) [
  | inl e ↦ rw e (record { short = ground arith; visible = n; tidied = h })
  | inr e ↦ rw e (record {
    short = omega (
      arith,
      length-append {0} (trim_end (take 47 line)) (ellipsis ∷ []),
      length-trim_end-le (take 47 line),
      length-take {0} 47 line,
    );
    visible = append-visible (trim_end (take 47 line)) ellipsis;
    tidied = ellipsis-tidy true (trim_end (take 47 line)) (
        trim_end-spaced true (take 47 line)
          (take-spaced true 47 line (spaced_of_tidy true line h)));
  })
]

find_mapped :
    (p : List ℕ → Bool) (f : List ℕ → List ℕ) (ls : List (List ℕ)) (y : List ℕ)
    → find p (map f ls) ≡ some y
    → (l : List ℕ) × (y ≡ f l) × (p y ≡ true)
find_mapped p f [] y h = cc
find_mapped p f (l ∷ ls) y h = elim (Bool-cases (p (f l))) [
  | inl e ↦ (l, ground arith, ground arith)
  | inr e ↦ find_mapped p f ls y (ground arith)
]

-- Every derived title, and so the default one, is short, visible and tidy.
pub derive_thread_title-IsTitle : (query : List ℕ) → IsTitle (derive_thread_title query)
unfolding derive_thread_title first_visible_line
derive_thread_title-IsTitle query = elim (Option-cases (first_visible_line query)) [
  | inl e ↦ rw e (record {
    short = omega arith;
    visible = unfold is_blank in refl;
    tidied = unfold tidy is_space in refl;
  })
  | inr (line, e) ↦
      let (l, from, seen) =
        find_mapped (λ cs. not (is_blank cs)) (λ cs. trim (collapse cs)) (split_lines query) line
          e in
      let n : is_blank (trim (collapse l)) ≡ false = ground arith in
      rw (e, from) (shorten-IsTitle (trim (collapse l)) n (trimmed_line l n))
]

trim_of_tidy : (cs : List ℕ) → tidy true cs ≡ true → trim cs ≡ cs
unfolding trim
trim_of_tidy cs h =
    rw (trim_start_of_spaced cs (spaced_of_tidy true cs h)) (trim_end_of_tidy true cs h)

shorten_of_short : (cs : List ℕ) → length cs ≤ max_thread_title_length → shorten cs ≡ cs
unfolding shorten
shorten_of_short cs h = ground arith

-- Deriving a title from a title gives that title.
derive_thread_title_of_IsTitle : (cs : List ℕ) → IsTitle cs → derive_thread_title cs ≡ cs
unfolding derive_thread_title first_visible_line
derive_thread_title_of_IsTitle cs h =
    let sp = spaced_of_tidy true cs h.tidied in
    rw (split_lines-spaced true cs sp) (
      rw (collapse_of_spaced true cs sp)
        (rw (trim_of_tidy cs h.tidied) (rw h.visible (shorten_of_short cs h.short))))
