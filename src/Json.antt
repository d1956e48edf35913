-- ===== src/Json.antt =====
-- The values that `JSON.parse` yields. An object is the list of its own properties.
use fleet_agent.Base.{
  ℕ, String, Bool, ℤ, true, false, not, nat_eq, List, Option, none, some, ◌==◌, if◌then◌else◌,
}

mutual
  pub data Json : Type 0 where
    null : Json
    bool : Bool → Json
    num : ℕ → Json
    other_num : ℕ → ℤ → Json  -- any other number: which one, and its floor
    str : String → Json
    arr : Items → Json
    obj : Fields → Json

  pub data Items : Type 0 where
    nil : Items
    cons : Json → Items → Items

  pub data Fields : Type 0 where
    end : Fields
    property : String → Json → Fields → Fields

-- `o.k`, with `none` for `undefined`
unfoldable pub field : String → Fields → Option Json
field k end = none
field k (property j v rest) = if j == k then some v else field k rest

-- `j.k` of a value that may be no object
unfoldable pub get : String → Json → Option Json
unfolding field
get k (obj fs) = field k fs
get k _ = none

abbrev pub to_list : Items → List Json
to_list nil = List.[]
to_list (cons x xs) = List.◌∷◌ x (to_list xs)

abbrev pub of_list : List Json → Items
of_list List.[] = nil
of_list (List.◌∷◌ x xs) = cons x (of_list xs)

-- whether `if (v)` takes its branch
abbrev pub truthy : Json → Bool
truthy null = false
truthy (bool b) = b
truthy (num n) = not (nat_eq n 0)
truthy (str s) = not (s == "")
truthy _ = true
