-- ===== src/Browser/Laws.antt =====
-- What a storage holds after the removal of an item.
use fleet_agent.Base.{String, ◌≡◌, none, List, [], ◌∷◌, ◌==◌, eq_iff, arith, if◌then◌else◌}
use fleet_agent.Browser.{lookup, remove}

pub lookup-remove :
    (k j : String) (items : List (String × String))
    → lookup j (remove k items) ≡ (if k == j then none else lookup j items)
unfolding lookup remove
lookup-remove k j [] = ground arith
lookup-remove k j ((i, v) ∷ items) =
    ground (arith, lookup-remove k j items, eq_iff i k, eq_iff i j, eq_iff k j)
