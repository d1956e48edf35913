-- ===== src/Providers/Models/Laws.antt =====
-- Every listed model has a visible id.
use fleet_agent.Base.{
  String, ◌≡◌, false, some, All, trim, trim_idem, is_empty, arith, Bool-cases, Option-cases, inl,
  inr,
}
use fleet_agent.Json.{Json, Items, Fields, arr, obj, nil, cons, end, field, str}
use fleet_agent.Providers.Models.{
  ProviderModel, or_truthy, raw_list, read_fields, read_model, read_models, provider_models,
}

-- An id that is no margin and not empty.
abbrev pub IsNamed : ProviderModel → Type 0
IsNamed m = (is_empty m.id ≡ false) × (trim m.id ≡ m.id)

read_fields-IsNamed :
    (string_of : Json → String) (fs : Fields) (m : ProviderModel)
    → read_fields string_of fs ≡ some m
    → IsNamed m
unfolding read_fields
read_fields-IsNamed string_of fs m h =
    let raw = string_of (or_truthy (field "id" fs) (or_truthy (field "name" fs) (str ""))) in
    elim (Bool-cases (is_empty (trim raw))) [
      | inl e ↦ absurd (ground arith)
      | inr e ↦ (ground arith, ground (arith, trim_idem raw))
    ]

read_model-IsNamed :
    (string_of : Json → String) (j : Json) (m : ProviderModel)
    → read_model string_of j ≡ some m
    → IsNamed m
unfolding read_model
read_model-IsNamed string_of (obj fs) m h = read_fields-IsNamed string_of fs m h
read_model-IsNamed string_of (arr items) m h = read_fields-IsNamed string_of end m h
read_model-IsNamed string_of _ m h = cc

read_models-IsNamed :
    (string_of : Json → String) (items : Items) → All IsNamed (read_models string_of items)
unfolding read_models
read_models-IsNamed string_of nil = tt
read_models-IsNamed string_of (cons item items) = elim (Option-cases (read_model string_of item)) [
  | inl e ↦ rw (e, All) (read_models-IsNamed string_of items)
  | inr (m, e) ↦
      rw (e, All) (read_model-IsNamed string_of item m e, read_models-IsNamed string_of items)
]

-- Whatever the provider answers, every listed model has an id that is not empty and has no margin.
provider_models-IsNamed :
    (string_of : Json → String) (json : Json) → All IsNamed (provider_models string_of json)
unfolding provider_models
provider_models-IsNamed string_of json = read_models-IsNamed string_of (raw_list json)
