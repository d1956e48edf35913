-- ===== src/Providers/Settings/ModelChoice/Laws.antt =====
-- What the list of models shows.
use fleet_agent.Base.{
  ℕ, zero, suc, ◌≤◌, String, ◌≡◌, refl, ap, Bool, true, false, none, some, List, [], ◌∷◌, length,
  take, any, find, leb, length-take, find-any, trim, is_empty, arith, Bool-cases, Option-cases, inl,
  inr,
}
use fleet_agent.Providers.Models.{ProviderModel}
use fleet_agent.Providers.Settings.ModelChoice.{is_model, limit, initial_models, filtered_models}

any-take :
    (p : ProviderModel → Bool) (n : ℕ) (ms : List ProviderModel)
    → any p (take n ms) ≡ true
    → any p ms ≡ true
any-take p zero ms h = cc
any-take p (suc n) [] h = h
any-take p (suc n) (m ∷ ms) h = ground (arith, any-take p n ms)

-- What is shown of a list where nothing is searched for.
pub record IsInitial (id : String) (models shown : List ProviderModel) : Type 0 where
  pub bounded : length shown ≤ limit
  pub listed : (p : ProviderModel → Bool) → any p shown ≡ true → any p models ≡ true
  pub selected : any (is_model id) models ≡ true → any (is_model id) shown ≡ true

any_of_found :
    (p q : ProviderModel → Bool) (ms : List ProviderModel) (m : ProviderModel)
    → find q ms ≡ some m
    → p m ≡ true
    → any p ms ≡ true
any_of_found p q [] m h k = cc
any_of_found p q (n ∷ ms) m h k = elim (Bool-cases (q n)) [
  | inl e ↦ let same : n ≡ m = cc (rw e at h) in ground (arith, ap p same)
  | inr e ↦ ground (arith, any_of_found p q ms m)
]

any_of_unfound :
    (q : ProviderModel → Bool) (ms : List ProviderModel) → find q ms ≡ none → any q ms ≡ false
any_of_unfound q [] h = refl
any_of_unfound q (n ∷ ms) h = elim (Bool-cases (q n)) [
  | inl e ↦ cc (rw e at h)
  | inr e ↦ rw e (any_of_unfound q ms (rw e at h))
]

take-IsInitial :
    (id : String) (models : List ProviderModel)
    → (any (is_model id) models ≡ true → any (is_model id) (take limit models) ≡ true)
    → IsInitial id models (take limit models)
take-IsInitial id models h = record {
  bounded = omega (arith, length-take limit models);
  listed = λ p. any-take p limit models;
  selected = h;
}

led_by_found :
    (id : String) (models : List ProviderModel) (m : ProviderModel)
    → find (is_model id) models ≡ some m
    → IsInitial id models (m ∷ take 79 (take limit models))
led_by_found id models m h =
    let is = (find-any (is_model id) models m h).1 in
    record {
      bounded = omega (arith, length-take 79 (take limit models));
      listed = λ p k. elim (Bool-cases (p m)) [
        | inl e ↦ any_of_found p (is_model id) models m h e
        | inr e ↦ any-take p limit models (any-take p 79 (take limit models) (rw e at k))
      ];
      selected = λ _. rw is refl;
    }

initial_models-IsInitial :
    (id : String) (models : List ProviderModel)
    → is_empty id ≡ false
    → IsInitial id models (initial_models models id)
unfolding initial_models
initial_models-IsInitial id models h =
    rw h (elim (Bool-cases (any (is_model id) (take limit models))) [
      | inl e ↦ rw e (take-IsInitial id models (λ _. e))
      | inr e ↦ rw e (elim (Option-cases (find (is_model id) models)) [
        | inl none_found ↦
            rw none_found
              (take-IsInitial id models (λ k. cc (any_of_unfound (is_model id) models none_found)))
        | inr (m, found) ↦ rw found (led_by_found id models m found)
      ])
    ])

-- Where nothing is searched for, at most 80 models are shown, all of them from the provider's list,
-- and the selected model is shown if the list has it.
pub filtered_models-IsInitial :
    (lower : String → String) (models : List ProviderModel) (query id : String)
    → is_empty (trim query) ≡ true
    → is_empty id ≡ false
    → IsInitial id models (filtered_models lower (some models) query id)
unfolding filtered_models
filtered_models-IsInitial lower models query id blank h =
    rw blank (elim (Bool-cases (leb (length models) limit)) [
      | inl e ↦ rw e (record { bounded = ground arith; listed = λ p k. k; selected = λ k. k })
      | inr e ↦ rw e (initial_models-IsInitial id models h)
    ])
