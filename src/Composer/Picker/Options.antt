-- ===== src/Composer/Picker/Options.antt =====
-- The options of the picker: the filter by their keys, and what each kind of provider offers.
use fleet_agent.Base.{
  String, Bool, true, false, ◌≡◌, refl, ap, Option, none, some, List, [], ◌∷◌, ◌++◌, map, any, all,
  is_empty, not, ◌==◌, ◌&&◌, ◌||◌, arith, Bool-cases, inl, inr, eq_iff, eq_refl, Result, ok, err,
  ◌>>=◌, any-append,
}
use fleet_agent.Providers.Profiles.{ProviderProfile, is_preset_id}
use fleet_agent.Providers.Readiness.{ProviderError, trimmed}
use fleet_agent.Providers.Hooks.{AuthView}
use fleet_agent.Composer.Picker.{
  profile_options, profile_option, ModelOption, Route, PopularModel, has_key, unseen_options,
  route_options, model_option_key, key_or, option_of, is_popular, custom_option, popular_option,
}

abbrev pub is_ready : ModelOption → Bool
is_ready o = o.ready

pub seen_same :
    (a b : String) (seen : List String)
    → (a == b) ≡ true
    → any (λ k. k == a) seen ≡ any (λ k. k == b) seen
seen_same a b seen e = ap (λ c. any (λ k. k == c) seen) ((eq_iff a b).0 e)

-- Of a key that was not seen, the filter keeps an option where there is one.
pub any-unseen_options :
    (key : String) (seen : List String) (os : List ModelOption)
    → any (λ k. k == key) seen ≡ false
    → any (has_key key) (unseen_options seen os) ≡ any (has_key key) os
unfolding unseen_options
any-unseen_options key seen [] h = refl
any-unseen_options key seen (o ∷ os) h = elim (Bool-cases (o.key == key)) [
  | inl e ↦ elim (Bool-cases (any (λ k. k == o.key) seen)) [
    | inl e' ↦ ground (arith, seen_same o.key key seen)
    | inr e' ↦ ground arith
  ]
  | inr e ↦ elim (Bool-cases (any (λ k. k == o.key) seen)) [
    | inl e' ↦ ground (arith, any-unseen_options key seen os)
    | inr e' ↦ ground (arith, any-unseen_options key (o.key ∷ seen) os)
  ]
]

-- Of a key that was seen it keeps none.
pub unseen_options-none :
    (key : String) (seen : List String) (os : List ModelOption)
    → any (λ k. k == key) seen ≡ true
    → any (has_key key) (unseen_options seen os) ≡ false
unfolding unseen_options
unseen_options-none key seen [] h = refl
unseen_options-none key seen (o ∷ os) h = elim (Bool-cases (any (λ k. k == o.key) seen)) [
  | inl e' ↦ ground (arith, unseen_options-none key seen os)
  | inr e' ↦ ground (arith, unseen_options-none key (o.key ∷ seen) os, seen_same o.key key seen)
]

pub all-unseen_options :
    (seen : List String) (os : List ModelOption)
    → all is_ready os ≡ true
    → all is_ready (unseen_options seen os) ≡ true
unfolding unseen_options
all-unseen_options seen [] h = refl
all-unseen_options seen (o ∷ os) h =
    ground (arith, all-unseen_options seen os, all-unseen_options (o.key ∷ seen) os)

pub any-popular :
    (r : Route) (model : String) (ms : List PopularModel)
    → any (λ (m : PopularModel). m.id == model) ms ≡ true
    → any (has_key (model_option_key r.id model)) (map (popular_option r) ms) ≡ true
any-popular r model [] h = h
any-popular r model (m ∷ ms) h = elim (Bool-cases (m.id == model)) [
  | inl e ↦ rw ((eq_iff m.id model).0 e, eq_refl (model_option_key r.id model)) refl
  | inr e ↦ ground (arith, any-popular r model ms)
]

-- Where all options are ready, one with a key is found by it.
pub option_of-any :
    (d key : String) (os : List ModelOption)
    → all is_ready os ≡ true
    → any (has_key key) os ≡ true
    → key_or d (option_of key os) ≡ key
option_of-any d key [] hr h = cc
option_of-any d key (o ∷ os) hr h = elim (Bool-cases (o.key == key)) [
  | inl e ↦ let same = (eq_iff o.key key).0 e in ground (arith, same)
  | inr e ↦ ground (arith, option_of-any d key os)
]

pub all-append :
    (xs ys : List ModelOption)
    → all is_ready xs ≡ true
    → all is_ready ys ≡ true
    → all is_ready (xs ++ ys) ≡ true
all-append [] ys hx hy = hy
all-append (x ∷ xs) ys hx hy = ground (arith, all-append xs ys)

pub all-popular :
    (r : Route) (ms : List PopularModel) → all is_ready (map (popular_option r) ms) ≡ true
all-popular r [] = refl
all-popular r (m ∷ ms) = all-popular r ms

pub all-route_options : (r : Route) (s : AuthView) → all is_ready (route_options r s) ≡ true
unfolding route_options
all-route_options r s = elim (Bool-cases s.custom_model_enabled) [
  | inr e ↦ rw (e) (all-append (map (popular_option r) r.popular) [] (all-popular r r.popular) refl)
  | inl e ↦
      elim (Bool-cases (not (is_empty s.selected_model) && not (is_popular r s.selected_model))) [
        | inl e' ↦
            rw (e, e')
              (all-append (map (popular_option r) r.popular) (custom_option r s.selected_model ∷ [])
                (all-popular r r.popular) refl)
        | inr e' ↦
            rw (e, e')
              (all-append (map (popular_option r) r.popular) [] (all-popular r r.popular) refl)
      ]
]

abbrev pub returned_ready : Result ProviderError (List ModelOption) → Bool
returned_ready (err thrown) = true
returned_ready (ok os) = all is_ready os

pub named-is_ready :
    (p : ProviderProfile) (model : Option String) → is_ready (profile_option p model) ≡ true
named-is_ready p none = refl
named-is_ready p (some model) = elim (Bool-cases (is_empty model)) [
  | inl e ↦ rw e refl
  | inr e ↦ rw e refl
]

pub at_each :
    (p : ProviderProfile) (model : Result ProviderError (Option String))
    (rest : Result ProviderError (List ModelOption))
    → returned_ready rest ≡ true
    → returned_ready (do m ← model; options ← rest; ok (profile_option p m ∷ options)) ≡ true
at_each p (err e) rest h = refl
at_each p (ok m) (err e) h = refl
at_each p (ok m) (ok os) h = rw (named-is_ready p m) h

pub profile_options-ready :
    (ready : String → Bool) (ps : List ProviderProfile)
    → returned_ready (profile_options ready ps) ≡ true
unfolding profile_options
profile_options-ready ready [] = refl
profile_options-ready ready (p ∷ ps) = elim (Bool-cases (is_preset_id p.id || not (ready p.id))) [
  | inl e ↦ rw e (profile_options-ready ready ps)
  | inr e ↦
      rw e
        (at_each p (trimmed p.model_id) (profile_options ready ps) (profile_options-ready ready ps))
]

pub or_true : (b : Bool) → (b || true) ≡ true
or_true true = refl
or_true false = refl

pub any-custom :
    (r : Route) (model : String)
    → any (has_key (model_option_key r.id model)) (custom_option r model ∷ []) ≡ true
any-custom r model = rw (eq_refl (model_option_key r.id model)) refl

pub any-route_options :
    (r : Route) (s : AuthView)
    → s.custom_model_enabled ≡ true
    → is_empty s.selected_model ≡ false
    → any (has_key (model_option_key r.id s.selected_model)) (route_options r s) ≡ true
unfolding route_options
any-route_options r s on h = elim (Bool-cases (is_popular r s.selected_model)) [
  | inl e ↦ rw (on, e, any-append, any-popular r s.selected_model r.popular e) refl
  | inr e ↦
      rw (on, h, e, any-append, any-custom r s.selected_model)
        (or_true (
          any (has_key (model_option_key r.id s.selected_model))
            (map (popular_option r) r.popular)))
]
