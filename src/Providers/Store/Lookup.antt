-- ===== src/Providers/Store/Lookup.antt =====
-- The search of the profiles by an id, and what each edit of providers-store.ts does to it.
use fleet_agent.Base.{
  String, ◌≡◌, refl, true, false, Option, none, some, List, [], ◌∷◌, ◌++◌, ◌==◌, ◌||◌, ◌&&◌, eq_iff,
  arith, Bool-cases, ◌⊎◌, inl, inr, find, is_some, if◌then◌else◌,
}
use fleet_agent.Providers.Profiles.{
  ProviderProfile, is_preset_id, openrouter_profile_id, opencode_zen_profile_id, openrouter_profile,
  opencode_zen_profile, build_preset_profile,
}
use fleet_agent.Providers.Store.{has_profile, with_presets, replace_profile, upsert}

abbrev pub by_id : String → List ProviderProfile → Option ProviderProfile
by_id id ps = find (λ p. p.id == id) ps

has_profile-by_id :
    (id : String) (ps : List ProviderProfile)
    → (has_profile id ps ≡ false)
      ⊎ ((p : ProviderProfile) × (by_id id ps ≡ some p) × (has_profile id ps ≡ true))
unfolding has_profile
has_profile-by_id id [] = inl refl
has_profile-by_id id (p ∷ ps) = elim (Bool-cases (p.id == id)) [
  | inl e ↦ inr (p, rw e, rw e)
  | inr e ↦ rw e (has_profile-by_id id ps)
]

pub has_profile-eq-by_id :
    (id : String) (ps : List ProviderProfile) → has_profile id ps ≡ is_some (by_id id ps)
unfolding has_profile
has_profile-eq-by_id id [] = refl
has_profile-eq-by_id id (p ∷ ps) = ground (arith, has_profile-eq-by_id id ps)

by_id-eq-none :
    (id : String) (ps : List ProviderProfile) → has_profile id ps ≡ false → by_id id ps ≡ none
unfolding has_profile
by_id-eq-none id [] h = refl
by_id-eq-none id (p ∷ ps) h = ground (arith, by_id-eq-none id ps)

by_id-append :
    (id : String) (ps qs : List ProviderProfile)
    → by_id id (ps ++ qs) ≡ (if has_profile id ps then by_id id ps else by_id id qs)
unfolding has_profile
by_id-append id [] qs = refl
by_id-append id (p ∷ ps) qs = ground (arith, by_id-append id ps qs)

has_profile-append :
    (id : String) (ps qs : List ProviderProfile)
    → has_profile id (ps ++ qs) ≡ (has_profile id ps || has_profile id qs)
unfolding has_profile
has_profile-append id [] qs = refl
has_profile-append id (p ∷ ps) qs = ground (arith, has_profile-append id ps qs)

by_id-replace_profile :
    (id k : String) (r : ProviderProfile) (ps : List ProviderProfile)
    → r.id ≡ k
    → by_id id (replace_profile k r ps)
      ≡ (if k == id && has_profile k ps then some r else by_id id ps)
unfolding has_profile replace_profile
by_id-replace_profile id k r [] h = ground arith
by_id-replace_profile id k r (q ∷ qs) h = ground (
  arith,
  by_id-replace_profile id k r qs,
  eq_iff q.id k,
  eq_iff q.id id,
  eq_iff k id,
  eq_iff r.id id,
)

-- An entry replaced, or put at one end of the list: what a reader then finds.
by_id-replaced :
    (id : String) (r : ProviderProfile) (ps : List ProviderProfile)
    → has_profile r.id ps ≡ true
    → by_id id (replace_profile r.id r ps) ≡ (if r.id == id then some r else by_id id ps)
by_id-replaced id r ps h = ground (arith, by_id-replace_profile id r.id r ps)

by_id-appended :
    (id : String) (r : ProviderProfile) (ps : List ProviderProfile)
    → has_profile r.id ps ≡ false
    → by_id id (ps ++ r ∷ []) ≡ (if r.id == id then some r else by_id id ps)
by_id-appended id r ps h =
    ground (arith, by_id-append id ps (r ∷ []), eq_iff r.id id, by_id-eq-none id ps)

-- The profile that an upsert leaves under its id.
abbrev pub canonical : ProviderProfile → ProviderProfile
canonical p = if is_preset_id p.id then build_preset_profile p.id p else p

build_preset_profile-id :
    (p : ProviderProfile) → is_preset_id p.id ≡ true → (build_preset_profile p.id p).id ≡ p.id
unfolding build_preset_profile
build_preset_profile-id p h = ground (arith, eq_iff p.id "openrouter", eq_iff p.id "opencode-zen")

upsert-preset :
    (id : String) (p r : ProviderProfile) (ps : List ProviderProfile)
    → r.id ≡ p.id
    → by_id id (if has_profile p.id ps then replace_profile p.id r ps else r ∷ ps)
      ≡ (if p.id == id then some r else by_id id ps)
upsert-preset id p r ps h = elim (Bool-cases (has_profile p.id ps)) [
  | inl e ↦ rw e (ground (arith, by_id-replace_profile id p.id r ps))
  | inr e ↦ rw e (ground arith)
]

-- After an upsert a reader finds the canonical profile under its id, and every other id as before.
pub by_id-upsert :
    (id : String) (p : ProviderProfile) (ps : List ProviderProfile)
    → by_id id (upsert p ps) ≡ (if p.id == id then some (canonical p) else by_id id ps)
unfolding upsert
by_id-upsert id p ps = elim (Bool-cases (is_preset_id p.id)) [
  | inl e ↦ rw e (upsert-preset id p (build_preset_profile p.id p) ps (build_preset_profile-id p e))
  | inr e ↦ rw e (elim (Bool-cases (has_profile p.id ps)) [
    | inl h ↦ rw h (by_id-replaced id p ps h)
    | inr h ↦ rw h (by_id-appended id p ps h)
  ])
]

-- The preset that stands in for a missing profile.
abbrev pub preset : String → Option ProviderProfile
preset id =
    if id == openrouter_profile_id
    then some openrouter_profile
    else if id == opencode_zen_profile_id
    then some opencode_zen_profile
    else none

abbrev pub or_preset : String → Option ProviderProfile → Option ProviderProfile
or_preset id none = preset id
or_preset id (some p) = some p

with_openrouter :
    (id : String) (ps : List ProviderProfile)
    → by_id id (if has_profile openrouter_profile_id ps then ps else openrouter_profile ∷ ps)
      ≡ (if id == openrouter_profile_id then or_preset id (by_id id ps) else by_id id ps)
with_openrouter id ps = ground (
  arith,
  has_profile-eq-by_id openrouter_profile_id ps,
  eq_iff id openrouter_profile_id,
  eq_iff openrouter_profile_id id,
)

-- `getProfiles` shows each stored profile, and a preset in place of one that is not stored.
pub by_id-with_presets :
    (id : String) (ps : List ProviderProfile)
    → by_id id (with_presets ps) ≡ or_preset id (by_id id ps)
unfolding with_presets
by_id-with_presets id ps =
    let first = (if has_profile openrouter_profile_id ps then ps else openrouter_profile ∷ ps) in
    ground (
      arith,
      with_openrouter id ps,
      by_id-append id first (opencode_zen_profile ∷ []),
      has_profile-eq-by_id opencode_zen_profile_id first,
      has_profile-eq-by_id id first,
      eq_iff id opencode_zen_profile_id,
      eq_iff opencode_zen_profile_id id,
      eq_iff id openrouter_profile_id,
    )
