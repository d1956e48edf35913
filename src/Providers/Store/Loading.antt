-- ===== src/Providers/Store/Loading.antt =====
-- What `loadProviderStore` returns, whatever is stored, and that loading twice is loading once.
use fleet_agent.Base.{
  ap, sym, String, ◌≡◌, ◌≢◌, refl, ◌∙◌, true, false, Option, none, some, List, [], ◌∷◌, ◌&&◌,
  eq_iff, eq_refl, arith, Bool-cases, Option-cases, inl, inr, find,
}
use fleet_agent.Json.{Json, str}
use fleet_agent.Browser.{Tab, Document, unparsable, parsed, notify}
use fleet_agent.Providers.Profiles.{
  ProviderProfile, ProviderStore, StoredProviderStore, default_store,
}
use fleet_agent.Providers.Profiles.Codec.{read_store, write_store, nullable, read_store-write_store}
use fleet_agent.Providers.Store.{
  is_valid_id, normal_selection, is_selection, write_document, load_valid, load_document,
  load_provider_store, save_provider_store, with_presets, get_profiles, get_active_provider_id,
  is_named, find_active, get_active_profile,
}

-- A selection that loading keeps.
abbrev pub IsNormal : ProviderStore → Type 0
IsNormal s =
    normal_selection s.profiles (some (nullable s.active_provider_id)) ≡ s.active_provider_id

is_selection_refl : (o : Option String) → is_selection o (some (nullable o)) ≡ true
unfolding is_selection
is_selection_refl none = refl
is_selection_refl (some s) = eq_refl s

-- A store that was written is loaded as it is, and nothing is written again.
load_document-write_store :
    (s : ProviderStore) (t : Tab)
    → IsNormal s
    → load_document (some (parsed (write_store s))) t ≡ (t, s)
unfolding load_document load_valid
load_document-write_store s t h =
    rw (read_store-write_store s, load_document) (rw (h, is_selection_refl s.active_provider_id))

normal_selection-IsNormal :
    (ps : List ProviderProfile) (o : Option Json)
    → normal_selection ps (some (nullable (normal_selection ps o))) ≡ normal_selection ps o
unfolding normal_selection
normal_selection-IsNormal ps (some (str s)) = ground arith
normal_selection-IsNormal ps none = refl
normal_selection-IsNormal ps (some _) = refl

-- The store that loading returns is normal, on every branch.
load_document-IsNormal : (d : Option Document) (t : Tab) → IsNormal (load_document d t).1
unfolding load_document load_valid
load_document-IsNormal none t = unfold normal_selection in refl
load_document-IsNormal (some unparsable) t = unfold normal_selection in refl
load_document-IsNormal (some (parsed j)) t = elim (Option-cases (read_store j)) [
  | inl e ↦ rw (e, load_document) (unfold normal_selection in refl)
  | inr (stored, e) ↦
      rw (e, load_document) (normal_selection-IsNormal stored.profiles stored.active_provider_id)
]

pub load-IsNormal : (t : Tab) → IsNormal (load_provider_store t).1
unfolding load_provider_store
load-IsNormal t = elim (Bool-cases (t.window && t.local.readable)) [
  | inl e ↦ rw e (load_document-IsNormal t.document t)
  | inr e ↦ rw e (unfold normal_selection in refl)
]

valid_of_IsNormal :
    (s : ProviderStore) (id : String)
    → IsNormal s
    → s.active_provider_id ≡ some id
    → (is_valid_id id s.profiles ≡ true) × (id ≢ "server")
unfolding normal_selection
valid_of_IsNormal s id n h = (ground arith, ground (arith, eq_iff id "server"))

-- Whatever the storage holds, the selection that is loaded is `null`, or names a preset or a stored
-- profile and is not "server".
pub load-valid_selection :
    (t : Tab) (id : String)
    → (load_provider_store t).1.active_provider_id ≡ some id
    → (is_valid_id id (load_provider_store t).1.profiles ≡ true) × (id ≢ "server")
load-valid_selection t id h = valid_of_IsNormal (load_provider_store t).1 id (load-IsNormal t) h

-- Whether or not the write was taken, loading after it gives the store that was to be written.
load_document-write_document :
    (s : ProviderStore) (t : Tab)
    → IsNormal s
    → load_document t.document t ≡ (write_document s t, s)
    → load_document (write_document s t).document (write_document s t) ≡ (write_document s t, s)
unfolding write_document
load_document-write_document s t n h = elim (Bool-cases (t.accepts_document (write_store s))) [
  | inl e ↦
      rw e (load_document-write_store s (record t { document = some (parsed (write_store s)) }) n)
  | inr e ↦ rw e (h ∙ rw e)
]

load_valid-again :
    (stored : StoredProviderStore) (t : Tab)
    → load_document t.document t ≡ load_valid stored t
    → load_document (load_valid stored t).0.document (load_valid stored t).0 ≡ load_valid stored t
unfolding load_valid
load_valid-again stored t h =
    let active = normal_selection stored.profiles stored.active_provider_id in
    elim (Bool-cases (is_selection active stored.active_provider_id)) [
      | inl e ↦ rw e (h ∙ rw e)
      | inr e ↦ rw e (
          load_document-write_document
            (record { profiles = stored.profiles; active_provider_id = active }) t
            (normal_selection-IsNormal stored.profiles stored.active_provider_id) (h ∙ rw e))
    ]

load_document-again :
    (d : Option Document) (t : Tab)
    → t.document ≡ d
    → load_document (load_document d t).0.document (load_document d t).0 ≡ load_document d t
unfolding load_document
load_document-again none t h =
    load_document-write_document default_store t (unfold normal_selection in refl) (rw h)
load_document-again (some unparsable) t h = rw h
load_document-again (some (parsed j)) t h = elim (Option-cases (read_store j)) [
  | inl e ↦ rw (e, load_document) (rw h (rw (e, load_document)))
  | inr (stored, e) ↦
      rw (e, load_document) (load_valid-again stored t (rw h (rw (e, load_document))))
]

load_document-keeps :
    (d : Option Document) (t : Tab)
    → ((load_document d t).0.window ≡ t.window)
      × ((load_document d t).0.local ≡ t.local)
      × ((load_document d t).0.listeners ≡ t.listeners)
      × ((load_document d t).0.calls ≡ t.calls)
      × ((load_document d t).0.accepts_document ≡ t.accepts_document)
unfolding load_document load_valid write_document
load_document-keeps d t = ground arith

pub load_of_readable :
    (t : Tab)
    → (t.window && t.local.readable) ≡ true
    → load_provider_store t ≡ load_document t.document t
unfolding load_provider_store
load_of_readable t e = rw e

pub load_of_unreadable :
    (t : Tab) → (t.window && t.local.readable) ≡ false → load_provider_store t ≡ (t, default_store)
unfolding load_provider_store
load_of_unreadable t e = rw e

-- Loading a second time returns the same store and writes nothing new.
pub load_idem : (t : Tab) → load_provider_store (load_provider_store t).0 ≡ load_provider_store t
load_idem t = elim (Bool-cases (t.window && t.local.readable)) [
  | inl e ↦
      let keeps = load_document-keeps t.document t in
      rw (load_of_readable t e) (
        load_of_readable (load_document t.document t).0 (simp (keeps.0, keeps.1) e)
        ∙ load_document-again t.document t refl)
  | inr e ↦ rw (load_of_unreadable t e) (load_of_unreadable t e)
]

-- Loading calls no listener and leaves all but the stored document.
pub load-keeps :
    (t : Tab)
    → ((load_provider_store t).0.window ≡ t.window)
      × ((load_provider_store t).0.local ≡ t.local)
      × ((load_provider_store t).0.listeners ≡ t.listeners)
      × ((load_provider_store t).0.calls ≡ t.calls)
      × ((load_provider_store t).0.accepts_document ≡ t.accepts_document)
unfolding load_provider_store
load-keeps t = ground (arith, load_document-keeps t.document t)

-- A tab in which the store can be read, and this one written.
pub record CanSave (s : ProviderStore) (t : Tab) : Type 0 where
  pub window : t.window ≡ true
  pub readable : t.local.readable ≡ true
  pub accepted : t.accepts_document (write_store s) ≡ true

-- A store with a normal selection that was saved is loaded back as it was, and stays as it is.
pub load-save :
    (s : ProviderStore) (t : Tab)
    → CanSave s t
    → IsNormal s
    → load_provider_store (save_provider_store s t) ≡ (save_provider_store s t, s)
unfolding load_provider_store save_provider_store notify
load-save s t c n = ground (arith, load_document-write_store s (save_provider_store s t) n)

find_active_lem :
    (ps : List ProviderProfile) (t : Tab) (s : ProviderStore)
    → load_provider_store t ≡ (t, s)
    → find_active ps t ≡ (t, find (is_named s.active_provider_id) ps)
unfolding find_active get_active_provider_id
find_active_lem [] t s h = refl
find_active_lem (p ∷ ps) t s h = ground (arith, find_active_lem ps t s h)

-- `getActiveProfile` finds the profile that the loaded selection names, and loading the selection
-- for every profile that it tests makes no difference.
pub get_active_profile-find :
    (t : Tab)
    → get_active_profile t ≡ (
      (load_provider_store t).0,
      find
          (is_named (load_provider_store t).1.active_provider_id)
          (with_presets (load_provider_store t).1.profiles),
    )
unfolding get_active_profile get_profiles
get_active_profile-find t =
    find_active_lem (with_presets (load_provider_store t).1.profiles) (load_provider_store t).0
      (load_provider_store t).1 (load_idem t)

load_document-store :
    (d : Option Document) (t u : Tab) → (load_document d t).1 ≡ (load_document d u).1
unfolding load_document load_valid
load_document-store none t u = refl
load_document-store (some unparsable) t u = refl
load_document-store (some (parsed j)) t u = elim (Option-cases (read_store j)) [
  | inl e ↦ rw (e, load_document) refl
  | inr (stored, e) ↦ rw (e, load_document) refl
]

-- Tabs with the same document load the same store.
pub load_same :
    (t u : Tab)
    → t.window ≡ u.window
    → t.local.readable ≡ u.local.readable
    → t.document ≡ u.document
    → (load_provider_store t).1 ≡ (load_provider_store u).1
load_same t u hw hr hd = elim (Bool-cases (u.window && u.local.readable)) [
  | inl e ↦
      ap (λ (r : Tab × ProviderStore). r.1) (load_of_readable t (ground arith))
      ∙ load_document-store t.document t u
      ∙ ap (λ d. (load_document d u).1) hd
      ∙ sym (ap (λ (r : Tab × ProviderStore). r.1) (load_of_readable u e))
  | inr e ↦
      ap (λ (r : Tab × ProviderStore). r.1) (load_of_unreadable t (ground arith))
      ∙ sym (ap (λ (r : Tab × ProviderStore). r.1) (load_of_unreadable u e))
]
