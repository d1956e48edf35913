-- ===== src/Process/Tabs/Laws.antt =====
-- What the tabs count, offer and show.
use fleet_agent.Base.{
  ℕ, zero, suc, ◌≡◌, refl, sym, ap, ◌∙◌, String, Bool, true, false, Option, none, some, List, [],
  ◌∷◌, length, if◌then◌else◌,
}
use mathlib.Core.Option.{some-injective}
use fleet_agent.Process.State.{AgentWorkspaceState, AgentArtifact}
use fleet_agent.Process.Notice.{said, map_some}
use fleet_agent.Process.Previews.{PreviewState, is_ready}
use fleet_agent.Process.Tabs.{
  map_indexed, sources_tab, artifact_view, artifacts_tab, resolved, resolve_download_url,
  nonempty_text, ProcessPanelTab, activity, sources, artifacts, positive, tab_count, PanelBody,
  sources_body, artifacts_body, no_activity, activity_body, PanelProps, panel_body,
}

-- The number of articles in a tab's body.
abbrev pub articles : PanelBody → ℕ
articles no_activity = 0
articles (activity_body view) = 0
articles (sources_body views) = length views
articles (artifacts_body views) = length views

abbrev pub badge : Option ℕ → ℕ
badge none = 0
badge (some n) = n

length-map_indexed {ℓ κ} :
    {A : Type ℓ} {B : Type κ} (f : ℕ → A → B) (index : ℕ) (xs : List A)
    → length (map_indexed f index xs) ≡ length xs
length-map_indexed f index [] = refl
length-map_indexed f index (x ∷ xs) = ap suc (length-map_indexed f (suc index) xs)

badge_of_positive : (n : ℕ) → badge (positive n) ≡ n
badge_of_positive zero = refl
badge_of_positive (suc n) = refl

-- The badge on a tab counts the articles that the tab shows.
tab_count-articles :
    (has_ag_ui : Bool) (tab : ProcessPanelTab) (p : PanelProps) (state : Option AgentWorkspaceState)
    → badge (tab_count has_ag_ui tab state) ≡ articles (panel_body has_ag_ui tab p state)
unfolding tab_count panel_body sources_tab artifacts_tab
tab_count-articles false activity p state = refl
tab_count-articles false sources p state = refl
tab_count-articles false artifacts p state = refl
tab_count-articles true activity p state = refl
tab_count-articles true sources p state = badge_of_positive _ ∙ sym (length-map_indexed _ 0 _)
tab_count-articles true artifacts p state = badge_of_positive _ ∙ sym (length-map_indexed _ 0 _)

nonempty_text-eq-some :
    (o : Option (List ℕ)) (href : List ℕ) → nonempty_text o ≡ some href → o ≡ some href
nonempty_text-eq-some none href h = cc
nonempty_text-eq-some (some []) href h = cc
nonempty_text-eq-some (some (c ∷ cs)) href h = h

map_some-eq-some {ℓ κ} :
    {A : Type ℓ} {B : Type κ} (f : A → B) (o : Option A) (b : B)
    → map_some f o ≡ some b
    → (a : A) × (o ≡ some a) × (b ≡ f a)
map_some-eq-some f none b h = cc
map_some-eq-some f (some a) b h = (a, refl, some-injective _ _ (sym h))

offered :
    (is_ready : Bool) (o : Option (List ℕ)) (href : List ℕ)
    → (if is_ready then nonempty_text o else none) ≡ some href
    → (is_ready ≡ true) × (o ≡ some href)
offered true o href h = (refl, nonempty_text-eq-some o href h)
offered false o href h = cc

-- A download is offered of a ready artifact with an address only; an address that begins with a slash
-- is resolved against the API, and any other is taken as it is.
artifact_view-download :
    (base href : List ℕ) (selected : Option String) (preview : PreviewState) (baseline index : ℕ)
    (artifact : AgentArtifact)
    → (artifact_view base selected preview baseline index artifact).download ≡ some href
    → (is_ready artifact.status ≡ true)
      × ((url : String) × (said artifact.download_url ≡ some url) × (href ≡ resolved base url))
unfolding artifact_view resolve_download_url
artifact_view-download base href selected preview baseline index artifact h =
    let o =
      offered (is_ready artifact.status) (resolve_download_url base artifact.download_url) href h in
    (o.0, map_some-eq-some (resolved base) (said artifact.download_url) href o.1)
