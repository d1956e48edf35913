-- ===== src/Process/Cards/Laws.antt =====
-- When the body of a step's card is open.
use fleet_agent.Base.{
  ◌≡◌, Bool, true, none, some, List, [], ◌∷◌, ◌&&◌, ◌||◌, any, is_some, arith, Bool-cases, inl, inr,
  if◌then◌else◌, ℕ,
}
use fleet_agent.Process.Cards.{
  StepProps, has_details, prefer_open, StepCard, mount_step, render_step, step_view,
}

-- A card that is rendered again and again, from its first properties on.
abbrev pub rendered_through : List StepProps → StepCard → StepCard
rendered_through [] card = card
rendered_through (p ∷ rest) card = rendered_through rest (render_step p card)

-- What the effect preferred last is shown, as long as no one clicks.
abbrev IsUnclicked : StepCard → Type 0
IsUnclicked card = card.preferred ≡ true → card.expanded ≡ true

render_step_lem :
    (p : StepProps) (card : StepCard)
    → IsUnclicked card
    → ((render_step p card).expanded ≡ (card.expanded || prefer_open p))
      × IsUnclicked (render_step p card)
unfolding render_step
render_step_lem p card h = elim (Bool-cases (prefer_open p)) [
  | inl e ↦ elim (Bool-cases card.preferred) [
    | inl f ↦ rw (e, f) (ground arith, λ g. ground arith)
    | inr f ↦ rw (e, f) (ground arith, λ g. ground arith)
  ]
  | inr e ↦ elim (Bool-cases card.preferred) [
    | inl f ↦ rw (e, f) (ground arith, λ g. ground arith)
    | inr f ↦ rw (e, f) (ground arith, λ g. ground arith)
  ]
]

rendered_through_lem :
    (ps : List StepProps) (card : StepCard)
    → IsUnclicked card
    → ((rendered_through ps card).expanded ≡ (card.expanded || any prefer_open ps))
      × IsUnclicked (rendered_through ps card)
rendered_through_lem [] card h = (ground arith, h)
rendered_through_lem (p ∷ rest) card h =
    let r = render_step_lem p card h in
    let k = rendered_through_lem rest (render_step p card) r.1 in (ground (arith, k.0, r.0), k.1)

settled_lem {ℓ} :
    {A : Type ℓ} (d a b c : Bool) (x : A)
    → is_some (if d && ((a || b) || c) then some x else none) ≡ (d && (a || (b || c)))
settled_lem d a b c x = ground arith

-- A card that no one has clicked shows its details exactly when it has details and some render of it
-- so far was of a step that is active or failed, with details.
step_view-body :
    (tie : ℕ → Bool) (first last : StepProps) (ps : List StepProps)
    → is_some (step_view tie last (render_step last (rendered_through ps (mount_step first)))).body
      ≡ (has_details last && (prefer_open first || (any prefer_open ps || prefer_open last)))
unfolding step_view mount_step
step_view-body tie first last ps =
    let k = rendered_through_lem ps (mount_step first) (λ h. h) in
    let r = render_step_lem last (rendered_through ps (mount_step first)) k.1 in
    rw r.0 (
      rw k.0 (
        settled_lem (has_details last) (prefer_open first) (any prefer_open ps) (prefer_open last)
          _))
