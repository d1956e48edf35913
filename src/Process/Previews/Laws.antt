-- ===== src/Process/Previews/Laws.antt =====
-- That a preview is of the artifact that was selected last.
use fleet_agent.Base.{
  ℕ, zero, suc, ◌+◌, ◌<◌, ◌≤◌, ◌≡◌, refl, ap, subst, Bool, Option, none, some, List, [], ◌∷◌, take,
  length, length-take, ltb, nat_eq, arith, Bool-cases, inl, inr, if◌then◌else◌,
}
use fleet_agent.Process.State.{AgentArtifact}
use fleet_agent.Process.Previews.{
  PreviewState, idle, loading, ready, Previews, can_preview, begin_preview, preview_of,
  answer_request,
}

-- Answers that arrive, in their order.
abbrev pub answer_all : List (ℕ × Option (List ℕ)) → Previews → Previews
answer_all [] p = p
answer_all ((number, answer) ∷ rest) p = answer_all rest (answer_request number answer p)

-- What the answers to one request make of a state.
abbrev pub answers_to : ℕ → List (ℕ × Option (List ℕ)) → PreviewState → PreviewState
answers_to number [] state = state
answers_to number ((n, answer) ∷ rest) state =
    answers_to number rest (if nat_eq number n then preview_of answer else state)

answer_all-awaited :
    (answers : List (ℕ × Option (List ℕ))) (r next : ℕ) (state : PreviewState)
    → (answer_all answers (record { state = state; request = some r; next = next })).state
      ≡ answers_to r answers state
unfolding answer_request
answer_all-awaited [] r next state = refl
answer_all-awaited ((n, answer) ∷ rest) r next state = elim (Bool-cases (nat_eq r n)) [
  | inl e ↦ rw (e, answer_all) (answer_all-awaited rest r next (preview_of answer))
  | inr e ↦ rw (e, answer_all) (answer_all-awaited rest r next state)
]

answer_all-unawaited :
    (answers : List (ℕ × Option (List ℕ))) (next : ℕ) (state : PreviewState)
    → (answer_all answers (record { state = state; request = none; next = next })).state ≡ state
unfolding answer_request
answer_all-unawaited [] next state = refl
answer_all-unawaited ((n, answer) ∷ rest) next state = answer_all-unawaited rest next state

-- After the selection of an artifact only the answers to its own request count, in whatever order
-- the answers to earlier ones arrive; an artifact that cannot be previewed leaves the preview idle.
pub begin_preview-answer_all :
    (artifact : Option AgentArtifact) (answers : List (ℕ × Option (List ℕ))) (p : Previews)
    → (answer_all answers (begin_preview artifact p)).state
      ≡ (if can_preview artifact then answers_to p.next answers loading else idle)
unfolding begin_preview
begin_preview-answer_all artifact answers p = elim (Bool-cases (can_preview artifact)) [
  | inl e ↦ rw e (answer_all-awaited answers p.next (p.next + 1) loading)
  | inr e ↦ rw e (answer_all-unawaited answers p.next idle)
]

take-all {ℓ} : {A : Type ℓ} (n : ℕ) (xs : List A) → length xs ≤ n → take n xs ≡ xs
take-all zero [] h = refl
take-all zero (x ∷ xs) h = absurd (omega arith)
take-all (suc n) [] h = refl
take-all (suc n) (x ∷ xs) h = ap (λ ys. x ∷ ys) (take-all n xs (omega arith))

-- What a preview is to the text it was made of.
abbrev IsCut : List ℕ → PreviewState → Type 0
IsCut text (ready content truncated) =
    (length content ≤ 65536) × (if truncated then 65536 < length text else content ≡ text)
IsCut text _ = Unit

preview_of-IsCut : (text : List ℕ) → IsCut text (preview_of (some text))
unfolding preview_of
preview_of-IsCut text = elim (Bool-cases (ltb 65536 (length text))) [
  | inl e ↦ rw e (omega (arith, length-take 65536 text), ground arith)
  | inr e ↦ rw e (omega (arith, length-take 65536 text), take-all 65536 text (ground arith))
]

-- A preview has at most 65536 units, and one that does not say it is cut is the whole text.
preview_of-IsWhole :
    (text content : List ℕ) (truncated : Bool)
    → preview_of (some text) ≡ ready content truncated
    → (length content ≤ 65536) × (if truncated then 65536 < length text else content ≡ text)
preview_of-IsWhole text content truncated h = subst (IsCut text) h (preview_of-IsCut text)
