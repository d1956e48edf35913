-- ===== src/Process/Notice/Laws.antt =====
-- When a notice is an alert, and what an alert says.
use fleet_agent.Base.{
  ◌≡◌, refl, sym, ap, ◌∙◌, subst, String, Bool, true, false, not, Option, none, some, List, [], ◌∷◌,
  ◌++◌, ◌==◌, ◌||◌, inl, inr, any, any-append, arith, eq_iff, is_some, Bool-cases, Option-cases,
  if◌then◌else◌,
}
use mathlib.Core.Option.{some-injective}
use fleet_agent.Process.Notice.{
  shown_if_said, lookup, error_code_labels, is_among, normal_terminations, caution_terminations,
  quiet_terminations, normal, caution, quiet, problem, said, reason_tone, notice_tone, error_label,
  notice_copy, NoticeView, notice_view, is_problem, termination_notice,
}

-- The reasons that a run may end with when nothing went wrong.
unfoldable pub is_mild : Option String → Bool
is_mild none = false
is_mild (some reason) =
    is_among (normal_terminations ++ caution_terminations ++ quiet_terminations) reason

three_sets :
    (a b c : Bool)
    → is_problem (if a then normal else if b then caution else if c then quiet else problem)
      ≡ not (a || (b || c))
three_sets a b c = ground arith

reason_tone-is_mild : (o : Option String) → is_problem (reason_tone o) ≡ not (is_mild o)
unfolding is_mild
reason_tone-is_mild none = refl
reason_tone-is_mild (some reason) =
    unfold is_among in
    rw
      (
        any-append (λ t. t == reason) normal_terminations
            (caution_terminations ++ quiet_terminations),
        any-append (λ t. t == reason) caution_terminations quiet_terminations,
      )
      (three_sets (is_among normal_terminations reason) (is_among caution_terminations reason)
        (is_among quiet_terminations reason))

lookup-any :
    (table : List (String × String)) (key v : String)
    → lookup table key ≡ some v
    → any (λ (e : String × String). e.1 == v) table ≡ true
unfolding lookup
lookup-any [] key v h = cc
lookup-any ((k, w) ∷ rest) key v h = ground (arith, lookup-any rest key v, eq_iff w v)

-- The texts that the contract has for error codes.
unfoldable pub is_contract_text : String → Bool
is_contract_text text = any (λ (e : String × String). e.1 == text) error_code_labels

error_label-is_contract_text : (code : String) → is_contract_text (error_label code) ≡ true
unfolding is_contract_text
error_label-is_contract_text code = elim (Option-cases (lookup error_code_labels code)) [
  | inl e ↦ rw e refl
  | inr (v, e) ↦ rw e (lookup-any error_code_labels code v e)
]

notice_view-is_alert :
    (reason code : Option String)
    → (notice_view reason code).is_alert ≡ (is_some (said code) || not (is_mild (said reason)))
unfolding notice_tone
notice_view-is_alert reason code = elim (Option-cases (said code)) [
  | inl e ↦ rw (e, notice_tone) (reason_tone-is_mild (said reason))
  | inr (c, e) ↦ rw (e, notice_tone) refl
]

notice_view-title :
    (reason code : Option String)
    → is_some (said code) ≡ true
    → is_contract_text (notice_view reason code).title ≡ true
unfolding notice_copy
notice_view-title reason code h = elim (Option-cases (said code)) [
  | inl e ↦ absurd (let k = sym (ap (λ (o : Option String). is_some o) e) ∙ h in cc)
  | inr (c, e) ↦ rw (notice_copy, e) (error_label-is_contract_text c)
]

title_if :
    (reason code : Option String)
    → (not (is_some (said code)) || is_contract_text (notice_view reason code).title) ≡ true
title_if reason code = elim (Bool-cases (is_some (said code))) [
  | inl e ↦ rw (e, notice_view-title reason code e) refl
  | inr e ↦ rw e refl
]

shown-eq-some : (a b : Option String) (w v : NoticeView) → shown_if_said a b w ≡ some v → w ≡ v
shown-eq-some none none w v h = cc
shown-eq-some none (some b) w v h = some-injective _ _ h
shown-eq-some (some a) b w v h = some-injective _ _ h

is_some-shown :
    (a b : Option String) (w : NoticeView)
    → is_some (shown_if_said a b w) ≡ (is_some a || is_some b)
is_some-shown none none w = refl
is_some-shown none (some b) w = refl
is_some-shown (some a) b w = refl

-- What an alert is and says.
abbrev pub SaysWhy : Option String → Option String → NoticeView → Type 0
SaysWhy reason code v =
    (v.is_alert ≡ (is_some (said code) || not (is_mild (said reason))))
    × ((not (is_some (said code)) || is_contract_text v.title) ≡ true)

-- A notice is shown exactly when there is a reason or a code. It is an alert exactly when there is an
-- error code or the reason is not one of the mild ones, and with an error code its title is one of
-- the contract's texts.
termination_notice_lem :
    (reason code : Option String) (v : NoticeView)
    → termination_notice reason code ≡ some v
    → ((is_some (said reason) || is_some (said code)) ≡ true) × SaysWhy reason code v
unfolding termination_notice
termination_notice_lem reason code v h = (
  sym (is_some-shown (said reason) (said code) (notice_view reason code))
      ∙ ap (λ (o : Option NoticeView). is_some o) h,
  subst (SaysWhy reason code) (shown-eq-some (said reason) (said code) _ v h)
      (notice_view-is_alert reason code, title_if reason code),
)
