-- ===== src/Threads/Head/Retry.antt =====
-- When a head is reported as persisted, and how many requests that takes.
use fleet_agent.Base.{
  ℕ, zero, suc, ◌≤◌, ◌≡◌, ◌↔◌, refl, Bool, true, false, if◌then◌else◌, arith, Bool-cases, inl, inr,
  ◌⊎◌,
}
use fleet_agent.Threads.Head.{
  Attempt, Round, answered, retried, round, sent, persist_from, persist_thread_head_with_retry,
}

-- The server took the head, and it was current from the first to the last test.
pub record Persists (a : Attempt) : Type 0 where
  pub current : a.current ≡ true
  pub written : a.written ≡ true
  pub current_when_written : a.current_when_written ≡ true
  pub accepted : a.accepted ≡ true
  pub current_when_accepted : a.current_when_accepted ≡ true

-- The write or the request failed while the head was current.
pub record Fails (a : Attempt) : Type 0 where
  pub current : a.current ≡ true
  pub failed : (a.written ≡ false) ⊎ ((a.current_when_written ≡ true) × (a.accepted ≡ false))
  pub current_when_failed : a.current_when_failed ≡ true

round-answered_true : (a : Attempt) (last : Bool) → (round a last ≡ answered true) ↔ Persists a
unfolding round
round-answered_true a last = (
  λ h. record {
    current = ground arith;
    written = ground arith;
    current_when_written = ground arith;
    accepted = ground arith;
    current_when_accepted = ground arith;
  },
  λ p.
      rw (p.current, p.written)
        (rw (p.current_when_written) (rw (p.accepted) (rw (p.current_when_accepted) refl))),
)

round-retried : (a : Attempt) → (round a false ≡ retried) ↔ Fails a
unfolding round
round-retried a = (
  λ h. record {
    current = ground arith;
    failed = elim (Bool-cases a.written) [
      | inl e ↦ inr (ground arith, ground arith)
      | inr e ↦ inl e
    ];
    current_when_failed = ground arith;
  },
  λ p. elim p.failed [
    | inl e ↦ rw (p.current, e, p.current_when_failed) refl
    | inr (e, e') ↦ elim (Bool-cases a.written) [
      | inl w ↦ rw (p.current, w) (rw e (rw (e', p.current_when_failed) refl))
      | inr w ↦ rw (p.current, w, p.current_when_failed) refl
    ]
  ],
)

round-last : (a : Attempt) → round a true ≡ retried → ⊥
unfolding round
round-last a h = ground arith

Round-cases : (r : Round) → (r ≡ answered true) ⊎ ((r ≡ answered false) ⊎ (r ≡ retried))
Round-cases (answered true) = inl refl
Round-cases (answered false) = inr (inl refl)
Round-cases retried = inr (inr refl)

-- Some attempt from this one on, after failures alone, persists the head.
pub data Succeeds (attempts : ℕ → Attempt) : ℕ → ℕ → Type 0 where
  now : {attempt left : ℕ} → Persists (attempts attempt) → Succeeds attempts attempt left
  later :
      {attempt left : ℕ}
      → Fails (attempts attempt)
      → Succeeds attempts (suc attempt) left
      → Succeeds attempts attempt (suc left)

persist_from-Succeeds :
    (attempts : ℕ → Attempt) (attempt left : ℕ)
    → (persist_from attempts attempt left).0 ≡ true
    → Succeeds attempts attempt left
unfolding persist_from
persist_from-Succeeds attempts attempt zero h = elim (Round-cases (round (attempts attempt) true)) [
  | inl e ↦ now ((round-answered_true (attempts attempt) true).0 e)
  | inr (inl e) ↦ absurd (ground arith)
  | inr (inr e) ↦ absurd (round-last (attempts attempt) e)
]
persist_from-Succeeds attempts attempt (suc left) h =
    elim (Round-cases (round (attempts attempt) false)) [
      | inl e ↦ now ((round-answered_true (attempts attempt) false).0 e)
      | inr (inl e) ↦ absurd (ground arith)
      | inr (inr e) ↦
          later ((round-retried (attempts attempt)).0 e)
            (persist_from-Succeeds attempts (suc attempt) left (ground arith))
    ]

Succeeds-persist_from :
    (attempts : ℕ → Attempt) (attempt left : ℕ)
    → Succeeds attempts attempt left
    → (persist_from attempts attempt left).0 ≡ true
unfolding persist_from
Succeeds-persist_from attempts attempt zero (now p) =
    rw ((round-answered_true (attempts attempt) true).1 p, persist_from) refl
Succeeds-persist_from attempts attempt (suc left) (now p) =
    rw ((round-answered_true (attempts attempt) false).1 p, persist_from) refl
Succeeds-persist_from attempts attempt (suc left) (later p s) =
    rw ((round-retried (attempts attempt)).1 p, persist_from)
      (Succeeds-persist_from attempts (suc attempt) left s)

-- The result is `true` exactly if some attempt within the retries persists the head, the attempts
-- before it having failed while the head was current.
pub persist-Succeeds :
    (max_retries : ℕ) (attempts : ℕ → Attempt)
    → ((persist_thread_head_with_retry max_retries attempts).0 ≡ true)
      ↔ Succeeds attempts 0 max_retries
unfolding persist_thread_head_with_retry
persist-Succeeds max_retries attempts =
    (persist_from-Succeeds attempts 0 max_retries, Succeeds-persist_from attempts 0 max_retries)

sent-le : (a : Attempt) → sent a ≤ 1
unfolding sent
sent-le a = ground arith

persist_from-requests :
    (attempts : ℕ → Attempt) (attempt left : ℕ) → (persist_from attempts attempt left).1 ≤ suc left
unfolding persist_from
persist_from-requests attempts attempt zero = ground (arith, sent-le (attempts attempt))
persist_from-requests attempts attempt (suc left) =
    ground (arith, sent-le (attempts attempt), persist_from-requests attempts (suc attempt) left)

persist_from_superseded :
    (attempts : ℕ → Attempt) (attempt left : ℕ)
    → (attempts attempt).current ≡ false
    → (persist_from attempts attempt left).1 ≡ 0
unfolding persist_from round sent
persist_from_superseded attempts attempt zero h = ground arith
persist_from_superseded attempts attempt (suc left) h = ground arith

-- A head that is superseded before the loop starts is never sent; otherwise no more requests are
-- sent than one and the retries.
persist-requests :
    (max_retries : ℕ) (attempts : ℕ → Attempt)
    → (persist_thread_head_with_retry max_retries attempts).1
      ≤ (if (attempts 0).current then suc max_retries else 0)
unfolding persist_thread_head_with_retry
persist-requests max_retries attempts = ground (
  arith,
  persist_from-requests attempts 0 max_retries,
  persist_from_superseded attempts 0 max_retries,
)
