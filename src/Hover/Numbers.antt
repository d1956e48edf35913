-- ===== src/Hover/Numbers.antt =====
-- The operations of JavaScript's numbers that the hook uses, and what the proofs need of them, which
-- IEEE 754 gives, NaN included.
use fleet_agent.Base.{◌≡◌, Bool, true, false}

pub record Numbers : Type 1 where
  pub N : Type 0
  pub zero_num : N
  pub one_num : N
  pub two_num : N
  pub infinity : N
  pub add : N → N → N
  pub sub : N → N → N
  pub mul : N → N → N
  pub div : N → N → N
  pub abs : N → N
  pub hypot : N → N → N
  pub lt : N → N → Bool
  pub le : N → N → Bool
  pub lt_irrefl : (a : N) → lt a a ≡ false
  pub lt_trans : (a b c : N) → lt a b ≡ true → lt b c ≡ true → lt a c ≡ true
