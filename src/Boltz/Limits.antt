-- ===== src/Boltz/Limits.antt =====
-- src/swaps/boltz.rs: the limits of a pair.
use bullbitcoin_rnd.Base.{ℕ, ◌≤◌, ◌≡◌, arith, ◌↔◌, inl, inr, Bool-cases, ◌<>◌, show, ltb}
use bullbitcoin_rnd.Error.{Error}
use bullbitcoin_rnd.Result.{Result, ok, ◌>>◌, fail_if}

abbrev pub check_limits_within : ℕ → ℕ → ℕ → Result (Unit {0})
check_limits_within maximal minimal output_amount = do
  fail_if (ltb output_amount minimal)
      (Error.protocol ("Output amount is below minimum " <> show minimal))
  fail_if (ltb maximal output_amount)
      (Error.protocol ("Output amount is above maximum " <> show maximal))
  ok tt

pub record PairLimits : Type 0 where
  pub maximal : ℕ
  pub minimal : ℕ
  pub maximal_zero_conf : ℕ

pub record ReverseLimits : Type 0 where
  pub maximal : ℕ
  pub minimal : ℕ

abbrev pub pair_within : PairLimits → ℕ → Result (Unit {0})
pair_within self output_amount = check_limits_within self.maximal self.minimal output_amount

abbrev pub reverse_within : ReverseLimits → ℕ → Result (Unit {0})
reverse_within self output_amount = check_limits_within self.maximal self.minimal output_amount

-- An amount is accepted exactly from the minimum up to the maximum, both included.
pub check_limits_within_iff :
    (maximal minimal amount : ℕ)
    → (check_limits_within maximal minimal amount ≡ ok tt)
      ↔ ((minimal ≤ amount) × (amount ≤ maximal))
check_limits_within_iff maximal minimal amount = elim (Bool-cases (ltb amount minimal)) [
  | inl below ↦ ground (arith, below)
  | inr above ↦ ground (arith, above)
]
