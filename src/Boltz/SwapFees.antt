-- ===== src/Boltz/SwapFees.antt =====
-- src/swaps/boltz.rs: what a swap costs. The sums are on `u64`, in a build without overflow checks.
pub mod Covers
use bullbitcoin_rnd.Base.{ℕ, ◌+◌, ◌%◌, ◌^◌}
use bullbitcoin_rnd.Fees.{F64, FloatLib}

abbrev pub add_u64 : ℕ → ℕ → ℕ
add_u64 a b = (a + b) % 2 ^ 64

pub record PairMinerFees : Type 0 where
  pub lockup : ℕ
  pub claim : ℕ

pub record ChainMinerFees : Type 0 where
  pub server : ℕ
  pub user : PairMinerFees

pub record ChainFees : Type 0 where
  pub percentage : F64
  pub miner_fees : ChainMinerFees

pub record ReverseFees : Type 0 where
  pub percentage : F64
  pub miner_fees : PairMinerFees

pub record SubmarineFees : Type 0 where
  pub percentage : F64
  pub miner_fees : ℕ

module _ (floats : FloatLib) where
  open floats use {of_u64, mul, div, ceil, to_u64}

  -- `(percentage / 100.0) * amount as f64`
  abbrev pub share : F64 → ℕ → F64
  share percentage amount_sat = mul (div percentage (of_u64 100)) (of_u64 amount_sat)

  -- The method `boltz` of all three: rounded up to whole satoshis.
  abbrev pub boltz_fee : F64 → ℕ → ℕ
  boltz_fee percentage amount_sat = to_u64 (ceil (share percentage amount_sat))

  abbrev pub chain_total : ChainFees → ℕ → ℕ
  chain_total self amount_sat =
      let fees = self.miner_fees in
      add_u64
        (add_u64 (add_u64 (boltz_fee self.percentage amount_sat) fees.user.claim) fees.user.lockup)
        fees.server

  abbrev pub reverse_total : ReverseFees → ℕ → ℕ
  reverse_total self invoice_amount_sat =
      add_u64 (add_u64 (boltz_fee self.percentage invoice_amount_sat) self.miner_fees.claim)
        self.miner_fees.lockup

  abbrev pub submarine_total : SubmarineFees → ℕ → ℕ
  submarine_total self invoice_amount_sat =
      add_u64 (boltz_fee self.percentage invoice_amount_sat) self.miner_fees
