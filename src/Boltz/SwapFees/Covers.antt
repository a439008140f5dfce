-- ===== src/Boltz/SwapFees/Covers.antt =====
-- What the total fees of a swap cover.
use bullbitcoin_rnd.Base.{ℕ, ◌+◌, ◌^◌, ◌<◌, ◌≡◌, arith}
use bullbitcoin_rnd.Fees.{FloatLib}
use bullbitcoin_rnd.Fees.Rate.{FloatLaws}
use bullbitcoin_rnd.Boltz.SwapFees.{
  ChainFees, ReverseFees, SubmarineFees, share, boltz_fee, chain_total, reverse_total,
  submarine_total,
}

module _ (floats : FloatLib) (laws : FloatLaws floats) where
  open floats use {◌≼◌, of_u64}

  infix 50 ◌≼◌
  -- Where some fee below 2 ^ 64 covers the share of Boltz, and the whole sum stays below 2 ^ 64, the
  -- total fee of a chain swap covers the share of Boltz besides all three miner fees.
  pub chain_total-covers :
      (fees : ChainFees) (amount enough : ℕ)
      → enough < 2 ^ 64
      → share floats fees.percentage amount ≼ of_u64 enough
      → boltz_fee floats fees.percentage amount
          + fees.miner_fees.user.claim
          + fees.miner_fees.user.lockup
          + fees.miner_fees.server
        < 2 ^ 64
      → (boltz : ℕ) × (share floats fees.percentage amount ≼ of_u64 boltz)
        × (chain_total floats fees amount
            ≡ boltz + fees.miner_fees.user.claim + fees.miner_fees.user.lockup
              + fees.miner_fees.server)
  chain_total-covers fees amount enough fits bound small = (
    boltz_fee floats fees.percentage amount,
    laws.ceil-le (share floats fees.percentage amount) enough fits bound,
    omega arith,
  )

  -- The same of a reverse swap, with its two miner fees.
  pub reverse_total-covers :
      (fees : ReverseFees) (amount enough : ℕ)
      → enough < 2 ^ 64
      → share floats fees.percentage amount ≼ of_u64 enough
      → boltz_fee floats fees.percentage amount + fees.miner_fees.claim + fees.miner_fees.lockup
        < 2 ^ 64
      → (boltz : ℕ) × (share floats fees.percentage amount ≼ of_u64 boltz)
        × (reverse_total floats fees amount
            ≡ boltz + fees.miner_fees.claim + fees.miner_fees.lockup)
  reverse_total-covers fees amount enough fits bound small = (
    boltz_fee floats fees.percentage amount,
    laws.ceil-le (share floats fees.percentage amount) enough fits bound,
    omega arith,
  )

  -- The same of a submarine swap, with its one miner fee.
  pub submarine_total-covers :
      (fees : SubmarineFees) (amount enough : ℕ)
      → enough < 2 ^ 64
      → share floats fees.percentage amount ≼ of_u64 enough
      → boltz_fee floats fees.percentage amount + fees.miner_fees < 2 ^ 64
      → (boltz : ℕ) × (share floats fees.percentage amount ≼ of_u64 boltz)
        × (submarine_total floats fees amount ≡ boltz + fees.miner_fees)
  submarine_total-covers fees amount enough fits bound small = (
    boltz_fee floats fees.percentage amount,
    laws.ceil-le (share floats fees.percentage amount) enough fits bound,
    omega arith,
  )
