-- ===== src/Fees.antt =====
-- src/util/fees.rs: the fee of a transaction that is still to be built.
pub mod Rate
use bullbitcoin_rnd.Base.{ℕ}
use bullbitcoin_rnd.Result.{Result, ◌>>=◌}

-- An `f64` is its bit pattern. Its operations are the machine's, so they are parameters.
abbrev pub F64 : Type 0
F64 = ℕ

pub record FloatLib : Type 1 where
  pub of_u64 : ℕ → F64
  pub mul : F64 → F64 → F64
  pub div : F64 → F64 → F64
  pub ceil : F64 → F64
  -- `as u64`
  pub to_u64 : F64 → ℕ
  -- the order `<=` of floats
  pub ◌≼◌ : F64 → F64 → Type 0

-- sat/vByte, or satoshis
pub data Fee : Type 0 where
  relative : F64 → Fee
  absolute : ℕ → Fee

-- `(vsize as f64 * fee).ceil() as u64`
abbrev pub fee_of : FloatLib → F64 → ℕ → ℕ
fee_of lib rate vsize = lib.to_u64 (lib.ceil (lib.mul (lib.of_u64 vsize) rate))

unfoldable pub create_tx_with_fee {ℓ} :
    {T : Type ℓ} → FloatLib → Fee → (ℕ → Result T) → (T → ℕ) → Result T
create_tx_with_fee lib (relative rate) tx_constructor get_vsize = do
  draft ← tx_constructor 1
  tx_constructor (fee_of lib rate (get_vsize draft))
create_tx_with_fee lib (absolute fee) tx_constructor get_vsize = tx_constructor fee
