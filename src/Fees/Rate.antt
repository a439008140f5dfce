-- ===== src/Fees/Rate.antt =====
-- The fee that `create_tx_with_fee` settles on.
use bullbitcoin_rnd.Base.{ℕ, ◌<◌, ◌^◌, ◌≡◌}
use bullbitcoin_rnd.Result.{Result, ok, bind-eq-ok}
use bullbitcoin_rnd.Fees.{F64, FloatLib, Fee, relative, absolute, fee_of, create_tx_with_fee}

module _ (lib : FloatLib) where
  open lib use {◌≼◌, of_u64, ceil, to_u64}

  infix 50 ◌≼◌
  -- Rounding up: a float that is not above some `u64` is at most the `u64` that it rounds up to.
  pub record FloatLaws : Type 0 where
    pub ceil-le : (x : F64) (n : ℕ) → n < 2 ^ 64 → x ≼ of_u64 n → x ≼ of_u64 (to_u64 (ceil x))

module _ {ℓ} {T : Type ℓ} (lib : FloatLib) (tx_constructor : ℕ → Result T) (get_vsize : T → ℕ) where
  open lib use {◌≼◌, of_u64, mul}

  infix 50 ◌≼◌
  -- The transaction that is returned was built for some fee.
  pub create_tx_with_fee-built :
      (fee : Fee) (tx : T)
      → create_tx_with_fee lib fee tx_constructor get_vsize ≡ ok tx
      → (absolute_fee : ℕ) × (tx_constructor absolute_fee ≡ ok tx)
  unfolding create_tx_with_fee
  create_tx_with_fee-built (relative rate) tx e =
      let (draft, drafted, built) = bind-eq-ok (tx_constructor 1) _ e in
      (fee_of lib rate (get_vsize draft), built)
  create_tx_with_fee-built (absolute fee) tx e = (fee, e)

  -- Where the size does not depend on the fee, a transaction built for a rate pays at least its own
  -- size times the rate, if some 64-bit fee would.
  pub create_tx_with_fee-relative :
      (rate : F64) (enough : ℕ) (tx : T)
      → FloatLaws lib
      → ((a b : ℕ) (s t : T)
          → tx_constructor a ≡ ok s
          → tx_constructor b ≡ ok t
          → get_vsize s ≡ get_vsize t)
      → enough < 2 ^ 64
      → mul (of_u64 (get_vsize tx)) rate ≼ of_u64 enough
      → create_tx_with_fee lib (relative rate) tx_constructor get_vsize ≡ ok tx
      → (fee : ℕ) × (tx_constructor fee ≡ ok tx) × (mul (of_u64 (get_vsize tx)) rate ≼ of_u64 fee)
  unfolding create_tx_with_fee
  create_tx_with_fee-relative rate enough tx laws same fits bound e =
      let (draft, drafted, built) = bind-eq-ok (tx_constructor 1) _ e in
      let fee = fee_of lib rate (get_vsize draft) in
      let size = same 1 fee draft tx drafted built in
      (fee, built, rw size (laws.ceil-le (mul (of_u64 (get_vsize tx)) rate) enough fits bound))
