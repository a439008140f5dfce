-- ===== src/Liquid/Blind/Ends.antt =====
-- When the outputs of a Liquid claim or refund can be blinded.
use bullbitcoin_rnd.Base.{ℕ, ◌-◌, ◌≤◌, ◌≡◌, refl, arith, true, some, [], ◌∷◌, Bytes, leb}
use bullbitcoin_rnd.Result.{ok}
use bullbitcoin_rnd.Liquid.Crate.{TxOutSecrets, BlindedAsset, BlindedValue, ElementsLib}
use bullbitcoin_rnd.Liquid.SwapTx.{LBtcSwapTx}
use bullbitcoin_rnd.Liquid.Blind.{BlindEntropy, Outputs, blinded_output, final_vbf, blinded_outputs}

module _ (lib : ElementsLib) where
  -- The funding output opens to at least the fee, the output address is confidential, and the asset and
  -- what is left of the value can be blinded for it.
  pub record IsBlindable (self : LBtcSwapTx) (fee : ℕ) (draws : BlindEntropy) : Type 0 where
    pub unblinded : TxOutSecrets
    pub asset : BlindedAsset
    pub blinding_key : Bytes
    pub value : BlindedValue
    pub opens :
        lib.unblind self.funding_utxo (lib.secret_key self.swap_script.blinding_key) ≡ ok unblinded
    pub covers : fee ≤ unblinded.value
    pub blinds :
        lib.blind_asset draws.surjection_seed unblinded.asset draws.out_abf (unblinded ∷ [])
        ≡ ok asset
    pub is_key : lib.blinding_pubkey self.output_address ≡ some blinding_key
    pub hides :
        lib.blind_value
          (unblinded.value - fee)
          (final_vbf lib (unblinded.value - fee) draws.out_abf unblinded fee)
          blinding_key
          draws.ephemeral_sk
          (lib.script_pubkey self.output_address)
          unblinded.asset
          draws.out_abf
        ≡ ok value

  covered : (a b : ℕ) → b ≤ a → leb b a ≡ true
  covered a b low = ground arith

  pub blinded_outputs-ends :
      (self : LBtcSwapTx) (fee : ℕ) (draws : BlindEntropy)
      → IsBlindable self fee draws
      → (outputs : Outputs) × (blinded_outputs lib self fee draws ≡ ok outputs)
  unfolding blinded_outputs
  blinded_outputs-ends self fee draws h = (
    record {
      payment = blinded_output (lib.script_pubkey self.output_address) h.asset h.value;
      fee = lib.new_fee fee h.unblinded.asset;
    },
    rw (h.opens, h.blinds, covered h.unblinded.value fee h.covers, h.is_key, h.hides) refl,
  )
