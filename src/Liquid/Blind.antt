-- ===== src/Liquid/Blind.antt =====
-- The two outputs of a Liquid claim or refund: a blinded payment, and the fee in the open.
pub mod Balanced
pub mod Ends
use bullbitcoin_rnd.Base.{
  ℕ, ◌-◌, Bool, true, false, some, List, [], ◌∷◌, String, Bytes, leb, if◌then◌else◌,
}
use bullbitcoin_rnd.Error.{Error}
use bullbitcoin_rnd.Result.{Result, ok, panic, ◌>>=◌, ok_or}
use bullbitcoin_rnd.Liquid.Crate.{
  TxOut, TxOutSecrets, BlindedAsset, BlindedValue, Factors, ElementsLib,
}
use bullbitcoin_rnd.Liquid.SwapTx.{LBtcSwapTx}
use bullbitcoin_rnd.Script.Instruction.{Script}

-- What building one transaction draws: the factor of the asset, the seed of its proof, and the key
-- that the nonce is made from.
pub record BlindEntropy : Type 0 where
  pub out_abf : Bytes
  pub surjection_seed : Bytes
  pub ephemeral_sk : Bytes

pub record Outputs : Type 0 where
  pub payment : TxOut
  pub fee : TxOut

-- `Amount - Amount`, which panics below zero.
abbrev pub sub_amount : ℕ → ℕ → Result ℕ
sub_amount a b = if leb b a then ok (a - b) else panic "Amount subtraction error"

abbrev pub blinded_output : Script → BlindedAsset → BlindedValue → TxOut
blinded_output script_pubkey asset value = record {
  script_pubkey = script_pubkey;
  value = value.value;
  asset = asset.asset;
  nonce = value.nonce;
  witness = record {
    surjection_proof = some asset.surjection_proof;
    rangeproof = some value.rangeproof;
  };
}

module _ (lib : ElementsLib) where
  open lib use {
    script_pubkey, blinding_pubkey, secret_key, unblind, blind_asset, last_value_bf, zero_asset_bf,
    zero_value_bf, blind_value, new_fee,
  }

  -- The factor that makes the commitments of a payment balance those of what it spends.
  abbrev pub final_vbf : ℕ → Bytes → TxOutSecrets → ℕ → Bytes
  final_vbf output_value out_abf unblinded absolute_fees =
      last_value_bf output_value out_abf
        (record {
          value = unblinded.value;
          asset_bf = unblinded.asset_bf;
          value_bf = unblinded.value_bf;
        }
          ∷ [])
        (record { value = absolute_fees; asset_bf = zero_asset_bf; value_bf = zero_value_bf } ∷ [])

  unfoldable pub blinded_outputs : LBtcSwapTx → ℕ → BlindEntropy → Result Outputs
  blinded_outputs self absolute_fees draws = do
    unblinded ← unblind self.funding_utxo (secret_key self.swap_script.blinding_key)
    asset ← blind_asset draws.surjection_seed unblinded.asset draws.out_abf (unblinded ∷ [])
    output_value ← sub_amount unblinded.value absolute_fees
    let vbf = final_vbf output_value draws.out_abf unblinded absolute_fees
    blinding_key ←
        ok_or (blinding_pubkey self.output_address) (Error.protocol "No blinding key in tx.")
    value ←
        blind_value output_value vbf blinding_key draws.ephemeral_sk
          (script_pubkey self.output_address) unblinded.asset draws.out_abf
    ok (record {
      payment = blinded_output (script_pubkey self.output_address) asset value;
      fee = new_fee absolute_fees unblinded.asset;
    })
