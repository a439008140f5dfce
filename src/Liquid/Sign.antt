-- ===== src/Liquid/Sign.antt =====
-- `LBtcSwapTx::sign_claim`, `sign_refund` and `partial_sign`: the fee, the transaction, and the
-- session with the API.
pub mod Spends
pub mod Returns
pub mod Ends
use bullbitcoin_rnd.Base.{ℕ, Bool, true, false, Option, none, some, List, [], ◌∷◌, String, Bytes}
use bullbitcoin_rnd.Error.{Error}
use bullbitcoin_rnd.Result.{Result, ok, ◌>>=◌, ◌>>◌, fail_if}
use bullbitcoin_rnd.Boltz.Types.{PublicKey}
use bullbitcoin_rnd.Boltz.Client.{PartialSig, HttpLib}
use bullbitcoin_rnd.Boltz.Cooperative.{
  Cooperative, is_some, is_submarine, is_reverse_submarine, is_refund, is_claim, ask_claim,
  ask_chain_claim, ask_refund, no_partial_sig,
}
use bullbitcoin_rnd.Fees.{FloatLib, Fee, create_tx_with_fee}
use bullbitcoin_rnd.Musig.{Keypair, Entropy}
use bullbitcoin_rnd.Secrets.Preimage.{Preimage}
use bullbitcoin_rnd.Taproot.{Spending}
use bullbitcoin_rnd.Taproot.KeyPath.{half_sign, cosign}
use bullbitcoin_rnd.Liquid.Crate.{Transaction, ElementsLib}
use bullbitcoin_rnd.Liquid.SwapScript.{LBtcSwapScript, musig_keyagg_cache, taproot_spendinfo}
use bullbitcoin_rnd.Liquid.SwapTx.{LBtcSwapTx, script_witness, set_witness}
use bullbitcoin_rnd.Liquid.Blind.{BlindEntropy}
use bullbitcoin_rnd.Liquid.Create.{create_claim, create_refund}

module _ (lib : ElementsLib) where
  open lib use {musig, vsize, discount_vsize, key_spend_sighash, serialize_hex, signature_to_vec}

  abbrev pub tx_size : Transaction → Bool → ℕ
  tx_size tx true = discount_vsize tx
  tx_size tx false = vsize tx

  abbrev pub spending : LBtcSwapScript → PublicKey → Spending
  spending s boltz_key = record {
    spend_info = taproot_spendinfo lib s;
    keyagg_cache = musig_keyagg_cache lib s;
    boltz_key = boltz_key;
    refusal = Error.taproot "Unable to verify Partial Signature";
  }

  -- `LBtcSwapTx::partial_sign`: the keys are aggregated with the receiver first, for every swap. No
  -- key is checked here.
  unfoldable pub partial_sign :
      LBtcSwapScript → Keypair → String → String → Entropy → Result (Bytes × Bytes)
  partial_sign s keys pub_nonce transaction_hash entropy =
      half_sign musig signature_to_vec
        (record (spending s s.receiver_pubkey) {
          keyagg_cache = musig.key_agg_cache (s.receiver_pubkey ∷ s.sender_pubkey ∷ []);
        })
        keys pub_nonce transaction_hash entropy

  module _ (self : LBtcSwapTx) (keys : Keypair) where
    -- The signature of the transaction as it stands, by us and Boltz.
    abbrev pub key_path_items :
        PublicKey
        → (Bytes → String → Result PartialSig)
        → Entropy
        → Transaction
        → Result (List Bytes)
    key_path_items boltz_key ask entropy tx =
        cosign musig signature_to_vec (spending self.swap_script boltz_key) keys
          (key_spend_sighash tx 0 (self.funding_utxo ∷ []) self.genesis_hash)
          (λ pub_nonce. ask pub_nonce (serialize_hex tx)) entropy

    module _ (http : HttpLib) (floats : FloatLib) where
      -- `if let Some(Cooperative { … }) = is_cooperative` of `sign_claim`: Boltz is the sender.
      unfoldable pub finish_claim :
          Preimage → Entropy → Option Cooperative → Transaction → Result Transaction
      unfolding ask_claim ask_chain_claim no_partial_sig
      finish_claim preimage entropy none claim_tx = ok claim_tx
      finish_claim preimage entropy (some c) claim_tx = do
        items ←
            key_path_items self.swap_script.sender_pubkey
              (λ nonce hex. ask_claim http self.swap_script.swap_type c preimage 0 nonce hex)
              entropy claim_tx
        set_witness (script_witness items) claim_tx

      -- `draws` gives what each transaction that is built for a fee draws.
      unfoldable pub sign_claim :
          Preimage
          → Fee
          → Option Cooperative
          → Bool
          → (ℕ → BlindEntropy)
          → Entropy
          → Result Transaction
      sign_claim preimage fee is_cooperative is_discount_ct draws entropy = do
        fail_if (is_submarine self.swap_script.swap_type)
            (Error.protocol "Claim Tx signing is not applicable for Submarine Swaps")
        fail_if (is_refund self.kind)
            (Error.protocol "Cannot sign claim with refund-type LBtcSwapTx")
        claim_tx ←
            create_tx_with_fee floats fee
              (λ absolute.
                create_claim lib self keys preimage absolute (is_some is_cooperative)
                  (draws absolute))
              (λ tx. tx_size tx is_discount_ct)
        finish_claim preimage entropy is_cooperative claim_tx

      -- The same of `sign_refund`, with no lock time: Boltz is the receiver.
      unfoldable pub finish_refund : Entropy → Option Cooperative → Transaction → Result Transaction
      unfolding ask_refund no_partial_sig
      finish_refund entropy none refund_tx = ok refund_tx
      finish_refund entropy (some c) refund_tx = do
        let unlocked = record refund_tx { lock_time = 0 }
        items ←
            key_path_items self.swap_script.receiver_pubkey
              (λ nonce hex. ask_refund http self.swap_script.swap_type c 0 nonce hex) entropy
              unlocked
        set_witness (script_witness items) unlocked

      unfoldable pub sign_refund :
          Fee → Option Cooperative → Bool → (ℕ → BlindEntropy) → Entropy → Result Transaction
      sign_refund fee is_cooperative is_discount_ct draws entropy = do
        fail_if (is_reverse_submarine self.swap_script.swap_type)
            (Error.protocol "Refund Tx signing is not applicable for Reverse Submarine Swaps")
        fail_if (is_claim self.kind)
            (Error.protocol "Cannot sign refund with a claim-type LBtcSwapTx")
        refund_tx ←
            create_tx_with_fee floats fee
              (λ absolute.
                create_refund lib self keys absolute (is_some is_cooperative) (draws absolute))
              (λ tx. tx_size tx is_discount_ct)
        finish_refund entropy is_cooperative refund_tx
