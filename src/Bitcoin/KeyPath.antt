-- ===== src/Bitcoin/KeyPath.antt =====
-- The cooperative spend of a Bitcoin swap: the session that signs one input of a transaction, the
-- same in `sign_claim` and in each round of `sign_refund`, and our half of it in `partial_sign`.
pub mod Verified
use bullbitcoin_rnd.Base.{ℕ, List, String, Bytes}
use bullbitcoin_rnd.Error.{Error}
use bullbitcoin_rnd.Result.{Result}
use bullbitcoin_rnd.Boltz.Types.{PublicKey}
use bullbitcoin_rnd.Boltz.Client.{PartialSig}
use bullbitcoin_rnd.Musig.{Keypair, Entropy}
use bullbitcoin_rnd.Taproot.{Spending}
use bullbitcoin_rnd.Taproot.KeyPath.{half_sign, cosign}
use bullbitcoin_rnd.Bitcoin.Crate.{TxOut, Transaction, BitcoinLib}
use bullbitcoin_rnd.Bitcoin.SwapScript.{BtcSwapScript, musig_keyagg_cache, taproot_spendinfo}

module _ (lib : BitcoinLib) where
  open lib use {musig, key_spend_sighash, serialize_hex, signature_to_vec}

  abbrev pub spending : BtcSwapScript → PublicKey → Spending
  spending s boltz_key = record {
    spend_info = taproot_spendinfo lib s;
    keyagg_cache = musig_keyagg_cache lib s;
    boltz_key = boltz_key;
    refusal = Error.protocol "Invalid partial-sig received from Boltz";
  }

  -- `BtcSwapTx::partial_sign`: our partial signature and our public nonce. No key is checked here.
  unfoldable pub partial_sign :
      BtcSwapScript → Keypair → String → String → Entropy → Result (Bytes × Bytes)
  partial_sign s keys pub_nonce transaction_hash entropy =
      half_sign musig signature_to_vec (spending s s.receiver_pubkey) keys pub_nonce
        transaction_hash entropy

  -- The witness of one input, for the transaction as it stands.
  unfoldable pub key_path_witness :
      BtcSwapScript
      → Keypair
      → List TxOut
      → PublicKey
      → (ℕ → Bytes → String → Result PartialSig)
      → (ℕ → Entropy)
      → ℕ
      → Transaction
      → Result (List Bytes)
  key_path_witness s keys tx_outs boltz_key ask entropy input_index tx =
      cosign musig signature_to_vec (spending s boltz_key) keys
        (key_spend_sighash tx input_index tx_outs)
        (λ pub_nonce. ask input_index pub_nonce (serialize_hex tx)) (entropy input_index)
