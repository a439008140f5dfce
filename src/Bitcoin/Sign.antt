-- ===== src/Bitcoin/Sign.antt =====
-- `BtcSwapTx::sign_claim` and `BtcSwapTx::sign_refund`: the fee, the transaction and its signatures.
pub mod Spends
pub mod Returns
pub mod Ends
use bullbitcoin_rnd.Base.{
  ℕ, Bool, true, false, Option, none, some, List, [], ◌∷◌, map, String, ◌<>◌, Bytes, head?, length,
}
use bullbitcoin_rnd.Error.{Error}
use bullbitcoin_rnd.Result.{Result, ok, err, ◌>>=◌, ◌>>◌, fail_if, expect}
use bullbitcoin_rnd.Boltz.Types.{SwapType, SwapTxKind}
use bullbitcoin_rnd.Boltz.Client.{HttpLib}
use bullbitcoin_rnd.Boltz.Cooperative.{
  Cooperative, is_some, is_submarine, is_reverse_submarine, is_refund, is_claim, ask_claim,
  ask_chain_claim, ask_refund, no_partial_sig,
}
use bullbitcoin_rnd.Fees.{FloatLib, Fee, create_tx_with_fee}
use bullbitcoin_rnd.Musig.{Keypair, Entropy}
use bullbitcoin_rnd.Secrets.Preimage.{Preimage}
use bullbitcoin_rnd.Bitcoin.Crate.{TxOut, Transaction, BitcoinLib}
use bullbitcoin_rnd.Bitcoin.SwapTx.{BtcSwapTx, set_witness, sign_inputs}
use bullbitcoin_rnd.Bitcoin.Claim.{create_claim}
use bullbitcoin_rnd.Bitcoin.Refund.{create_refund}
use bullbitcoin_rnd.Bitcoin.KeyPath.{key_path_witness}

module _ (lib : BitcoinLib) (http : HttpLib) (floats : FloatLib) where
  open lib use {vsize}

  -- The witness of a claim: Boltz is the sender.
  unfoldable pub claim_witness :
      BtcSwapTx
      → Keypair
      → Preimage
      → Entropy
      → Cooperative
      → TxOut
      → Transaction
      → Result (List Bytes)
  unfolding ask_claim ask_chain_claim no_partial_sig
  claim_witness self keys preimage entropy c txout claim_tx =
      let s = self.swap_script in
      key_path_witness lib s keys (txout ∷ []) s.sender_pubkey
        (ask_claim http s.swap_type c preimage) (λ i. entropy) 0 claim_tx

  -- `if let Some(Cooperative { … }) = is_cooperative` of `sign_claim`
  unfoldable pub finish_claim :
      BtcSwapTx
      → Keypair
      → Preimage
      → Entropy
      → Option Cooperative
      → Transaction
      → Result Transaction
  finish_claim self keys preimage entropy none claim_tx = ok claim_tx
  finish_claim self keys preimage entropy (some c) claim_tx = do
    utxo ← expect (head? self.utxos) "called `Option::unwrap()` on a `None` value"
    witness ← claim_witness self keys preimage entropy c utxo.txout claim_tx
    ok (set_witness 0 witness claim_tx)

  unfoldable pub sign_claim :
      BtcSwapTx → Keypair → Preimage → Fee → Option Cooperative → Entropy → Result Transaction
  sign_claim self keys preimage fee is_cooperative entropy = do
    fail_if (is_submarine self.swap_script.swap_type)
        (Error.protocol "Claim Tx signing is not applicable for Submarine Swaps")
    fail_if (is_refund self.kind) (Error.protocol "Cannot sign claim with refund-type BtcSwapTx")
    claim_tx ←
        create_tx_with_fee floats fee
          (λ absolute. create_claim lib self keys preimage absolute (is_some is_cooperative)) vsize
    finish_claim self keys preimage entropy is_cooperative claim_tx

  -- The witness of one input of a refund: Boltz is the receiver.
  unfoldable pub refund_key_witness :
      BtcSwapTx → Keypair → (ℕ → Entropy) → Cooperative → ℕ → Transaction → Result (List Bytes)
  unfolding ask_refund no_partial_sig
  refund_key_witness self keys entropy c =
      let s = self.swap_script in
      key_path_witness lib s keys (map (λ utxo. utxo.txout) self.utxos) s.receiver_pubkey
        (ask_refund http s.swap_type c) entropy

  -- "No locktime for cooperative spend"
  unfoldable pub finish_refund :
      BtcSwapTx → Keypair → (ℕ → Entropy) → Option Cooperative → Transaction → Result Transaction
  finish_refund self keys entropy none refund_tx = ok refund_tx
  finish_refund self keys entropy (some c) refund_tx =
      sign_inputs (refund_key_witness self keys entropy c) (length refund_tx.input) 0
        (record refund_tx { lock_time = 0 })

  unfoldable pub sign_refund :
      BtcSwapTx → Keypair → Fee → Option Cooperative → (ℕ → Entropy) → Result Transaction
  sign_refund self keys fee is_cooperative entropy = do
    fail_if (is_reverse_submarine self.swap_script.swap_type)
        (Error.protocol "Refund Tx signing is not applicable for Reverse Submarine Swaps")
    fail_if (is_claim self.kind) (Error.protocol "Cannot sign refund with a claim-type BtcSwapTx")
    refund_tx ←
        create_tx_with_fee floats fee
          (λ absolute. create_refund lib self keys absolute (is_some is_cooperative)) vsize
    finish_refund self keys entropy is_cooperative refund_tx
