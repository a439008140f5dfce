-- ===== src/Bitcoin/Refund.antt =====
-- `BtcSwapTx::create_refund`: the transaction that takes all utxos back after the lock time.
pub mod Drafted
pub mod Built
use bullbitcoin_rnd.Base.{
  ℕ, zero, suc, ◌+◌, ◌-◌, ◌^◌, Bool, Option, none, some, List, [], ◌∷◌, map, String, ◌<>◌, Bytes,
  length, ltb, leb, if◌then◌else◌,
}
use bullbitcoin_rnd.Error.{Error}
use bullbitcoin_rnd.Result.{Result, ok, err, panic, ◌>>=◌, ◌>>◌, fail_if, ok_or}
use bullbitcoin_rnd.Musig.{Keypair}
use bullbitcoin_rnd.Script.LockTime.{find_lock_time}
use bullbitcoin_rnd.Bitcoin.Crate.{TxIn, TxOut, Transaction, BitcoinLib}
use bullbitcoin_rnd.Bitcoin.SwapScript.{BtcSwapScript, refund_script, taproot_spendinfo}
use bullbitcoin_rnd.Bitcoin.Utxos.{Utxo}
use bullbitcoin_rnd.Bitcoin.SwapTx.{
  BtcSwapTx, sequence_max, stubbed_cooperative_witness, unsigned_input, sign_inputs,
}

-- `acc + txo.value` on `Amount`, which panics where the sum is not a `u64`.
abbrev pub add_amount : ℕ → ℕ → Result ℕ
add_amount a b = if ltb (a + b) (2 ^ 64) then ok (a + b) else panic "Amount addition error"

-- `self.utxos.iter().fold(Amount::ZERO, …)`
unfoldable pub total_from : ℕ → List Utxo → Result ℕ
total_from acc [] = ok acc
total_from acc (utxo ∷ utxos) = add_amount acc utxo.txout.value >>= λ next. total_from next utxos

-- The two loops that set one field of every input.
abbrev pub with_sequences : ℕ → Transaction → Transaction
with_sequences n tx = record tx { input = map {A = TxIn} (λ i. record i { sequence = n }) tx.input }

abbrev pub with_witnesses : List Bytes → Transaction → Transaction
with_witnesses witness tx = record tx {
  input = map {A = TxIn} (λ i. record i { witness = witness }) tx.input;
}

module _ (lib : BitcoinLib) where
  open lib use {
    script, musig, script_pubkey, display_amount, tap_leaf_hash, script_spend_sighash,
    signature_to_vec,
  }

  abbrev pub refund_refusal : ℕ → ℕ → String
  refund_refusal utxos_amount absolute_fees =
      "Cannot sign Refund Tx because utxos_amount ("
      <> display_amount utxos_amount
      <> ") <= absolute_fees ("
      <> display_amount absolute_fees
      <> ")"

  -- The transaction before its inputs have witnesses.
  abbrev pub refund_draft : BtcSwapTx → ℕ → ℕ → Transaction
  refund_draft self output_amount lock_time = record {
    version = 2;
    lock_time = lock_time;
    input = map (λ utxo. unsigned_input utxo.outpoint sequence_max) self.utxos;
    output =
        record { value = output_amount; script_pubkey = script_pubkey self.output_address } ∷ [];
  }

  module _ (s : BtcSwapScript) (keys : Keypair) (tx_outs : List TxOut) (control_block : Bytes) where
    abbrev pub refund_witness : Bytes → List Bytes
    refund_witness msg =
        signature_to_vec (musig.sign_schnorr msg keys) ∷ refund_script lib s ∷ control_block ∷ []

    -- One round of the signing loop.
    unfoldable pub refund_witness_at : ℕ → Transaction → Result (List Bytes)
    refund_witness_at input_index refund_tx = do
      sighash ←
          script_spend_sighash refund_tx input_index tx_outs (tap_leaf_hash (refund_script lib s))
      msg ← musig.message_from_digest sighash
      ok (refund_witness msg)

  -- The branch that is not cooperative.
  unfoldable pub refund_by_script : BtcSwapTx → Keypair → Transaction → Result Transaction
  refund_by_script self keys refund_tx = do
    info ← taproot_spendinfo lib self.swap_script
    control_block ←
        ok_or (info.control_block (refund_script lib self.swap_script))
          (Error.protocol "Control block calculation failed")
    sign_inputs
        (refund_witness_at self.swap_script keys (map (λ utxo. utxo.txout) self.utxos)
          control_block)
        (length refund_tx.input) 0 (with_sequences 0 refund_tx)

  unfoldable pub create_refund : BtcSwapTx → Keypair → ℕ → Bool → Result Transaction
  create_refund self keys absolute_fees is_cooperative = do
    utxos_amount ← total_from 0 self.utxos
    fail_if (leb utxos_amount absolute_fees)
        (Error.generic (refund_refusal utxos_amount absolute_fees))
    lock_time ← find_lock_time (script.instructions (refund_script lib self.swap_script))
    let draft = refund_draft self (utxos_amount - absolute_fees) lock_time
    if is_cooperative
        then ok (with_witnesses stubbed_cooperative_witness draft)
        else refund_by_script self keys draft
