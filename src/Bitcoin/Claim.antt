-- ===== src/Bitcoin/Claim.antt =====
-- `BtcSwapTx::create_claim`: the transaction that takes the first utxo with the preimage.
pub mod Value
use bullbitcoin_rnd.Base.{
  ℕ, Bool, true, false, Option, none, some, List, [], ◌∷◌, Bytes, head?, if◌then◌else◌,
}
use bullbitcoin_rnd.Error.{Error}
use bullbitcoin_rnd.Result.{Result, ok, ◌>>=◌, ok_or, expect}
use bullbitcoin_rnd.Secrets.Preimage.{Preimage}
use bullbitcoin_rnd.Musig.{Keypair}
use bullbitcoin_rnd.Bitcoin.Crate.{Transaction, BitcoinLib}
use bullbitcoin_rnd.Bitcoin.SwapScript.{BtcSwapScript, claim_script, taproot_spendinfo}
use bullbitcoin_rnd.Bitcoin.Utxos.{Utxo}
use bullbitcoin_rnd.Bitcoin.SwapTx.{
  BtcSwapTx, enable_rbf_no_locktime, sub_u64, stubbed_cooperative_witness, unsigned_input,
}

module _ (lib : BitcoinLib) where
  open lib use {musig, script_pubkey, tap_leaf_hash, script_spend_sighash, signature_to_vec}

  -- The transaction before it has a witness, with the sequence number of its only input.
  abbrev pub claim_draft : BtcSwapTx → Utxo → ℕ → ℕ → Transaction
  claim_draft self utxo absolute_fees sequence = record {
    version = 2;
    lock_time = 0;
    input = unsigned_input utxo.outpoint sequence ∷ [];
    output =
        record {
          value = sub_u64 utxo.txout.value absolute_fees;
          script_pubkey = script_pubkey self.output_address;
        }
        ∷ [];
  }

  abbrev pub with_witness : List Bytes → Transaction → Utxo → ℕ → Transaction
  with_witness witness tx utxo sequence = record tx {
    input = record (unsigned_input utxo.outpoint sequence) { witness = witness } ∷ [];
  }

  -- "If Non-Cooperative claim use the Script Path spending": the sequence is zero here.
  unfoldable pub claim_by_script :
      BtcSwapScript → Transaction → Utxo → Keypair → Bytes → Result Transaction
  claim_by_script swap_script claim_tx utxo keys preimage_bytes = do
    sighash ←
        script_spend_sighash claim_tx 0 (utxo.txout ∷ [])
          (tap_leaf_hash (claim_script lib swap_script))
    msg ← musig.message_from_digest sighash
    info ← taproot_spendinfo lib swap_script
    control_block ←
        expect (info.control_block (claim_script lib swap_script))
          "Control block calculation failed"
    let signature = signature_to_vec (musig.sign_schnorr msg keys)
    let witness : List Bytes =
        signature ∷ preimage_bytes ∷ claim_script lib swap_script ∷ control_block ∷ []
    ok (with_witness witness claim_tx utxo 0)

  unfoldable pub create_claim : BtcSwapTx → Keypair → Preimage → ℕ → Bool → Result Transaction
  create_claim self keys preimage absolute_fees is_cooperative = do
    preimage_bytes ← ok_or preimage.bytes (Error.protocol "No preimage provided while signing.")
    utxo ← ok_or (head? self.utxos) (Error.protocol "No Bitcoin UTXO detected for this script")
    if is_cooperative
        then ok (
            with_witness stubbed_cooperative_witness
              (claim_draft self utxo absolute_fees enable_rbf_no_locktime) utxo
              enable_rbf_no_locktime)
        else claim_by_script self.swap_script (claim_draft self utxo absolute_fees 0) utxo keys
            preimage_bytes
