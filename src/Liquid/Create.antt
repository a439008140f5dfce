-- ===== src/Liquid/Create.antt =====
-- `LBtcSwapTx::create_claim` and `LBtcSwapTx::create_refund`.
pub mod Signed
pub mod Built
use bullbitcoin_rnd.Base.{ℕ, Bool, some, List, [], ◌∷◌, ◌++◌, Bytes, if◌then◌else◌}
use bullbitcoin_rnd.Error.{Error}
use bullbitcoin_rnd.Result.{Result, ok, ◌>>=◌, ok_or}
use bullbitcoin_rnd.Musig.{Keypair}
use bullbitcoin_rnd.Secrets.Preimage.{Preimage}
use bullbitcoin_rnd.Script.Instruction.{Script}
use bullbitcoin_rnd.Script.LockTime.{find_lock_time}
use bullbitcoin_rnd.Bitcoin.SwapTx.{sequence_max}
use bullbitcoin_rnd.Liquid.Crate.{Transaction, ElementsLib}
use bullbitcoin_rnd.Liquid.SwapScript.{claim_script, refund_script, taproot_spendinfo}
use bullbitcoin_rnd.Liquid.SwapTx.{
  LBtcSwapTx, script_witness, stubbed_cooperative_witness, unsigned_spend, set_witness,
}
use bullbitcoin_rnd.Liquid.Blind.{BlindEntropy, blinded_outputs}

module _ (lib : ElementsLib) where
  open lib use {script, musig, tap_leaf_hash, script_spend_sighash, signature_to_vec}

  -- The items of a witness of the script path: a signature, the items that the script wants
  -- (`unlocking`), the script and the control block.
  abbrev pub script_items : Keypair → Script → List Bytes → Bytes → Bytes → List Bytes
  script_items keys leaf unlocking msg control_block =
      signature_to_vec (musig.sign_schnorr msg keys) ∷ unlocking ++ leaf ∷ control_block ∷ []

  -- The branches that are not cooperative: the sequence is zero here.
  unfoldable pub sign_by_script :
      LBtcSwapTx → Keypair → Script → List Bytes → Transaction → Result Transaction
  sign_by_script self keys leaf unlocking tx = do
    sighash ←
        script_spend_sighash tx 0 (self.funding_utxo ∷ []) (tap_leaf_hash leaf) self.genesis_hash
    msg ← musig.message_from_digest sighash
    info ← taproot_spendinfo lib self.swap_script
    control_block ← ok_or (info.control_block leaf) (Error.taproot "Could not create control block")
    set_witness (script_witness (script_items keys leaf unlocking msg control_block)) tx

  unfoldable pub create_claim :
      LBtcSwapTx → Keypair → Preimage → ℕ → Bool → BlindEntropy → Result Transaction
  create_claim self keys preimage absolute_fees is_cooperative draws = do
    preimage_bytes ← ok_or preimage.bytes (Error.protocol "No preimage provided")
    outputs ← blinded_outputs lib self absolute_fees draws
    let output = outputs.payment ∷ outputs.fee ∷ []
    if is_cooperative
        then set_witness stubbed_cooperative_witness (unsigned_spend self sequence_max 0 output)
        else sign_by_script self keys (claim_script lib self.swap_script) (preimage_bytes ∷ [])
            (unsigned_spend self 0 0 output)

  unfoldable pub create_refund : LBtcSwapTx → Keypair → ℕ → Bool → BlindEntropy → Result Transaction
  create_refund self keys absolute_fees is_cooperative draws = do
    outputs ← blinded_outputs lib self absolute_fees draws
    let leaf = refund_script lib self.swap_script
    lock_time ← find_lock_time (script.instructions leaf)
    let output = outputs.fee ∷ outputs.payment ∷ []
    if is_cooperative
        then set_witness stubbed_cooperative_witness
            (unsigned_spend self sequence_max lock_time output)
        else sign_by_script self keys leaf [] (unsigned_spend self 0 lock_time output)
