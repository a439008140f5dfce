-- ===== src/Liquid/Satisfied.antt =====
-- What a node checks of a Liquid claim or refund over the script path.
pub mod Spends
pub mod Ends
use mathlib.Core.Path.{subst}
use bullbitcoin_rnd.Base.{
  some-injective, ℕ, ◌^◌, ◌<◌, ◌≡◌, refl, sym, ap, ◌∙◌, Bool, true, false, some, List, [], ◌∷◌,
  ◌++◌, Bytes, length,
}
use bullbitcoin_rnd.Error.{Error}
use bullbitcoin_rnd.Result.{ok, ok_or, bind-eq-ok, ok-injective, ok_or-eq-ok}
use bullbitcoin_rnd.Musig.{Keypair}
use bullbitcoin_rnd.Boltz.Types.{PublicKey}
use bullbitcoin_rnd.Secrets.Preimage.{Preimage}
use bullbitcoin_rnd.Script.Instruction.{Script, ScriptLaws}
use bullbitcoin_rnd.Script.LockTime.{find_lock_time, find_lock_time-into_script}
use bullbitcoin_rnd.Script.Consensus.{Spend, satisfies}
use bullbitcoin_rnd.Script.Consensus.Numbers.{PushLaw}
use bullbitcoin_rnd.Script.Consensus.Claim.{HasSize}
use bullbitcoin_rnd.Script.Consensus.Witness.{is_unlocked-own, claim-satisfies, refund-satisfies}
use bullbitcoin_rnd.Liquid.Crate.{TxInWitness, TxIn, TxOut, Transaction, ElementsLib}
use bullbitcoin_rnd.Liquid.SwapScript.{LBtcSwapScript, claim_script, refund_script}
use bullbitcoin_rnd.Liquid.SwapTx.{LBtcSwapTx, funding_input, unsigned_spend, spend, script_witness}
use bullbitcoin_rnd.Liquid.Blind.{BlindEntropy, blinded_outputs}
use bullbitcoin_rnd.Liquid.Create.{script_items, create_claim, create_refund}
use bullbitcoin_rnd.Liquid.Create.Signed.{
  IsScriptSpend, IsWitnessed, stubbed, by_script, IsBuilt, finished-IsBuilt,
}
use bullbitcoin_rnd.Liquid.Sign.Spends.{unsigned}

-- What a node checks with: the hash, and the test of a signature for an x-only key, of an input of a
-- transaction that spends these outputs, at a leaf, on the chain with a genesis hash.
pub record Node : Type 0 where
  pub hash160 : Bytes → Bytes
  pub check_sig : Transaction → ℕ → List TxOut → Bytes → Bytes → Bytes → Bytes → Bool

module _ (lib : ElementsLib) where
  open lib use {script, musig, tap_leaf_hash, script_spend_sighash, signature_to_vec}

  -- What the theorems take of the other crates and of the node: the laws of scripts and script
  -- numbers; the signature hash of the script path does not commit to the script witnesses; a Schnorr
  -- signature of the hash of an input is valid for the key that made it.
  pub record SpendLaws (node : Node) : Type 0 where
    pub scripts : ScriptLaws script
    pub pushes : PushLaw script
    pub sighash :
        (tx : Transaction) (i : ℕ) (outs : List TxOut) (leaf genesis : Bytes)
        → script_spend_sighash (unsigned tx) i outs leaf genesis
          ≡ script_spend_sighash tx i outs leaf genesis
    pub checks :
        (tx : Transaction) (k : ℕ) (outs : List TxOut) (leaf genesis sighash msg : Bytes)
        (keys : Keypair)
        → script_spend_sighash tx k outs leaf genesis ≡ ok sighash
        → musig.message_from_digest sighash ≡ ok msg
        → node.check_sig tx k outs leaf genesis
            (signature_to_vec (musig.sign_schnorr msg keys))
            (script.x_only (musig.public_key keys))
          ≡ true

  module _ (node : Node) (self : LBtcSwapTx) where
    -- The spend of the funding output, as the script of a leaf sees it.
    abbrev pub spend_of : Transaction → Script → TxIn → Spend
    spend_of tx leaf input = record {
      hash160 = node.hash160;
      check_sig =
          node.check_sig tx 0 (self.funding_utxo ∷ []) (tap_leaf_hash leaf) self.genesis_hash;
      lock_time = tx.lock_time;
      sequence = input.sequence;
    }

    -- The transaction has one input, of the funding output, and its witness satisfies the script of
    -- the leaf.
    pub record IsSatisfied (leaf : Script) (tx : Transaction) : Type 0 where
      pub input : TxIn
      pub is_input : tx.input ≡ input ∷ []
      pub spends : input.previous_output ≡ self.funding_outpoint
      pub is_satisfied :
          satisfies script (spend_of tx leaf input) input.witness.script_witness ≡ true

    module _ (laws : SpendLaws node) (keys : Keypair) where
      pub witnessed-IsScriptSpend :
          (leaf : Script) (unlocking : List Bytes) (lock_time : ℕ) (outputs : List TxOut)
          (sequence : ℕ) (witness : TxInWitness)
          → IsWitnessed lib self keys leaf unlocking lock_time outputs false sequence witness
          → (sequence ≡ 0)
            × IsScriptSpend lib self keys leaf unlocking
                (unsigned_spend self 0 lock_time outputs)
                witness
      witnessed-IsScriptSpend leaf unlocking lock_time outputs sequence witness (by_script h) =
          (refl, h)

      -- The signature in the witness is valid for the key, in the finished transaction.
      pub valid :
          (key : PublicKey) (leaf : Script) (unlocking : List Bytes) (lock_time : ℕ)
          (outputs : List TxOut) (witness : TxInWitness)
          (h : IsScriptSpend lib self keys leaf unlocking
            (unsigned_spend self 0 lock_time outputs)
            witness)
          → script.x_only (musig.public_key keys) ≡ script.x_only key
          → node.check_sig
              (spend self 0 lock_time outputs witness)
              0
              (self.funding_utxo ∷ [])
              (tap_leaf_hash leaf)
              self.genesis_hash
              (signature_to_vec (musig.sign_schnorr h.msg keys))
              (script.x_only key)
            ≡ true
      valid key leaf unlocking lock_time outputs witness h ours =
          let tx = spend self 0 lock_time outputs witness in
          let draft = unsigned_spend self 0 lock_time outputs in
          let outs : List TxOut = self.funding_utxo ∷ [] in
          let own : script_spend_sighash tx 0 outs (tap_leaf_hash leaf) self.genesis_hash
              ≡ ok h.sighash =
            sym (laws.sighash tx 0 outs (tap_leaf_hash leaf) self.genesis_hash)
            ∙ ap
                (λ w.
                  script_spend_sighash (unsigned (spend self 0 lock_time outputs w)) 0 outs
                    (tap_leaf_hash leaf) self.genesis_hash)
                h.is_witness
            ∙ laws.sighash draft 0 outs (tap_leaf_hash leaf) self.genesis_hash
            ∙ h.hashes in
          ap
            (node.check_sig tx 0 outs (tap_leaf_hash leaf) self.genesis_hash
              (signature_to_vec (musig.sign_schnorr h.msg keys)))
            (sym ours)
          ∙ laws.checks tx 0 outs (tap_leaf_hash leaf) self.genesis_hash h.sighash h.msg keys own
              h.is_message
