-- ===== src/Bitcoin/Satisfied.antt =====
-- A claim or a refund over the script path, as `BtcSwapTx::create_claim` and
-- `BtcSwapTx::create_refund` build it, held against the rules of the scripts that it reveals.
pub mod Ends
use bullbitcoin_rnd.Base.{
  ℕ, ◌^◌, ◌<◌, ◌≡◌, refl, sym, ap, ◌∙◌, arith, Bool, true, false, some, List, [], ◌∷◌, map, Bytes,
  get_elem?, length, head?,
}
use bullbitcoin_rnd.Result.{ok, bind-eq-ok, ok-injective, expect}
use bullbitcoin_rnd.Musig.{Keypair}
use bullbitcoin_rnd.Secrets.Preimage.{Preimage}
use bullbitcoin_rnd.Script.Instruction.{ScriptLaws}
use bullbitcoin_rnd.Script.Consensus.{Spend, satisfies}
use bullbitcoin_rnd.Script.Consensus.Numbers.{PushLaw}
use bullbitcoin_rnd.Script.Consensus.Claim.{HasSize}
use bullbitcoin_rnd.Script.Consensus.Witness.{is_unlocked-own, claim-satisfies, refund-satisfies}
use bullbitcoin_rnd.Bitcoin.Crate.{TxIn, TxOut, Transaction, BitcoinLib}
use bullbitcoin_rnd.Bitcoin.SwapScript.{
  BtcSwapScript, claim_script, refund_script, taproot_spendinfo,
}
use bullbitcoin_rnd.Bitcoin.SwapTx.{BtcSwapTx}
use bullbitcoin_rnd.Bitcoin.Utxos.{Utxo}
use bullbitcoin_rnd.Bitcoin.Claim.{claim_draft, claim_by_script, create_claim, with_witness}
use bullbitcoin_rnd.Bitcoin.Refund.{create_refund}
use bullbitcoin_rnd.Bitcoin.Refund.Built.{
  SighashLaw, IsSignedAt, create_refund-signed, create_refund-lock_time,
}

-- What a node checks with: the hash, and the test of a signature for an x-only key, of an input of a
-- transaction that spends these outputs, at a leaf.
pub record Node : Type 0 where
  pub hash160 : Bytes → Bytes
  pub check_sig : Transaction → ℕ → List TxOut → Bytes → Bytes → Bytes → Bool

-- The spend of one input, as its script sees it.
abbrev pub spend_at : Node → Transaction → ℕ → List TxOut → Bytes → TxIn → Spend
spend_at node tx k outs leaf input = record {
  hash160 = node.hash160;
  check_sig = node.check_sig tx k outs leaf;
  lock_time = tx.lock_time;
  sequence = input.sequence;
}

module _ (lib : BitcoinLib) where
  open lib use {script, musig, tap_leaf_hash, script_spend_sighash, signature_to_vec}

  -- BIP 340 and BIP 342: a Schnorr signature of the hash of an input is valid for the key that made
  -- it.
  abbrev pub CheckLaw : Node → Type 0
  CheckLaw node =
      (tx : Transaction) (k : ℕ) (outs : List TxOut) (leaf sighash msg : Bytes) (keys : Keypair)
      → script_spend_sighash tx k outs leaf ≡ ok sighash
      → musig.message_from_digest sighash ≡ ok msg
      → node.check_sig tx k outs leaf (signature_to_vec (musig.sign_schnorr msg keys))
          (script.x_only (musig.public_key keys))
        ≡ true

  -- What both theorems take of the other crates and of the node.
  pub record SpendLaws (node : Node) : Type 0 where
    pub scripts : ScriptLaws script
    pub pushes : PushLaw script
    pub sighash : SighashLaw lib
    pub checks : CheckLaw node

  module _ (node : Node) (laws : SpendLaws node) (self : BtcSwapTx) (keys : Keypair) (fee : ℕ) where
    abbrev s : BtcSwapScript
    s = self.swap_script

    abbrev outs : List TxOut
    outs = map (λ utxo. utxo.txout) self.utxos

    signed-satisfies :
        (control_block : Bytes) (tx : Transaction) (k : ℕ) (input : TxIn)
        → 16 < s.locktime
        → s.locktime < 2 ^ 31
        → script.x_only (musig.public_key keys) ≡ script.x_only s.sender_pubkey
        → tx.lock_time ≡ s.locktime
        → input.sequence ≡ 0
        → IsSignedAt lib s keys outs control_block tx k input.witness
        → satisfies script
            (spend_at node tx k outs (tap_leaf_hash (refund_script lib s)) input)
            input.witness
          ≡ true
    unfolding refund_script
    signed-satisfies control_block tx k input low high ours waits opted h =
        let leaf = tap_leaf_hash (refund_script lib s) in
        let spend = spend_at node tx k outs leaf input in
        let signature = signature_to_vec (musig.sign_schnorr h.msg keys) in
        let valid : node.check_sig tx k outs leaf signature (script.x_only s.sender_pubkey) ≡ true =
          ap (node.check_sig tx k outs leaf signature) (sym ours)
          ∙ laws.checks tx k outs leaf h.sighash h.msg keys h.hashes h.is_message in
        ap (satisfies script spend) h.is_witness
        ∙ refund-satisfies script laws.scripts laws.pushes spend signature control_block
            s.sender_pubkey s.locktime low high valid (is_unlocked-own spend s.locktime waits opted)

    -- Every input of a refund that is built without cooperation satisfies the refund script that its
    -- witness reveals, if the keys are those of the sender and the lock time is above 16 and below
    -- 2 ^ 31. The laws are those of the script functions and script numbers, that the signature hash
    -- does not commit to witnesses, and that a signature is valid for the key that made it.
    pub create_refund-satisfies :
        (tx : Transaction) (k : ℕ) (input : TxIn)
        → 16 < self.swap_script.locktime
        → self.swap_script.locktime < 2 ^ 31
        → script.x_only (musig.public_key keys) ≡ script.x_only self.swap_script.sender_pubkey
        → create_refund lib self keys fee false ≡ ok tx
        → k < length self.utxos
        → get_elem? tx.input k ≡ some input
        → satisfies script
            (spend_at node tx k
              (map (λ utxo. utxo.txout) self.utxos)
              (tap_leaf_hash (refund_script lib self.swap_script))
              input)
            input.witness
          ≡ true
    create_refund-satisfies tx k input low high ours e inside at =
        let (info, control_block, constructed, reveals, signed) =
          create_refund-signed lib self keys fee laws.sighash tx e in
        let (opted, here) = signed k input inside at in
        signed-satisfies control_block tx k input low high ours
          (create_refund-lock_time lib self keys fee laws.scripts false tx low high e) opted here

    claim_by_script-satisfies :
        (utxo : Utxo) (preimage : Bytes) (tx : Transaction)
        → length s.hashlock ≡ 20
        → node.hash160 preimage ≡ s.hashlock
        → HasSize s.swap_type preimage
        → script.x_only (musig.public_key keys) ≡ script.x_only s.receiver_pubkey
        → claim_by_script lib s (claim_draft lib self utxo fee 0) utxo keys preimage ≡ ok tx
        → (input : TxIn) × (tx.input ≡ input ∷ [])
          × (satisfies script
                (spend_at node tx 0 (utxo.txout ∷ []) (tap_leaf_hash (claim_script lib s)) input)
                input.witness
              ≡ true)
    unfolding claim_by_script claim_script
    claim_by_script-satisfies utxo preimage tx twenty hashes sized ours e =
        let draft = claim_draft lib self utxo fee 0 in
        let leaf = tap_leaf_hash (claim_script lib s) in
        let spent : List TxOut = utxo.txout ∷ [] in
        let (sighash, is_hash, e1) = bind-eq-ok (script_spend_sighash draft 0 spent leaf) _ e in
        let (msg, is_message, e2) = bind-eq-ok (musig.message_from_digest sighash) _ e1 in
        let (info, constructed, e3) = bind-eq-ok (taproot_spendinfo lib s) _ e2 in
        let (control_block, reveals, e4) =
          bind-eq-ok
            (expect (info.control_block (claim_script lib s)) "Control block calculation failed") _
            e3 in
        let signature = signature_to_vec (musig.sign_schnorr msg keys) in
        let witness : List Bytes = signature ∷ preimage ∷ claim_script lib s ∷ control_block ∷ [] in
        let is : with_witness lib witness draft utxo 0 ≡ tx = ok-injective e4 in
        let own : script_spend_sighash (with_witness lib witness draft utxo 0) 0 spent leaf
            ≡ ok sighash =
          sym (laws.sighash (with_witness lib witness draft utxo 0) 0 spent leaf)
          ∙ laws.sighash draft 0 spent leaf
          ∙ is_hash in
        let made = with_witness lib witness draft utxo 0 in
        let valid : node.check_sig made 0 spent leaf signature (script.x_only s.receiver_pubkey)
            ≡ true =
          ap (node.check_sig made 0 spent leaf signature) (sym ours)
          ∙ laws.checks made 0 spent leaf sighash msg keys own is_message in
        rw (sym is) (
          _,
          refl,
          claim-satisfies script laws.scripts laws.pushes _ signature control_block s.swap_type
              s.hashlock preimage s.receiver_pubkey twenty hashes sized valid,
        )

    -- The one input of a claim that is built without cooperation satisfies the claim script that its
    -- witness reveals, if the keys are those of the receiver and the preimage hashes to the hash lock
    -- of 20 bytes, and has 32 bytes in all but a submarine swap. The laws are those of the script
    -- functions and script numbers, that the signature hash does not commit to witnesses, and that a
    -- signature is valid for the key that made it.
    pub create_claim-satisfies :
        (preimage : Preimage) (bytes : Bytes) (utxo : Utxo) (tx : Transaction)
        → head? self.utxos ≡ some utxo
        → preimage.bytes ≡ some bytes
        → length self.swap_script.hashlock ≡ 20
        → node.hash160 bytes ≡ self.swap_script.hashlock
        → HasSize self.swap_script.swap_type bytes
        → script.x_only (musig.public_key keys) ≡ script.x_only self.swap_script.receiver_pubkey
        → create_claim lib self keys preimage fee false ≡ ok tx
        → (input : TxIn) × (tx.input ≡ input ∷ [])
          × (satisfies script
                (spend_at node tx 0
                  (utxo.txout ∷ [])
                  (tap_leaf_hash (claim_script lib self.swap_script))
                  input)
                input.witness
              ≡ true)
    unfolding create_claim
    create_claim-satisfies preimage bytes utxo tx has known twenty hashes sized ours e =
        claim_by_script-satisfies utxo bytes tx twenty hashes sized ours
          (ground (arith, e, has, known))
