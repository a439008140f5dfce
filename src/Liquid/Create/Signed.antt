-- ===== src/Liquid/Create/Signed.antt =====
-- How the one input of a Liquid claim or refund is signed when it is built.
use bullbitcoin_rnd.Base.{
  ℕ, ◌≡◌, refl, sym, ap, ◌∙◌, Bool, true, false, some, List, [], ◌∷◌, Bytes, if◌then◌else◌,
}
use bullbitcoin_rnd.Error.{Error}
use bullbitcoin_rnd.Result.{ok, ok_or, bind-eq-ok, ok-injective, ok_or-eq-ok}
use bullbitcoin_rnd.Musig.{Keypair}
use bullbitcoin_rnd.Script.Instruction.{Script}
use bullbitcoin_rnd.Taproot.{SpendInfo}
use bullbitcoin_rnd.Bitcoin.SwapTx.{sequence_max}
use bullbitcoin_rnd.Liquid.Crate.{TxInWitness, TxOut, Transaction, ElementsLib}
use bullbitcoin_rnd.Liquid.SwapScript.{taproot_spendinfo}
use bullbitcoin_rnd.Liquid.SwapTx.{
  LBtcSwapTx, script_witness, stubbed_cooperative_witness, unsigned_spend, spend, set_witness,
}
use bullbitcoin_rnd.Liquid.Create.{script_items, sign_by_script}

module _ (lib : ElementsLib) (self : LBtcSwapTx) (keys : Keypair) where
  open lib use {script, musig, tap_leaf_hash, script_spend_sighash}

  -- The witness signs the transaction's own hash, over the script path of a leaf.
  pub record IsScriptSpend (leaf : Script) (unlocking : List Bytes) (unsigned : Transaction)
      (witness : TxInWitness) : Type 0 where
    pub sighash : Bytes
    pub msg : Bytes
    pub info : SpendInfo
    pub control_block : Bytes
    pub hashes :
        script_spend_sighash unsigned 0
          (self.funding_utxo ∷ [])
          (tap_leaf_hash leaf)
          self.genesis_hash
        ≡ ok sighash
    pub is_message : musig.message_from_digest sighash ≡ ok msg
    pub constructed : taproot_spendinfo lib self.swap_script ≡ ok info
    pub controls : info.control_block leaf ≡ some control_block
    pub is_witness :
        witness ≡ script_witness (script_items lib keys leaf unlocking msg control_block)

  -- The stub, final, or a signature of the script path, with the sequence number zero.
  pub data IsWitnessed (leaf : Script) (unlocking : List Bytes) (lock_time : ℕ)
      (outputs : List TxOut) : Bool → ℕ → TxInWitness → Type 0 where
    stubbed :
        IsWitnessed leaf unlocking lock_time outputs true sequence_max stubbed_cooperative_witness
    by_script :
        {witness : TxInWitness}
        → IsScriptSpend leaf unlocking (unsigned_spend self 0 lock_time outputs) witness
        → IsWitnessed leaf unlocking lock_time outputs false 0 witness

  -- The transaction spends the funding output only, to these outputs.
  pub record IsBuilt (leaf : Script) (unlocking : List Bytes) (lock_time : ℕ) (outputs : List TxOut)
      (cooperative : Bool) (tx : Transaction) : Type 0 where
    pub sequence : ℕ
    pub witness : TxInWitness
    pub is_tx : tx ≡ spend self sequence lock_time outputs witness
    pub witnessed : IsWitnessed leaf unlocking lock_time outputs cooperative sequence witness

  stub_of :
      {leaf : Script} {unlocking : List Bytes} {lock_time : ℕ} {outputs : List TxOut} {sequence : ℕ}
      {witness : TxInWitness}
      → IsWitnessed leaf unlocking lock_time outputs true sequence witness
      → witness ≡ stubbed_cooperative_witness
  stub_of stubbed = refl

  -- A cooperative transaction has the stub for a witness.
  pub IsBuilt-stubbed :
      (leaf : Script) (unlocking : List Bytes) (lock_time : ℕ) (outputs : List TxOut)
      (tx : Transaction) (h : IsBuilt leaf unlocking lock_time outputs true tx)
      → tx ≡ spend self h.sequence lock_time outputs stubbed_cooperative_witness
  IsBuilt-stubbed leaf unlocking lock_time outputs tx h =
      h.is_tx ∙ ap (spend self h.sequence lock_time outputs) (stub_of h.witnessed)

  sign_by_script-IsBuilt :
      (leaf : Script) (unlocking : List Bytes) (lock_time : ℕ) (outputs : List TxOut)
      (tx : Transaction)
      → sign_by_script lib self keys leaf unlocking (unsigned_spend self 0 lock_time outputs)
        ≡ ok tx
      → IsBuilt leaf unlocking lock_time outputs false tx
  unfolding sign_by_script
  sign_by_script-IsBuilt leaf unlocking lock_time outputs tx e =
      let unsigned = unsigned_spend self 0 lock_time outputs in
      let hash =
        script_spend_sighash unsigned 0 (self.funding_utxo ∷ []) (tap_leaf_hash leaf)
          self.genesis_hash in
      let (sighash, hashes, e1) = bind-eq-ok hash _ e in
      let (msg, is_message, e2) = bind-eq-ok (musig.message_from_digest sighash) _ e1 in
      let (info, constructed, e3) = bind-eq-ok (taproot_spendinfo lib self.swap_script) _ e2 in
      let missing = Error.taproot "Could not create control block" in
      let (control_block, controls, e4) =
        bind-eq-ok (ok_or (info.control_block leaf) missing) _ e3 in
      record {
        sequence = 0;
        witness = script_witness (script_items lib keys leaf unlocking msg control_block);
        is_tx = sym (ok-injective e4);
        witnessed = by_script (record {
          sighash = sighash;
          msg = msg;
          info = info;
          control_block = control_block;
          hashes = hashes;
          is_message = is_message;
          constructed = constructed;
          controls = ok_or-eq-ok (info.control_block leaf) missing controls;
          is_witness = refl;
        });
      }

  stubbed-IsBuilt :
      (leaf : Script) (unlocking : List Bytes) (lock_time : ℕ) (outputs : List TxOut)
      (tx : Transaction)
      → set_witness stubbed_cooperative_witness (unsigned_spend self sequence_max lock_time outputs)
        ≡ ok tx
      → IsBuilt leaf unlocking lock_time outputs true tx
  stubbed-IsBuilt leaf unlocking lock_time outputs tx e = record {
    sequence = sequence_max;
    witness = stubbed_cooperative_witness;
    is_tx = sym (ok-injective e);
    witnessed = stubbed;
  }

  pub finished-IsBuilt :
      (leaf : Script) (unlocking : List Bytes) (lock_time : ℕ) (outputs : List TxOut)
      (cooperative : Bool) (tx : Transaction)
      → (if cooperative
          then set_witness stubbed_cooperative_witness
              (unsigned_spend self sequence_max lock_time outputs)
          else sign_by_script lib self keys leaf unlocking
              (unsigned_spend self 0 lock_time outputs))
        ≡ ok tx
      → IsBuilt leaf unlocking lock_time outputs cooperative tx
  finished-IsBuilt leaf unlocking lock_time outputs true tx e =
      stubbed-IsBuilt leaf unlocking lock_time outputs tx e
  finished-IsBuilt leaf unlocking lock_time outputs false tx e =
      sign_by_script-IsBuilt leaf unlocking lock_time outputs tx e
