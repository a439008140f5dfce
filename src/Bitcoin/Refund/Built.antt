-- ===== src/Bitcoin/Refund/Built.antt =====
-- What a refund that was built spends, pays and signs.
use bullbitcoin_rnd.Base.{
  ℕ, ◌+◌, ◌-◌, ◌^◌, ◌≤◌, ◌<◌, ◌≡◌, refl, sym, ap, ◌∙◌, arith, Bool, true, false, some, List, [],
  ◌∷◌, map, Bytes, get_elem?, length, length-map, leb,
}
use bullbitcoin_rnd.Error.{Error}
use bullbitcoin_rnd.Result.{ok, err, bind-eq-ok}
use bullbitcoin_rnd.Musig.{Keypair}
use bullbitcoin_rnd.Script.Instruction.{ScriptLaws}
use bullbitcoin_rnd.Script.LockTime.{find_lock_time, find_lock_time-into_script}
use bullbitcoin_rnd.Bitcoin.Crate.{TxIn, TxOut, Transaction, SpendInfo, BitcoinLib}
use bullbitcoin_rnd.Bitcoin.SwapScript.{BtcSwapScript, refund_script, taproot_spendinfo}
use bullbitcoin_rnd.Bitcoin.SwapTx.{
  BtcSwapTx, sequence_max, stubbed_cooperative_witness, unsigned_input,
}
use bullbitcoin_rnd.Bitcoin.Refund.{
  total_from, with_sequences, with_witnesses, refund_refusal, refund_draft, refund_witness,
  refund_witness_at, refund_by_script, create_refund,
}
use bullbitcoin_rnd.Bitcoin.SwapTx.Loop.{unsigned, sign_inputs-IsMadeFor}
use bullbitcoin_rnd.Bitcoin.Refund.Drafted.{
  worth, outpoints, total_from-fits, create_refund-IsDrafted, refund_by_script-IsSignedRefund,
  refund_by_script-unsigned, finished-outpoints, finished-output, sequence_at,
}

-- BIP 341: the signature hash does not commit to the witnesses.
abbrev pub SighashLaw : BitcoinLib → Type 0
SighashLaw lib =
    (tx : Transaction) (i : ℕ) (outs : List TxOut) (leaf : Bytes)
    → lib.script_spend_sighash (unsigned tx) i outs leaf ≡ lib.script_spend_sighash tx i outs leaf

module _ (lib : BitcoinLib) (s : BtcSwapScript) (keys : Keypair) (tx_outs : List TxOut)
    (control_block : Bytes) where
  open lib use {musig, tap_leaf_hash, script_spend_sighash}

  -- The witness of an input: a signature of the transaction's own hash, the refund script and the
  -- control block.
  pub record IsSignedAt (tx : Transaction) (k : ℕ) (witness : List Bytes) : Type 0 where
    pub sighash : Bytes
    pub msg : Bytes
    pub hashes :
        script_spend_sighash tx k tx_outs (tap_leaf_hash (refund_script lib s)) ≡ ok sighash
    pub is_message : musig.message_from_digest sighash ≡ ok msg
    pub is_witness : witness ≡ refund_witness lib s keys tx_outs control_block msg

  refund_witness_at-IsSignedAt :
      (law : SighashLaw lib) (k : ℕ) (from tx : Transaction) (witness : List Bytes)
      → unsigned from ≡ unsigned tx
      → refund_witness_at lib s keys tx_outs control_block k from ≡ ok witness
      → IsSignedAt tx k witness
  unfolding refund_witness_at
  refund_witness_at-IsSignedAt law k from tx witness same e =
      let leaf = tap_leaf_hash (refund_script lib s) in
      let (sighash, hashes, e1) = bind-eq-ok (script_spend_sighash from k tx_outs leaf) _ e in
      let (msg, is_message, e2) = bind-eq-ok (musig.message_from_digest sighash) _ e1 in
      record {
        sighash = sighash;
        msg = msg;
        hashes =
            sym (law tx k tx_outs leaf)
            ∙ ap (λ t. script_spend_sighash t k tx_outs leaf) (sym same)
            ∙ law from k tx_outs leaf
            ∙ hashes;
        is_message = is_message;
        is_witness = ground (arith, e2);
      }

module _ (lib : BitcoinLib) (self : BtcSwapTx) (keys : Keypair) (fee : ℕ) where
  open lib use {script, script_pubkey}

  -- A refund that is built spends every utxo of the swap, in order, and has one output, to the
  -- output address, of what the utxos are worth together less the fee, which is below that.
  pub create_refund-conserves :
      (cooperative : Bool) (tx : Transaction)
      → create_refund lib self keys fee cooperative ≡ ok tx
      → (out : TxOut) × (tx.output ≡ out ∷ [])
        × (out.value + fee ≡ worth self.utxos)
        × (fee < worth self.utxos)
        × (out.script_pubkey ≡ script_pubkey self.output_address)
        × (outpoints tx.input ≡ map (λ u. u.outpoint) self.utxos)
  create_refund-conserves cooperative tx e =
      let h = create_refund-IsDrafted lib self keys fee cooperative tx e in
      (
        _,
        (finished-output lib self keys fee cooperative tx h).0,
        omega (arith, h.above),
        h.above,
        refl,
        finished-outpoints lib self keys fee cooperative tx h,
      )

  total : worth self.utxos < 2 ^ 64 → total_from 0 self.utxos ≡ ok (worth self.utxos)
  total fits = ground (arith, total_from-fits 0 self.utxos (omega arith))

  not_above : fee < worth self.utxos → leb (worth self.utxos) fee ≡ false
  not_above h = ground arith

  -- A fee that leaves nothing of what the utxos are worth is refused with a generic error, where what
  -- they are worth is below 2 ^ 64.
  pub create_refund-overdrawn :
      (cooperative : Bool)
      → worth self.utxos < 2 ^ 64
      → worth self.utxos ≤ fee
      → create_refund lib self keys fee cooperative
        ≡ err (Error.generic (refund_refusal lib (worth self.utxos) fee))
  unfolding create_refund
  create_refund-overdrawn cooperative fits short = rw (total fits) (ground (arith, short))

  module _ (laws : ScriptLaws script) where
    find_lock_time-refund_script :
        16 < self.swap_script.locktime
        → self.swap_script.locktime < 2 ^ 31
        → find_lock_time (script.instructions (refund_script lib self.swap_script))
          ≡ ok self.swap_script.locktime
    unfolding refund_script
    find_lock_time-refund_script =
        find_lock_time-into_script script laws self.swap_script.sender_pubkey
          self.swap_script.locktime

    -- The lock time of a refund is that of the swap script, if it is above 16 and below 2 ^ 31 and
    -- the script functions keep their documented laws.
    pub create_refund-lock_time :
        (cooperative : Bool) (tx : Transaction)
        → 16 < self.swap_script.locktime
        → self.swap_script.locktime < 2 ^ 31
        → create_refund lib self keys fee cooperative ≡ ok tx
        → tx.lock_time ≡ self.swap_script.locktime
    create_refund-lock_time cooperative tx low high e =
        let h = create_refund-IsDrafted lib self keys fee cooperative tx e in
        ground (
          arith,
          (finished-output lib self keys fee cooperative tx h).1,
          h.found,
          find_lock_time-refund_script low high,
        )

    -- A cooperative refund is built, as the draft with the stub for each witness, where the fee is
    -- below what the utxos are worth, that is below 2 ^ 64, the lock time is above 16 and below
    -- 2 ^ 31, and the script functions keep their documented laws.
    pub create_refund-cooperative :
        worth self.utxos < 2 ^ 64
        → fee < worth self.utxos
        → 16 < self.swap_script.locktime
        → self.swap_script.locktime < 2 ^ 31
        → create_refund lib self keys fee true
          ≡ ok (
              with_witnesses stubbed_cooperative_witness
                (refund_draft lib self (worth self.utxos - fee) self.swap_script.locktime))
    unfolding create_refund
    create_refund-cooperative fits enough low high =
        rw (total fits, not_above enough, find_lock_time-refund_script low high)

    -- Under the same conditions a refund that is not cooperative is the draft, signed by the script.
    pub create_refund-by_script :
        worth self.utxos < 2 ^ 64
        → fee < worth self.utxos
        → 16 < self.swap_script.locktime
        → self.swap_script.locktime < 2 ^ 31
        → create_refund lib self keys fee false
          ≡ refund_by_script lib self keys
              (refund_draft lib self (worth self.utxos - fee) self.swap_script.locktime)
    unfolding create_refund
    create_refund-by_script fits enough low high =
        rw (total fits, not_above enough, find_lock_time-refund_script low high)

  -- Without cooperation every input of a refund that is built has sequence number 0 and a witness of
  -- the script path: a signature of the finished transaction's own hash at that input, the refund
  -- script, and the control block that the taproot construction gives for it. The law is that the
  -- signature hash does not commit to witnesses.
  pub create_refund-signed :
      (law : SighashLaw lib) (tx : Transaction)
      → create_refund lib self keys fee false ≡ ok tx
      → (info : SpendInfo) × (control_block : Bytes) × (taproot_spendinfo lib self.swap_script
          ≡ ok info)
        × (info.control_block (refund_script lib self.swap_script) ≡ some control_block)
        × ((k : ℕ) (input : TxIn)
            → k < length self.utxos
            → get_elem? tx.input k ≡ some input
            → (input.sequence ≡ 0)
              × IsSignedAt lib self.swap_script keys
                  (map (λ utxo. utxo.txout) self.utxos)
                  control_block
                  tx
                  k
                  input.witness)
  create_refund-signed law tx e =
      let h = create_refund-IsDrafted lib self keys fee false tx e in
      let r = refund_by_script-IsSignedRefund lib self keys fee _ tx h.finished in
      let outs = map (λ utxo. utxo.txout) self.utxos in
      let draft = refund_draft lib self (worth self.utxos - fee) h.lock_time in
      let witness_at = refund_witness_at lib self.swap_script keys outs r.control_block in
      (
        r.info,
        r.control_block,
        r.constructed,
        r.reveals,
        λ k input inside at. (
          sequence_at lib self keys fee draft tx k input
              (refund_by_script-unsigned lib self keys fee draft tx h.finished) at,
          let made =
                sign_inputs-IsMadeFor witness_at (length draft.input) (with_sequences 0 draft) tx
                  r.signs k input
                  (omega
                    (arith, length-map (λ u. unsigned_input u.outpoint sequence_max) self.utxos))
                  at in
              refund_witness_at-IsSignedAt lib self.swap_script keys outs r.control_block law k
                made.made_from tx input.witness made.same made.makes,
        ),
      )
