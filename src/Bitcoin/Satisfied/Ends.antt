-- ===== src/Bitcoin/Satisfied/Ends.antt =====
-- `BtcSwapTx::create_claim` and `BtcSwapTx::create_refund` over the script path end with a transaction.
use bullbitcoin_rnd.Base.{
  true, ◌-◌, ℕ, ◌^◌, ◌<◌, ◌≡◌, refl, sym, ◌∙◌, arith, false, some, List, [], ◌∷◌, map, Bytes,
  get_elem?, length, length-map, head?,
}
use bullbitcoin_rnd.Result.{ok}
use bullbitcoin_rnd.Musig.{Keypair}
use bullbitcoin_rnd.Secrets.Preimage.{Preimage}
use bullbitcoin_rnd.Script.Instruction.{Script}
use bullbitcoin_rnd.Script.Consensus.{satisfies}
use bullbitcoin_rnd.Script.Consensus.Claim.{HasSize}
use bullbitcoin_rnd.Bitcoin.Crate.{TxIn, TxOut, Transaction, SpendInfo, BitcoinLib}
use bullbitcoin_rnd.Bitcoin.SwapScript.{
  BtcSwapScript, claim_script, refund_script, taproot_spendinfo,
}
use bullbitcoin_rnd.Bitcoin.SwapTx.{BtcSwapTx, unsigned_input, sequence_max}
use bullbitcoin_rnd.Bitcoin.SwapTx.Loop.{sign_inputs-ends}
use bullbitcoin_rnd.Bitcoin.Utxos.{Utxo}
use bullbitcoin_rnd.Bitcoin.Claim.{claim_draft, claim_by_script, create_claim, with_witness}
use bullbitcoin_rnd.Bitcoin.Claim.Value.{claim_input}
use bullbitcoin_rnd.Bitcoin.Refund.{
  refund_draft, with_sequences, refund_by_script, refund_witness, refund_witness_at, create_refund,
}
use bullbitcoin_rnd.Bitcoin.Refund.Drafted.{worth, outpoints}
use bullbitcoin_rnd.Bitcoin.Refund.Built.{create_refund-by_script, create_refund-conserves}
use bullbitcoin_rnd.Bitcoin.Satisfied.{
  Node, spend_at, SpendLaws, create_claim-satisfies, create_refund-satisfies,
}

module _ (lib : BitcoinLib) where
  open lib use {script, musig, tap_leaf_hash, script_spend_sighash}

  -- BIP 341: an input of a transaction has a signature hash, given the outputs that the inputs spend,
  -- and it is one that can be signed.
  abbrev pub HashLaw : Type 0
  HashLaw =
      (tx : Transaction) (k : ℕ) (outs : List TxOut) (leaf : Bytes)
      → k < length tx.input
      → length outs ≡ length tx.input
      → (sighash : Bytes) × (msg : Bytes) × (script_spend_sighash tx k outs leaf ≡ ok sighash)
        × (musig.message_from_digest sighash ≡ ok msg)

  -- The taproot construction of the swap script succeeds, and has a control block for a leaf.
  pub record HasLeaf (s : BtcSwapScript) (leaf : Script) : Type 0 where
    pub info : SpendInfo
    pub control_block : Bytes
    pub constructed : taproot_spendinfo lib s ≡ ok info
    pub reveals : info.control_block leaf ≡ some control_block

  module _ (law : HashLaw) (self : BtcSwapTx) (keys : Keypair) where
    abbrev s : BtcSwapScript
    s = self.swap_script

    abbrev outs : List TxOut
    outs = map (λ utxo. utxo.txout) self.utxos

    refund_witness_at-ends :
        (control_block : Bytes) (k : ℕ) (t : Transaction)
        → k < length self.utxos
        → length t.input ≡ length self.utxos
        → (witness : List Bytes) × (refund_witness_at lib s keys outs control_block k t
            ≡ ok witness)
    unfolding refund_witness_at
    refund_witness_at-ends control_block k t inside has =
        let leaf = tap_leaf_hash (refund_script lib s) in
        let (sighash, msg, hashes, is_message) =
          law t k outs leaf (omega (arith, inside, has)) (length-map _ self.utxos ∙ sym has) in
        (refund_witness lib s keys outs control_block msg, rw (hashes, is_message) refl)

    refund_by_script-ends :
        (amount : ℕ)
        → HasLeaf s (refund_script lib s)
        → (tx : Transaction) × (refund_by_script lib self keys
              (refund_draft lib self amount s.locktime)
            ≡ ok tx)
    unfolding refund_by_script
    refund_by_script-ends amount has =
        let draft = refund_draft lib self amount s.locktime in
        let inputs : length (with_sequences 0 draft).input ≡ length self.utxos =
          length-map _ draft.input ∙ length-map _ self.utxos in
        let (after, ends) =
          sign_inputs-ends (refund_witness_at lib s keys outs has.control_block)
            (length draft.input) 0 (length self.utxos) (with_sequences 0 draft)
            (λ k t inside same.
              refund_witness_at-ends has.control_block k t
                (omega (
                  arith,
                  inside,
                  length-map (λ (u : Utxo). unsigned_input u.outpoint sequence_max) self.utxos,
                ))
                same)
            inputs in
        (after, rw (has.constructed, has.reveals, ends) refl)

    claim_by_script-ends :
        (utxo : Utxo) (preimage : Bytes) (fee : ℕ)
        → HasLeaf s (claim_script lib s)
        → (tx : Transaction) × (claim_by_script lib s
              (claim_draft lib self utxo fee 0)
              utxo
              keys
              preimage
            ≡ ok tx)
    unfolding claim_by_script
    claim_by_script-ends utxo preimage fee has =
        let draft = claim_draft lib self utxo fee 0 in
        let (sighash, msg, hashes, is_message) =
          law draft 0 (utxo.txout ∷ []) (tap_leaf_hash (claim_script lib s)) (omega arith) refl in
        let witness : List Bytes =
          lib.signature_to_vec (musig.sign_schnorr msg keys)
          ∷ preimage
          ∷ claim_script lib s
          ∷ has.control_block
          ∷ [] in
        (
          with_witness lib witness draft utxo 0,
          rw (hashes, is_message, has.constructed, has.reveals) refl,
        )

    module _ (node : Node) (laws : SpendLaws lib node) (fee : ℕ) where
      -- Without cooperation a refund is built, spends every utxo in order, and every input satisfies the
      -- refund script that its witness reveals. This is where the fee is below what the utxos are worth,
      -- that is below 2 ^ 64, the lock time is above 16 and below 2 ^ 31, the keys are those of the
      -- sender, and the taproot construction has a control block for the refund script. The laws are
      -- those of the script functions and script numbers, that an input has a signature hash, which does
      -- not commit to witnesses, and that a signature is valid for the key that made it.
      pub create_refund-ok :
          worth self.utxos < 2 ^ 64
          → fee < worth self.utxos
          → 16 < self.swap_script.locktime
          → self.swap_script.locktime < 2 ^ 31
          → script.x_only (musig.public_key keys) ≡ script.x_only self.swap_script.sender_pubkey
          → HasLeaf self.swap_script (refund_script lib self.swap_script)
          → (tx : Transaction) × (create_refund lib self keys fee false ≡ ok tx)
            × (outpoints tx.input ≡ map (λ u. u.outpoint) self.utxos)
            × ((k : ℕ) (input : TxIn)
                → k < length self.utxos
                → get_elem? tx.input k ≡ some input
                → satisfies script
                    (spend_at node tx k
                      (map (λ utxo. utxo.txout) self.utxos)
                      (tap_leaf_hash (refund_script lib self.swap_script))
                      input)
                    input.witness
                  ≡ true)
      create_refund-ok fits enough low high ours has =
          let (tx, ends) = refund_by_script-ends (worth self.utxos - fee) has in
          let built : create_refund lib self keys fee false ≡ ok tx =
            create_refund-by_script lib self keys fee laws.scripts fits enough low high ∙ ends in
          let (out, _, _, _, _, spent) = create_refund-conserves lib self keys fee false tx built in
          (
            tx,
            built,
            spent,
            λ k input inside at.
                create_refund-satisfies lib node laws self keys fee tx k input low high ours built
                  inside at,
          )

      -- Without cooperation a claim of the first utxo is built, with one input, which satisfies the claim
      -- script that its witness reveals. This is where the preimage is known and hashes to the hash lock
      -- of 20 bytes, and has 32 bytes in all but a submarine swap, the keys are those of the receiver,
      -- and the taproot construction has a control block for the claim script. The laws are those of the
      -- script functions and script numbers, that an input has a signature hash, which does not commit to
      -- witnesses, and that a signature is valid for the key that made it.
      pub create_claim-ok :
          (preimage : Preimage) (bytes : Bytes) (utxo : Utxo)
          → head? self.utxos ≡ some utxo
          → preimage.bytes ≡ some bytes
          → length self.swap_script.hashlock ≡ 20
          → node.hash160 bytes ≡ self.swap_script.hashlock
          → HasSize self.swap_script.swap_type bytes
          → script.x_only (musig.public_key keys) ≡ script.x_only self.swap_script.receiver_pubkey
          → HasLeaf self.swap_script (claim_script lib self.swap_script)
          → (tx : Transaction) × (create_claim lib self keys preimage fee false ≡ ok tx)
            × (outpoints tx.input ≡ utxo.outpoint ∷ [])
            × (input : TxIn) × (tx.input ≡ input ∷ [])
            × (satisfies script
                  (spend_at node tx 0
                    (utxo.txout ∷ [])
                    (tap_leaf_hash (claim_script lib self.swap_script))
                    input)
                  input.witness
                ≡ true)
      unfolding create_claim
      create_claim-ok preimage bytes utxo first known twenty hashes sized ours has =
          let (tx, ends) = claim_by_script-ends utxo bytes fee has in
          let built : create_claim lib self keys preimage fee false ≡ ok tx =
            rw (known, first, ends) refl in
          let (input, one, satisfied) =
            create_claim-satisfies lib node laws self keys fee preimage bytes utxo tx first known
              twenty hashes sized ours built in
          (
            tx,
            built,
            claim_input lib self keys preimage fee false utxo tx first built,
            input,
            one,
            satisfied,
          )
