-- ===== src/Liquid/Satisfied/Ends.antt =====
-- `LBtcSwapTx::create_claim` and `LBtcSwapTx::create_refund` over the script path end with a transaction.
use bullbitcoin_rnd.Base.{ℕ, ◌^◌, ◌<◌, ◌≡◌, refl, false, some, List, [], ◌∷◌, Bytes, length}
use bullbitcoin_rnd.Result.{ok}
use bullbitcoin_rnd.Musig.{Keypair}
use bullbitcoin_rnd.Secrets.Preimage.{Preimage}
use bullbitcoin_rnd.Script.Instruction.{Script}
use bullbitcoin_rnd.Script.LockTime.{find_lock_time-into_script}
use bullbitcoin_rnd.Script.Consensus.Claim.{HasSize}
use bullbitcoin_rnd.Liquid.Crate.{TxOut, Transaction, ElementsLib}
use bullbitcoin_rnd.Taproot.{SpendInfo}
use bullbitcoin_rnd.Liquid.SwapScript.{
  LBtcSwapScript, claim_script, refund_script, taproot_spendinfo,
}
use bullbitcoin_rnd.Liquid.SwapTx.{LBtcSwapTx, unsigned_spend, spend, script_witness}
use bullbitcoin_rnd.Liquid.Blind.{BlindEntropy}
use bullbitcoin_rnd.Liquid.Blind.Ends.{IsBlindable, blinded_outputs-ends}
use bullbitcoin_rnd.Liquid.Create.{script_items, sign_by_script, create_claim, create_refund}
use bullbitcoin_rnd.Liquid.Satisfied.{Node, SpendLaws, IsSatisfied}
use bullbitcoin_rnd.Liquid.Satisfied.Spends.{
  liquid_create_claim-satisfies, liquid_create_refund-satisfies,
}

module _ (lib : ElementsLib) where
  open lib use {script, musig, tap_leaf_hash, script_spend_sighash, signature_to_vec}

  -- The only input of a transaction has a signature hash, given the output that it spends, and it is one
  -- that can be signed.
  abbrev pub HashLaw : LBtcSwapTx → Type 0
  HashLaw self =
      (lock_time : ℕ) (outputs : List TxOut) (leaf : Bytes)
      → (sighash : Bytes) × (msg : Bytes) × (script_spend_sighash
            (unsigned_spend self 0 lock_time outputs) 0 (self.funding_utxo ∷ []) leaf
            self.genesis_hash
          ≡ ok sighash)
        × (musig.message_from_digest sighash ≡ ok msg)

  -- The taproot construction of the swap script succeeds, and has a control block for a leaf.
  pub record HasLeaf (s : LBtcSwapScript) (leaf : Script) : Type 0 where
    pub info : SpendInfo
    pub control_block : Bytes
    pub constructed : taproot_spendinfo lib s ≡ ok info
    pub reveals : info.control_block leaf ≡ some control_block

  module _ (self : LBtcSwapTx) (law : HashLaw self) (keys : Keypair) where
    abbrev s : LBtcSwapScript
    s = self.swap_script

    sign_by_script-ends :
        (leaf : Script) (unlocking : List Bytes) (lock_time : ℕ) (outputs : List TxOut)
        → HasLeaf s leaf
        → (tx : Transaction) × (sign_by_script lib self keys leaf unlocking
              (unsigned_spend self 0 lock_time outputs)
            ≡ ok tx)
    unfolding sign_by_script
    sign_by_script-ends leaf unlocking lock_time outputs has =
        let (sighash, msg, hashes, is_message) = law lock_time outputs (tap_leaf_hash leaf) in
        (
          spend self 0 lock_time outputs
              (script_witness (script_items lib keys leaf unlocking msg has.control_block)),
          rw (hashes, is_message, has.constructed, has.reveals) refl,
        )

    module _ (node : Node) (laws : SpendLaws lib node) (fee : ℕ) (draws : BlindEntropy) where
      -- Without cooperation a Liquid claim is built, with one input, of the funding output, which
      -- satisfies the claim script that its witness reveals. This is where the preimage is known and
      -- hashes to the hash lock of 20 bytes, and has 32 bytes in all but a submarine swap, the keys are
      -- those of the receiver, the funding output opens to at least the fee and the rest can be blinded,
      -- and the taproot construction has a control block for the claim script. The laws are those of the
      -- script functions and script numbers, that the input has a signature hash, which does not commit to
      -- script witnesses, and that a signature is valid for the key that made it.
      pub liquid_create_claim-ok :
          (preimage : Preimage) (bytes : Bytes)
          → preimage.bytes ≡ some bytes
          → length self.swap_script.hashlock ≡ 20
          → node.hash160 bytes ≡ self.swap_script.hashlock
          → HasSize self.swap_script.swap_type bytes
          → script.x_only (musig.public_key keys) ≡ script.x_only self.swap_script.receiver_pubkey
          → IsBlindable lib self fee draws
          → HasLeaf self.swap_script (claim_script lib self.swap_script)
          → (tx : Transaction) × (create_claim lib self keys preimage fee false draws ≡ ok tx)
            × IsSatisfied lib node self (claim_script lib self.swap_script) tx
      unfolding create_claim
      liquid_create_claim-ok preimage bytes known twenty hashes sized ours blindable has =
          let (outputs, blinds) = blinded_outputs-ends lib self fee draws blindable in
          let (tx, ends) =
            sign_by_script-ends (claim_script lib s) (bytes ∷ []) 0
              (outputs.payment ∷ outputs.fee ∷ []) has in
          let built : create_claim lib self keys preimage fee false draws ≡ ok tx =
            rw (known, blinds, ends) refl in
          (
            tx,
            built,
            liquid_create_claim-satisfies lib node self laws keys preimage bytes fee draws tx known
                twenty hashes sized ours built,
          )

      -- Without cooperation a Liquid refund is built, with one input, of the funding output, which
      -- satisfies the refund script that its witness reveals. This is where the lock time is above 16 and
      -- below 2 ^ 31, the keys are those of the sender, the funding output opens to at least the fee and
      -- the rest can be blinded, and the taproot construction has a control block for the refund script.
      -- The laws are those of the script functions and script numbers, that the input has a signature
      -- hash, which does not commit to script witnesses, and that a signature is valid for the key that
      -- made it.
      pub liquid_create_refund-ok :
          16 < self.swap_script.locktime
          → self.swap_script.locktime < 2 ^ 31
          → script.x_only (musig.public_key keys) ≡ script.x_only self.swap_script.sender_pubkey
          → IsBlindable lib self fee draws
          → HasLeaf self.swap_script (refund_script lib self.swap_script)
          → (tx : Transaction) × (create_refund lib self keys fee false draws ≡ ok tx)
            × IsSatisfied lib node self (refund_script lib self.swap_script) tx
      unfolding create_refund refund_script
      liquid_create_refund-ok low high ours blindable has =
          let (outputs, blinds) = blinded_outputs-ends lib self fee draws blindable in
          let (tx, ends) =
            sign_by_script-ends (refund_script lib s) [] s.locktime
              (outputs.fee ∷ outputs.payment ∷ []) has in
          let reads =
            find_lock_time-into_script script laws.scripts s.sender_pubkey s.locktime low high in
          let built : create_refund lib self keys fee false draws ≡ ok tx =
            rw (blinds, reads, ends) refl in
          (
            tx,
            built,
            liquid_create_refund-satisfies lib node self laws keys fee draws tx low high ours built,
          )
