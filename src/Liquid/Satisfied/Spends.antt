-- ===== src/Liquid/Satisfied/Spends.antt =====
-- A claim or a refund over the script path, as `LBtcSwapTx::create_claim` and
-- `LBtcSwapTx::create_refund` build it, held against the rules of the scripts that it reveals.
use mathlib.Core.Path.{subst}
use bullbitcoin_rnd.Base.{
  some-injective, ℕ, ◌^◌, ◌<◌, ◌≡◌, refl, sym, ap, ◌∙◌, false, some, List, [], ◌∷◌, Bytes, length,
}
use bullbitcoin_rnd.Error.{Error}
use bullbitcoin_rnd.Result.{ok, ok_or, bind-eq-ok, ok-injective, ok_or-eq-ok}
use bullbitcoin_rnd.Musig.{Keypair}
use bullbitcoin_rnd.Secrets.Preimage.{Preimage}
use bullbitcoin_rnd.Script.LockTime.{find_lock_time, find_lock_time-into_script}
use bullbitcoin_rnd.Script.Consensus.{satisfies}
use bullbitcoin_rnd.Script.Consensus.Claim.{HasSize}
use bullbitcoin_rnd.Script.Consensus.Witness.{is_unlocked-own, claim-satisfies, refund-satisfies}
use bullbitcoin_rnd.Liquid.Crate.{TxInWitness, TxOut, Transaction, ElementsLib}
use bullbitcoin_rnd.Liquid.SwapScript.{LBtcSwapScript, claim_script, refund_script}
use bullbitcoin_rnd.Liquid.SwapTx.{LBtcSwapTx, funding_input, spend}
use bullbitcoin_rnd.Liquid.Blind.{BlindEntropy, blinded_outputs}
use bullbitcoin_rnd.Liquid.Create.{create_claim, create_refund}
use bullbitcoin_rnd.Liquid.Create.Signed.{IsBuilt, finished-IsBuilt}
use bullbitcoin_rnd.Liquid.Satisfied.{
  Node, SpendLaws, spend_of, IsSatisfied, witnessed-IsScriptSpend, valid,
}

module _ (lib : ElementsLib) (node : Node) (self : LBtcSwapTx) (laws : SpendLaws lib node)
    (keys : Keypair) where
  open lib use {script, musig, signature_to_vec}

  abbrev s : LBtcSwapScript
  s = self.swap_script

  built-claim :
      (preimage : Bytes) (outputs : List TxOut) (tx : Transaction)
      → length s.hashlock ≡ 20
      → node.hash160 preimage ≡ s.hashlock
      → HasSize s.swap_type preimage
      → script.x_only (musig.public_key keys) ≡ script.x_only s.receiver_pubkey
      → IsBuilt lib self keys (claim_script lib s) (preimage ∷ []) 0 outputs false tx
      → IsSatisfied lib node self (claim_script lib s) tx
  unfolding claim_script
  built-claim preimage outputs tx twenty hashes sized ours h =
      let leaf = claim_script lib s in
      let (opted, made) =
        witnessed-IsScriptSpend lib node self laws keys leaf (preimage ∷ []) 0 outputs h.sequence
          h.witness h.witnessed in
      let is : tx ≡ spend self 0 0 outputs h.witness =
        h.is_tx ∙ ap (λ n. spend self n 0 outputs h.witness) opted in
      let built = spend self 0 0 outputs h.witness in
      let signature = signature_to_vec (musig.sign_schnorr made.msg keys) in
      let signs =
        valid lib node self laws keys s.receiver_pubkey leaf (preimage ∷ []) 0 outputs h.witness
          made ours in
      let input = record (funding_input self 0) { witness = h.witness } in
      rw is (record {
        input = input;
        is_input = refl;
        spends = refl;
        is_satisfied =
            ap
              (λ (w : TxInWitness).
                satisfies script (spend_of lib node self built leaf input) w.script_witness)
              made.is_witness
            ∙ claim-satisfies script laws.scripts laws.pushes _ signature made.control_block
                s.swap_type s.hashlock preimage s.receiver_pubkey twenty hashes sized signs;
      })

  built-refund :
      (outputs : List TxOut) (tx : Transaction)
      → 16 < s.locktime
      → s.locktime < 2 ^ 31
      → script.x_only (musig.public_key keys) ≡ script.x_only s.sender_pubkey
      → IsBuilt lib self keys (refund_script lib s) [] s.locktime outputs false tx
      → IsSatisfied lib node self (refund_script lib s) tx
  unfolding refund_script
  built-refund outputs tx low high ours h =
      let leaf = refund_script lib s in
      let n = s.locktime in
      let (opted, made) =
        witnessed-IsScriptSpend lib node self laws keys leaf [] n outputs h.sequence h.witness
          h.witnessed in
      let is : tx ≡ spend self 0 n outputs h.witness =
        h.is_tx ∙ ap (λ m. spend self m n outputs h.witness) opted in
      let built = spend self 0 n outputs h.witness in
      let signature = signature_to_vec (musig.sign_schnorr made.msg keys) in
      let signs =
        valid lib node self laws keys s.sender_pubkey leaf [] n outputs h.witness made ours in
      let input = record (funding_input self 0) { witness = h.witness } in
      rw is (record {
        input = input;
        is_input = refl;
        spends = refl;
        is_satisfied =
            ap
              (λ (w : TxInWitness).
                satisfies script (spend_of lib node self built leaf input) w.script_witness)
              made.is_witness
            ∙ refund-satisfies script laws.scripts laws.pushes _ signature made.control_block
                s.sender_pubkey n low high signs
                (is_unlocked-own (spend_of lib node self built leaf input) n refl refl);
      })

  -- A Liquid claim that is built without cooperation has one input, which satisfies the claim
  -- script that its witness reveals, if the keys are those of the receiver and the preimage
  -- hashes to the hash lock of 20 bytes, and has 32 bytes in all but a submarine swap. The laws
  -- are those of the script functions and script numbers, that the signature hash does not
  -- commit to script witnesses, and that a signature is valid for the key that made it.
  pub liquid_create_claim-satisfies :
      (preimage : Preimage) (bytes : Bytes) (fee : ℕ) (draws : BlindEntropy) (tx : Transaction)
      → preimage.bytes ≡ some bytes
      → length self.swap_script.hashlock ≡ 20
      → node.hash160 bytes ≡ self.swap_script.hashlock
      → HasSize self.swap_script.swap_type bytes
      → script.x_only (musig.public_key keys) ≡ script.x_only self.swap_script.receiver_pubkey
      → create_claim lib self keys preimage fee false draws ≡ ok tx
      → IsSatisfied lib node self (claim_script lib self.swap_script) tx
  unfolding create_claim
  liquid_create_claim-satisfies preimage bytes fee draws tx known twenty hashes sized ours e =
      let unknown = Error.protocol "No preimage provided" in
      let (found, finds, e1) = bind-eq-ok (ok_or preimage.bytes unknown) _ e in
      let (outputs, blinds, e2) = bind-eq-ok (blinded_outputs lib self fee draws) _ e1 in
      let same : found ≡ bytes =
        some-injective (sym (ok_or-eq-ok preimage.bytes unknown finds) ∙ known) in
      let out : List TxOut = outputs.payment ∷ outputs.fee ∷ [] in
      let built =
        finished-IsBuilt lib self keys (claim_script lib s) (found ∷ []) 0 out false tx e2 in
      built-claim found out tx twenty (ap node.hash160 same ∙ hashes)
        (subst (HasSize s.swap_type) (sym same) sized) ours built

  -- A Liquid refund that is built without cooperation has one input, which satisfies the refund
  -- script that its witness reveals, if the keys are those of the sender and the lock time is
  -- above 16 and below 2 ^ 31. The laws are those of the script functions and script numbers,
  -- that the signature hash does not commit to script witnesses, and that a signature is valid for the
  -- key that made it.
  pub liquid_create_refund-satisfies :
      (fee : ℕ) (draws : BlindEntropy) (tx : Transaction)
      → 16 < self.swap_script.locktime
      → self.swap_script.locktime < 2 ^ 31
      → script.x_only (musig.public_key keys) ≡ script.x_only self.swap_script.sender_pubkey
      → create_refund lib self keys fee false draws ≡ ok tx
      → IsSatisfied lib node self (refund_script lib self.swap_script) tx
  unfolding create_refund refund_script
  liquid_create_refund-satisfies fee draws tx low high ours e =
      let leaf = refund_script lib s in
      let (outputs, blinds, e1) = bind-eq-ok (blinded_outputs lib self fee draws) _ e in
      let (n, finds, e2) = bind-eq-ok (find_lock_time (script.instructions leaf)) _ e1 in
      let out : List TxOut = outputs.fee ∷ outputs.payment ∷ [] in
      let reads =
        find_lock_time-into_script script laws.scripts s.sender_pubkey s.locktime low high in
      let same : n ≡ s.locktime = ok-injective (sym finds ∙ reads) in
      let built = finished-IsBuilt lib self keys leaf [] n out false tx e2 in
      built-refund out tx low high ours
        (subst (λ m. IsBuilt lib self keys leaf [] m out false tx) same built)
