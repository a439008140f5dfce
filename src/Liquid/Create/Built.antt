-- ===== src/Liquid/Create/Built.antt =====
-- What a Liquid claim or refund that was built pays, and when none is built.
use mathlib.Core.Path.{subst}
use bullbitcoin_rnd.Base.{ℕ, ◌^◌, ◌<◌, ◌≡◌, refl, sym, ◌∙◌, Bool, some, [], ◌∷◌, Bytes}
use bullbitcoin_rnd.Error.{Error}
use bullbitcoin_rnd.Result.{ok, panic, ok_or, bind-eq-ok, ok-injective, ok_or-eq-ok}
use bullbitcoin_rnd.Musig.{Keypair}
use bullbitcoin_rnd.Secrets.Preimage.{Preimage}
use bullbitcoin_rnd.Script.Instruction.{ScriptLaws}
use bullbitcoin_rnd.Script.LockTime.{find_lock_time, find_lock_time-into_script}
use bullbitcoin_rnd.Liquid.Crate.{TxOut, TxOutSecrets, BlindedAsset, Transaction, ElementsLib}
use bullbitcoin_rnd.Liquid.SwapScript.{claim_script, refund_script}
use bullbitcoin_rnd.Liquid.SwapTx.{LBtcSwapTx}
use bullbitcoin_rnd.Liquid.Blind.{BlindEntropy, blinded_outputs}
use bullbitcoin_rnd.Liquid.Blind.Balanced.{
  BlindLaws, IsPayment, blinded_outputs-IsPayment, blinded_outputs-overdrawn,
}
use bullbitcoin_rnd.Liquid.Create.Signed.{IsBuilt, finished-IsBuilt}
use bullbitcoin_rnd.Liquid.Create.{create_claim, create_refund}

module _ (lib : ElementsLib) (self : LBtcSwapTx) (keys : Keypair) (absolute_fees : ℕ)
    (draws : BlindEntropy) where
  open lib use {script, secret_key, unblind, blind_asset}

  -- A claim: the payment is the first output, and the lock time is zero.
  pub record IsClaim (preimage : Preimage) (cooperative : Bool) (tx : Transaction) : Type 0 where
    pub preimage_bytes : Bytes
    pub payment : TxOut
    pub fee : TxOut
    pub is_known : preimage.bytes ≡ some preimage_bytes
    pub pays : IsPayment lib self absolute_fees payment fee
    pub built :
        IsBuilt lib self keys
          (claim_script lib self.swap_script)
          (preimage_bytes ∷ [])
          0
          (payment ∷ fee ∷ [])
          cooperative
          tx

  -- A refund: the payment is the second output.
  pub record IsRefund (lock_time : ℕ) (cooperative : Bool) (tx : Transaction) : Type 0 where
    pub payment : TxOut
    pub fee : TxOut
    pub pays : IsPayment lib self absolute_fees payment fee
    pub built :
        IsBuilt lib self keys
          (refund_script lib self.swap_script)
          []
          lock_time
          (fee ∷ payment ∷ [])
          cooperative
          tx

  -- A Liquid claim that is built spends only the funding output, with lock time 0, and has two
  -- outputs: a payment to the output address and the fee, of the same asset. Whoever holds the
  -- blinding key of the output address opens the payment to the value of the funding output less
  -- the fee, with the last value factor that the elements crate computes for that output as the only
  -- input and the fee as the other output. A cooperative claim has the stub for a
  -- witness, any other a signature of its own hash with the preimage, the claim script and its
  -- control block. The law is that a key opens what was blinded for it.
  pub liquid_create_claim-IsClaim :
      (laws : BlindLaws lib) (preimage : Preimage) (cooperative : Bool) (tx : Transaction)
      → create_claim lib self keys preimage absolute_fees cooperative draws ≡ ok tx
      → IsClaim preimage cooperative tx
  unfolding create_claim
  liquid_create_claim-IsClaim laws preimage cooperative tx e =
      let unknown = Error.protocol "No preimage provided" in
      let (bytes, known, e1) = bind-eq-ok (ok_or preimage.bytes unknown) _ e in
      let (outputs, blinds, e2) = bind-eq-ok (blinded_outputs lib self absolute_fees draws) _ e1 in
      record {
        preimage_bytes = bytes;
        payment = outputs.payment;
        fee = outputs.fee;
        is_known = ok_or-eq-ok preimage.bytes unknown known;
        pays = blinded_outputs-IsPayment lib self absolute_fees laws draws outputs blinds;
        built =
            finished-IsBuilt lib self keys (claim_script lib self.swap_script) (bytes ∷ []) 0
              (outputs.payment ∷ outputs.fee ∷ []) cooperative tx e2;
      }

  -- A refund that is built has the lock time that its refund script is read for.
  pub create_refund-IsRefund :
      (laws : BlindLaws lib) (cooperative : Bool) (tx : Transaction)
      → create_refund lib self keys absolute_fees cooperative draws ≡ ok tx
      → (lock_time : ℕ) × (find_lock_time (script.instructions (refund_script lib self.swap_script))
          ≡ ok lock_time)
        × IsRefund lock_time cooperative tx
  unfolding create_refund
  create_refund-IsRefund laws cooperative tx e =
      let s = self.swap_script in
      let (outputs, blinds, e1) = bind-eq-ok (blinded_outputs lib self absolute_fees draws) _ e in
      let found = find_lock_time (script.instructions (refund_script lib s)) in
      let (lock_time, finds, e2) = bind-eq-ok found _ e1 in
      (
        lock_time,
        finds,
        record {
          payment = outputs.payment;
          fee = outputs.fee;
          pays = blinded_outputs-IsPayment lib self absolute_fees laws draws outputs blinds;
          built =
              finished-IsBuilt lib self keys (refund_script lib s) [] lock_time
                (outputs.fee ∷ outputs.payment ∷ []) cooperative tx e2;
        },
      )

  -- A Liquid refund that is built spends only the funding output, has the swap's own lock time, and
  -- has two outputs: the fee and a payment to the output address, of the same asset. Whoever holds
  -- the blinding key of the output address opens the payment to the value of the funding output
  -- less the fee, with the last value factor that the elements crate computes for that output as the only
  -- input and the fee as the other output. A cooperative refund has the stub for
  -- a witness, any other a signature of its own hash with the refund script and its control block.
  -- The laws are that a key opens what was blinded for it, and the documented ones of the script
  -- functions; the lock time is above 16 and below 2 ^ 31.
  pub liquid_create_refund-IsRefund :
      (laws : BlindLaws lib) (script_laws : ScriptLaws script) (cooperative : Bool)
      (tx : Transaction)
      → 16 < self.swap_script.locktime
      → self.swap_script.locktime < 2 ^ 31
      → create_refund lib self keys absolute_fees cooperative draws ≡ ok tx
      → IsRefund self.swap_script.locktime cooperative tx
  unfolding refund_script
  liquid_create_refund-IsRefund laws script_laws cooperative tx low high e =
      let s = self.swap_script in
      let (lock_time, finds, refund) = create_refund-IsRefund laws cooperative tx e in
      let reads =
        find_lock_time-into_script script script_laws s.sender_pubkey s.locktime low high in
      subst (λ n. IsRefund n cooperative tx) (ok-injective (sym finds ∙ reads)) refund

  -- No fee above the value of the funding output is let through: where that output opens and its
  -- asset is blinded, a claim with a known preimage and a refund both panic, cooperative or not.
  pub create-overdrawn :
      (preimage : Preimage) (bytes : Bytes) (cooperative : Bool) (funded : TxOutSecrets)
      (asset : BlindedAsset)
      → preimage.bytes ≡ some bytes
      → unblind self.funding_utxo (secret_key self.swap_script.blinding_key) ≡ ok funded
      → blind_asset draws.surjection_seed funded.asset draws.out_abf (funded ∷ []) ≡ ok asset
      → funded.value < absolute_fees
      → (create_claim lib self keys preimage absolute_fees cooperative draws
          ≡ panic "Amount subtraction error")
        × (create_refund lib self keys absolute_fees cooperative draws
            ≡ panic "Amount subtraction error")
  unfolding create_claim create_refund
  create-overdrawn preimage bytes cooperative funded asset known unblinds blinds short =
      let panics =
        blinded_outputs-overdrawn lib self absolute_fees draws funded asset unblinds blinds short in
      (rw (known, panics) refl, rw panics refl)
