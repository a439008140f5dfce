-- ===== src/Liquid/Sign/Spends.antt =====
-- What the transactions that `sign_claim` and `sign_refund` return on Liquid spend and sign.
use mathlib.Core.Path.{subst}
use bullbitcoin_rnd.Base.{
  ℕ, ◌≡◌, sym, ap, ◌∙◌, Bool, true, false, some, List, [], ◌∷◌, map, String, Bytes,
}
use bullbitcoin_rnd.Result.{Result, ok, ◌>>=◌, fail_if, bind-eq-ok, ok-injective, fail_if-eq-ok}
use bullbitcoin_rnd.Boltz.Types.{PublicKey}
use bullbitcoin_rnd.Boltz.Client.{PartialSig, HttpLib}
use bullbitcoin_rnd.Boltz.Cooperative.{
  Cooperative, is_submarine, is_reverse_submarine, is_refund, is_claim, ask_claim, ask_refund,
}
use bullbitcoin_rnd.Fees.{FloatLib, Fee, create_tx_with_fee}
use bullbitcoin_rnd.Fees.Rate.{create_tx_with_fee-built}
use bullbitcoin_rnd.Musig.{Keypair, Entropy}
use bullbitcoin_rnd.Secrets.Preimage.{Preimage}
use bullbitcoin_rnd.Taproot.KeyPath.Verified.{IsSignatureOf, cosign-IsSignatureOf}
use bullbitcoin_rnd.Liquid.Crate.{TxIn, TxOut, Transaction, ElementsLib}
use bullbitcoin_rnd.Liquid.SwapTx.{
  LBtcSwapTx, script_witness, stubbed_cooperative_witness, spend, set_witness,
}
use bullbitcoin_rnd.Liquid.Blind.{BlindEntropy}
use bullbitcoin_rnd.Liquid.Blind.Balanced.{BlindLaws, IsPayment}
use bullbitcoin_rnd.Liquid.Create.{create_claim, create_refund}
use bullbitcoin_rnd.Liquid.Create.Signed.{IsBuilt-stubbed}
use bullbitcoin_rnd.Liquid.Create.Built.{liquid_create_claim-IsClaim, create_refund-IsRefund}
use bullbitcoin_rnd.Liquid.Sign.{
  tx_size, spending, key_path_items, finish_claim, sign_claim, finish_refund, sign_refund,
}

-- The transaction as a taproot signature hash sees it: without the script witnesses. The hash commits
-- to the range proofs of issuances, which are held in the witness too and stay.
abbrev pub unsigned : Transaction → Transaction
unsigned tx = record tx {
  input =
      map {A = TxIn}
        (λ input. record input { witness = record (input.witness) { script_witness = [] } })
        tx.input;
}

-- The taproot signature hash of Elements, as that of BIP 341, does not commit to the script witnesses.
abbrev pub KeySighashLaw : ElementsLib → Type 0
KeySighashLaw lib =
    (tx : Transaction) (i : ℕ) (outs : List TxOut) (genesis : Bytes)
    → lib.key_spend_sighash (unsigned tx) i outs genesis ≡ lib.key_spend_sighash tx i outs genesis

module _ (lib : ElementsLib) (self : LBtcSwapTx) (keys : Keypair) where
  open lib use {musig, key_spend_sighash, signature_to_vec}

  -- The transaction spends the funding output to these outputs, with lock time 0 and a signature of
  -- its own hash, made together with Boltz.
  pub record IsCosigned (boltz_key : PublicKey) (outputs : List TxOut) (tx : Transaction)
      : Type 0 where
    pub sequence : ℕ
    pub items : List Bytes
    pub is_tx : tx ≡ spend self sequence 0 outputs (script_witness items)
    pub signed :
        IsSignatureOf musig signature_to_vec
          (spending lib self.swap_script boltz_key)
          (key_spend_sighash tx 0 (self.funding_utxo ∷ []) self.genesis_hash)
          items

  cosigned :
      (law : KeySighashLaw lib) (boltz_key : PublicKey) (ask : Bytes → String → Result PartialSig)
      (entropy : Entropy) (draft tx : Transaction) (sequence : ℕ) (outputs : List TxOut)
      → draft ≡ spend self sequence 0 outputs stubbed_cooperative_witness
      → (key_path_items lib self keys boltz_key ask entropy draft >>= λ items.
          set_witness (script_witness items) draft)
        ≡ ok tx
      → IsCosigned boltz_key outputs tx
  cosigned law boltz_key ask entropy draft tx sequence outputs is_draft e =
      let (items, signs, e1) =
        bind-eq-ok (key_path_items lib self keys boltz_key ask entropy draft) _ e in
      let here =
        cosign-IsSignatureOf musig signature_to_vec (spending lib self.swap_script boltz_key) keys
          (key_spend_sighash draft 0 (self.funding_utxo ∷ []) self.genesis_hash)
          (λ nonce. ask nonce (lib.serialize_hex draft)) entropy items signs in
      let is_tx : tx ≡ spend self sequence 0 outputs (script_witness items) =
        sym
          (ok-injective (subst (λ t. set_witness (script_witness items) t ≡ ok tx) is_draft e1)) in
      let same : unsigned draft ≡ unsigned tx = ap unsigned is_draft ∙ sym (ap unsigned is_tx) in
      record {
        sequence = sequence;
        items = items;
        is_tx = is_tx;
        signed =
            subst
              (λ hash.
                IsSignatureOf musig signature_to_vec (spending lib self.swap_script boltz_key) hash
                  items)
              (sym (law draft 0 (self.funding_utxo ∷ []) self.genesis_hash)
                ∙ ap (λ t. key_spend_sighash t 0 (self.funding_utxo ∷ []) self.genesis_hash) same
                ∙ law tx 0 (self.funding_utxo ∷ []) self.genesis_hash)
              here;
      }

  -- A claim over the key path: the payment is the first output, Boltz is the sender.
  pub record IsCooperativeClaim (tx : Transaction) : Type 0 where
    pub not_submarine : is_submarine self.swap_script.swap_type ≡ false
    pub is_kind : is_refund self.kind ≡ false
    pub absolute : ℕ
    pub payment : TxOut
    pub fee : TxOut
    pub pays : IsPayment lib self absolute payment fee
    pub cosigns : IsCosigned self.swap_script.sender_pubkey (payment ∷ fee ∷ []) tx

  -- A refund over the key path: the payment is the second output, Boltz is the receiver.
  pub record IsCooperativeRefund (tx : Transaction) : Type 0 where
    pub not_reverse : is_reverse_submarine self.swap_script.swap_type ≡ false
    pub is_kind : is_claim self.kind ≡ false
    pub absolute : ℕ
    pub payment : TxOut
    pub fee : TxOut
    pub pays : IsPayment lib self absolute payment fee
    pub cosigns : IsCosigned self.swap_script.receiver_pubkey (fee ∷ payment ∷ []) tx

  module _ (http : HttpLib) (floats : FloatLib) where
    finish_claim-IsCosigned :
        (law : KeySighashLaw lib) (p : Preimage) (entropy : Entropy) (c : Cooperative)
        (draft tx : Transaction) (sequence : ℕ) (outputs : List TxOut)
        → draft ≡ spend self sequence 0 outputs stubbed_cooperative_witness
        → finish_claim lib self keys http floats p entropy (some c) draft ≡ ok tx
        → IsCosigned self.swap_script.sender_pubkey outputs tx
    unfolding finish_claim
    finish_claim-IsCosigned law p entropy c draft tx sequence outputs is_draft e =
        cosigned law self.swap_script.sender_pubkey
          (λ nonce hex. ask_claim http self.swap_script.swap_type c p 0 nonce hex) entropy draft tx
          sequence outputs is_draft e

    finish_refund-IsCosigned :
        (law : KeySighashLaw lib) (entropy : Entropy) (c : Cooperative) (draft tx : Transaction)
        (sequence lock_time : ℕ) (outputs : List TxOut)
        → draft ≡ spend self sequence lock_time outputs stubbed_cooperative_witness
        → finish_refund lib self keys http floats entropy (some c) draft ≡ ok tx
        → IsCosigned self.swap_script.receiver_pubkey outputs tx
    unfolding finish_refund
    finish_refund-IsCosigned law entropy c draft tx sequence lock_time outputs is_draft e =
        cosigned law self.swap_script.receiver_pubkey
          (λ nonce hex. ask_refund http self.swap_script.swap_type c 0 nonce hex) entropy
          (record draft { lock_time = 0 }) tx sequence outputs
          (ap (λ (t : Transaction). record t { lock_time = 0 }) is_draft) e

    module _ (law : KeySighashLaw lib) (laws : BlindLaws lib) (fee : Fee) (c : Cooperative)
        (discount : Bool) (draws : ℕ → BlindEntropy) (entropy : Entropy) (tx : Transaction) where
      -- A cooperative Liquid claim that is returned is of a swap that is no submarine swap. It spends
      -- only the funding output, to a payment and a fee of the same asset, and the blinding key of
      -- the output address opens the payment to the value of the funding output less the fee. Its
      -- one signature is of its own hash, verifies under the output key, and was made with a partial
      -- signature that verifies under the key of Boltz, the sender. The laws are that the signature
      -- hash does not commit to script witnesses, and that a key opens what was blinded for it.
      pub liquid_sign_claim-IsCooperativeClaim :
          (p : Preimage)
          → sign_claim lib self keys http floats p fee (some c) discount draws entropy ≡ ok tx
          → IsCooperativeClaim tx
      unfolding sign_claim
      liquid_sign_claim-IsCooperativeClaim p e =
          let (u1, passes, e1) =
            bind-eq-ok (fail_if (is_submarine self.swap_script.swap_type) _) _ e in
          let (u2, kinds, e2) = bind-eq-ok (fail_if (is_refund self.kind) _) _ e1 in
          let make = λ (f : ℕ). create_claim lib self keys p f true (draws f) in
          let size = λ (t : Transaction). tx_size lib t discount in
          let (draft, drafts, e3) = bind-eq-ok (create_tx_with_fee floats fee make size) _ e2 in
          let (absolute, built) = create_tx_with_fee-built floats make size fee draft drafts in
          let claim =
            liquid_create_claim-IsClaim lib self keys absolute (draws absolute) laws p true draft
              built in
          record {
            not_submarine = fail_if-eq-ok (is_submarine self.swap_script.swap_type) _ passes;
            is_kind = fail_if-eq-ok (is_refund self.kind) _ kinds;
            absolute = absolute;
            payment = claim.payment;
            fee = claim.fee;
            pays = claim.pays;
            cosigns =
                finish_claim-IsCosigned law p entropy c draft tx claim.built.sequence
                  (claim.payment ∷ claim.fee ∷ [])
                  (IsBuilt-stubbed lib self keys _ _ 0 (claim.payment ∷ claim.fee ∷ []) draft
                    claim.built)
                  e3;
          }

      -- A cooperative Liquid refund that is returned is of a swap that is no reverse swap. It has
      -- lock time 0 and spends only the funding output, to a fee and a payment of the same asset,
      -- and the blinding key of the output address opens the payment to the value of the funding
      -- output less the fee. Its one signature is of its own hash, verifies under the output key,
      -- and was made with a partial signature that verifies under the key of Boltz, the receiver.
      -- The laws are that the signature hash does not commit to script witnesses, and that a key opens what
      -- was blinded for it.
      pub liquid_sign_refund-IsCooperativeRefund :
          sign_refund lib self keys http floats fee (some c) discount draws entropy ≡ ok tx
          → IsCooperativeRefund tx
      unfolding sign_refund
      liquid_sign_refund-IsCooperativeRefund e =
          let (u1, passes, e1) =
            bind-eq-ok (fail_if (is_reverse_submarine self.swap_script.swap_type) _) _ e in
          let (u2, kinds, e2) = bind-eq-ok (fail_if (is_claim self.kind) _) _ e1 in
          let make = λ (f : ℕ). create_refund lib self keys f true (draws f) in
          let size = λ (t : Transaction). tx_size lib t discount in
          let (draft, drafts, e3) = bind-eq-ok (create_tx_with_fee floats fee make size) _ e2 in
          let (absolute, built) = create_tx_with_fee-built floats make size fee draft drafts in
          let (lock_time, finds, refund) =
            create_refund-IsRefund lib self keys absolute (draws absolute) laws true draft built in
          record {
            not_reverse = fail_if-eq-ok (is_reverse_submarine self.swap_script.swap_type) _ passes;
            is_kind = fail_if-eq-ok (is_claim self.kind) _ kinds;
            absolute = absolute;
            payment = refund.payment;
            fee = refund.fee;
            pays = refund.pays;
            cosigns =
                finish_refund-IsCosigned law entropy c draft tx refund.built.sequence lock_time
                  (refund.fee ∷ refund.payment ∷ [])
                  (IsBuilt-stubbed lib self keys _ _ lock_time (refund.fee ∷ refund.payment ∷ [])
                    draft refund.built)
                  e3;
          }
