-- ===== src/Bitcoin/Sign/Returns.antt =====
-- When `BtcSwapTx::sign_claim` and `BtcSwapTx::sign_refund` return a transaction, together with the API.
use bullbitcoin_rnd.Base.{
  ℕ, ◌-◌, ◌^◌, ◌<◌, ◌≡◌, refl, sym, ap, ◌∙◌, arith, true, false, some, List, [], ◌∷◌, map, String,
  Bytes, length, length-map, head?,
}
use bullbitcoin_rnd.Result.{Result, ok, ok-injective}
use bullbitcoin_rnd.Musig.{Keypair, Entropy}
use bullbitcoin_rnd.Secrets.Preimage.{Preimage}
use bullbitcoin_rnd.Script.Instruction.{ScriptLaws}
use bullbitcoin_rnd.Boltz.Types.{PublicKey}
use bullbitcoin_rnd.Boltz.Client.{PartialSig, HttpLib}
use bullbitcoin_rnd.Boltz.Cooperative.{
  Cooperative, is_submarine, is_reverse_submarine, is_refund, is_claim, ask_claim, ask_refund,
}
use bullbitcoin_rnd.Fees.{FloatLib, Fee, relative, absolute, fee_of, create_tx_with_fee}
use bullbitcoin_rnd.Taproot.KeyPath.Ends.{IsFresh, IsAnswer, CanSign, cosign-ok}
use bullbitcoin_rnd.Bitcoin.Crate.{TxOut, Transaction, BitcoinLib}
use bullbitcoin_rnd.Bitcoin.SwapTx.{
  BtcSwapTx, set_witness, stubbed_cooperative_witness, enable_rbf_no_locktime,
}
use bullbitcoin_rnd.Bitcoin.Utxos.{Utxo}
use bullbitcoin_rnd.Bitcoin.Claim.{create_claim, claim_draft, with_witness}
use bullbitcoin_rnd.Bitcoin.SwapTx.Loop.{sign_inputs-ends}
use bullbitcoin_rnd.Bitcoin.Refund.{with_witnesses, refund_draft}
use bullbitcoin_rnd.Bitcoin.Refund.Drafted.{worth}
use bullbitcoin_rnd.Bitcoin.Refund.Built.{create_refund-cooperative}
use bullbitcoin_rnd.Bitcoin.KeyPath.{spending, key_path_witness}
use bullbitcoin_rnd.Bitcoin.Sign.{
  claim_witness, finish_claim, sign_claim, refund_key_witness, finish_refund, sign_refund,
}

create_tx_with_fee-ends {ℓ} :
    {T : Type ℓ} (floats : FloatLib) (fee : Fee) (make : ℕ → Result T) (size : T → ℕ)
    → ((n : ℕ) → (t : T) × (make n ≡ ok t))
    → (n : ℕ) × (t : T) × (make n ≡ ok t) × (create_tx_with_fee floats fee make size ≡ ok t)
unfolding create_tx_with_fee
create_tx_with_fee-ends floats (absolute n) make size total =
    let (t, made) = total n in (n, t, made, made)
create_tx_with_fee-ends floats (relative rate) make size total =
    let (draft, drafted) = total 1 in
    let n = fee_of floats rate (size draft) in
    let (t, made) = total n in (n, t, made, rw (drafted, made) refl)

module _ (lib : BitcoinLib) (http : HttpLib) (floats : FloatLib) where
  open lib use {musig, key_spend_sighash, serialize_hex, signature_to_vec}

  -- BIP 341: an input of a transaction has a signature hash for the key path, given the outputs that the
  -- inputs spend, and it is one that can be signed.
  abbrev pub KeyHashLaw : Type 0
  KeyHashLaw =
      (tx : Transaction) (k : ℕ) (outs : List TxOut)
      → k < length tx.input
      → length outs ≡ length tx.input
      → (sighash : Bytes) × (msg : Bytes) × (key_spend_sighash tx k outs ≡ ok sighash)
        × (musig.message_from_digest sighash ≡ ok msg)

  module _ (law : KeyHashLaw) (self : BtcSwapTx) (keys : Keypair) (boltz_key : PublicKey)
      (can : CanSign musig signature_to_vec (spending lib self.swap_script boltz_key) keys)
      (outs : List TxOut) (ask : ℕ → Bytes → String → Result PartialSig) where
    -- The API answers for an input of a transaction, whatever nonce it is sent, with a signature of the
    -- input's hash.
    abbrev pub Answers : Transaction → ℕ → Type 0
    Answers tx k =
        (sighash msg our_nonce : Bytes)
        → key_spend_sighash tx k outs ≡ ok sighash
        → musig.message_from_digest sighash ≡ ok msg
        → IsAnswer musig signature_to_vec (spending lib self.swap_script boltz_key)
            (λ nonce. ask k nonce (serialize_hex tx)) can.cache msg our_nonce

    key_path_witness-ok :
        (entropy : ℕ → Entropy) (k : ℕ) (tx : Transaction)
        → IsFresh (entropy k)
        → k < length tx.input
        → length outs ≡ length tx.input
        → Answers tx k
        → (witness : List Bytes) × (key_path_witness lib self.swap_script keys outs boltz_key ask
              entropy k tx
            ≡ ok witness)
    unfolding key_path_witness
    key_path_witness-ok entropy k tx fresh inside same answers =
        let (sighash, msg, hashes, is_message) = law tx k outs inside same in
        cosign-ok musig signature_to_vec (spending lib self.swap_script boltz_key) keys can
          (key_spend_sighash tx k outs) (λ nonce. ask k nonce (serialize_hex tx)) (entropy k)
          sighash msg fresh hashes is_message
          (λ our_nonce. answers sighash msg our_nonce hashes is_message)

  module _ (law : KeyHashLaw) (self : BtcSwapTx) (keys : Keypair) (c : Cooperative) where
    create_claim-cooperative_ok :
        (p : Preimage) (bytes : Bytes) (utxo : Utxo)
        → head? self.utxos ≡ some utxo
        → p.bytes ≡ some bytes
        → (fee : ℕ)
        → create_claim lib self keys p fee true
          ≡ ok (
              with_witness lib stubbed_cooperative_witness
                (claim_draft lib self utxo fee enable_rbf_no_locktime)
                utxo
                enable_rbf_no_locktime)
    unfolding create_claim
    create_claim-cooperative_ok p bytes utxo first known fee = rw (known, first)

    pub sign_claim-returns :
        (p : Preimage) (fee : Fee) (entropy : Entropy) (bytes : Bytes) (utxo : Utxo)
        (can : CanSign musig signature_to_vec
          (spending lib self.swap_script self.swap_script.sender_pubkey)
          keys)
        → is_submarine self.swap_script.swap_type ≡ false
        → is_refund self.kind ≡ false
        → head? self.utxos ≡ some utxo
        → p.bytes ≡ some bytes
        → IsFresh entropy
        → ((t : Transaction)
            → Answers law self keys self.swap_script.sender_pubkey can
                (utxo.txout ∷ [])
                (ask_claim http self.swap_script.swap_type c p)
                t
                0)
        → (tx : Transaction) × (sign_claim lib http floats self keys p fee (some c) entropy ≡ ok tx)
    unfolding sign_claim finish_claim claim_witness ask_claim
    sign_claim-returns p fee entropy bytes utxo can kept kind first known fresh answers =
        let s = self.swap_script in
        let (n, claim_tx, made, drafts) =
          create_tx_with_fee-ends floats fee (λ f. create_claim lib self keys p f true) lib.vsize
            (λ f. (_, create_claim-cooperative_ok p bytes utxo first known f)) in
        let one : length claim_tx.input ≡ 1 =
          ap (λ (t : Transaction). length t.input)
            (ok-injective (sym made ∙ create_claim-cooperative_ok p bytes utxo first known n)) in
        let (witness, makes) =
          key_path_witness-ok law self keys s.sender_pubkey can (utxo.txout ∷ [])
            (ask_claim http s.swap_type c p) (λ i. entropy) 0 claim_tx fresh (omega (arith, one))
            (sym one) (answers claim_tx) in
        (set_witness 0 witness claim_tx, rw (kept, kind, drafts, first, makes) refl)

    pub sign_refund-returns :
        (scripts : ScriptLaws lib.script) (fee : ℕ) (entropy : ℕ → Entropy)
        (can : CanSign musig signature_to_vec
          (spending lib self.swap_script self.swap_script.receiver_pubkey)
          keys)
        → is_reverse_submarine self.swap_script.swap_type ≡ false
        → is_claim self.kind ≡ false
        → worth self.utxos < 2 ^ 64
        → fee < worth self.utxos
        → 16 < self.swap_script.locktime
        → self.swap_script.locktime < 2 ^ 31
        → ((k : ℕ) → k < length self.utxos → IsFresh (entropy k))
        → ((t : Transaction) (k : ℕ)
            → k < length self.utxos
            → Answers law self keys self.swap_script.receiver_pubkey can
                (map (λ utxo. utxo.txout) self.utxos)
                (ask_refund http self.swap_script.swap_type c)
                t
                k)
        → (tx : Transaction) × (sign_refund lib http floats self keys
              (absolute fee)
              (some c)
              entropy
            ≡ ok tx)
    unfolding sign_refund finish_refund refund_key_witness create_tx_with_fee ask_refund
    sign_refund-returns scripts fee entropy can kept kind fits enough low high fresh answers =
        let s = self.swap_script in
        let outs : List TxOut = map (λ utxo. utxo.txout) self.utxos in
        let draft =
          with_witnesses stubbed_cooperative_witness
            (refund_draft lib self (worth self.utxos - fee) s.locktime) in
        let inputs : length draft.input ≡ length self.utxos =
          length-map _ _ ∙ length-map _ self.utxos in
        let (tx, ends) =
          sign_inputs-ends (refund_key_witness lib http floats self keys entropy c)
            (length draft.input) 0 (length self.utxos) (record draft { lock_time = 0 })
            (λ k t inside same.
              key_path_witness-ok law self keys s.receiver_pubkey can outs
                (ask_refund http s.swap_type c) entropy k t
                (fresh k (omega (arith, inside, inputs))) (omega (arith, inside, inputs, same))
                (length-map _ self.utxos ∙ sym same) (answers t k (omega (arith, inside, inputs))))
            inputs in
        (
          tx,
          rw
              (
                kept,
                kind,
                create_refund-cooperative lib self keys fee scripts fits enough low high,
                ends,
              )
              refl,
        )
