-- ===== src/Liquid/Sign/Returns.antt =====
-- When `LBtcSwapTx::sign_claim` and `LBtcSwapTx::sign_refund` return a transaction, together with the API.
use bullbitcoin_rnd.Base.{
  ℕ, ◌^◌, ◌<◌, ◌≡◌, refl, true, false, Bool, some, List, [], ◌∷◌, String, Bytes, length,
}
use bullbitcoin_rnd.Result.{Result, ok}
use bullbitcoin_rnd.Musig.{Keypair, Entropy}
use bullbitcoin_rnd.Secrets.Preimage.{Preimage}
use bullbitcoin_rnd.Script.Instruction.{ScriptLaws}
use bullbitcoin_rnd.Script.LockTime.{find_lock_time-into_script}
use bullbitcoin_rnd.Boltz.Types.{PublicKey}
use bullbitcoin_rnd.Boltz.Client.{PartialSig, HttpLib}
use bullbitcoin_rnd.Boltz.Cooperative.{
  Cooperative, is_submarine, is_reverse_submarine, is_refund, is_claim, ask_claim, ask_refund,
}
use bullbitcoin_rnd.Fees.{FloatLib, absolute, create_tx_with_fee}
use bullbitcoin_rnd.Taproot.KeyPath.Ends.{IsFresh, IsAnswer, CanSign, cosign-ok}
use bullbitcoin_rnd.Liquid.Crate.{TxOut, Transaction, ElementsLib}
use bullbitcoin_rnd.Liquid.SwapScript.{refund_script}
use bullbitcoin_rnd.Liquid.SwapTx.{LBtcSwapTx, spend, script_witness, stubbed_cooperative_witness}
use bullbitcoin_rnd.Bitcoin.SwapTx.{sequence_max}
use bullbitcoin_rnd.Liquid.Blind.{BlindEntropy}
use bullbitcoin_rnd.Liquid.Blind.Ends.{IsBlindable, blinded_outputs-ends}
use bullbitcoin_rnd.Liquid.Create.{create_claim, create_refund}
use bullbitcoin_rnd.Liquid.Sign.{
  spending, key_path_items, finish_claim, sign_claim, finish_refund, sign_refund,
}

module _ (lib : ElementsLib) where
  open lib use {musig, key_spend_sighash, serialize_hex, signature_to_vec}

  -- The only input of a transaction has a signature hash for the key path, given the output that it
  -- spends, and it is one that can be signed.
  abbrev pub KeyHashLaw : LBtcSwapTx → Type 0
  KeyHashLaw self =
      (tx : Transaction)
      → length tx.input ≡ 1
      → (sighash : Bytes) × (msg : Bytes) × (key_spend_sighash tx 0 (self.funding_utxo ∷ [])
            self.genesis_hash
          ≡ ok sighash)
        × (musig.message_from_digest sighash ≡ ok msg)

  module _ (self : LBtcSwapTx) (law : KeyHashLaw self) (keys : Keypair) where
    module _ (boltz_key : PublicKey)
        (can : CanSign musig signature_to_vec (spending lib self.swap_script boltz_key) keys)
        (ask : Bytes → String → Result PartialSig) where
      -- The API answers for a transaction, whatever nonce it is sent, with a signature of its hash.
      abbrev pub Answers : Transaction → Type 0
      Answers tx =
          (sighash msg our_nonce : Bytes)
          → key_spend_sighash tx 0 (self.funding_utxo ∷ []) self.genesis_hash ≡ ok sighash
          → musig.message_from_digest sighash ≡ ok msg
          → IsAnswer musig signature_to_vec (spending lib self.swap_script boltz_key)
              (λ nonce. ask nonce (serialize_hex tx)) can.cache msg our_nonce

      key_path_items-ok :
          (entropy : Entropy) (tx : Transaction)
          → IsFresh entropy
          → length tx.input ≡ 1
          → Answers tx
          → (items : List Bytes) × (key_path_items lib self keys boltz_key ask entropy tx
              ≡ ok items)
      key_path_items-ok entropy tx fresh one answers =
          let (sighash, msg, hashes, is_message) = law tx one in
          cosign-ok musig signature_to_vec (spending lib self.swap_script boltz_key) keys can
            (key_spend_sighash tx 0 (self.funding_utxo ∷ []) self.genesis_hash)
            (λ nonce. ask nonce (serialize_hex tx)) entropy sighash msg fresh hashes is_message
            (λ our_nonce. answers sighash msg our_nonce hashes is_message)

    create_claim-cooperative_ok :
        (p : Preimage) (bytes : Bytes) (fee : ℕ) (draws : BlindEntropy)
        → p.bytes ≡ some bytes
        → IsBlindable lib self fee draws
        → (out : List TxOut) × (create_claim lib self keys p fee true draws
            ≡ ok (spend self sequence_max 0 out stubbed_cooperative_witness))
    unfolding create_claim
    create_claim-cooperative_ok p bytes fee draws known blindable =
        let (outputs, blinds) = blinded_outputs-ends lib self fee draws blindable in
        (outputs.payment ∷ outputs.fee ∷ [], rw (known, blinds) refl)

    module _ (http : HttpLib) (floats : FloatLib) (c : Cooperative) (fee : ℕ) (discount : Bool)
        (draws : ℕ → BlindEntropy) (entropy : Entropy) where
      pub liquid_sign_claim-returns :
          (p : Preimage) (bytes : Bytes)
          (can : CanSign musig signature_to_vec
            (spending lib self.swap_script self.swap_script.sender_pubkey)
            keys)
          → is_submarine self.swap_script.swap_type ≡ false
          → is_refund self.kind ≡ false
          → p.bytes ≡ some bytes
          → IsBlindable lib self fee (draws fee)
          → IsFresh entropy
          → ((t : Transaction)
              → Answers self.swap_script.sender_pubkey can
                  (λ nonce hex. ask_claim http self.swap_script.swap_type c p 0 nonce hex)
                  t)
          → (tx : Transaction) × (sign_claim lib self keys http floats p
                (absolute fee)
                (some c)
                discount
                draws
                entropy
              ≡ ok tx)
      unfolding sign_claim finish_claim create_tx_with_fee
      liquid_sign_claim-returns p bytes can kept kind known blindable fresh answers =
          let s = self.swap_script in
          let (out, drafts) = create_claim-cooperative_ok p bytes fee (draws fee) known blindable in
          let draft = spend self sequence_max 0 out stubbed_cooperative_witness in
          let (items, makes) =
            key_path_items-ok s.sender_pubkey can
              (λ nonce hex. ask_claim http s.swap_type c p 0 nonce hex) entropy draft fresh refl
              (answers draft) in
          (
            spend self sequence_max 0 out (script_witness items),
            rw (kept, kind, drafts, makes) refl,
          )

      pub liquid_sign_refund-returns :
          (scripts : ScriptLaws lib.script)
          (can : CanSign musig signature_to_vec
            (spending lib self.swap_script self.swap_script.receiver_pubkey)
            keys)
          → is_reverse_submarine self.swap_script.swap_type ≡ false
          → is_claim self.kind ≡ false
          → 16 < self.swap_script.locktime
          → self.swap_script.locktime < 2 ^ 31
          → IsBlindable lib self fee (draws fee)
          → IsFresh entropy
          → ((t : Transaction)
              → Answers self.swap_script.receiver_pubkey can
                  (λ nonce hex. ask_refund http self.swap_script.swap_type c 0 nonce hex)
                  t)
          → (tx : Transaction) × (sign_refund lib self keys http floats
                (absolute fee)
                (some c)
                discount
                draws
                entropy
              ≡ ok tx)
      unfolding sign_refund finish_refund create_tx_with_fee create_refund refund_script
      liquid_sign_refund-returns scripts can kept kind low high blindable fresh answers =
          let s = self.swap_script in
          let (outputs, blinds) = blinded_outputs-ends lib self fee (draws fee) blindable in
          let out : List TxOut = outputs.fee ∷ outputs.payment ∷ [] in
          let draft = spend self sequence_max 0 out stubbed_cooperative_witness in
          let reads =
            find_lock_time-into_script lib.script scripts s.sender_pubkey s.locktime low high in
          let (items, makes) =
            key_path_items-ok s.receiver_pubkey can
              (λ nonce hex. ask_refund http s.swap_type c 0 nonce hex) entropy draft fresh refl
              (answers draft) in
          (
            spend self sequence_max 0 out (script_witness items),
            rw (kept, kind, blinds, reads, makes) refl,
          )
