-- ===== src/Liquid/Sign/Ends.antt =====
-- What `LBtcSwapTx::sign_claim` and `LBtcSwapTx::sign_refund` end with, together with the API.
use bullbitcoin_rnd.Base.{ℕ, ◌^◌, ◌<◌, ◌≡◌, refl, ap, false, Bool, some, List, [], ◌∷◌, Bytes}
use bullbitcoin_rnd.Result.{ok}
use bullbitcoin_rnd.Musig.{Keypair, Entropy}
use bullbitcoin_rnd.Secrets.Preimage.{Preimage}
use bullbitcoin_rnd.Script.Instruction.{ScriptLaws}
use bullbitcoin_rnd.Boltz.Client.{HttpLib}
use bullbitcoin_rnd.Boltz.Cooperative.{
  Cooperative, is_submarine, is_reverse_submarine, is_refund, is_claim, ask_claim, ask_refund,
}
use bullbitcoin_rnd.Fees.{FloatLib, absolute}
use bullbitcoin_rnd.Taproot.KeyPath.Ends.{IsFresh, CanSign}
use bullbitcoin_rnd.Liquid.Crate.{TxIn, TxOut, Transaction, ElementsLib}
use bullbitcoin_rnd.Liquid.SwapTx.{LBtcSwapTx, spend, script_witness}
use bullbitcoin_rnd.Liquid.Blind.{BlindEntropy}
use bullbitcoin_rnd.Liquid.Blind.Ends.{IsBlindable}
use bullbitcoin_rnd.Liquid.Sign.{spending, sign_claim, sign_refund}
use bullbitcoin_rnd.Liquid.Blind.Balanced.{BlindLaws}
use bullbitcoin_rnd.Liquid.Sign.Spends.{
  KeySighashLaw, IsCooperativeClaim, IsCooperativeRefund, liquid_sign_claim-IsCooperativeClaim,
  liquid_sign_refund-IsCooperativeRefund,
}
use bullbitcoin_rnd.Liquid.Sign.Returns.{
  KeyHashLaw, Answers, liquid_sign_claim-returns, liquid_sign_refund-returns,
}

-- The transaction has lock time 0, spends only the funding output and has these outputs.
pub record IsSpend (self : LBtcSwapTx) (outputs : List TxOut) (tx : Transaction) : Type 0 where
  pub input : TxIn
  pub is_input : tx.input ≡ input ∷ []
  pub spends : input.previous_output ≡ self.funding_outpoint
  pub is_output : tx.output ≡ outputs
  pub unlocked : tx.lock_time ≡ 0

is_tx-IsSpend :
    (self : LBtcSwapTx) (sequence : ℕ) (outputs : List TxOut) (items : List Bytes)
    (tx : Transaction)
    → tx ≡ spend self sequence 0 outputs (script_witness items)
    → IsSpend self outputs tx
is_tx-IsSpend self sequence outputs items tx is_tx = record {
  input = _;
  is_input = ap (λ (t : Transaction). t.input) is_tx;
  spends = refl;
  is_output = ap (λ (t : Transaction). t.output) is_tx;
  unlocked = ap (λ (t : Transaction). t.lock_time) is_tx;
}

module _ (lib : ElementsLib) (self : LBtcSwapTx) (keys : Keypair) where
  open lib use {musig, signature_to_vec}

  -- A cooperative claim with the payment in front of the fee.
  pub record IsEndedClaim (tx : Transaction) : Type 0 where
    pub claim : IsCooperativeClaim lib self keys tx
    pub spent : IsSpend self (claim.payment ∷ claim.fee ∷ []) tx

  -- A cooperative refund with the fee in front of the payment.
  pub record IsEndedRefund (tx : Transaction) : Type 0 where
    pub refund : IsCooperativeRefund lib self keys tx
    pub spent : IsSpend self (refund.fee ∷ refund.payment ∷ []) tx

  module _ (hashes : KeyHashLaw lib self) (law : KeySighashLaw lib) (laws : BlindLaws lib)
      (http : HttpLib) (floats : FloatLib) (c : Cooperative) (fee : ℕ) (discount : Bool)
      (draws : ℕ → BlindEntropy) (entropy : Entropy) where
    -- A cooperative Liquid claim of a swap that is no submarine swap ends, for an absolute fee, with a
    -- transaction that has lock time 0, spends only the funding output, to a payment and a fee of the
    -- same asset, and the blinding key of the output address opens the payment to the value of the
    -- funding output less the fee. Its signature is of its own hash, verifies under the output key,
    -- and was made with a partial signature that verifies under the key of Boltz, the sender. This is
    -- where the preimage is known, the funding output opens to at least the fee and the rest can be
    -- blinded, the drawn session id is not all zeros, the keys of the swap are Boltz's and ours, the
    -- taproot construction succeeds and fits the aggregated key, and the API answers, whatever
    -- transaction and nonce it is sent, with a partial signature of the transaction's hash that
    -- verifies under the sender's key. The laws are that the only input has a signature hash, which
    -- does not commit to script witnesses, that a key opens what was blinded for it, and those of BIP
    -- 327: a session id that is not all zeros gives nonces, with fresh nonces a partial signature is
    -- made, and two partial signatures that verify aggregate to a signature.
    pub liquid_sign_claim-ok :
        (p : Preimage) (bytes : Bytes)
        (can : CanSign musig signature_to_vec
          (spending lib self.swap_script self.swap_script.sender_pubkey)
          keys)
        → is_submarine self.swap_script.swap_type ≡ false
        → is_refund self.kind ≡ false
        → p.bytes ≡ some bytes
        → IsBlindable lib self fee (draws fee)
        → IsFresh entropy
        → ((t : Transaction)
            → Answers lib self hashes keys self.swap_script.sender_pubkey can
                (λ nonce hex. ask_claim http self.swap_script.swap_type c p 0 nonce hex)
                t)
        → (tx : Transaction) × (sign_claim lib self keys http floats p
              (absolute fee)
              (some c)
              discount
              draws
              entropy
            ≡ ok tx)
          × IsEndedClaim tx
    liquid_sign_claim-ok p bytes can kept kind known blindable fresh answers =
        let (tx, ends) =
          liquid_sign_claim-returns lib self hashes keys http floats c fee discount draws entropy p
            bytes can kept kind known blindable fresh answers in
        let claim =
          liquid_sign_claim-IsCooperativeClaim lib self keys http floats law laws (absolute fee) c
            discount draws entropy tx p ends in
        let s = claim.cosigns in
        (
          tx,
          ends,
          record {
            claim = claim;
            spent =
                is_tx-IsSpend self s.sequence (claim.payment ∷ claim.fee ∷ []) s.items tx s.is_tx;
          },
        )

    -- A cooperative Liquid refund of a swap that is no reverse swap ends, for an absolute fee, with a
    -- transaction that has lock time 0, spends only the funding output, to a fee and a payment of the
    -- same asset, and the blinding key of the output address opens the payment to the value of the
    -- funding output less the fee. Its signature is of its own hash, verifies under the output key,
    -- and was made with a partial signature that verifies under the key of Boltz, the receiver. This
    -- is where the lock time is above 16 and below 2 ^ 31, the funding output opens to at least the
    -- fee and the rest can be blinded, the drawn session id is not all zeros, the keys of the swap are
    -- Boltz's and ours, the taproot construction succeeds and fits the aggregated key, and the API
    -- answers, whatever transaction and nonce it is sent, with a partial signature of the
    -- transaction's hash that verifies under the receiver's key. The laws are that the only input has
    -- a signature hash, which does not commit to script witnesses, that a key opens what was blinded
    -- for it, those of BIP 327 (a session id that is not all zeros gives nonces, with fresh nonces a
    -- partial signature is made, and two partial signatures that verify aggregate to a signature), and
    -- those of the script functions.
    pub liquid_sign_refund-ok :
        (scripts : ScriptLaws lib.script)
        (can : CanSign musig signature_to_vec
          (spending lib self.swap_script self.swap_script.receiver_pubkey)
          keys)
        → is_reverse_submarine self.swap_script.swap_type ≡ false
        → is_claim self.kind ≡ false
        → 16 < self.swap_script.locktime
        → self.swap_script.locktime < 2 ^ 31
        → IsBlindable lib self fee (draws fee)
        → IsFresh entropy
        → ((t : Transaction)
            → Answers lib self hashes keys self.swap_script.receiver_pubkey can
                (λ nonce hex. ask_refund http self.swap_script.swap_type c 0 nonce hex)
                t)
        → (tx : Transaction) × (sign_refund lib self keys http floats
              (absolute fee)
              (some c)
              discount
              draws
              entropy
            ≡ ok tx)
          × IsEndedRefund tx
    liquid_sign_refund-ok scripts can kept kind low high blindable fresh answers =
        let (tx, ends) =
          liquid_sign_refund-returns lib self hashes keys http floats c fee discount draws entropy
            scripts can kept kind low high blindable fresh answers in
        let refund =
          liquid_sign_refund-IsCooperativeRefund lib self keys http floats law laws (absolute fee) c
            discount draws entropy tx ends in
        let s = refund.cosigns in
        (
          tx,
          ends,
          record {
            refund = refund;
            spent =
                is_tx-IsSpend self s.sequence (refund.fee ∷ refund.payment ∷ []) s.items tx s.is_tx;
          },
        )
