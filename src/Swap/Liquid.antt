-- ===== src/Swap/Liquid.antt =====
-- A Liquid swap from the response to the signed claim or refund.
use mathlib.Core.Path.{subst}
use bullbitcoin_rnd.Base.{
  ℕ, ◌%◌, ◌^◌, ◌≡◌, refl, sym, ap, ◌∙◌, arith, inl, inr, Bool, true, false, some, List, ◌∷◌, [],
  String, str_eq_iff, get_elem?,
}
use bullbitcoin_rnd.Result.{ok, bind-eq-ok, ok-injective}
use bullbitcoin_rnd.Chain.{Chain, is_bitcoin}
use bullbitcoin_rnd.Fees.{FloatLib, Fee}
use bullbitcoin_rnd.Musig.{Keypair, Entropy}
use bullbitcoin_rnd.Secrets.Preimage.{Preimage, HashLib}
use bullbitcoin_rnd.Boltz.Types.{PublicKey, SwapTxKind}
use bullbitcoin_rnd.Boltz.Client.{HttpLib}
use bullbitcoin_rnd.Boltz.Lookups.{GetLib}
use bullbitcoin_rnd.Boltz.Cooperative.{Cooperative}
use bullbitcoin_rnd.Boltz.Offer.{
  Offer, address_of, server_of, is_claimable, claimable-sender, refundable-receiver,
}
use bullbitcoin_rnd.Boltz.Validate.Accepted.{Validated, validate-Accepted}
use bullbitcoin_rnd.Bitcoin.Crate.{BitcoinLib}
use bullbitcoin_rnd.Liquid.Crate.{Address, OutPoint, TxIn, TxOut, Transaction, ElementsLib}
use bullbitcoin_rnd.Liquid.SwapScript.{LBtcSwapScript, to_address, validate_address}
use bullbitcoin_rnd.Liquid.SwapScript.Response.{from_swap_resp, from_swap_resp-HasRoles}
use bullbitcoin_rnd.Liquid.SwapTx.{LBtcSwapTx}
use bullbitcoin_rnd.Liquid.Blind.{BlindEntropy}
use bullbitcoin_rnd.Liquid.Blind.Balanced.{BlindLaws, IsPayment}
use bullbitcoin_rnd.Liquid.New.{ElectrumLib, new_claim, new_refund}
use bullbitcoin_rnd.Liquid.New.Pays.{IsSource, IsPaidTo, construct-IsFunded}
use bullbitcoin_rnd.Liquid.Sign.{sign_claim, sign_refund}
use bullbitcoin_rnd.Liquid.Sign.Spends.{
  KeySighashLaw, IsCosigned, liquid_sign_claim-IsCooperativeClaim,
  liquid_sign_refund-IsCooperativeRefund,
}

validate_address-text :
    (lib : ElementsLib) (s : LBtcSwapScript) (on : Chain) (text : String) {address : Address}
    → validate_address lib s on text ≡ ok tt
    → to_address lib s on ≡ ok address
    → address.text ≡ text
unfolding validate_address
validate_address-text lib s on text {address} e is =
    let (found, finds, e1) = bind-eq-ok (to_address lib s on) _ e in
    ap (λ (a : Address). a.text) (ok-injective (sym is ∙ finds))
    ∙ (ground (arith, e1, str_eq_iff found.text text))

-- A claim has the payment first, a refund the fee.
abbrev pub in_order : SwapTxKind → TxOut → TxOut → List TxOut
in_order SwapTxKind.claim payment fee = payment ∷ fee ∷ []
in_order SwapTxKind.refund payment fee = fee ∷ payment ∷ []

module _ (bitcoin : BitcoinLib) (lib : ElementsLib) (hashes : HashLib) (electrum : ElectrumLib)
    (api : GetLib) where
  -- The output stands in a transaction that was fetched, at the place that the outpoint names, and pays
  -- to the confidential address that the response names.
  pub record PaysToOffer (offer : Offer) (place : OutPoint) (output : TxOut) : Type 0 where
    pub address : Address
    pub tx : Transaction
    pub index : ℕ
    pub fetched : IsSource electrum api tx
    pub at : get_elem? tx.output index ≡ some output
    pub outpoint : place ≡ record { txid = lib.txid tx; vout = index % 2 ^ 32 }
    pub names : address.text ≡ address_of offer
    pub pays : output.script_pubkey ≡ lib.script_pubkey address

  paid-PaysToOffer :
      (on : Chain) (offer : Offer) (ours : PublicKey) (s : LBtcSwapScript) (self : LBtcSwapTx)
      → Validated bitcoin lib hashes on offer ours
      → is_bitcoin on ≡ false
      → from_swap_resp lib offer ours ≡ ok s
      → electrum.network ≡ on
      → IsPaidTo lib electrum api s (self.funding_outpoint, self.funding_utxo)
      → PaysToOffer offer self.funding_outpoint self.funding_utxo
  paid-PaysToOffer on offer ours s self validated liquid is_script same paid =
      elim (validate-Accepted bitcoin lib hashes validated) [
        | inl (here, accepted) ↦ ground (arith, here, liquid)
        | inr (there, accepted) ↦
            let is : accepted.s ≡ s = ok-injective (sym accepted.is_script ∙ is_script) in
            let checks : validate_address lib s on (address_of offer) ≡ ok tt =
              ap (λ t. validate_address lib t on (address_of offer)) (sym is) ∙ accepted.checked in
            record {
              address = paid.address;
              tx = paid.tx;
              index = paid.stands.index;
              fetched = paid.fetched;
              at = paid.stands.at;
              outpoint =
                  paid.stands.outpoint
                  ∙ ap (λ n. record { txid = lib.txid paid.tx; vout = n % 2 ^ 32 }) (omega arith);
              names =
                  validate_address-text lib s on (address_of offer) checks
                    (ap (to_address lib s) (sym same) ∙ paid.is_address);
              pays = paid.stands.pays;
            }
      ]

  -- The transaction has lock time 0. It spends one output, that pays to the address of the response, to
  -- a payment to the given address and a fee, and is signed together with the API, whose key the
  -- response names.
  pub record IsSettled (kind : SwapTxKind) (offer : Offer) (address : String) (self : LBtcSwapTx)
      (keys : Keypair) (tx : Transaction) : Type 0 where
    pub absolute : ℕ
    pub payment : TxOut
    pub fee : TxOut
    pub input : TxIn
    pub place : OutPoint
    pub funds : PaysToOffer offer place self.funding_utxo
    pub to : lib.address_from_str address ≡ ok self.output_address
    pub pays : IsPayment lib self absolute payment fee
    pub is_input : tx.input ≡ input ∷ []
    pub spends : input.previous_output ≡ place
    pub is_output : tx.output ≡ in_order kind payment fee
    pub unlocked : tx.lock_time ≡ 0
    pub cosigns : IsCosigned lib self keys (server_of offer) (in_order kind payment fee) tx

  module _ (http : HttpLib) (floats : FloatLib) (law : KeySighashLaw lib) (laws : BlindLaws lib)
      (on : Chain) (offer : Offer) (ours : PublicKey) (s : LBtcSwapScript) (address url id : String)
      (self : LBtcSwapTx) (keys : Keypair) (fee : Fee) (c : Cooperative) (discount : Bool)
      (draws : ℕ → BlindEntropy) (entropy : Entropy) (tx : Transaction) where
    -- A Liquid swap that the API locks up (a reverse swap, or the claim side of a chain swap): the
    -- response was let through for a chain, the swap script is made from it, a claim is constructed
    -- on that chain and signed cooperatively. The claim then has lock time 0 and one input, which
    -- spends an output of a transaction that Electrum or the API gave, at the outpoint where it stands
    -- there, and that output pays to the address that the response names. The claim has two outputs,
    -- a payment to the address that was given, less some fee, and the fee. It is signed with a partial
    -- signature of the API that verifies under the key that the response names. The laws are that the
    -- signature hash does not commit to script witnesses, and that a key opens what was blinded for
    -- it.
    pub liquid_swap_claim-IsSettled :
        (p : Preimage)
        → Validated bitcoin lib hashes on offer ours
        → is_bitcoin on ≡ false
        → is_claimable offer ≡ true
        → from_swap_resp lib offer ours ≡ ok s
        → electrum.network ≡ on
        → new_claim lib electrum api s address url id ≡ ok self
        → sign_claim lib self keys http floats p fee (some c) discount draws entropy ≡ ok tx
        → IsSettled SwapTxKind.claim offer address self keys tx
    liquid_swap_claim-IsSettled p validated liquid claimable is_script same constructs signs =
        let funded =
          construct-IsFunded lib electrum api s SwapTxKind.claim address url id self constructs in
        let signed =
          liquid_sign_claim-IsCooperativeClaim lib self keys http floats law laws fee c discount
            draws entropy tx p signs in
        let server : self.swap_script.sender_pubkey ≡ server_of offer =
          ap (λ (t : LBtcSwapScript). t.sender_pubkey) funded.is_script
          ∙ (from_swap_resp-HasRoles lib offer ours s is_script).is_sender
          ∙ claimable-sender offer ours claimable in
        record {
          absolute = signed.absolute;
          payment = signed.payment;
          fee = signed.fee;
          input = _;
          place = self.funding_outpoint;
          funds = paid-PaysToOffer on offer ours s self validated liquid is_script same funded.paid;
          to = funded.is_output;
          pays = signed.pays;
          is_input = ap (λ (t : Transaction). t.input) signed.cosigns.is_tx;
          spends = refl;
          is_output = ap (λ (t : Transaction). t.output) signed.cosigns.is_tx;
          unlocked = ap (λ (t : Transaction). t.lock_time) signed.cosigns.is_tx;
          cosigns =
              subst (λ key. IsCosigned lib self keys key (signed.payment ∷ signed.fee ∷ []) tx)
                server signed.cosigns;
        }

    -- A Liquid swap that we lock up (a submarine swap, or the lockup side of a chain swap): the
    -- response was let through for a chain, the swap script is made from it, a refund is constructed
    -- on that chain and signed cooperatively. The refund then has lock time 0 and one input, which
    -- spends an output of a transaction that Electrum or the API gave, at the outpoint where it stands
    -- there, and that output pays to the address that the response names. The refund has two outputs,
    -- the fee, and a payment to the address that was given, less the fee. It is signed with a partial
    -- signature of the API that verifies under the key that the response names. The laws are that the
    -- signature hash does not commit to script witnesses, and that a key opens what was blinded for
    -- it.
    pub liquid_swap_refund-IsSettled :
        Validated bitcoin lib hashes on offer ours
        → is_bitcoin on ≡ false
        → is_claimable offer ≡ false
        → from_swap_resp lib offer ours ≡ ok s
        → electrum.network ≡ on
        → new_refund lib electrum api s address url id ≡ ok self
        → sign_refund lib self keys http floats fee (some c) discount draws entropy ≡ ok tx
        → IsSettled SwapTxKind.refund offer address self keys tx
    liquid_swap_refund-IsSettled validated liquid refundable is_script same constructs signs =
        let funded =
          construct-IsFunded lib electrum api s SwapTxKind.refund address url id self constructs in
        let signed =
          liquid_sign_refund-IsCooperativeRefund lib self keys http floats law laws fee c discount
            draws entropy tx signs in
        let server : self.swap_script.receiver_pubkey ≡ server_of offer =
          ap (λ (t : LBtcSwapScript). t.receiver_pubkey) funded.is_script
          ∙ (from_swap_resp-HasRoles lib offer ours s is_script).is_receiver
          ∙ refundable-receiver offer ours refundable in
        record {
          absolute = signed.absolute;
          payment = signed.payment;
          fee = signed.fee;
          input = _;
          place = self.funding_outpoint;
          funds = paid-PaysToOffer on offer ours s self validated liquid is_script same funded.paid;
          to = funded.is_output;
          pays = signed.pays;
          is_input = ap (λ (t : Transaction). t.input) signed.cosigns.is_tx;
          spends = refl;
          is_output = ap (λ (t : Transaction). t.output) signed.cosigns.is_tx;
          unlocked = ap (λ (t : Transaction). t.lock_time) signed.cosigns.is_tx;
          cosigns =
              subst (λ key. IsCosigned lib self keys key (signed.fee ∷ signed.payment ∷ []) tx)
                server signed.cosigns;
        }
