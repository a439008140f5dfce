-- ===== src/Swap/Bitcoin.antt =====
-- A Bitcoin swap from the response to the signed claim or refund.
use mathlib.Core.Path.{subst}
use bullbitcoin_rnd.Base.{
  ℕ, ◌+◌, ◌-◌, ◌%◌, ◌^◌, ◌⊎◌, ◌≡◌, sym, ap, ◌∙◌, arith, inl, inr, true, false, some, List, [], ◌∷◌,
  map, String, str_eq_iff, Bytes, head?, get_elem?, Occurs,
}
use bullbitcoin_rnd.Result.{Result, ok, bind-eq-ok, ok-injective}
use bullbitcoin_rnd.Chain.{Chain, is_bitcoin}
use bullbitcoin_rnd.Fees.{FloatLib, Fee}
use bullbitcoin_rnd.Musig.{Keypair, Entropy}
use bullbitcoin_rnd.Secrets.Preimage.{Preimage, HashLib}
use bullbitcoin_rnd.Boltz.Types.{PublicKey}
use bullbitcoin_rnd.Boltz.Client.{HttpLib}
use bullbitcoin_rnd.Boltz.Lookups.{GetLib}
use bullbitcoin_rnd.Boltz.Cooperative.{Cooperative}
use bullbitcoin_rnd.Boltz.Offer.{
  Offer, address_of, server_of, is_claimable, claimable-sender, refundable-receiver,
}
use bullbitcoin_rnd.Boltz.Validate.Accepted.{Validated, validate-Accepted}
use bullbitcoin_rnd.Liquid.Crate.{ElementsLib}
use bullbitcoin_rnd.Bitcoin.Crate.{Address, TxOut, Transaction, BitcoinLib}
use bullbitcoin_rnd.Bitcoin.SwapScript.{BtcSwapScript, to_address, validate_address}
use bullbitcoin_rnd.Bitcoin.SwapScript.Response.{from_swap_resp, from_swap_resp-HasRoles}
use bullbitcoin_rnd.Bitcoin.Utxos.{Utxo}
use bullbitcoin_rnd.Bitcoin.Refund.Drafted.{worth, outpoints}
use bullbitcoin_rnd.Bitcoin.SwapTx.{BtcSwapTx, enable_rbf_no_locktime}
use bullbitcoin_rnd.Bitcoin.KeyPath.Verified.{KeySighashLaw, IsKeySpend}
use bullbitcoin_rnd.Bitcoin.New.{ElectrumLib, new_claim, new_refund}
use bullbitcoin_rnd.Bitcoin.New.Pays.{
  FromElectrum, FromApi, IsPaidTo, new_claim-IsPaidTo, new_refund-IsPaidTo,
}
use bullbitcoin_rnd.Bitcoin.Sign.{sign_claim, sign_refund}
use bullbitcoin_rnd.Bitcoin.Sign.Spends.{
  IsCooperativeRefund, sign_claim-IsKeySpend, sign_refund-IsCooperativeRefund,
}

validate_address-text :
    (lib : BitcoinLib) (s : BtcSwapScript) (on : Chain) (text : String) {address : Address}
    → validate_address lib s on text ≡ ok tt
    → to_address lib s on ≡ ok address
    → address.text ≡ text
unfolding validate_address
validate_address-text lib s on text {address} e is =
    let (found, finds, e1) = bind-eq-ok (to_address lib s on) _ e in
    ap (λ (a : Address). a.text) (ok-injective (sym is ∙ finds))
    ∙ (ground (arith, e1, str_eq_iff found.text text))

module _ (lib : BitcoinLib) (elements : ElementsLib) (hashes : HashLib) (electrum : ElectrumLib)
    (api : GetLib) (decode_tx : String → Result Transaction) where
  -- The output stands in a transaction that Electrum or the API gave, at the place that its outpoint
  -- names, and pays to the address that the response names.
  pub record PaysToOffer (offer : Offer) (utxo : Utxo) : Type 0 where
    pub address : Address
    pub tx : Transaction
    pub index : ℕ
    pub fetched :
        FromElectrum electrum api decode_tx (lib.script_pubkey address) tx
        ⊎ FromApi electrum api decode_tx tx
    pub at : get_elem? tx.output index ≡ some utxo.txout
    pub outpoint : utxo.outpoint ≡ record { txid = lib.compute_txid tx; vout = index % 2 ^ 32 }
    pub names : address.text ≡ address_of offer
    pub pays : utxo.txout.script_pubkey ≡ lib.script_pubkey address

  paid-PaysToOffer :
      (on : Chain) (offer : Offer) (ours : PublicKey) (s : BtcSwapScript) (utxo : Utxo)
      → Validated lib elements hashes on offer ours
      → is_bitcoin on ≡ true
      → from_swap_resp lib offer ours ≡ ok s
      → electrum.network ≡ on
      → IsPaidTo lib electrum api decode_tx s utxo
      → PaysToOffer offer utxo
  paid-PaysToOffer on offer ours s utxo validated bitcoin is_script same paid =
      elim (validate-Accepted lib elements hashes validated) [
        | inl (here, accepted) ↦
            let is : accepted.s ≡ s = ok-injective (sym accepted.is_script ∙ is_script) in
            let checks : validate_address lib s on (address_of offer) ≡ ok tt =
              ap (λ t. validate_address lib t on (address_of offer)) (sym is) ∙ accepted.checked in
            record {
              address = paid.address;
              tx = paid.tx;
              index = paid.index;
              fetched = paid.fetched;
              at = paid.at;
              outpoint = paid.outpoint;
              names =
                  validate_address-text lib s on (address_of offer) checks
                    (ap (to_address lib s) (sym same) ∙ paid.is_address);
              pays = paid.pays;
            }
        | inr (there, accepted) ↦ ground (arith, there, bitcoin)
      ]

  -- The claim has lock time 0. It spends one output, that pays to the address of the response, to one
  -- output of the script of the given address, and is signed together with the API, whose key the
  -- response names.
  pub record IsClaimed (offer : Offer) (claim_address : String) (self : BtcSwapTx)
      (tx : Transaction) : Type 0 where
    pub utxo : Utxo
    pub absolute : ℕ
    pub sequence : ℕ
    pub witness : List Bytes
    pub pays : PaysToOffer offer utxo
    pub destination : Address
    pub to : lib.address_from_str claim_address ≡ ok destination
    pub input :
        tx.input
        ≡ record {
          previous_output = utxo.outpoint;
          sequence = sequence;
          script_sig = [];
          witness = witness;
        }
          ∷ []
    pub output :
        tx.output
        ≡ record {
          value = (utxo.txout.value + 2 ^ 64 - absolute) % 2 ^ 64;
          script_pubkey = lib.script_pubkey destination;
        }
          ∷ []
    pub unlocked : tx.lock_time ≡ 0
    pub signed : IsKeySpend lib self.swap_script (utxo.txout ∷ []) (server_of offer) tx 0 witness

  module _ (http : HttpLib) (floats : FloatLib) where
    -- The refund spends outputs that pay to the address of the response, all of them to the given
    -- address, and each is signed together with the API, whose key the response names.
    pub record IsRefunded (offer : Offer) (refund_address : String) (self : BtcSwapTx)
        (tx : Transaction) : Type 0 where
      pub pays : (utxo : Utxo) → Occurs utxo self.utxos → PaysToOffer offer utxo
      pub destination : Address
      pub to : lib.address_from_str refund_address ≡ ok destination
      pub fee : ℕ
      pub out : TxOut
      pub is_output : tx.output ≡ out ∷ []
      pub is_destination : out.script_pubkey ≡ lib.script_pubkey destination
      pub conserves : out.value + fee ≡ worth self.utxos
      pub spends : outpoints tx.input ≡ map (λ u. u.outpoint) self.utxos
      pub refund : IsCooperativeRefund lib http floats self tx
      pub server : self.swap_script.receiver_pubkey ≡ server_of offer

    module _ (law : KeySighashLaw lib) where
      -- A Bitcoin swap that the API locks up (a reverse swap, or the claim side of a chain swap): the
      -- response was let through for a chain, the swap script is made from it, a claim is constructed
      -- on that chain and signed cooperatively. The claim then has lock time 0 and one input, which
      -- spends an output of a transaction that Electrum or the API gave, at the outpoint where it
      -- stands there, and that output pays to the address that the response names. Its one output has
      -- the script of the address that was given, and the value of the spent output less some fee,
      -- modulo 2 ^ 64. It is signed with a partial signature of the API that verifies under the key
      -- that the response names. The law is that the signature hash does not commit to witnesses.
      pub swap_claim-IsClaimed :
          (on : Chain) (offer : Offer) (ours : PublicKey) (s : BtcSwapScript)
          (claim_address url id : String) (self : BtcSwapTx) (keys : Keypair) (p : Preimage)
          (fee : Fee) (c : Cooperative) (entropy : Entropy) (tx : Transaction)
          → Validated lib elements hashes on offer ours
          → is_bitcoin on ≡ true
          → is_claimable offer ≡ true
          → from_swap_resp lib offer ours ≡ ok s
          → electrum.network ≡ on
          → new_claim lib electrum api decode_tx s claim_address url id ≡ ok self
          → sign_claim lib http floats self keys p fee (some c) entropy ≡ ok tx
          → IsClaimed offer claim_address self tx
      swap_claim-IsClaimed on offer ours s claim_address url id self keys p fee c entropy tx
            validated bitcoin claimable is_script same constructs signs =
          let (not_submarine, of_script, to, utxo, has, paid) =
            new_claim-IsPaidTo lib electrum api decode_tx s claim_address url id self constructs in
          let (allowed, kind, absolute, witness, is_tx, signed) =
            sign_claim-IsKeySpend lib http floats law self keys p fee c entropy utxo tx
              (ap head? has) signs in
          let server : self.swap_script.sender_pubkey ≡ server_of offer =
            ap (λ (t : BtcSwapScript). t.sender_pubkey) of_script
            ∙ (from_swap_resp-HasRoles lib offer ours s is_script).is_sender
            ∙ claimable-sender offer ours claimable in
          record {
            utxo = utxo;
            absolute = absolute;
            sequence = enable_rbf_no_locktime;
            witness = witness;
            pays = paid-PaysToOffer on offer ours s utxo validated bitcoin is_script same paid;
            destination = self.output_address;
            to = to;
            input = ap (λ (t : Transaction). t.input) is_tx;
            output = ap (λ (t : Transaction). t.output) is_tx;
            unlocked = ap (λ (t : Transaction). t.lock_time) is_tx;
            signed =
                subst (λ key. IsKeySpend lib self.swap_script (utxo.txout ∷ []) key tx 0 witness)
                  server signed;
          }

      -- A Bitcoin swap that we lock up (a submarine swap, or the lockup side of a chain swap): the
      -- response was let through for a chain, the swap script is made from it, a refund is constructed
      -- on that chain and signed cooperatively. The refund then has lock time 0. Its inputs spend the
      -- utxos in order, each of which is an output of a transaction that Electrum or the API gave, at
      -- the outpoint where it stands there, and pays to the address that the response names. Its one
      -- output has the script of the address that was given, and the value of the utxos less some fee.
      -- Every input is signed with a partial signature of the API that verifies under the key that the
      -- response names. The law is that the signature hash does not commit to witnesses.
      pub swap_refund-IsRefunded :
          (on : Chain) (offer : Offer) (ours : PublicKey) (s : BtcSwapScript)
          (refund_address url id : String) (self : BtcSwapTx) (keys : Keypair) (fee : Fee)
          (c : Cooperative) (entropy : ℕ → Entropy) (tx : Transaction)
          → Validated lib elements hashes on offer ours
          → is_bitcoin on ≡ true
          → is_claimable offer ≡ false
          → from_swap_resp lib offer ours ≡ ok s
          → electrum.network ≡ on
          → new_refund lib electrum api decode_tx s refund_address url id ≡ ok self
          → sign_refund lib http floats self keys fee (some c) entropy ≡ ok tx
          → IsRefunded offer refund_address self tx
      swap_refund-IsRefunded on offer ours s refund_address url id self keys fee c entropy tx
            validated bitcoin refundable is_script same constructs signs =
          let (not_reverse, of_script, to, valid, some_left, paid) =
            new_refund-IsPaidTo lib electrum api decode_tx s refund_address url id self
              constructs in
          let refund =
            sign_refund-IsCooperativeRefund lib http floats law self keys fee c entropy tx signs in
          record {
            pays = λ utxo occurs.
                paid-PaysToOffer on offer ours s utxo validated bitcoin is_script same
                  (paid utxo occurs);
            destination = self.output_address;
            to = to;
            fee = refund.fee;
            out = refund.out;
            is_output = refund.is_output;
            is_destination = refund.pays_to;
            conserves = refund.conserves;
            spends = refund.spends;
            refund = refund;
            server =
                ap (λ (t : BtcSwapScript). t.receiver_pubkey) of_script
                ∙ (from_swap_resp-HasRoles lib offer ours s is_script).is_receiver
                ∙ refundable-receiver offer ours refundable;
          }
