-- ===== src/Boltz/Validate/Accepted.antt =====
-- What a response that `validate` lets through has been checked for.
use bullbitcoin_rnd.Base.{
  ◌≡◌, sym, ap, inl, inr, ◌⊎◌, true, false, not, some, [], ◌∷◌, String, str_eq, bytes_eq, if_cases,
}
use bullbitcoin_rnd.Result.{Result, ok, ◌>>=◌, fail_if, bind-eq-ok, ok-injective}
use bullbitcoin_rnd.Chain.{Chain, is_bitcoin}
use bullbitcoin_rnd.Boltz.Types.{
  PublicKey, Side, CreateSubmarineResponse, CreateReverseResponse, ChainSwapDetails,
  CreateChainResponse,
}
use bullbitcoin_rnd.Boltz.Offer.{
  Offer, submarine, reverse, chain as chain_offer, address_of, server_of,
}
use bullbitcoin_rnd.Secrets.Preimage.{Preimage, HashLib, from_invoice_str}
use bullbitcoin_rnd.Script.Instruction.{Opcode}
use bullbitcoin_rnd.Script.Tree.{read_tree}
use bullbitcoin_rnd.Taproot.{SpendInfo}
use bullbitcoin_rnd.Bitcoin.Crate.{Address, Network, BitcoinLib}
use bullbitcoin_rnd.Bitcoin.SwapScript as Bitcoin
use bullbitcoin_rnd.Bitcoin.SwapScript.Response as BitcoinResponse
use bullbitcoin_rnd.Bitcoin.SwapScript.Verified as BitcoinVerified
use bullbitcoin_rnd.Liquid.Crate.{ElementsLib}
use bullbitcoin_rnd.Liquid.SwapScript as Liquid
use bullbitcoin_rnd.Liquid.SwapScript.Response as LiquidResponse
use bullbitcoin_rnd.Liquid.SwapScript.Verified as LiquidVerified
use bullbitcoin_rnd.Boltz.Validate.{
  unwrap, unwrap_option, submarine_validate, reverse_validate, validate_side, chain_validate,
}

module _ (bitcoin : BitcoinLib) (elements : ElementsLib) (hashes : HashLib) where
  abbrev pub bitcoin_script : Offer → PublicKey → Result Bitcoin.BtcSwapScript
  bitcoin_script = BitcoinResponse.from_swap_resp bitcoin

  -- The swap script that a Bitcoin response leads to: both keys are in the internal key, the
  -- response's address is the taproot address of its two scripts, and that address pays to their
  -- output key.
  pub record OnBitcoin (on : Chain) (offer : Offer) (ours : PublicKey) : Type 0 where
    pub s : Bitcoin.BtcSwapScript
    pub funding : Address
    pub info : SpendInfo
    pub network : Network
    pub is_script : bitcoin_script offer ours ≡ ok s
    pub keyagg :
        Bitcoin.musig_keyagg_cache bitcoin s
        ≡ bitcoin.musig.key_agg_cache (server_of offer ∷ ours ∷ [])
    pub parses : bitcoin.address_from_str (address_of offer) ≡ ok funding
    pub is_info : BitcoinVerified.IsSpendInfoOf bitcoin s info
    pub pays : BitcoinVerified.PaysTo bitcoin funding info
    pub is_network : Bitcoin.address_network on ≡ ok network
    pub prints : (bitcoin.p2tr_tweaked info.output_key network).text ≡ address_of offer
    pub checked : Bitcoin.validate_address bitcoin s on (address_of offer) ≡ ok tt

  -- The same on Liquid, where the address is confidential under the blinding key of the response.
  pub record OnLiquid (on : Chain) (offer : Offer) (ours : PublicKey) : Type 0 where
    pub s : Liquid.LBtcSwapScript
    pub is_script : LiquidResponse.from_swap_resp elements offer ours ≡ ok s
    pub keyagg :
        Liquid.musig_keyagg_cache elements s
        ≡ elements.musig.key_agg_cache (server_of offer ∷ ours ∷ [])
    pub verified : LiquidVerified.IsAddressOf elements s on (address_of offer)
    pub checked : Liquid.validate_address elements s on (address_of offer) ≡ ok tt

  bitcoin_script-funding :
      (offer : Offer) (ours : PublicKey) (s : Bitcoin.BtcSwapScript)
      → bitcoin_script offer ours ≡ ok s
      → (funding : Address) × (bitcoin.address_from_str (address_of offer) ≡ ok funding)
        × (s.funding_addrs ≡ some funding)
  unfolding Bitcoin.submarine_from_swap_resp Bitcoin.reverse_from_swap_resp
      Bitcoin.chain_from_swap_resp
  bitcoin_script-funding (submarine response) ours s e =
      let (locks, reads, e1) =
        bind-eq-ok (read_tree bitcoin.script Opcode.op_0 response.swap_tree) _ e in
      let (funding, parses, e2) = bind-eq-ok (bitcoin.address_from_str response.address) _ e1 in
      (funding, parses, sym (ap (λ (t : Bitcoin.BtcSwapScript). t.funding_addrs) (ok-injective e2)))
  bitcoin_script-funding (reverse response) ours s e =
      let (locks, reads, e1) =
        bind-eq-ok (read_tree bitcoin.script Opcode.op_0 response.swap_tree) _ e in
      let (funding, parses, e2) =
        bind-eq-ok (bitcoin.address_from_str response.lockup_address) _ e1 in
      (funding, parses, sym (ap (λ (t : Bitcoin.BtcSwapScript). t.funding_addrs) (ok-injective e2)))
  bitcoin_script-funding (chain_offer side details) ours s e =
      let (locks, reads, e1) =
        bind-eq-ok (read_tree bitcoin.script Opcode.op_0 details.swap_tree) _ e in
      let (funding, parses, e2) =
        bind-eq-ok (bitcoin.address_from_str details.lockup_address) _ e1 in
      (funding, parses, sym (ap (λ (t : Bitcoin.BtcSwapScript). t.funding_addrs) (ok-injective e2)))

  bitcoin-checked :
      (on : Chain) (offer : Offer) (ours : PublicKey)
      → (bitcoin_script offer ours >>= λ s.
          Bitcoin.validate_address bitcoin s on (address_of offer))
        ≡ ok tt
      → OnBitcoin on offer ours
  bitcoin-checked on offer ours e =
      let (s, is_script, e1) = bind-eq-ok (bitcoin_script offer ours) _ e in
      let (funding, parses, has) = bitcoin_script-funding offer ours s is_script in
      let (info, is_info, pays, network, is_network, prints) =
        BitcoinVerified.validate_address-ok bitcoin s on (address_of offer) funding has e1 in
      record {
        s = s;
        funding = funding;
        info = info;
        network = network;
        is_script = is_script;
        keyagg = BitcoinResponse.musig_keyagg_cache-server_first bitcoin offer ours s is_script;
        parses = parses;
        is_info = is_info;
        pays = pays;
        is_network = is_network;
        prints = prints;
        checked = e1;
      }

  liquid-checked :
      (on : Chain) (offer : Offer) (ours : PublicKey) (s : Liquid.LBtcSwapScript)
      → LiquidResponse.from_swap_resp elements offer ours ≡ ok s
      → Liquid.validate_address elements s on (address_of offer) ≡ ok tt
      → OnLiquid on offer ours
  liquid-checked on offer ours s is_script e = record {
    s = s;
    is_script = is_script;
    keyagg = LiquidResponse.from_swap_resp-keyagg elements offer ours s is_script;
    verified = LiquidVerified.liquid_validate_address-ok elements s on (address_of offer) e;
    checked = e;
  }

  -- The responses that the three `validate` methods let through, and the chain and our key that each
  -- part of them was checked for.
  pub data Validated : Chain → Offer → PublicKey → Type 0 where
    by_submarine :
        {on : Chain} {ours : PublicKey} (response : CreateSubmarineResponse) (invoice : String)
        → submarine_validate bitcoin elements hashes response invoice ours on ≡ ok tt
        → Validated on (submarine response) ours
    by_reverse :
        {on : Chain} {ours : PublicKey} (response : CreateReverseResponse) (preimage : Preimage)
        → reverse_validate bitcoin elements hashes response preimage ours on ≡ ok tt
        → Validated on (reverse response) ours
    by_lockup :
        (from to : Chain) (claim_key refund_key : PublicKey) (response : CreateChainResponse)
        → chain_validate bitcoin elements hashes response claim_key refund_key from to ≡ ok tt
        → Validated from (chain_offer Side.lockup response.lockup_details) refund_key
    by_claim :
        (from to : Chain) (claim_key refund_key : PublicKey) (response : CreateChainResponse)
        → chain_validate bitcoin elements hashes response claim_key refund_key from to ≡ ok tt
        → Validated to (chain_offer Side.claim response.claim_details) claim_key

  -- What is checked on the chain that the response is for.
  abbrev pub Accepted : Chain → Offer → PublicKey → Type 0
  Accepted on offer ours =
      ((is_bitcoin on ≡ true) × OnBitcoin on offer ours)
      ⊎ ((is_bitcoin on ≡ false) × OnLiquid on offer ours)

  submarine-Accepted :
      (on : Chain) (ours : PublicKey) (response : CreateSubmarineResponse) (invoice : String)
      → submarine_validate bitcoin elements hashes response invoice ours on ≡ ok tt
      → Accepted on (submarine response) ours
  unfolding submarine_validate
  submarine-Accepted on ours response invoice e =
      let (preimage, reads, e1) = bind-eq-ok (unwrap (from_invoice_str hashes invoice)) _ e in
      elim (if_cases (is_bitcoin on) _ _ e1) [
        | inl (here, f) ↦ inl (here, bitcoin-checked on (submarine response) ours f)
        | inr (there, f) ↦
            let (key, has, f1) = bind-eq-ok (unwrap_option response.blinding_key) _ f in
            let created = Liquid.submarine_from_swap_resp elements response ours in
            let (s, is_script, f2) = bind-eq-ok created _ f1 in
            let same = not (bytes_eq s.hashlock preimage.hash160) in
            let (u, passes, f3) = bind-eq-ok (fail_if same _) _ f2 in
            inr (there, liquid-checked on (submarine response) ours s is_script f3)
      ]

  reverse-Accepted :
      (on : Chain) (ours : PublicKey) (response : CreateReverseResponse) (preimage : Preimage)
      → reverse_validate bitcoin elements hashes response preimage ours on ≡ ok tt
      → Accepted on (reverse response) ours
  unfolding reverse_validate
  reverse-Accepted on ours response preimage e =
      let (hash, reads, e1) = bind-eq-ok (hashes.payment_hash response.invoice) _ e in
      let differ = not (str_eq (hashes.to_hex hash) (hashes.to_hex preimage.sha256)) in
      let (u, passes, e2) = bind-eq-ok (fail_if differ _) _ e1 in
      elim (if_cases (is_bitcoin on) _ _ e2) [
        | inl (here, f) ↦ inl (here, bitcoin-checked on (reverse response) ours f)
        | inr (there, f) ↦
            let (key, has, f1) = bind-eq-ok (unwrap_option response.blinding_key) _ f in
            let created = Liquid.reverse_from_swap_resp elements response ours in
            let (s, is_script, f2) = bind-eq-ok created _ f1 in
            inr (there, liquid-checked on (reverse response) ours s is_script f2)
      ]

  side-Accepted :
      (on : Chain) (ours : PublicKey) (side : Side) (details : ChainSwapDetails)
      → validate_side bitcoin elements hashes side on details ours ≡ ok tt
      → Accepted on (chain_offer side details) ours
  unfolding validate_side
  side-Accepted on ours side details e = elim (if_cases (is_bitcoin on) _ _ e) [
    | inl (here, f) ↦ inl (here, bitcoin-checked on (chain_offer side details) ours f)
    | inr (there, f) ↦
        let (key, has, f1) = bind-eq-ok (unwrap_option details.blinding_key) _ f in
        let created = Liquid.chain_from_swap_resp elements side details ours in
        let (s, is_script, f2) = bind-eq-ok created _ f1 in
        inr (there, liquid-checked on (chain_offer side details) ours s is_script f2)
  ]

  chain_validate-sides :
      (from to : Chain) (claim_key refund_key : PublicKey) (response : CreateChainResponse)
      → chain_validate bitcoin elements hashes response claim_key refund_key from to ≡ ok tt
      → (validate_side bitcoin elements hashes Side.lockup from response.lockup_details refund_key
          ≡ ok tt)
        × (validate_side bitcoin elements hashes Side.claim to response.claim_details claim_key
            ≡ ok tt)
  unfolding chain_validate
  chain_validate-sides from to claim_key refund_key response e =
      let first =
        validate_side bitcoin elements hashes Side.lockup from response.lockup_details refund_key in
      let (u, locks, e1) = bind-eq-ok first _ e in (locks, e1)

  -- A submarine, reverse or chain response that is let through (a chain response on both of its
  -- sides, each with the chain and the key of ours for that side) leads to a swap script of its
  -- chain. Its internal key is the aggregate of the server's key and ours, and the address of the
  -- response is the taproot address of its claim and refund scripts under that key; on Bitcoin that
  -- address pays to their output key, on Liquid it is confidential under the blinding key.
  pub validate-Accepted :
      {on : Chain} {offer : Offer} {ours : PublicKey}
      → Validated on offer ours
      → Accepted on offer ours
  validate-Accepted {on} {offer} {ours} (by_submarine response invoice e) =
      submarine-Accepted on ours response invoice e
  validate-Accepted {on} {offer} {ours} (by_reverse response preimage e) =
      reverse-Accepted on ours response preimage e
  validate-Accepted (by_lockup from to claim_key refund_key response e) =
      side-Accepted from refund_key Side.lockup response.lockup_details
        (chain_validate-sides from to claim_key refund_key response e).0
  validate-Accepted (by_claim from to claim_key refund_key response e) =
      side-Accepted to claim_key Side.claim response.claim_details
        (chain_validate-sides from to claim_key refund_key response e).1
