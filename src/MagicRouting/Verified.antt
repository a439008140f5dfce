-- ===== src/MagicRouting/Verified.antt =====
-- What a magic routing hint that is followed has been checked for.
use bullbitcoin_rnd.Base.{
  ℕ, suc, ◌≡◌, sym, ap, ◌∙◌, arith, inl, inr, not, Option, none, some, List, [], ◌∷◌, String,
  str_eq, str_eq_iff, Bytes, ◌==◌, ==_iff, Bool-cases, Occurs, some-injective,
}
use bullbitcoin_rnd.Result.{ok, ◌>>=◌, bind-eq-ok, ok-injective, fail_if-eq-ok}
use bullbitcoin_rnd.Chain.{Chain}
use bullbitcoin_rnd.Boltz.Types.{PublicKey}
use bullbitcoin_rnd.Boltz.Client.{HttpLib, BoltzApiClientV2}
use bullbitcoin_rnd.Boltz.Lookups.{GetLib}
use bullbitcoin_rnd.Boltz.Endpoints.{MrhResponse, SerdeLib, get_mrh_bip21}
use bullbitcoin_rnd.Taproot.KeyPath.Verified.{not-false}
use bullbitcoin_rnd.MagicRouting.{
  magic_routing_hint_constant, RouteHintHop, RoutingLib, Bip21, find_hint, flatten, wanted_asset,
  lbtc_mainnet_asset_hash, lbtc_testnet_asset_hash, check_asset, find_magic_routing_hint,
  parse_bip21, check_hint, check_for_mrh,
}

find_hint-Occurs :
    (hints : List RouteHintHop) {hint : RouteHintHop}
    → find_hint hints ≡ some hint
    → Occurs hint hints × (hint.short_channel_id ≡ magic_routing_hint_constant)
unfolding find_hint
find_hint-Occurs [] e = cc
find_hint-Occurs (h ∷ hints) {hint} e =
    elim (Bool-cases (h.short_channel_id == magic_routing_hint_constant)) [
      | inl magic ↦
          let is : h ≡ hint = ground (arith, e, magic) in
          (
            (0, ap some is),
            ap (λ (x : RouteHintHop). x.short_channel_id) (sym is)
                ∙ (==_iff h.short_channel_id magic_routing_hint_constant).0 magic,
          )
      | inr other ↦
          let ((k, at), magic) = find_hint-Occurs hints (ground (arith, e, other)) in
          ((suc k, at), magic)
    ]

check_asset-ok :
    (wanted : String) (asset : Option String) (assetid : Option String)
    → check_asset asset assetid ≡ ok tt
    → asset ≡ some wanted
    → assetid ≡ some wanted
check_asset-ok wanted none assetid e is = cc
check_asset-ok wanted (some w) none e is = cc
check_asset-ok wanted (some w) (some id) e is =
    let differ = not (str_eq id w) in
    let same : id ≡ w = (str_eq_iff id w).0 (not-false (str_eq id w) (fail_if-eq-ok differ _ e)) in
    ap some same ∙ is

module _ (lib : RoutingLib) (http : HttpLib) (lookups : GetLib) (serde : SerdeLib)
    (client : BoltzApiClientV2) (invoice : String) (network : Chain) where
  open lib use {
    musig, private_routes, sha256_text, signature_from_slice, public_key_from_str, x_only,
  }

  -- A route of the invoice ends in the magic hint, and the address of the BIP 21 text is signed by
  -- the node of that hint.
  pub record IsVerified (address : String) (amount : ℕ) : Type 0 where
    pub routes : List (List RouteHintHop)
    pub hint : RouteHintHop
    pub reply : MrhResponse
    pub found : Bip21
    pub msg : Bytes
    pub signature_bytes : Bytes
    pub signature : Bytes
    pub key : PublicKey
    pub has_routes : private_routes invoice ≡ ok routes
    pub in_routes : Occurs hint (flatten routes)
    pub is_magic : hint.short_channel_id ≡ 596385002596073472
    pub replies : get_mrh_bip21 http lookups serde client invoice ≡ ok reply
    pub parses : parse_bip21 lib reply.bip21 ≡ ok found
    pub same_address : found.address ≡ address
    pub same_amount : found.amount ≡ amount
    pub is_message : musig.message_from_digest (sha256_text address) ≡ ok msg
    pub is_signature : musig.vec_from_hex reply.signature ≡ ok signature_bytes
    pub signs : signature_from_slice signature_bytes ≡ ok signature
    pub is_key : public_key_from_str hint.src_node_id ≡ ok key
    pub verifies : musig.verify_schnorr signature msg (x_only key) ≡ ok tt
    pub on_liquid :
        network ≡ Chain.liquid
        → found.assetid ≡ some "6f0279e9ed041c3d710a9f57d0c02928416460c4b722ae3457a11eec381c526d"
    pub on_liquid_testnet :
        network ≡ Chain.liquid_testnet
        → found.assetid ≡ some "144c654344aa716d6f3abcc1ca90e5641e4e2a7f633bc09fe3baf64585819a49"

  check_hint-IsVerified :
      (routes : List (List RouteHintHop)) (hint : RouteHintHop) (address : String) (amount : ℕ)
      → private_routes invoice ≡ ok routes
      → find_hint (flatten routes) ≡ some hint
      → check_hint lib http lookups serde client invoice network hint ≡ ok (address, amount)
      → IsVerified address amount
  unfolding check_hint
  check_hint-IsVerified routes hint address amount has finds e =
      let (reply, replies, e1) = bind-eq-ok (get_mrh_bip21 http lookups serde client invoice) _ e in
      let (found, parses, e2) = bind-eq-ok (parse_bip21 lib reply.bip21) _ e1 in
      let (msg, is_message, e3) =
        bind-eq-ok (musig.message_from_digest (sha256_text found.address)) _ e2 in
      let (bytes, is_signature, e4) = bind-eq-ok (musig.vec_from_hex reply.signature) _ e3 in
      let (signature, signs, e5) = bind-eq-ok (signature_from_slice bytes) _ e4 in
      let (key, is_key, e6) = bind-eq-ok (public_key_from_str hint.src_node_id) _ e5 in
      let (u, verifies, e7) = bind-eq-ok (musig.verify_schnorr signature msg (x_only key)) _ e6 in
      let (u2, same_asset, e8) =
        bind-eq-ok (check_asset (wanted_asset network) found.assetid) _ e7 in
      let is : (found.address, found.amount) ≡ (address, amount) = ok-injective e8 in
      let same_address = ap (λ (p : String × ℕ). p.0) is in
      let (occurs, magic) = find_hint-Occurs (flatten routes) finds in
      record {
        routes = routes;
        hint = hint;
        reply = reply;
        found = found;
        msg = msg;
        signature_bytes = bytes;
        signature = signature;
        key = key;
        has_routes = has;
        in_routes = occurs;
        is_magic = magic;
        replies = replies;
        parses = parses;
        same_address = same_address;
        same_amount = ap (λ (p : String × ℕ). p.1) is;
        is_message =
            ap (λ a. musig.message_from_digest (sha256_text a)) (sym same_address) ∙ is_message;
        is_signature = is_signature;
        signs = signs;
        is_key = is_key;
        verifies = verifies;
        on_liquid = λ on.
            check_asset-ok lbtc_mainnet_asset_hash (wanted_asset network) found.assetid same_asset
              (ap wanted_asset on);
        on_liquid_testnet = λ on.
            check_asset-ok lbtc_testnet_asset_hash (wanted_asset network) found.assetid same_asset
              (ap wanted_asset on);
      }

  -- An address that is given in place of an invoice is the one that is read from the BIP 21 text
  -- which the API gives for the invoice, and the amount is what is read from that text (which is 0
  -- where the text has none). A private route of the invoice has the magic hint, whose channel id is
  -- 596385002596073472, and the signature in the reply verifies for the hash of the address under the
  -- key of the hint's node. On Liquid and on its test network the text names the L-BTC asset of that
  -- network.
  pub check_for_mrh-IsVerified :
      (address : String) (amount : ℕ)
      → check_for_mrh lib http lookups serde client invoice network ≡ ok (some (address, amount))
      → IsVerified address amount
  unfolding check_for_mrh find_magic_routing_hint
  check_for_mrh-IsVerified address amount e =
      let (found, finds, e1) = bind-eq-ok (find_magic_routing_hint lib invoice) _ e in
      let (routes, has, e2) = bind-eq-ok (private_routes invoice) _ finds in
      followed routes found has (ok-injective e2) e1
    where
      followed :
          (routes : List (List RouteHintHop)) (found : Option RouteHintHop)
          → private_routes invoice ≡ ok routes
          → find_hint (flatten routes) ≡ found
          → (elim found [
            | none ↦ ok none
            | some hint ↦ check_hint lib http lookups serde client invoice network hint >>= λ pair.
                ok (some pair)
          ])
            ≡ ok (some (address, amount))
          → IsVerified address amount
      followed routes none has finds e = cc
      followed routes (some hint) has finds e =
          let (pair, checks, e1) =
            bind-eq-ok (check_hint lib http lookups serde client invoice network hint) _ e in
          let is : pair ≡ (address, amount) = some-injective (ok-injective e1) in
          check_hint-IsVerified routes hint address amount has finds (checks ∙ ap ok is)
