-- ===== src/MagicRouting.antt =====
-- src/swaps/magic_routing.rs: an invoice whose hint says that it can be paid on chain, and the BIP 21
-- text that the API gives for it.
pub mod Split
pub mod Verified
pub mod RoundTrip
use bullbitcoin_rnd.Base.{
  ℕ, Bool, true, false, not, Option, none, some, List, [], ◌∷◌, ◌++◌, String, str_eq, Bytes, ◌==◌,
  get_elem?, if◌then◌else◌,
}
use bullbitcoin_rnd.Error.{Error}
use bullbitcoin_rnd.Result.{Result, ok, err, panic, ◌>>=◌, ◌>>◌, fail_if, ok_or, expect}
use bullbitcoin_rnd.Chain.{Chain}
use bullbitcoin_rnd.Boltz.Types.{PublicKey}
use bullbitcoin_rnd.Boltz.Client.{HttpLib, BoltzApiClientV2}
use bullbitcoin_rnd.Boltz.Lookups.{GetLib}
use bullbitcoin_rnd.Boltz.Endpoints.{MrhResponse, SerdeLib, get_mrh_bip21}
use bullbitcoin_rnd.Musig.{Keypair, MusigLib}
use bullbitcoin_rnd.MagicRouting.Split.{split}

abbrev pub magic_routing_hint_constant : ℕ
magic_routing_hint_constant = 596385002596073472

abbrev pub lbtc_testnet_asset_hash : String
lbtc_testnet_asset_hash = "144c654344aa716d6f3abcc1ca90e5641e4e2a7f633bc09fe3baf64585819a49"

abbrev pub lbtc_mainnet_asset_hash : String
lbtc_mainnet_asset_hash = "6f0279e9ed041c3d710a9f57d0c02928416460c4b722ae3457a11eec381c526d"

-- The node id is the text that it prints.
pub record RouteHintHop : Type 0 where
  pub src_node_id : String
  pub short_channel_id : ℕ

-- The invoice, amount, hash and key functions of other crates.
pub record RoutingLib : Type 0 where
  pub musig : MusigLib
  -- `Bolt11Invoice::from_str(invoice)?.private_routes()`
  pub private_routes : String → Result (List (List RouteHintHop))
  -- `Amount::from_str_in(text, Denomination::Bitcoin)`, in satoshis
  pub amount_from_btc : String → Option ℕ
  -- `sha256::Hash::hash(text.as_bytes())`
  pub sha256_text : String → Bytes
  pub signature_from_slice : Bytes → Result Bytes
  pub public_key_from_str : String → Result PublicKey
  pub x_only : PublicKey → Bytes

-- The network, the address, the amount and the asset id.
pub record Bip21 : Type 0 where
  pub network : String
  pub address : String
  pub amount : ℕ
  pub assetid : Option String

abbrev is_magic : RouteHintHop → Bool
is_magic hint = hint.short_channel_id == magic_routing_hint_constant

-- `.find(…)`
unfoldable pub find_hint : List RouteHintHop → Option RouteHintHop
find_hint [] = none
find_hint (hint ∷ hints) = let later = find_hint hints in if is_magic hint then some hint else later

abbrev pub flatten {ℓ} : {A : Type ℓ} → List (List A) → List A
flatten [] = []
flatten (xs ∷ xss) = xs ++ flatten xss

-- `parts[i]`
abbrev pub index : List String → ℕ → Result String
index parts i = expect (get_elem? parts i) "index out of bounds"

-- The asset that a chain pays in, where the check looks at it.
abbrev pub wanted_asset : Chain → Option String
wanted_asset Chain.liquid_testnet = some lbtc_testnet_asset_hash
wanted_asset Chain.liquid = some lbtc_mainnet_asset_hash
wanted_asset _ = none

-- `assetid != Some(wanted)`
abbrev pub is_asset : String → Option String → Bool
is_asset wanted none = false
is_asset wanted (some id) = str_eq id wanted

abbrev pub check_asset : Option String → Option String → Result (Unit {0})
check_asset none assetid = ok tt
check_asset (some wanted) assetid =
    fail_if (not (is_asset wanted assetid))
      (Error.protocol "Asset Id missmatch in Magic Routing Hint")

module _ (lib : RoutingLib) where
  open lib use {
    musig, private_routes, amount_from_btc, sha256_text, signature_from_slice, public_key_from_str,
    x_only,
  }

  unfoldable pub find_magic_routing_hint : String → Result (Option RouteHintHop)
  find_magic_routing_hint invoice = do
    routes ← private_routes invoice
    ok (find_hint (flatten routes))

  -- One round of the loop over the parameters; the separator is `=`.
  unfoldable pub read_param : String → Bip21 → Result Bip21
  read_param param found = do
    let pair = split 61 param
    name ← index pair 0
    if str_eq name "amount"
        then (do
          text ← index pair 1
          amount ← ok_or (amount_from_btc text) (Error.generic "Unable to parse amount from string")
          ok (record found { amount = amount }))
        else if str_eq name "assetid"
        then (do text ← index pair 1; ok (record found { assetid = some text }))
        else ok found

  unfoldable pub read_params : List String → Bip21 → Result Bip21
  read_params [] found = ok found
  read_params (param ∷ params) found = read_param param found >>= λ next. read_params params next

  -- The separators are `?`, `:` and `&`.
  unfoldable pub parse_bip21 : String → Result Bip21
  parse_bip21 uri = do
    let parts = split 63 uri
    network_address ← index parts 0
    params ← index parts 1
    let network_address_parts = split 58 network_address
    network ←
        ok_or (get_elem? network_address_parts 0)
          (Error.generic "Unable to extract network from bip21 string")
    address ←
        ok_or (get_elem? network_address_parts 1)
          (Error.generic "Unable to extract address from bip21 string")
    read_params (split 38 params)
        (record { network = network; address = address; amount = 0; assetid = none })

  unfoldable pub sign_address : String → Keypair → Result Bytes
  sign_address addr keys = do
    msg ← musig.message_from_digest (sha256_text addr)
    ok (musig.sign_schnorr msg keys)

  module _ (http : HttpLib) (lookups : GetLib) (serde : SerdeLib) where
    -- The network that the text names is not looked at.
    unfoldable pub check_hint :
        BoltzApiClientV2 → String → Chain → RouteHintHop → Result (String × ℕ)
    check_hint boltz_api_v2 invoice network route_hint = do
      mrh_resp ← get_mrh_bip21 http lookups serde boltz_api_v2 invoice
      found ← parse_bip21 mrh_resp.bip21
      msg ← musig.message_from_digest (sha256_text found.address)
      bytes ← musig.vec_from_hex mrh_resp.signature
      receiver_sig ← signature_from_slice bytes
      receiver_pubkey ← public_key_from_str route_hint.src_node_id
      musig.verify_schnorr receiver_sig msg (x_only receiver_pubkey)
      check_asset (wanted_asset network) found.assetid
      ok (found.address, found.amount)

    unfoldable pub check_for_mrh : BoltzApiClientV2 → String → Chain → Result (Option (String × ℕ))
    check_for_mrh boltz_api_v2 invoice network = do
      hint ← find_magic_routing_hint invoice
      elim hint [
        | none ↦ ok none
        | some route_hint ↦
            check_hint boltz_api_v2 invoice network route_hint >>= λ pair. ok (some pair)
      ]
