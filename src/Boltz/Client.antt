-- ===== src/Boltz/Client.antt =====
-- src/swaps/boltz.rs: the HTTP client of the API, and the requests that settle a swap.
pub mod Answered
use bullbitcoin_rnd.Base.{
  ℕ, Bool, true, false, Option, none, some, String, ◌<>◌, show, str_eq, Bytes, if◌then◌else◌,
}
use bullbitcoin_rnd.Error.{Error}
use bullbitcoin_rnd.Result.{Result, ok, err, ◌>>=◌, ◌>>◌, expect}
use bullbitcoin_rnd.Chain.{Chain}
use bullbitcoin_rnd.Secrets.Preimage.{Preimage}

mutual
  -- A number is the text that it prints.
  pub data Json : Type 0 where
    null : Json
    boolean : Bool → Json
    number : String → Json
    string : String → Json
    array : Items → Json
    object : Fields → Json

  pub data Items : Type 0 where
    nil : Items
    item : Json → Items → Items

  pub data Fields : Type 0 where
    done : Fields
    field : String → Json → Fields → Fields

abbrev pub find_field : String → Fields → Option Json
find_field key Fields.done = none
find_field key (field name value fields) = elim (find_field key fields) [
  | some later ↦ some later
  | none ↦ if str_eq name key then some value else none
]

-- `e_val.get("error").unwrap_or(&Value::Null)`
abbrev pub error_field : Json → Json
error_field (object fields) = elim (find_field "error" fields) [ some value ↦ value | none ↦ null ]
error_field _ = null

-- What `send_json` gives: a response, an error status with the body of its response, or a failure
-- with no response. Reading a body to its end can fail.
pub data Reply : Type 0 where
  response : Result String → Reply
  status : Result String → String → Reply
  transport : String → Reply

pub record PartialSig : Type 0 where
  pub pub_nonce : String
  pub partial_signature : String

pub record ToSign : Type 0 where
  pub pub_nonce : String
  pub transaction : String
  pub index : ℕ

-- The HTTP, TLS and JSON functions of other crates. An error status and a failure print a text.
pub record HttpLib : Type 0 where
  -- `native_tls::TlsConnector::new()` succeeds
  pub has_native_tls : Bool
  pub send_native : String → Json → Reply
  pub send_default : String → Json → Reply
  pub parse_value : String → Result Json
  pub show_value : Json → String
  pub parse_partial_sig : String → Result PartialSig
  pub to_lower_hex_string : Bytes → String

pub record BoltzApiClientV2 : Type 0 where
  pub base_url : String

abbrev pub chain_name : Chain → String
chain_name Chain.bitcoin = "BTC"
chain_name Chain.bitcoin_regtest = "BTC"
chain_name Chain.bitcoin_testnet = "BTC"
chain_name Chain.liquid = "L-BTC"
chain_name Chain.liquid_testnet = "L-BTC"
chain_name Chain.liquid_regtest = "L-BTC"

abbrev sig_fields : String → String → Fields
sig_fields pub_nonce partial_signature =
    field "pubNonce" (string pub_nonce)
      (field "partialSignature" (string partial_signature) Fields.done)

abbrev to_sign_json : ToSign → Json
to_sign_json t = object (
    field "pubNonce" (string t.pub_nonce) (
      field "transaction" (string t.transaction)
        (field "index" (number (show t.index)) Fields.done)))

module _ (http : HttpLib) where
  open http use {to_lower_hex_string, parse_partial_sig}

  -- The native TLS branch: an error status is an `HTTP` error with the body's own message.
  unfoldable pub read_native : Reply → Result String
  read_native (response body) = body
  read_native (status body text) = do
    e_val ← http.parse_value (← body)
    err (Error.http (http.show_value (error_field e_val)))
  read_native (transport text) = err (Error.http text)

  -- The other branch: `send_json(data)?.into_string()?`
  unfoldable pub read_default : Reply → Result String
  read_default (response body) = body
  read_default (status body text) = err (Error.http text)
  read_default (transport text) = err (Error.http text)

  unfoldable pub post : BoltzApiClientV2 → String → Json → Result String
  post self end_point data_ =
      let url = self.base_url <> "/" <> end_point in
      if http.has_native_tls
      then read_native (http.send_native url data_)
      else read_default (http.send_default url data_)

  pub post_submarine_claim_tx_details : BoltzApiClientV2 → String → Bytes → Bytes → Result Json
  post_submarine_claim_tx_details self id pub_nonce partial_sig = do
    let body = object (sig_fields (to_lower_hex_string pub_nonce) (to_lower_hex_string partial_sig))
    http.parse_value (← post self ("swap/submarine/" <> id <> "/claim") body)

  unfoldable pub post_chain_claim_tx_details :
      BoltzApiClientV2 → String → Preimage → Bytes → Bytes → ToSign → Result PartialSig
  post_chain_claim_tx_details self id preimage pub_nonce partial_sig to_sign = do
    bytes ← expect preimage.bytes "expected"
    let signature =
        object (sig_fields (to_lower_hex_string pub_nonce) (to_lower_hex_string partial_sig))
    let body = object (
        field "preimage" (string (to_lower_hex_string bytes))
          (field "signature" signature (field "toSign" (to_sign_json to_sign) Fields.done)))
    parse_partial_sig (← post self ("swap/chain/" <> id <> "/claim") body)

  unfoldable pub get_reverse_partial_sig :
      BoltzApiClientV2 → String → Preimage → Bytes → String → Result PartialSig
  get_reverse_partial_sig self id preimage pub_nonce claim_tx_hex = do
    bytes ← expect preimage.bytes "expected"
    let body = object (
        field "preimage" (string (to_lower_hex_string bytes)) (
          field "pubNonce" (string (to_lower_hex_string pub_nonce))
            (field "transaction" (string claim_tx_hex) (field "index" (number "0") Fields.done))))
    parse_partial_sig (← post self ("swap/reverse/" <> id <> "/claim") body)

  -- The body that the two refund requests share.
  abbrev refund_body : ℕ → Bytes → String → Json
  refund_body input_index pub_nonce refund_tx_hex = object (
      field "pubNonce" (string (to_lower_hex_string pub_nonce)) (
        field "transaction" (string refund_tx_hex)
          (field "index" (number (show input_index)) Fields.done)))

  unfoldable pub get_submarine_partial_sig :
      BoltzApiClientV2 → String → ℕ → Bytes → String → Result PartialSig
  get_submarine_partial_sig self id input_index pub_nonce refund_tx_hex = do
    let body = refund_body input_index pub_nonce refund_tx_hex
    parse_partial_sig (← post self ("swap/submarine/" <> id <> "/refund") body)

  unfoldable pub get_chain_partial_sig :
      BoltzApiClientV2 → String → ℕ → Bytes → String → Result PartialSig
  get_chain_partial_sig self id input_index pub_nonce refund_tx_hex = do
    let body = refund_body input_index pub_nonce refund_tx_hex
    parse_partial_sig (← post self ("swap/chain/" <> id <> "/refund") body)

  pub broadcast_tx : BoltzApiClientV2 → Chain → String → Result Json
  broadcast_tx self chain tx_hex = do
    let body = object (field "hex" (string tx_hex) Fields.done)
    http.parse_value (← post self ("chain/" <> chain_name chain <> "/transaction") body)

  pub accept_quote : BoltzApiClientV2 → String → ℕ → Result (Unit {0})
  accept_quote self swap_id amount_sat = do
    let body = object (field "amount" (number (show amount_sat)) Fields.done)
    post self ("swap/chain/" <> swap_id <> "/quote") body
    ok tt
