-- ===== src/Error/Convert.antt =====
-- The `From` implementations of src/error.rs, and what the name and the message of an error tell.
use bullbitcoin_rnd.Base.{
  ◌≡◌, refl, sym, ap, ◌∙◌, arith, Option, none, some, List, [], ◌∷◌, String, str_eq, if◌then◌else◌,
}
use bullbitcoin_rnd.Error.{Error, name, message}

-- The errors of other crates, each with the text that it prints.
pub data Foreign : Type 0 where
  electrum_client_error : String → Foreign
  bitcoin_hex_hex_to_bytes_error : String → Foreign
  bitcoin_key_parse_public_key_error : String → Foreign
  bitcoin_hex_hex_to_array_error : String → Foreign
  hex_from_hex_error : String → Foreign
  bitcoin_address_parse_error : String → Foreign
  elements_address_address_error : String → Foreign
  elements_sighash_error : String → Foreign
  bitcoin_sighash_taproot_error : String → Foreign
  bitcoin_secp256k1_error : String → Foreign
  ureq_error : String → Foreign
  serde_json_error : String → Foreign
  std_io_error : String → Foreign
  lightning_invoice_parse_or_semantic_error : String → Foreign
  elements_hex_error : String → Foreign
  elements_encode_error : String → Foreign
  elements_blind_error : String → Foreign
  elements_unblind_error : String → Foreign
  elements_confidential_tx_out_error : String → Foreign
  bitcoin_bip32_error : String → Foreign
  bitcoin_hashes_from_slice_error : String → Foreign
  bip39_error : String → Foreign
  bitcoin_absolute_conversion_error : String → Foreign
  elements_locktime_error : String → Foreign
  url_parse_error : String → Foreign
  tungstenite_error : String → Foreign
  bitcoin_taproot_taproot_error : String → Foreign
  elements_taproot_taproot_error : String → Foreign
  elements_taproot_taproot_builder_error : String → Foreign
  bitcoin_taproot_taproot_builder_error : String → Foreign
  elements_secp256k1_zkp_musig_tweak_err : String → Foreign
  elements_secp256k1_zkp_musig_nonce_gen_error : String → Foreign
  elements_secp256k1_zkp_parse_error : String → Foreign
  elements_secp256k1_zkp_musig_sign_error : String → Foreign
  bitcoin_consensus_encode_error : String → Foreign

-- `From<…> for Error`
abbrev pub from : Foreign → Error
from (Foreign.electrum_client_error t) = Error.electrum t
from (Foreign.bitcoin_hex_hex_to_bytes_error t) = Error.hex t
from (Foreign.bitcoin_key_parse_public_key_error t) = Error.key t
from (Foreign.bitcoin_hex_hex_to_array_error t) = Error.hex t
from (Foreign.hex_from_hex_error t) = Error.hex t
from (Foreign.bitcoin_address_parse_error t) = Error.address t
from (Foreign.elements_address_address_error t) = Error.address t
from (Foreign.elements_sighash_error t) = Error.el_sighash t
from (Foreign.bitcoin_sighash_taproot_error t) = Error.sighash t
from (Foreign.bitcoin_secp256k1_error t) = Error.secp t
from (Foreign.ureq_error t) = Error.http t
from (Foreign.serde_json_error t) = Error.json t
from (Foreign.std_io_error t) = Error.io t
from (Foreign.lightning_invoice_parse_or_semantic_error t) = Error.bolt11 t
from (Foreign.elements_hex_error t) = Error.hex t
from (Foreign.elements_encode_error t) = Error.liquid_encode t
from (Foreign.elements_blind_error t) = Error.blind t
from (Foreign.elements_unblind_error t) = Error.blind t
from (Foreign.elements_confidential_tx_out_error t) = Error.confidential_tx t
from (Foreign.bitcoin_bip32_error t) = Error.bip32 t
from (Foreign.bitcoin_hashes_from_slice_error t) = Error.hash t
from (Foreign.bip39_error t) = Error.bip39 t
from (Foreign.bitcoin_absolute_conversion_error t) = Error.locktime t
from (Foreign.elements_locktime_error t) = Error.locktime t
from (Foreign.url_parse_error t) = Error.url t
from (Foreign.tungstenite_error t) = Error.web_socket t
from (Foreign.bitcoin_taproot_taproot_error t) = Error.taproot t
from (Foreign.elements_taproot_taproot_error t) = Error.taproot t
from (Foreign.elements_taproot_taproot_builder_error t) = Error.taproot t
from (Foreign.bitcoin_taproot_taproot_builder_error t) = Error.taproot t
from (Foreign.elements_secp256k1_zkp_musig_tweak_err t) = Error.musig2 t
from (Foreign.elements_secp256k1_zkp_musig_nonce_gen_error t) = Error.musig2 t
from (Foreign.elements_secp256k1_zkp_parse_error t) = Error.musig2 t
from (Foreign.elements_secp256k1_zkp_musig_sign_error t) = Error.musig2 t
from (Foreign.bitcoin_consensus_encode_error t) = Error.bitcoin_encode t

-- The kind of error that has a name.
abbrev kinds : List (String × (String → Error))
kinds =
    ("Electrum", Error.electrum)
    ∷ ("Hex", Error.hex)
    ∷ ("Protocol", Error.protocol)
    ∷ ("Key", Error.key)
    ∷ ("Address", Error.address)
    ∷ ("Sighash", Error.sighash)
    ∷ ("Elements-Sighash", Error.el_sighash)
    ∷ ("Secp", Error.secp)
    ∷ ("HTTP", Error.http)
    ∷ ("JSON", Error.json)
    ∷ ("IO", Error.io)
    ∷ ("Bolt11", Error.bolt11)
    ∷ ("LiquidEncode", Error.liquid_encode)
    ∷ ("BitcoinEncode", Error.bitcoin_encode)
    ∷ ("Blind", Error.blind)
    ∷ ("ConfidentialTx", Error.confidential_tx)
    ∷ ("BIP32", Error.bip32)
    ∷ ("BIP39", Error.bip39)
    ∷ ("Hash", Error.hash)
    ∷ ("Locktime", Error.locktime)
    ∷ ("Url", Error.url)
    ∷ ("WebSocket", Error.web_socket)
    ∷ ("Taproot", Error.taproot)
    ∷ ("Musig2", Error.musig2)
    ∷ ("Generic", Error.generic)
    ∷ []

with_name : List (String × (String → Error)) → String → String → Option Error
with_name [] n m = none
with_name ((kind, make) ∷ rest) n m =
    let later = with_name rest n m in if str_eq n kind then some (make m) else later

with_name-name : (e : Error) → with_name kinds (name e) (message e) ≡ some e
unfolding with_name
with_name-name (Error.electrum t) = refl
with_name-name (Error.hex t) = refl
with_name-name (Error.protocol t) = refl
with_name-name (Error.key t) = refl
with_name-name (Error.address t) = refl
with_name-name (Error.sighash t) = refl
with_name-name (Error.el_sighash t) = refl
with_name-name (Error.secp t) = refl
with_name-name (Error.http t) = refl
with_name-name (Error.json t) = refl
with_name-name (Error.io t) = refl
with_name-name (Error.bolt11 t) = refl
with_name-name (Error.liquid_encode t) = refl
with_name-name (Error.bitcoin_encode t) = refl
with_name-name (Error.blind t) = refl
with_name-name (Error.confidential_tx t) = refl
with_name-name (Error.bip32 t) = refl
with_name-name (Error.bip39 t) = refl
with_name-name (Error.hash t) = refl
with_name-name (Error.locktime t) = refl
with_name-name (Error.url t) = refl
with_name-name (Error.web_socket t) = refl
with_name-name (Error.taproot t) = refl
with_name-name (Error.musig2 t) = refl
with_name-name (Error.generic t) = refl

-- An error is determined by its name and its message: no two kinds share a name.
pub name-injective : (a b : Error) → name a ≡ name b → message a ≡ message b → a ≡ b
name-injective a b n m =
    let same : some a ≡ some b =
      sym (with_name-name a)
      ∙ ap (λ t. with_name kinds t (message a)) n
      ∙ ap (with_name kinds (name b)) m
      ∙ with_name-name b in
    ground (arith, same)
