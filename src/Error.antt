-- ===== src/Error.antt =====
-- src/error.rs: the library's error type.
pub mod Convert
use bullbitcoin_rnd.Base.{String}

-- An error of another crate is kept as the text that it prints.
pub data Error : Type 0 where
  electrum hex protocol key address sighash el_sighash secp http json io : String → Error
  bolt11 liquid_encode bitcoin_encode blind confidential_tx bip32 bip39 hash : String → Error
  locktime url web_socket taproot musig2 generic : String → Error

-- `Error::name`
abbrev pub name : Error → String
name (Error.electrum e) = "Electrum"
name (Error.hex e) = "Hex"
name (Error.protocol e) = "Protocol"
name (Error.key e) = "Key"
name (Error.address e) = "Address"
name (Error.sighash e) = "Sighash"
name (Error.el_sighash e) = "Elements-Sighash"
name (Error.secp e) = "Secp"
name (Error.http e) = "HTTP"
name (Error.json e) = "JSON"
name (Error.io e) = "IO"
name (Error.bolt11 e) = "Bolt11"
name (Error.liquid_encode e) = "LiquidEncode"
name (Error.bitcoin_encode e) = "BitcoinEncode"
name (Error.blind e) = "Blind"
name (Error.confidential_tx e) = "ConfidentialTx"
name (Error.bip32 e) = "BIP32"
name (Error.bip39 e) = "BIP39"
name (Error.hash e) = "Hash"
name (Error.locktime e) = "Locktime"
name (Error.url e) = "Url"
name (Error.web_socket e) = "WebSocket"
name (Error.taproot e) = "Taproot"
name (Error.musig2 e) = "Musig2"
name (Error.generic e) = "Generic"

-- `Error::message`
abbrev pub message : Error → String
message (Error.electrum e) = e
message (Error.hex e) = e
message (Error.protocol e) = e
message (Error.key e) = e
message (Error.address e) = e
message (Error.sighash e) = e
message (Error.el_sighash e) = e
message (Error.secp e) = e
message (Error.http e) = e
message (Error.json e) = e
message (Error.io e) = e
message (Error.bolt11 e) = e
message (Error.liquid_encode e) = e
message (Error.bitcoin_encode e) = e
message (Error.blind e) = e
message (Error.confidential_tx e) = e
message (Error.bip32 e) = e
message (Error.bip39 e) = e
message (Error.hash e) = e
message (Error.locktime e) = e
message (Error.url e) = e
message (Error.web_socket e) = e
message (Error.taproot e) = e
message (Error.musig2 e) = e
message (Error.generic e) = e
