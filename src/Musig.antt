-- ===== src/Musig.antt =====
-- The MuSig2 and Schnorr functions of the secp256k1 crates that src/swaps/bitcoin.rs and
-- src/swaps/liquid.rs call. The crates are not part of the repository: their functions are
-- parameters, and their opaque values are kept as byte strings. Random draws are arguments.
use bullbitcoin_rnd.Base.{Bool, List, String, Bytes}
use bullbitcoin_rnd.Result.{Result}
use bullbitcoin_rnd.Boltz.Types.{PublicKey}

-- A key pair, a key aggregation cache and a signing session are opaque.
abbrev pub Keypair : Type 0
Keypair = Bytes

abbrev pub KeyAggCache : Type 0
KeyAggCache = Bytes

abbrev pub Session : Type 0
Session = Bytes

-- A fresh secret nonce and its public nonce.
pub record Nonces : Type 0 where
  pub sec_nonce : Bytes
  pub pub_nonce : Bytes

-- What one signing draws: the session id, and 32 more bytes.
pub record Entropy : Type 0 where
  pub session_id : Bytes
  pub extra_rand : Bytes

pub record MusigLib : Type 0 where
  pub public_key : Keypair → PublicKey
  pub key_agg_cache : List PublicKey → KeyAggCache
  pub agg_pk : KeyAggCache → Bytes
  pub secret_key_from_slice : Bytes → Result Bytes
  pub pubkey_xonly_tweak_add : KeyAggCache → Bytes → Result KeyAggCache
  pub message_from_digest : Bytes → Result Bytes
  pub nonce_gen : KeyAggCache → Entropy → PublicKey → Bytes → Result Nonces
  pub pub_nonce_from_slice : Bytes → Result Bytes
  pub partial_sig_from_slice : Bytes → Result Bytes
  pub agg_nonce : List Bytes → Bytes
  pub session : KeyAggCache → Bytes → Bytes → Session
  pub partial_verify : Session → KeyAggCache → Bytes → Bytes → PublicKey → Bool
  pub partial_sign : Session → Bytes → Keypair → KeyAggCache → Result Bytes
  pub partial_sig_agg : Session → List Bytes → Bytes
  pub sign_schnorr : Bytes → Keypair → Bytes
  pub verify_schnorr : Bytes → Bytes → Bytes → Result (Unit {0})
  -- `Vec::from_hex` and `to_lower_hex_string`
  pub vec_from_hex : String → Result Bytes
  pub to_lower_hex_string : Bytes → String
