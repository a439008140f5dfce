-- ===== src/Taproot/KeyPath.antt =====
-- One MuSig2 session with the API: what `sign_claim`, `sign_refund` and `partial_sign` of
-- src/swaps/bitcoin.rs and src/swaps/liquid.rs do with a signature hash.
pub mod Verified
pub mod Ends
use bullbitcoin_rnd.Base.{Bool, not, List, [], ◌∷◌, String, Bytes}
use bullbitcoin_rnd.Result.{Result, ok, ◌>>=◌, ◌>>◌, fail_if}
use bullbitcoin_rnd.Boltz.Client.{PartialSig}
use bullbitcoin_rnd.Musig.{Keypair, KeyAggCache, Entropy, Session, MusigLib}
use bullbitcoin_rnd.Taproot.{SpendInfo, Spending}

-- `signature_to_vec` is `to_vec` of a signature with the default hash type.
module _ (musig : MusigLib) (signature_to_vec : Bytes → Bytes) (spending : Spending) where
  -- "Start with a Musig KeyAgg Cache", tweaked with the tap tweak.
  unfoldable pub tweaked_cache : Result KeyAggCache
  tweaked_cache = do
    info ← spending.spend_info
    tweak ← musig.secret_key_from_slice info.tap_tweak
    musig.pubkey_xonly_tweak_add spending.keyagg_cache tweak

  abbrev pub session_of : KeyAggCache → Bytes → Bytes → Bytes → Session
  session_of cache boltz_nonce our_nonce msg =
      musig.session cache (musig.agg_nonce (boltz_nonce ∷ our_nonce ∷ [])) msg

  module _ (keys : Keypair) where
    -- Our half of a signature of the hash, and our public nonce.
    unfoldable pub half_sign : String → String → Entropy → Result (Bytes × Bytes)
    half_sign pub_nonce transaction_hash entropy = do
      cache ← tweaked_cache
      msg ← musig.message_from_digest (← musig.vec_from_hex transaction_hash)
      nonces ← musig.nonce_gen cache entropy (musig.public_key keys) msg
      boltz_nonce ← musig.pub_nonce_from_slice (← musig.vec_from_hex pub_nonce)
      let session = session_of cache boltz_nonce nonces.pub_nonce msg
      partial_sig ← musig.partial_sign session nonces.sec_nonce keys cache
      ok (partial_sig, nonces.pub_nonce)

    -- What is left once Boltz has answered: its signature is verified, then the aggregated one.
    unfoldable pub aggregate :
        KeyAggCache → Bytes → Bytes → Bytes → Bytes → Bytes → Result (List Bytes)
    aggregate cache msg sec_nonce our_nonce boltz_nonce boltz_sig = do
      let session = session_of cache boltz_nonce our_nonce msg
      fail_if (not (musig.partial_verify session cache boltz_sig boltz_nonce spending.boltz_key))
          spending.refusal
      our_sig ← musig.partial_sign session sec_nonce keys cache
      let schnorr_sig = musig.partial_sig_agg session (boltz_sig ∷ our_sig ∷ [])
      info ← spending.spend_info
      musig.verify_schnorr schnorr_sig msg info.output_key
      ok (signature_to_vec schnorr_sig ∷ [])

    -- The witness that signs a hash; `ask` sends our public nonce to Boltz.
    unfoldable pub cosign :
        Result Bytes → (Bytes → Result PartialSig) → Entropy → Result (List Bytes)
    cosign signature_hash ask entropy = do
      sighash ← signature_hash
      msg ← musig.message_from_digest sighash
      cache ← tweaked_cache
      nonces ← musig.nonce_gen cache entropy (musig.public_key keys) msg
      resp ← ask nonces.pub_nonce
      boltz_nonce ← musig.pub_nonce_from_slice (← musig.vec_from_hex resp.pub_nonce)
      boltz_sig ← musig.partial_sig_from_slice (← musig.vec_from_hex resp.partial_signature)
      aggregate cache msg nonces.sec_nonce nonces.pub_nonce boltz_nonce boltz_sig
