-- ===== src/Taproot/KeyPath/Ends.antt =====
-- When a session with the API ends with a signature.
use bullbitcoin_rnd.Base.{◌≡◌, refl, true, not, List, [], ◌∷◌, ◌==◌, Bytes, any}
use bullbitcoin_rnd.Result.{Result, ok}
use bullbitcoin_rnd.Boltz.Client.{PartialSig}
use bullbitcoin_rnd.Musig.{Keypair, KeyAggCache, Entropy, Nonces, Session, MusigLib}
use bullbitcoin_rnd.Taproot.{SpendInfo, Spending}
use bullbitcoin_rnd.Taproot.KeyPath.{tweaked_cache, session_of, aggregate, cosign}

-- The session id is not all zeros.
abbrev pub IsFresh : Entropy → Type 0
IsFresh entropy = any (λ byte. not (byte == 0)) entropy.session_id ≡ true

module _ (musig : MusigLib) (signature_to_vec : Bytes → Bytes) (spending : Spending) where
  abbrev session_for : KeyAggCache → Bytes → Bytes → Bytes → Session
  session_for = session_of musig signature_to_vec spending

  -- The API answers our nonce with a nonce and a partial signature of its own that verifies.
  pub record IsAnswer (ask : Bytes → Result PartialSig) (cache : KeyAggCache)
      (msg our_nonce : Bytes) : Type 0 where
    pub resp : PartialSig
    pub nonce_bytes : Bytes
    pub boltz_nonce : Bytes
    pub sig_bytes : Bytes
    pub boltz_sig : Bytes
    pub asks : ask our_nonce ≡ ok resp
    pub nonce_hex : musig.vec_from_hex resp.pub_nonce ≡ ok nonce_bytes
    pub is_nonce : musig.pub_nonce_from_slice nonce_bytes ≡ ok boltz_nonce
    pub sig_hex : musig.vec_from_hex resp.partial_signature ≡ ok sig_bytes
    pub is_sig : musig.partial_sig_from_slice sig_bytes ≡ ok boltz_sig
    pub verifies :
        musig.partial_verify
          (session_for cache boltz_nonce our_nonce msg)
          cache
          boltz_sig
          boltz_nonce
          spending.boltz_key
        ≡ true

  -- The nonce that was drawn is for our key, this message and this cache.
  abbrev IsDrawn : KeyAggCache → Keypair → Entropy → Bytes → Nonces → Type 0
  IsDrawn cache keys entropy msg nonces =
      musig.nonce_gen cache entropy (musig.public_key keys) msg ≡ ok nonces

  -- The two parties are Boltz and we. The taproot construction succeeds, and its tweak fits the key that
  -- is aggregated from ours and that of Boltz. The laws of BIP 327 for that key: a session id that is
  -- not all zeros gives nonces, with nonces that were drawn for a message and a public nonce that can
  -- be read a partial signature of that message is made in the session of the two, and where the other
  -- partial signature verifies in it, the aggregate of the two is a signature for the output key.
  pub record CanSign (keys : Keypair) : Type 0 where
    pub info : SpendInfo
    pub cache : KeyAggCache
    pub parties :
        spending.keyagg_cache
        ≡ musig.key_agg_cache (spending.boltz_key ∷ musig.public_key keys ∷ [])
    pub constructed : spending.spend_info ≡ ok info
    pub is_cache : tweaked_cache musig signature_to_vec spending ≡ ok cache
    pub draws :
        (entropy : Entropy) (msg : Bytes)
        → IsFresh entropy
        → (nonces : Nonces) × IsDrawn cache keys entropy msg nonces
    pub signs :
        (entropy : Entropy) (nonces : Nonces) (msg nonce_bytes boltz_nonce : Bytes)
        → IsDrawn cache keys entropy msg nonces
        → musig.pub_nonce_from_slice nonce_bytes ≡ ok boltz_nonce
        → (sig : Bytes) × (musig.partial_sign
              (session_for cache boltz_nonce nonces.pub_nonce msg)
              nonces.sec_nonce
              keys
              cache
            ≡ ok sig)
    pub aggregates :
        (entropy : Entropy) (nonces : Nonces) (msg boltz_nonce boltz_sig our_sig : Bytes)
        → IsDrawn cache keys entropy msg nonces
        → musig.partial_verify
            (session_for cache boltz_nonce nonces.pub_nonce msg)
            cache
            boltz_sig
            boltz_nonce
            spending.boltz_key
          ≡ true
        → musig.partial_sign
            (session_for cache boltz_nonce nonces.pub_nonce msg)
            nonces.sec_nonce
            keys
            cache
          ≡ ok our_sig
        → musig.verify_schnorr
            (musig.partial_sig_agg
              (session_for cache boltz_nonce nonces.pub_nonce msg)
              (boltz_sig ∷ our_sig ∷ []))
            msg
            info.output_key
          ≡ ok tt

  pub cosign-ok :
      (keys : Keypair) (can : CanSign keys) (hash : Result Bytes) (ask : Bytes → Result PartialSig)
      (entropy : Entropy) (sighash msg : Bytes)
      → IsFresh entropy
      → hash ≡ ok sighash
      → musig.message_from_digest sighash ≡ ok msg
      → ((our_nonce : Bytes) → IsAnswer ask can.cache msg our_nonce)
      → (witness : List Bytes) × (cosign musig signature_to_vec spending keys hash ask entropy
          ≡ ok witness)
  unfolding cosign aggregate
  cosign-ok keys can hash ask entropy sighash msg fresh hashes is_message answers =
      let (nonces, drawn) = can.draws entropy msg fresh in
      let a = answers nonces.pub_nonce in
      let session = session_for can.cache a.boltz_nonce nonces.pub_nonce msg in
      let (our_sig, signed) =
        can.signs entropy nonces msg a.nonce_bytes a.boltz_nonce drawn a.is_nonce in
      let valid =
        can.aggregates entropy nonces msg a.boltz_nonce a.boltz_sig our_sig drawn a.verifies
          signed in
      (
        signature_to_vec (musig.partial_sig_agg session (a.boltz_sig ∷ our_sig ∷ [])) ∷ [],
        rw
            (
              hashes, is_message, can.is_cache, drawn, a.asks, a.nonce_hex, a.is_nonce, a.sig_hex,
              a.is_sig, a.verifies, signed, can.constructed, valid,
            )
            refl,
      )
