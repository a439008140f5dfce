-- ===== src/Taproot/KeyPath/Verified.antt =====
-- What a witness that a session with the API returns has been checked for.
use bullbitcoin_rnd.Base.{◌≡◌, refl, sym, Bool, true, false, not, List, [], ◌∷◌, Bytes}
use bullbitcoin_rnd.Result.{Result, ok, fail_if, bind-eq-ok, ok-injective, fail_if-eq-ok}
use bullbitcoin_rnd.Boltz.Client.{PartialSig}
use bullbitcoin_rnd.Musig.{Keypair, KeyAggCache, Entropy, MusigLib}
use bullbitcoin_rnd.Taproot.{SpendInfo, Spending}
use bullbitcoin_rnd.Taproot.KeyPath.{tweaked_cache, session_of, aggregate, cosign}

pub not-false : (b : Bool) → not b ≡ false → b ≡ true
not-false true h = refl
not-false false h = sym h

module _ (musig : MusigLib) (signature_to_vec : Bytes → Bytes) (spending : Spending) where
  -- The witness is one signature. It verifies under the output key of the taproot construction, and
  -- was made with a partial signature that verified under the key of Boltz.
  pub record IsAggregate (cache : KeyAggCache) (msg our_nonce boltz_nonce boltz_sig : Bytes)
      (witness : List Bytes) : Type 0 where
    pub signature : Bytes
    pub info : SpendInfo
    pub our_sig : Bytes
    pub boltz_verifies :
        musig.partial_verify
          (session_of musig signature_to_vec spending cache boltz_nonce our_nonce msg)
          cache
          boltz_sig
          boltz_nonce
          spending.boltz_key
        ≡ true
    pub aggregates :
        signature
        ≡ musig.partial_sig_agg
            (session_of musig signature_to_vec spending cache boltz_nonce our_nonce msg)
            (boltz_sig ∷ our_sig ∷ [])
    pub constructed : spending.spend_info ≡ ok info
    pub verifies : musig.verify_schnorr signature msg info.output_key ≡ ok tt
    pub is_witness : witness ≡ signature_to_vec signature ∷ []

  -- The witness signs the hash, under the swap's own key.
  pub record IsSignatureOf (hash : Result Bytes) (witness : List Bytes) : Type 0 where
    pub sighash : Bytes
    pub msg : Bytes
    pub cache : KeyAggCache
    pub our_nonce : Bytes
    pub boltz_nonce : Bytes
    pub boltz_sig : Bytes
    pub hashes : hash ≡ ok sighash
    pub is_message : musig.message_from_digest sighash ≡ ok msg
    pub is_cache : tweaked_cache musig signature_to_vec spending ≡ ok cache
    pub aggregated : IsAggregate cache msg our_nonce boltz_nonce boltz_sig witness

  module _ (keys : Keypair) where
    aggregate-IsAggregate :
        (cache : KeyAggCache) (msg sec_nonce our_nonce boltz_nonce boltz_sig : Bytes)
        (witness : List Bytes)
        → aggregate musig signature_to_vec spending keys cache msg sec_nonce our_nonce boltz_nonce
            boltz_sig
          ≡ ok witness
        → IsAggregate cache msg our_nonce boltz_nonce boltz_sig witness
    unfolding aggregate
    aggregate-IsAggregate cache msg sec_nonce our_nonce boltz_nonce boltz_sig witness e =
        let session = session_of musig signature_to_vec spending cache boltz_nonce our_nonce msg in
        let verified =
          musig.partial_verify session cache boltz_sig boltz_nonce spending.boltz_key in
        let (unit, passes, e1) = bind-eq-ok (fail_if (not verified) spending.refusal) _ e in
        let (our_sig, signs, e2) =
          bind-eq-ok (musig.partial_sign session sec_nonce keys cache) _ e1 in
        let signature = musig.partial_sig_agg session (boltz_sig ∷ our_sig ∷ []) in
        let (info, constructed, e3) = bind-eq-ok spending.spend_info _ e2 in
        let (done, verifies, e4) =
          bind-eq-ok (musig.verify_schnorr signature msg info.output_key) _ e3 in
        record {
          signature = signature;
          info = info;
          our_sig = our_sig;
          boltz_verifies =
              not-false verified (fail_if-eq-ok (not verified) spending.refusal passes);
          aggregates = refl;
          constructed = constructed;
          verifies = verifies;
          is_witness = sym (ok-injective e4);
        }

    pub cosign-IsSignatureOf :
        (hash : Result Bytes) (ask : Bytes → Result PartialSig) (entropy : Entropy)
        (witness : List Bytes)
        → cosign musig signature_to_vec spending keys hash ask entropy ≡ ok witness
        → IsSignatureOf hash witness
    unfolding cosign
    cosign-IsSignatureOf hash ask entropy witness e =
        let (sighash, hashes, e1) = bind-eq-ok hash _ e in
        let (msg, is_message, e2) = bind-eq-ok (musig.message_from_digest sighash) _ e1 in
        let (cache, is_cache, e3) =
          bind-eq-ok (tweaked_cache musig signature_to_vec spending) _ e2 in
        let (nonces, draws, e4) =
          bind-eq-ok (musig.nonce_gen cache entropy (musig.public_key keys) msg) _ e3 in
        let (resp, answers, e5) = bind-eq-ok (ask nonces.pub_nonce) _ e4 in
        let (nonce_hex, d1, e6) = bind-eq-ok (musig.vec_from_hex resp.pub_nonce) _ e5 in
        let (boltz_nonce, d2, e7) = bind-eq-ok (musig.pub_nonce_from_slice nonce_hex) _ e6 in
        let (sig_hex, d3, e8) = bind-eq-ok (musig.vec_from_hex resp.partial_signature) _ e7 in
        let (boltz_sig, d4, e9) = bind-eq-ok (musig.partial_sig_from_slice sig_hex) _ e8 in
        record {
          sighash = sighash;
          msg = msg;
          cache = cache;
          our_nonce = nonces.pub_nonce;
          boltz_nonce = boltz_nonce;
          boltz_sig = boltz_sig;
          hashes = hashes;
          is_message = is_message;
          is_cache = is_cache;
          aggregated =
              aggregate-IsAggregate cache msg nonces.sec_nonce nonces.pub_nonce boltz_nonce
                boltz_sig witness e9;
        }
