-- ===== src/Tests/Crates.antt =====
-- A signature scheme in which a signature is the message, and the crates built on it.
use bullbitcoin_rnd.Base.{true, none, some, List, [], ◌∷◌, ◌++◌, Bytes, bytes_eq, String, show}
use bullbitcoin_rnd.Result.{Result, ok}
use bullbitcoin_rnd.Boltz.Types.{SwapType, Side}
use bullbitcoin_rnd.Boltz.Client.{Json, response, HttpLib}
use bullbitcoin_rnd.Musig.{MusigLib, Entropy}
use bullbitcoin_rnd.Script.Instruction.{push_bytes}
use bullbitcoin_rnd.Bitcoin.Crate.{BitcoinLib}
use bullbitcoin_rnd.Bitcoin.SwapScript.{BtcSwapScript}
use bullbitcoin_rnd.Boltz.Cooperative.{Cooperative}
use bullbitcoin_rnd.Tests.Hashes.{hex, unhex}
use bullbitcoin_rnd.Tests.Scripts.{encode, scripts, tree_hex, lock, alice, bob}

abbrev concat : List Bytes → Bytes
concat [] = []
concat (b ∷ bs) = b ++ concat bs

-- Boltz's partial signature is Bob's key.
abbrev pub musig : MusigLib
musig = record {
  public_key = λ k. k;
  key_agg_cache = concat;
  agg_pk = λ c. c;
  secret_key_from_slice = λ b. ok b;
  pubkey_xonly_tweak_add = λ c t. ok (t ++ c);
  message_from_digest = λ d. ok d;
  nonce_gen = λ c e pk m. ok (record { sec_nonce = e.session_id; pub_nonce = e.extra_rand });
  pub_nonce_from_slice = λ b. ok b;
  partial_sig_from_slice = λ b. ok b;
  agg_nonce = concat;
  session = λ c n m. m;
  partial_verify = λ session c sig nonce key. bytes_eq sig key;
  partial_sign = λ session sec keys c. ok keys;
  partial_sig_agg = λ session sigs. session;
  sign_schnorr = λ m keys. m;
  verify_schnorr = λ sig m key. ok tt;
  vec_from_hex = λ s. ok bob;
  to_lower_hex_string = hex;
}

abbrev pub crates : (String → Result Bytes) → BitcoinLib
crates from_hex = record {
  script = scripts from_hex;
  musig = musig;
  address_from_str = λ s. ok (record { text = s });
  script_pubkey = λ a. encode (push_bytes (unhex a.text) ∷ []);
  is_valid_for_network = λ a n. true;
  p2tr_tweaked = λ key n. record { text = hex key };
  add_leaf_with_ver = λ leaves l. ok (l ∷ leaves);
  finalize = λ leaves key. some (record {
    internal_key = key;
    merkle_root = none;
    output_key = key;
    tap_tweak = 1 ∷ [];
    control_block = λ s. some (192 ∷ s);
  });
  xonly_from_slice = λ b. ok b;
  display_key = hex;
  display_amount = show;
  compute_txid = λ tx. tx.lock_time ∷ [];
  vsize = λ tx. 141;
  serialize_hex = λ tx. "hex";
  tap_leaf_hash = λ s. s;
  key_spend_sighash = λ tx i outs. ok (i ∷ tx.lock_time ∷ []);
  script_spend_sighash = λ tx i outs leaf. ok (i ∷ tx.lock_time ∷ leaf);
  signature_to_vec = λ s. s;
}

-- Every request is answered.
abbrev pub http : HttpLib
http = record {
  has_native_tls = true;
  send_native = λ url body. response (ok url);
  send_default = λ url body. response (ok "");
  parse_value = λ s. ok Json.null;
  show_value = λ v. "null";
  parse_partial_sig = λ s. ok (record { pub_nonce = s; partial_signature = s });
  to_lower_hex_string = hex;
}

abbrev pub api : Cooperative
api = record {
  boltz_api = record { base_url = "http://127.0.0.1:9001/v2" };
  swap_id = "id";
  pub_nonce = none;
  partial_sig = none;
}

abbrev pub entropy : Entropy
entropy = record { session_id = 11 ∷ []; extra_rand = 12 ∷ [] }

-- Alice receives from Bob, in a reverse swap.
abbrev pub reverse_script : BtcSwapScript
reverse_script = record {
  swap_type = SwapType.reverse_submarine;
  side = none;
  funding_addrs = some (record { text = hex (bob ++ alice) });
  hashlock = lock;
  receiver_pubkey = alice;
  locktime = 800000;
  sender_pubkey = bob;
}

-- Alice sends to Bob, in a submarine swap.
abbrev pub submarine_script : BtcSwapScript
submarine_script = record {
  swap_type = SwapType.submarine;
  side = none;
  funding_addrs = some (record { text = hex (bob ++ alice) });
  hashlock = lock;
  receiver_pubkey = bob;
  locktime = 800000;
  sender_pubkey = alice;
}

-- Alice claims what Bob has locked, in a chain swap.
abbrev pub chain_script : BtcSwapScript
chain_script = record reverse_script { swap_type = SwapType.chain; side = some Side.claim }

abbrev pub reverse_lib : BitcoinLib
reverse_lib = crates (tree_hex SwapType.reverse_submarine alice bob)

abbrev pub submarine_lib : BitcoinLib
submarine_lib = crates (tree_hex SwapType.submarine bob alice)

abbrev pub chain_lib : BitcoinLib
chain_lib = crates (tree_hex SwapType.chain alice bob)
