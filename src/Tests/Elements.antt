-- ===== src/Tests/Elements.antt =====
-- An elements crate in which a blinded output carries its secrets, and Liquid swap scripts.
use bullbitcoin_rnd.Base.{arith, none, some, Option, [], ◌∷◌, ◌++◌, Bytes, String}
use bullbitcoin_rnd.Error.{Error}
use bullbitcoin_rnd.Result.{Result, ok, err}
use bullbitcoin_rnd.Boltz.Types.{SwapType}
use bullbitcoin_rnd.Script.Instruction.{push_bytes}
use bullbitcoin_rnd.Liquid.Crate.{Asset, Value, TxOutSecrets, ElementsLib}
use bullbitcoin_rnd.Liquid.SwapScript.{LBtcSwapScript}
use bullbitcoin_rnd.Liquid.Blind.Balanced.{BlindLaws}
use bullbitcoin_rnd.Tests.Hashes.{hex, unhex}
use bullbitcoin_rnd.Tests.Scripts.{encode, scripts, tree_hex, lock, alice, bob}
use bullbitcoin_rnd.Tests.Crates.{musig}

-- The factors stand where the proofs are.
abbrev pub open_output : Value → Asset → Option Bytes → Option Bytes → Result TxOutSecrets
open_output (Value.explicit v) (Asset.confidential a) (some abf) (some vbf) =
    ok (record { asset = a; asset_bf = abf; value = v; value_bf = vbf })
open_output _ _ _ _ = err (Error.generic "not blinded")

abbrev pub elements : (String → Result Bytes) → ElementsLib
elements from_hex = record {
  script = scripts from_hex;
  musig = musig;
  address_from_str = λ s. ok (record { text = s });
  script_pubkey = λ a. encode (push_bytes (unhex a.text) ∷ []);
  to_unconfidential = λ a. a;
  blinding_pubkey = λ a. some alice;
  p2tr = λ key root blinder params. record { text = hex key };
  keypair_from_seckey_str = λ s. ok (unhex s);
  public_key = λ k. k;
  secret_key = λ k. k;
  add_leaf_with_ver = λ leaves l. ok (l ∷ leaves);
  finalize = λ leaves key. ok (record {
    internal_key = key;
    merkle_root = none;
    output_key = key;
    tap_tweak = 1 ∷ [];
    control_block = λ s. some (192 ∷ s);
  });
  xonly_from_slice = λ b. ok b;
  display_key = hex;
  debug_key = hex;
  unblind = λ o key. open_output o.value o.asset o.witness.surjection_proof o.witness.rangeproof;
  blind_asset = λ seed asset abf spent.
      ok (record { asset = Asset.confidential asset; surjection_proof = abf });
  last_value_bf = λ v abf inputs outputs. v ∷ abf;
  zero_asset_bf = [];
  zero_value_bf = [];
  blind_value = λ v vbf key ephemeral spk asset abf.
      ok (record { value = Value.explicit v; nonce = key; rangeproof = vbf });
  new_fee = λ fee asset. record {
    script_pubkey = [];
    value = Value.explicit fee;
    asset = Asset.explicit asset;
    nonce = [];
    witness = record { surjection_proof = none; rangeproof = none };
  };
  txid = λ tx. tx.lock_time ∷ [];
  vsize = λ tx. 1333;
  discount_vsize = λ tx. 200;
  serialize_hex = λ tx. "hex";
  tap_leaf_hash = λ s. s;
  key_spend_sighash = λ tx i outs genesis. ok (i ∷ tx.lock_time ∷ genesis);
  script_spend_sighash = λ tx i outs leaf genesis. ok (i ∷ tx.lock_time ∷ leaf ++ genesis);
  signature_to_vec = λ s. s;
}

pub elements-laws : (from_hex : String → Result Bytes) → BlindLaws (elements from_hex)
elements-laws from_hex = record {
  unblind-blinded =
      λ k value vbf abf seed ephemeral asset spk spent blinded_asset blinded_value h1 h2.
        ground arith;
}

-- Alice receives from Bob, in a reverse swap.
abbrev pub reverse_script : LBtcSwapScript
reverse_script = record {
  swap_type = SwapType.reverse_submarine;
  side = none;
  funding_addrs = some (record { text = hex (bob ++ alice) });
  hashlock = lock;
  receiver_pubkey = alice;
  locktime = 800000;
  sender_pubkey = bob;
  blinding_key = 4 ∷ 4 ∷ [];
}

-- Alice sends to Bob, in a submarine swap.
abbrev pub submarine_script : LBtcSwapScript
submarine_script = record {
  swap_type = SwapType.submarine;
  side = none;
  funding_addrs = some (record { text = hex (bob ++ alice) });
  hashlock = lock;
  receiver_pubkey = bob;
  locktime = 800000;
  sender_pubkey = alice;
  blinding_key = 4 ∷ 4 ∷ [];
}

abbrev pub reverse_elements : ElementsLib
reverse_elements = elements (tree_hex SwapType.reverse_submarine alice bob)

abbrev pub submarine_elements : ElementsLib
submarine_elements = elements (tree_hex SwapType.submarine bob alice)
