-- ===== src/Liquid/Crate.antt =====
-- The types and functions of the elements crate that src/swaps/liquid.rs uses. The crate is not part
-- of the repository: its plain structs are records, its functions are parameters.
use bullbitcoin_rnd.Base.{ℕ, Bool, Option, List, String, Bytes}
use bullbitcoin_rnd.Result.{Result}
use bullbitcoin_rnd.Musig.{Keypair, MusigLib}
use bullbitcoin_rnd.Script.Instruction.{Script, ScriptLib}
use bullbitcoin_rnd.Taproot.{LeafAt, SpendInfo}

-- `AddressParams`
pub data AddressParams : Type 0 where
  liquid liquid_testnet elements : AddressParams

-- An address, by the text that it prints.
pub record Address : Type 0 where
  pub text : String

pub record OutPoint : Type 0 where
  pub txid : Bytes
  pub vout : ℕ

-- `confidential::Asset` and `confidential::Value`: in the open, or a commitment.
pub data Asset : Type 0 where
  explicit confidential : Bytes → Asset

pub data Value : Type 0 where
  explicit : ℕ → Value
  confidential : Bytes → Value

pub record TxOutWitness : Type 0 where
  pub surjection_proof : Option Bytes
  pub rangeproof : Option Bytes

pub record TxOut : Type 0 where
  pub script_pubkey : Script
  pub value : Value
  pub asset : Asset
  pub nonce : Bytes
  pub witness : TxOutWitness

pub record TxInWitness : Type 0 where
  pub amount_rangeproof : Option Bytes
  pub inflation_keys_rangeproof : Option Bytes
  pub script_witness : List Bytes
  pub pegin_witness : List Bytes

-- The default issuance is `none`.
pub record TxIn : Type 0 where
  pub previous_output : OutPoint
  pub is_pegin : Bool
  pub script_sig : Script
  pub sequence : ℕ
  pub asset_issuance : Option Bytes
  pub witness : TxInWitness

pub record Transaction : Type 0 where
  pub version : ℕ
  pub lock_time : ℕ
  pub input : List TxIn
  pub output : List TxOut

-- What unblinding an output reveals; the factors are `asset_bf` and `value_bf`.
pub record TxOutSecrets : Type 0 where
  pub asset : Bytes
  pub asset_bf : Bytes
  pub value : ℕ
  pub value_bf : Bytes

-- A value with its two factors, as `ValueBlindingFactor::last` takes them.
pub record Factors : Type 0 where
  pub value : ℕ
  pub asset_bf : Bytes
  pub value_bf : Bytes

-- A blinded value with the nonce and the range proof of its output.
pub record BlindedValue : Type 0 where
  pub value : Value
  pub nonce : Bytes
  pub rangeproof : Bytes

-- A blinded asset with its surjection proof.
pub record BlindedAsset : Type 0 where
  pub asset : Asset
  pub surjection_proof : Bytes

pub record ElementsLib : Type 0 where
  pub script : ScriptLib
  pub musig : MusigLib
  pub address_from_str : String → Result Address
  pub script_pubkey : Address → Script
  pub to_unconfidential : Address → Address
  pub blinding_pubkey : Address → Option Bytes
  pub p2tr : Bytes → Option Bytes → Option Bytes → AddressParams → Address
  pub keypair_from_seckey_str : String → Result Keypair
  pub public_key : Keypair → Bytes
  pub secret_key : Keypair → Bytes
  -- the builder is the list of the leaves added so far
  pub add_leaf_with_ver : List LeafAt → LeafAt → Result (List LeafAt)
  pub finalize : List LeafAt → Bytes → Result SpendInfo
  pub xonly_from_slice : Bytes → Result Bytes
  -- `Display` of an x-only key, `Debug` of an output key
  pub display_key : Bytes → String
  pub debug_key : Bytes → String
  pub unblind : TxOut → Bytes → Result TxOutSecrets
  -- `Asset::Explicit(id).blind(rng, secp, out_abf, spent)`
  pub blind_asset : Bytes → Bytes → Bytes → List TxOutSecrets → Result BlindedAsset
  -- `ValueBlindingFactor::last(secp, value, abf, inputs, outputs)`
  pub last_value_bf : ℕ → Bytes → List Factors → List Factors → Bytes
  pub zero_asset_bf : Bytes
  pub zero_value_bf : Bytes
  -- `Value::Explicit(value).blind(secp, vbf, blinding_key, ephemeral_sk, spk, {asset, bf})`
  pub blind_value : ℕ → Bytes → Bytes → Bytes → Script → (asset bf : Bytes) → Result BlindedValue
  pub new_fee : ℕ → Bytes → TxOut
  pub txid : Transaction → Bytes
  pub vsize : Transaction → ℕ
  pub discount_vsize : Transaction → ℕ
  pub serialize_hex : Transaction → String
  pub tap_leaf_hash : Script → Bytes
  -- the last argument of both is the genesis hash of the chain
  pub key_spend_sighash : Transaction → ℕ → List TxOut → Bytes → Result Bytes
  pub script_spend_sighash : Transaction → ℕ → List TxOut → Bytes → Bytes → Result Bytes
  -- `SchnorrSig { sig, hash_ty: SchnorrSighashType::Default }.to_vec()`
  pub signature_to_vec : Bytes → Bytes
