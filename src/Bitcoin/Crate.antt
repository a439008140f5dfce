-- ===== src/Bitcoin/Crate.antt =====
-- The types and functions of the bitcoin crate that src/swaps/bitcoin.rs uses. The crate is not
-- part of the repository: its plain structs are records, its functions are parameters.
use bullbitcoin_rnd.Base.{ℕ, Bool, Option, List, String, Bytes}
use bullbitcoin_rnd.Result.{Result}
use bullbitcoin_rnd.Script.Instruction.{Script, ScriptLib}
use bullbitcoin_rnd.Musig.{MusigLib}
pub use bullbitcoin_rnd.Taproot.{LeafAt, SpendInfo}

pub data Network : Type 0 where
  bitcoin testnet regtest : Network

-- An address, by the text that it prints.
pub record Address : Type 0 where
  pub text : String

pub record OutPoint : Type 0 where
  pub txid : Bytes
  pub vout : ℕ

-- The value is in satoshis, a `u64`.
pub record TxOut : Type 0 where
  pub value : ℕ
  pub script_pubkey : Script

pub record TxIn : Type 0 where
  pub previous_output : OutPoint
  pub sequence : ℕ
  pub script_sig : Script
  pub witness : List Bytes

-- The lock time is the number that `to_consensus_u32` gives.
pub record Transaction : Type 0 where
  pub version : ℕ
  pub lock_time : ℕ
  pub input : List TxIn
  pub output : List TxOut

pub record BitcoinLib : Type 0 where
  pub script : ScriptLib
  pub musig : MusigLib
  pub address_from_str : String → Result Address
  pub script_pubkey : Address → Script
  pub is_valid_for_network : Address → Network → Bool
  pub p2tr_tweaked : Bytes → Network → Address
  -- the builder is the list of the leaves added so far
  pub add_leaf_with_ver : List LeafAt → LeafAt → Result (List LeafAt)
  pub finalize : List LeafAt → Bytes → Option SpendInfo
  pub xonly_from_slice : Bytes → Result Bytes
  pub display_key : Bytes → String
  -- `Display` of an `Amount`
  pub display_amount : ℕ → String
  pub compute_txid : Transaction → Bytes
  pub vsize : Transaction → ℕ
  pub serialize_hex : Transaction → String
  pub tap_leaf_hash : Script → Bytes
  pub key_spend_sighash : Transaction → ℕ → List TxOut → Result Bytes
  pub script_spend_sighash : Transaction → ℕ → List TxOut → Bytes → Result Bytes
  -- `Signature { signature, TapSighashType::Default }.to_vec()`
  pub signature_to_vec : Bytes → Bytes
