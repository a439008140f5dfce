-- ===== src/Secrets/Keys.antt =====
-- `SwapKey`, `LiquidSwapKey` and the name of a refund file: which path each account derives.
pub mod Paths
use bullbitcoin_rnd.Base.{ℕ, List, String, ◌<>◌, show, Bytes}
use bullbitcoin_rnd.Result.{Result, ok, ◌>>=◌}
use bullbitcoin_rnd.Chain.{Chain}
use bullbitcoin_rnd.Boltz.Types.{SwapType}
use bullbitcoin_rnd.Musig.{Keypair}

abbrev pub submarine_swap_account : ℕ
submarine_swap_account = 21

abbrev pub reverse_swap_account : ℕ
reverse_swap_account = 42

abbrev pub chain_swap_account : ℕ
chain_swap_account = 84

-- The coin type of a network: every test network has the same.
abbrev pub network_path : Chain → ℕ
network_path Chain.bitcoin = 0
network_path Chain.liquid = 1776
network_path _ = 1

pub data DerivationPurpose : Type 0 where
  compatible native taproot : DerivationPurpose

-- `Display`
abbrev pub display_purpose : DerivationPurpose → String
display_purpose DerivationPurpose.compatible = "49"
display_purpose DerivationPurpose.native = "84"
display_purpose DerivationPurpose.taproot = "86"

-- A step of a derivation path.
pub data ChildNumber : Type 0 where
  hardened normal : ℕ → ChildNumber

pub record SwapKey : Type 0 where
  pub fingerprint : Bytes
  pub path : List ChildNumber
  pub keypair : Keypair

pub record LiquidSwapKey : Type 0 where
  pub fingerprint : Bytes
  pub path : List ChildNumber
  pub keypair : Keypair

-- The mnemonic and key functions of other crates; seeds and extended keys are opaque.
pub record KeyLib : Type 0 where
  -- `Mnemonic::from_str`, and `to_seed` with a passphrase
  pub mnemonic_from_str : String → Result Bytes
  pub to_seed : Bytes → String → Bytes
  -- `Xpriv::new_master(Network::Testnet, seed)`
  pub new_master : Bytes → Result Bytes
  pub fingerprint : Bytes → Bytes
  pub path_from_str : String → Result (List ChildNumber)
  pub derive_priv : Bytes → List ChildNumber → Result Bytes
  pub keypair_of : Bytes → Keypair
  -- `keypair.display_secret().to_string()` and `from_seckey_str` of the zkp crate
  pub display_secret : Keypair → String
  pub from_seckey_str : String → Result Keypair

-- `format!("m/{}h/{}h/{}h/0/{}", …)`
abbrev pub derivation_path : String → ℕ → ℕ → ℕ → String
derivation_path purpose network account index =
    "m/" <> purpose <> "h/" <> show network <> "h/" <> show account <> "h/0/" <> show index

module _ (lib : KeyLib) where
  open lib use {
    mnemonic_from_str, to_seed, new_master, path_from_str, derive_priv, keypair_of, display_secret,
    from_seckey_str,
  }

  -- What the three functions share, for a purpose and an account.
  unfoldable pub from_account : DerivationPurpose → ℕ → String → String → Chain → ℕ → Result SwapKey
  from_account purpose account mnemonic passphrase network index = do
    mnemonic_struct ← mnemonic_from_str mnemonic
    root ← new_master (to_seed mnemonic_struct passphrase)
    path ←
        path_from_str
          (derivation_path (display_purpose purpose) (network_path network) account index)
    child_xprv ← derive_priv root path
    ok (record { fingerprint = lib.fingerprint root; path = path; keypair = keypair_of child_xprv })

  abbrev pub from_submarine_account : String → String → Chain → ℕ → Result SwapKey
  from_submarine_account = from_account DerivationPurpose.compatible submarine_swap_account

  abbrev pub from_reverse_account : String → String → Chain → ℕ → Result SwapKey
  from_reverse_account = from_account DerivationPurpose.native reverse_swap_account

  abbrev pub from_chain_account : String → String → Chain → ℕ → Result SwapKey
  from_chain_account = from_account DerivationPurpose.taproot chain_swap_account

  -- `LiquidSwapKey::try_from`
  pub try_from : SwapKey → Result LiquidSwapKey
  try_from swapkey = do
    liquid_keypair ← from_seckey_str (display_secret swapkey.keypair)
    ok (record { fingerprint = swapkey.fingerprint; path = swapkey.path; keypair = liquid_keypair })

pub record RefundSwapFile : Type 0 where
  pub id : String
  pub currency : String
  pub redeem_script : String
  pub private_key : String
  pub timeout_block_height : ℕ

abbrev pub file_name : RefundSwapFile → String
file_name self = "boltz-" <> self.id <> ".json"
