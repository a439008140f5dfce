-- ===== src/Secrets/Keys/Paths.antt =====
-- No two accounts share a derivation path.
use bullbitcoin_rnd.Base.{ℕ, zero, suc, ◌≡◌, refl, sym, ap, ◌∙◌, arith, List, [], ◌∷◌, String, show}
use bullbitcoin_rnd.Result.{Result, ok, bind-eq-ok, ok-injective}
use bullbitcoin_rnd.Chain.{Chain}
use bullbitcoin_rnd.Boltz.Types.{SwapType}
use bullbitcoin_rnd.Secrets.Keys.{
  DerivationPurpose, ChildNumber, hardened, normal, SwapKey, KeyLib, display_purpose, network_path,
  derivation_path, from_account, from_submarine_account, from_reverse_account, from_chain_account,
  submarine_swap_account, reverse_swap_account, chain_swap_account,
}

-- What the bitcoin crate documents: a path that is read has the numbers that its text spells.
pub record PathLaws (lib : KeyLib) : Type 0 where
  pub path_from_str-spells :
      (purpose network account index : ℕ) (path : List ChildNumber)
      → lib.path_from_str (derivation_path (show purpose) network account index) ≡ ok path
      → path ≡ hardened purpose ∷ hardened network ∷ hardened account ∷ normal 0 ∷ normal index ∷ []

abbrev purpose_number : DerivationPurpose → ℕ
purpose_number DerivationPurpose.compatible = 49
purpose_number DerivationPurpose.native = 84
purpose_number DerivationPurpose.taproot = 86

show-purpose_number : (p : DerivationPurpose) → show (purpose_number p) ≡ display_purpose p
unfolding show
show-purpose_number DerivationPurpose.compatible = refl
show-purpose_number DerivationPurpose.native = refl
show-purpose_number DerivationPurpose.taproot = refl

-- The purpose and the account of a swap type.
abbrev pub purpose_of : SwapType → DerivationPurpose
purpose_of SwapType.submarine = DerivationPurpose.compatible
purpose_of SwapType.reverse_submarine = DerivationPurpose.native
purpose_of SwapType.chain = DerivationPurpose.taproot

abbrev pub account_of : SwapType → ℕ
account_of SwapType.submarine = submarine_swap_account
account_of SwapType.reverse_submarine = reverse_swap_account
account_of SwapType.chain = chain_swap_account

abbrev number_of : ChildNumber → ℕ
number_of (hardened n) = n
number_of (normal n) = n

-- The number of a step, and zero behind the last.
abbrev number_at : ℕ → List ChildNumber → ℕ
number_at i [] = 0
number_at zero (step ∷ path) = number_of step
number_at (suc i) (step ∷ path) = number_at i path

account-injective : (s t : SwapType) → account_of s ≡ account_of t → s ≡ t
account-injective s t h = ground arith

module _ (lib : KeyLib) where
  abbrev pub from_swap_account : SwapType → String → String → Chain → ℕ → Result SwapKey
  from_swap_account SwapType.submarine = from_submarine_account lib
  from_swap_account SwapType.reverse_submarine = from_reverse_account lib
  from_swap_account SwapType.chain = from_chain_account lib

  abbrev pub path_for : SwapType → Chain → ℕ → List ChildNumber
  path_for t network index =
      hardened (purpose_number (purpose_of t))
      ∷ hardened (network_path network)
      ∷ hardened (account_of t)
      ∷ normal 0
      ∷ normal index
      ∷ []

  from_account-path :
      (laws : PathLaws lib) (p : DerivationPurpose) (account : ℕ) (mnemonic passphrase : String)
      (network : Chain) (index : ℕ) (key : SwapKey)
      → from_account lib p account mnemonic passphrase network index ≡ ok key
      → key.path
        ≡ hardened (purpose_number p)
          ∷ hardened (network_path network)
          ∷ hardened account
          ∷ normal 0
          ∷ normal index
          ∷ []
  unfolding from_account
  from_account-path laws p account mnemonic passphrase network index key e =
      let (words, reads, e1) = bind-eq-ok (lib.mnemonic_from_str mnemonic) _ e in
      let (root, roots, e2) = bind-eq-ok (lib.new_master (lib.to_seed words passphrase)) _ e1 in
      let text = derivation_path (display_purpose p) (network_path network) account index in
      let (path, parses, e3) = bind-eq-ok (lib.path_from_str text) _ e2 in
      let (child, derives, e4) = bind-eq-ok (lib.derive_priv root path) _ e3 in
      sym (ap (λ (k : SwapKey). k.path) (ok-injective e4))
      ∙ laws.path_from_str-spells (purpose_number p) (network_path network) account index path (
          ap
            (λ purpose.
              lib.path_from_str (derivation_path purpose (network_path network) account index))
            (show-purpose_number p)
          ∙ parses)

  from_swap_account-path :
      (laws : PathLaws lib) (t : SwapType) (mnemonic passphrase : String) (network : Chain)
      (index : ℕ) (key : SwapKey)
      → from_swap_account t mnemonic passphrase network index ≡ ok key
      → key.path ≡ path_for t network index
  from_swap_account-path laws SwapType.submarine m p network index key e =
      from_account-path laws _ _ m p network index key e
  from_swap_account-path laws SwapType.reverse_submarine m p network index key e =
      from_account-path laws _ _ m p network index key e
  from_swap_account-path laws SwapType.chain m p network index key e =
      from_account-path laws _ _ m p network index key e

  -- Two swap keys with the same derivation path are of the same swap type, have the same index, and
  -- are for networks with the same coin type. The law is that a path is read as its text spells it.
  pub from_swap_account-injective :
      (laws : PathLaws lib) (s t : SwapType) (mnemonic other passphrase secret : String)
      (network chain : Chain) (i j : ℕ) (key found : SwapKey)
      → from_swap_account s mnemonic passphrase network i ≡ ok key
      → from_swap_account t other secret chain j ≡ ok found
      → key.path ≡ found.path
      → (s ≡ t) × (network_path network ≡ network_path chain) × (i ≡ j)
  from_swap_account-injective laws s t m other p secret network chain i j key found e f same =
      let paths : path_for s network i ≡ path_for t chain j =
        sym (from_swap_account-path laws s m p network i key e)
        ∙ same
        ∙ from_swap_account-path laws t other secret chain j found f in
      (
        account-injective s t (ap (number_at 2) paths),
        ap (number_at 1) paths,
        ap (number_at 4) paths,
      )
