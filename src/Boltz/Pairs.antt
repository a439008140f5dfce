-- ===== src/Boltz/Pairs.antt =====
-- src/swaps/boltz.rs: the pairs that the API offers, and the getters of one of them.
use bullbitcoin_rnd.Base.{Option, none, some, List, [], ◌∷◌, String, str_eq, if◌then◌else◌}
use bullbitcoin_rnd.Fees.{F64}
use bullbitcoin_rnd.Boltz.Limits.{PairLimits, ReverseLimits}
use bullbitcoin_rnd.Boltz.SwapFees.{ChainFees, ReverseFees, SubmarineFees}

pub record ChainPair : Type 0 where
  pub hash : String
  pub rate : F64
  pub limits : PairLimits
  pub fees : ChainFees

pub record ReversePair : Type 0 where
  pub hash : String
  pub rate : F64
  pub limits : ReverseLimits
  pub fees : ReverseFees

pub record SubmarinePair : Type 0 where
  pub hash : String
  pub rate : F64
  pub limits : PairLimits
  pub fees : SubmarineFees

-- A hash map is the list of its entries, whose keys differ.
abbrev pub Entries {ℓ} : Type ℓ → Type ℓ
Entries A = List (String × A)

-- `map.get(key).cloned()`
abbrev pub get_key {ℓ} : {A : Type ℓ} → String → Entries A → Option A
get_key key [] = none
get_key key ((name, value) ∷ entries) =
    let later = get_key key entries in if str_eq name key then some value else later

pub record GetSubmarinePairsResponse : Type 0 where
  pub btc : Entries SubmarinePair
  pub lbtc : Entries SubmarinePair

pub record GetReversePairsResponse : Type 0 where
  pub btc : Entries ReversePair

pub record GetChainPairsResponse : Type 0 where
  pub btc : Entries ChainPair
  pub lbtc : Entries ChainPair

-- The pairs are named for the assets that are sent and received.
pub submarine_btc_to_btc_pair : GetSubmarinePairsResponse → Option SubmarinePair
submarine_btc_to_btc_pair self = get_key "BTC" self.btc

pub submarine_btc_to_lbtc_pair : GetSubmarinePairsResponse → Option SubmarinePair
submarine_btc_to_lbtc_pair self = get_key "L-BTC" self.btc

pub submarine_lbtc_to_btc_pair : GetSubmarinePairsResponse → Option SubmarinePair
submarine_lbtc_to_btc_pair self = get_key "BTC" self.lbtc

pub submarine_lbtc_to_lbtc_pair : GetSubmarinePairsResponse → Option SubmarinePair
submarine_lbtc_to_lbtc_pair self = get_key "L-BTC" self.lbtc

pub reverse_btc_to_btc_pair : GetReversePairsResponse → Option ReversePair
reverse_btc_to_btc_pair self = get_key "BTC" self.btc

pub reverse_btc_to_lbtc_pair : GetReversePairsResponse → Option ReversePair
reverse_btc_to_lbtc_pair self = get_key "L-BTC" self.btc

pub chain_btc_to_lbtc_pair : GetChainPairsResponse → Option ChainPair
chain_btc_to_lbtc_pair self = get_key "L-BTC" self.btc

pub chain_lbtc_to_btc_pair : GetChainPairsResponse → Option ChainPair
chain_lbtc_to_btc_pair self = get_key "BTC" self.lbtc
