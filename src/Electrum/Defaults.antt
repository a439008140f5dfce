-- ===== src/Electrum/Defaults.antt =====
-- Which node a default configuration connects to, and for which chain.
use bullbitcoin_rnd.Base.{ℕ, Bool, ◌≡◌, refl, inl, inr, ◌⊎◌, true, Option, none, some, String, ◌<>◌}
use bullbitcoin_rnd.Error.{Error}
use bullbitcoin_rnd.Result.{Result, ok, err}
use bullbitcoin_rnd.Chain.{Chain}
use bullbitcoin_rnd.Electrum.{ElectrumConfig, is_regtest, default_for, default, build_client}

-- The network and the node for a chain and the URL that was given for regtest.
pub data IsNodeFor : Chain → Option String → Chain → String → Type 0 where
  mainnet :
      (url : Option String) → IsNodeFor Chain.bitcoin url Chain.bitcoin "wes.bullbitcoin.com:50002"
  testnet :
      (url : Option String)
      → IsNodeFor Chain.bitcoin_testnet url Chain.bitcoin_testnet "electrum.blockstream.info:60002"
  regtest : (node : String) → IsNodeFor Chain.bitcoin_regtest (some node) Chain.bitcoin_testnet node
  liquid_mainnet :
      (url : Option String) → IsNodeFor Chain.liquid url Chain.liquid "blockstream.info:995"
  liquid_test :
      (url : Option String)
      → IsNodeFor Chain.liquid_testnet url Chain.liquid_testnet "blockstream.info:465"
  liquid_reg :
      (node : String) → IsNodeFor Chain.liquid_regtest (some node) Chain.bitcoin_testnet node

-- A client of the configuration is connected over TLS to that node, with a valid domain name, within
-- ten seconds.
pub record IsDefaultFor (chain : Chain) (url : Option String) (config : ElectrumConfig)
    : Type 1 where
  pub node : String
  pub is_node : IsNodeFor chain url config.network node
  pub connects :
      {Client : Type 0} (connect : String → Option Bool → ℕ → Result Client)
      → build_client connect config ≡ connect ("ssl://" <> node) (some true) 10

-- The default configuration is refused exactly for a regtest chain without a URL, and never panics.
-- From any other, a client is connected over TLS, with a test of the domain name and a limit of ten
-- seconds, to wes.bullbitcoin.com:50002 for Bitcoin, electrum.blockstream.info:60002 for its test
-- network, blockstream.info:995 for Liquid, blockstream.info:465 for its test network, and the given
-- URL for a regtest chain. The configuration is for the chain that was asked for, except that on
-- either regtest chain it is for the Bitcoin test network.
pub default-IsDefaultFor :
    (chain : Chain) (url : Option String)
    → ((is_regtest chain ≡ true)
        × (url ≡ none)
        × (default chain url ≡ err (Error.electrum "Regtest requires using a custom url")))
      ⊎ ((config : ElectrumConfig) × (default chain url ≡ ok config)
          × IsDefaultFor chain url config)
unfolding default default_for build_client
default-IsDefaultFor Chain.bitcoin url =
    inr (_, refl, record { node = _; is_node = mainnet url; connects = λ connect. refl })
default-IsDefaultFor Chain.bitcoin_testnet url =
    inr (_, refl, record { node = _; is_node = testnet url; connects = λ connect. refl })
default-IsDefaultFor Chain.liquid url =
    inr (_, refl, record { node = _; is_node = liquid_mainnet url; connects = λ connect. refl })
default-IsDefaultFor Chain.liquid_testnet url =
    inr (_, refl, record { node = _; is_node = liquid_test url; connects = λ connect. refl })
default-IsDefaultFor Chain.bitcoin_regtest none = inl (refl, refl, refl)
default-IsDefaultFor Chain.bitcoin_regtest (some url) =
    inr (_, refl, record { node = _; is_node = regtest url; connects = λ connect. refl })
default-IsDefaultFor Chain.liquid_regtest none = inl (refl, refl, refl)
default-IsDefaultFor Chain.liquid_regtest (some url) =
    inr (_, refl, record { node = _; is_node = liquid_reg url; connects = λ connect. refl })
