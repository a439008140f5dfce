-- ===== src/Electrum.antt =====
-- src/network/electrum.rs: the configuration of an Electrum client.
pub mod Defaults
use bullbitcoin_rnd.Base.{ℕ, Bool, true, false, ◌&&◌, Option, none, some, String, ◌<>◌}
use bullbitcoin_rnd.Error.{Error}
use bullbitcoin_rnd.Result.{Result, ok, ◌>>=◌, ◌>>◌, fail_if, expect}
use bullbitcoin_rnd.Chain.{Chain}

abbrev pub default_testnet_node : String
default_testnet_node = "electrum.blockstream.info:60002"

abbrev pub default_mainnet_node : String
default_mainnet_node = "wes.bullbitcoin.com:50002"

abbrev pub default_liquid_testnet_node : String
default_liquid_testnet_node = "blockstream.info:465"

abbrev pub default_liquid_mainnet_node : String
default_liquid_mainnet_node = "blockstream.info:995"

abbrev pub default_electrum_timeout : ℕ
default_electrum_timeout = 10

-- The test says whether the domain name is validated.
pub data ElectrumUrl : Type 0 where
  tls : String → Bool → ElectrumUrl
  plaintext : String → ElectrumUrl

pub record ElectrumConfig : Type 0 where
  pub network : Chain
  pub url : ElectrumUrl
  pub timeout : ℕ

abbrev pub new : Chain → String → Bool → Bool → ℕ → ElectrumConfig
new network electrum_url true validate_domain timeout = record {
  network = network;
  url = tls electrum_url validate_domain;
  timeout = timeout;
}
new network electrum_url false validate_domain timeout = record {
  network = network;
  url = plaintext electrum_url;
  timeout = timeout;
}

abbrev pub is_regtest : Chain → Bool
is_regtest Chain.liquid_regtest = true
is_regtest Chain.bitcoin_regtest = true
is_regtest _ = false

abbrev pub is_none {ℓ} : {A : Type ℓ} → Option A → Bool
is_none none = true
is_none (some a) = false

abbrev with_defaults : Chain → String → ElectrumConfig
with_defaults network node = new network node true true default_electrum_timeout

-- `regtest_url.unwrap()`
abbrev unwrap : Option String → Result String
unwrap url = expect url "called `Option::unwrap()` on a `None` value"

-- The match of `default`: both regtest chains are given the Bitcoin test network.
unfoldable pub default_for : Chain → Option String → Result ElectrumConfig
default_for Chain.bitcoin regtest_url = ok (with_defaults Chain.bitcoin default_mainnet_node)
default_for Chain.bitcoin_testnet regtest_url =
    ok (with_defaults Chain.bitcoin_testnet default_testnet_node)
default_for Chain.bitcoin_regtest regtest_url =
    unwrap regtest_url >>= λ url. ok (with_defaults Chain.bitcoin_testnet url)
default_for Chain.liquid regtest_url = ok (with_defaults Chain.liquid default_liquid_mainnet_node)
default_for Chain.liquid_testnet regtest_url =
    ok (with_defaults Chain.liquid_testnet default_liquid_testnet_node)
default_for Chain.liquid_regtest regtest_url =
    unwrap regtest_url >>= λ url. ok (with_defaults Chain.bitcoin_testnet url)

unfoldable pub default : Chain → Option String → Result ElectrumConfig
default chain regtest_url = do
  fail_if (is_regtest chain && is_none regtest_url)
      (Error.electrum "Regtest requires using a custom url")
  default_for chain regtest_url

abbrev pub default_bitcoin : ElectrumConfig
default_bitcoin = with_defaults Chain.bitcoin_testnet default_testnet_node

abbrev pub default_liquid : ElectrumConfig
default_liquid = with_defaults Chain.liquid_testnet default_liquid_testnet_node

-- The address and the builder's test of domain names, where it is set.
abbrev pub target : ElectrumUrl → String × Option Bool
target (tls url validate) = ("ssl://" <> url, some validate)
target (plaintext url) = ("tcp://" <> url, none)

-- `connect` makes a client for a URL, a test of domain names and a time limit.
unfoldable pub build_client {ℓ} :
    {Client : Type ℓ} → (String → Option Bool → ℕ → Result Client) → ElectrumConfig → Result Client
build_client connect self = let aim = target self.url in connect aim.0 aim.1 self.timeout
