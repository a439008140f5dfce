-- ===== src/Chain.antt =====
-- src/network/mod.rs: the chains that the library talks to.
use bullbitcoin_rnd.Base.{Bool, true, false}

pub data Chain : Type 0 where
  bitcoin bitcoin_testnet bitcoin_regtest : Chain
  liquid liquid_testnet liquid_regtest : Chain

-- `Chain::Bitcoin | Chain::BitcoinTestnet | Chain::BitcoinRegtest`, as the matches write it.
abbrev pub is_bitcoin : Chain → Bool
is_bitcoin Chain.bitcoin = true
is_bitcoin Chain.bitcoin_testnet = true
is_bitcoin Chain.bitcoin_regtest = true
is_bitcoin _ = false
