-- ===== src/Boltz/Lookups.antt =====
-- src/swaps/boltz.rs: the requests for the transactions that lock up a swap.
use bullbitcoin_rnd.Base.{ℕ, Option, String, ◌<>◌}
use bullbitcoin_rnd.Error.{Error}
use bullbitcoin_rnd.Result.{Result, ok, ◌>>=◌, ok_or}
use bullbitcoin_rnd.Boltz.Types.{SwapType, SwapTxKind}
use bullbitcoin_rnd.Boltz.Client.{BoltzApiClientV2}

pub record ChainSwapTx : Type 0 where
  pub id : String
  pub hex : Option String

pub record ChainSwapTxTimeout : Type 0 where
  pub block_height : ℕ
  pub eta : Option ℕ

pub record ChainSwapTxLock : Type 0 where
  pub transaction : ChainSwapTx
  pub timeout : ChainSwapTxTimeout

pub record ChainSwapTxResp : Type 0 where
  pub user_lock : Option ChainSwapTxLock
  pub server_lock : Option ChainSwapTxLock

pub record ReverseSwapTxResp : Type 0 where
  pub id : String
  pub hex : Option String
  pub timeout_block_height : ℕ

pub record SubmarineSwapTxResp : Type 0 where
  pub id : String
  pub hex : Option String
  pub timeout_block_height : Option ℕ
  pub timeout_eta : Option ℕ

-- `ureq::get(&url).call()?.into_string()?`, and the JSON readers of the three replies.
pub record GetLib : Type 0 where
  pub get_text : String → Result String
  pub parse_chain_txs : String → Result ChainSwapTxResp
  pub parse_reverse_tx : String → Result ReverseSwapTxResp
  pub parse_submarine_tx : String → Result SubmarineSwapTxResp

module _ (lib : GetLib) where
  abbrev pub get : BoltzApiClientV2 → String → Result String
  get self end_point = lib.get_text (self.base_url <> "/" <> end_point)

  unfoldable pub get_reverse_tx : BoltzApiClientV2 → String → Result ReverseSwapTxResp
  get_reverse_tx self id = do
    lib.parse_reverse_tx (← get self ("swap/reverse/" <> id <> "/transaction"))

  unfoldable pub get_submarine_tx : BoltzApiClientV2 → String → Result SubmarineSwapTxResp
  get_submarine_tx self id = do
    lib.parse_submarine_tx (← get self ("swap/submarine/" <> id <> "/transaction"))

  unfoldable pub get_chain_txs : BoltzApiClientV2 → String → Result ChainSwapTxResp
  get_chain_txs self id = do
    lib.parse_chain_txs (← get self ("swap/chain/" <> id <> "/transactions"))

  -- The transaction hex that Boltz has for the swap.
  unfoldable pub lockup_hex :
      SwapType → SwapTxKind → BoltzApiClientV2 → String → Result (Option String)
  lockup_hex SwapType.chain SwapTxKind.claim client swap_id = do
    chain_txs ← get_chain_txs client swap_id
    lock ←
        ok_or chain_txs.server_lock
          (Error.protocol "No server_lock transaction for Chain Swap available")
    ok lock.transaction.hex
  lockup_hex SwapType.chain SwapTxKind.refund client swap_id = do
    chain_txs ← get_chain_txs client swap_id
    lock ←
        ok_or chain_txs.user_lock
          (Error.protocol "No user_lock transaction for Chain Swap available")
    ok lock.transaction.hex
  lockup_hex SwapType.reverse_submarine kind client swap_id = do
    resp ← get_reverse_tx client swap_id
    ok resp.hex
  lockup_hex SwapType.submarine kind client swap_id = do
    resp ← get_submarine_tx client swap_id
    ok resp.hex
