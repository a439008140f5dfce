-- ===== src/Liquid/New.antt =====
-- `LBtcSwapTx::new_claim` and `LBtcSwapTx::new_refund`: which output funds a Liquid swap, as Electrum
-- or the API tells it. The genesis hash is from src/util/mod.rs.
pub mod Pays
use bullbitcoin_rnd.Base.{
  ℕ, suc, Option, none, some, List, [], ◌∷◌, String, Bytes, bytes_eq, get_last?, is_empty,
  if◌then◌else◌,
}
use bullbitcoin_rnd.Error.{Error}
use bullbitcoin_rnd.Result.{Result, ok, ◌>>=◌, ◌>>◌, fail_if, ok_or, or_else, expect}
use bullbitcoin_rnd.Chain.{Chain}
use bullbitcoin_rnd.Boltz.Types.{SwapTxKind}
use bullbitcoin_rnd.Boltz.Cooperative.{is_submarine, is_reverse_submarine}
use bullbitcoin_rnd.Boltz.Lookups.{GetLib, lockup_hex}
use bullbitcoin_rnd.Script.Instruction.{Script}
use bullbitcoin_rnd.Bitcoin.Utxos.{GetHistoryRes, as_u32}
use bullbitcoin_rnd.Liquid.Crate.{OutPoint, TxOut, Transaction, ElementsLib}
use bullbitcoin_rnd.Liquid.SwapScript.{LBtcSwapScript, to_address}
use bullbitcoin_rnd.Liquid.SwapTx.{LBtcSwapTx}

-- The Electrum configuration and client, and the decoders of what they send: the chain, the
-- connection, the requests, `elements::encode::deserialize`, `hex::decode`, and the block hash of a
-- header in the format of elements.
pub record ElectrumLib : Type 0 where
  pub network : Chain
  pub build_client : Result (Unit {0})
  pub script_get_history : Script → Result (List GetHistoryRes)
  pub transaction_get_raw : Bytes → Result Bytes
  pub block_header_raw : ℕ → Result Bytes
  pub deserialize : Bytes → Result Transaction
  pub hex_decode : String → Result Bytes
  pub header_hash : Bytes → Result Bytes

-- `OutPoint::new(tx.txid(), vout as u32)`
abbrev pub outpoint_of : Bytes → ℕ → OutPoint
outpoint_of txid vout = record { txid = txid; vout = as_u32 vout }

-- The first output, from index `vout` on, that pays to the script.
unfoldable pub paying_output : Bytes → Script → ℕ → List TxOut → Option (OutPoint × TxOut)
paying_output txid spk vout [] = none
paying_output txid spk vout (output ∷ outputs) =
    let rest = paying_output txid spk (suc vout) outputs in
    if bytes_eq output.script_pubkey spk then some (outpoint_of txid vout, output) else rest

module _ (lib : ElementsLib) (electrum : ElectrumLib) (api : GetLib) where
  open lib use {script_pubkey, to_unconfidential, address_from_str}
  open electrum use {
    network, build_client, script_get_history, transaction_get_raw, deserialize, hex_decode,
  }

  unfoldable pub liquid_genesis_hash : Result Bytes
  liquid_genesis_hash = do
    build_client
    response ← electrum.block_header_raw 0
    electrum.header_hash response

  -- `LBtcSwapScript::genesis_hash`: the client's `block_header` reads a header of the bitcoin crate.
  pub genesis_hash {ℓ} : {Header : Type ℓ} → (ℕ → Result Header) → (Header → Bytes) → Result Bytes
  genesis_hash block_header block_hash = do
    build_client
    header ← block_header 0
    ok (block_hash header)

  unfoldable pub fetch_utxo : LBtcSwapScript → Result (OutPoint × TxOut)
  fetch_utxo s = do
    build_client
    address ← to_address lib s network
    again ← to_address lib s network
    history ← script_get_history (script_pubkey (to_unconfidential again))
    fail_if (is_empty history) (Error.protocol "No Transaction History")
    last ← expect (get_last? history) "txid expected"
    raw_tx ← transaction_get_raw last.tx_hash
    tx ← deserialize raw_tx
    ok_or (paying_output (lib.txid tx) (script_pubkey address) 0 tx.output)
        (Error.protocol "Electrum could not find a Liquid UTXO for script")

  unfoldable pub fetch_lockup_utxo_boltz :
      LBtcSwapScript → String → String → SwapTxKind → Result (OutPoint × TxOut)
  fetch_lockup_utxo_boltz s boltz_url swap_id tx_kind = do
    found ← lockup_hex api s.swap_type tx_kind (record { base_url = boltz_url }) swap_id
    hex ← ok_or found (Error.hex "No transaction hex found in boltz response")
    address ← to_address lib s network
    raw_tx ← hex_decode hex
    tx ← deserialize raw_tx
    ok_or (paying_output (lib.txid tx) (script_pubkey address) 0 tx.output)
        (Error.protocol "Boltz could not find a Liquid UTXO for script")

  -- `match swap_script.fetch_utxo(network_config) { Ok(r) => r, Err(_) => … }`
  abbrev pub funding_of : LBtcSwapScript → String → String → SwapTxKind → Result (OutPoint × TxOut)
  funding_of s boltz_url swap_id tx_kind =
      or_else (fetch_utxo s) (fetch_lockup_utxo_boltz s boltz_url swap_id tx_kind)

  -- The output address is read last.
  unfoldable pub new_claim : LBtcSwapScript → String → String → String → Result LBtcSwapTx
  new_claim swap_script output_address boltz_url swap_id = do
    fail_if (is_submarine swap_script.swap_type)
        (Error.protocol "Claim transactions cannot be constructed for Submarine swaps.")
    funding ← funding_of swap_script boltz_url swap_id SwapTxKind.claim
    build_client
    genesis_hash ← liquid_genesis_hash
    address ← address_from_str output_address
    ok (record {
      kind = SwapTxKind.claim;
      swap_script = swap_script;
      output_address = address;
      funding_outpoint = funding.0;
      funding_utxo = funding.1;
      genesis_hash = genesis_hash;
    })

  -- The output address is read first.
  unfoldable pub new_refund : LBtcSwapScript → String → String → String → Result LBtcSwapTx
  new_refund swap_script output_address boltz_url swap_id = do
    fail_if (is_reverse_submarine swap_script.swap_type)
        (Error.protocol "Refund Txs cannot be constructed for Reverse Submarine Swaps.")
    address ← address_from_str output_address
    funding ← funding_of swap_script boltz_url swap_id SwapTxKind.refund
    build_client
    genesis_hash ← liquid_genesis_hash
    ok (record {
      kind = SwapTxKind.refund;
      swap_script = swap_script;
      output_address = address;
      funding_outpoint = funding.0;
      funding_utxo = funding.1;
      genesis_hash = genesis_hash;
    })
