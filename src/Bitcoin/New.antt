-- ===== src/Bitcoin/New.antt =====
-- `BtcSwapTx::new_claim` and `BtcSwapTx::new_refund`: where the utxos of a swap come from.
pub mod Pays
use bullbitcoin_rnd.Base.{
  ℕ, zero, suc, Bool, not, Option, none, some, List, [], ◌∷◌, map, String, Bytes, bytes_eq, head?,
  is_empty, if◌then◌else◌,
}
use bullbitcoin_rnd.Error.{Error}
use bullbitcoin_rnd.Result.{Result, ok, err, panic, ◌>>=◌, ◌>>◌, fail_if, ok_or, or_else}
use bullbitcoin_rnd.Chain.{Chain}
use bullbitcoin_rnd.Boltz.Types.{SwapType, SwapTxKind}
use bullbitcoin_rnd.Boltz.Client.{BoltzApiClientV2}
use bullbitcoin_rnd.Boltz.Lookups.{GetLib, lockup_hex}
use bullbitcoin_rnd.Script.Instruction.{Script}
use bullbitcoin_rnd.Bitcoin.Crate.{Network, TxOut, Transaction, BitcoinLib}
use bullbitcoin_rnd.Bitcoin.SwapScript.{BtcSwapScript, to_address}
use bullbitcoin_rnd.Bitcoin.Utxos.{Utxo, GetHistoryRes, as_u32, fetch_utxos_core}
use bullbitcoin_rnd.Bitcoin.SwapTx.{BtcSwapTx}
use bullbitcoin_rnd.Boltz.Cooperative.{is_submarine, is_reverse_submarine}

-- The Electrum configuration and client: the chain, the connection, and two requests.
pub record ElectrumLib : Type 0 where
  pub network : Chain
  pub build_client : Result (Unit {0})
  pub script_get_history : Script → Result (List GetHistoryRes)
  pub batch_transaction_get : List Bytes → Result (List Transaction)

-- The network that an output address is tested for.
abbrev pub test_network : Chain → Network
test_network Chain.bitcoin = Network.bitcoin
test_network Chain.bitcoin_testnet = Network.testnet
test_network _ = Network.regtest

-- `Some(r) => vec![r], None => vec![]`
abbrev pub to_list : Option Utxo → List Utxo
to_list none = []
to_list (some utxo) = utxo ∷ []

module _ (lib : BitcoinLib) (electrum : ElectrumLib) (api : GetLib)
    -- `hex::decode` and `bitcoin::consensus::deserialize`
    (decode_tx : String → Result Transaction) where
  open lib use {script_pubkey, compute_txid, address_from_str, is_valid_for_network}

  unfoldable pub fetch_utxos : BtcSwapScript → Result (List Utxo)
  fetch_utxos s = do
    electrum.build_client
    address ← to_address lib s electrum.network
    history ← electrum.script_get_history (script_pubkey address)
    txs ← electrum.batch_transaction_get (map (λ h. h.tx_hash) history)
    ok (fetch_utxos_core lib txs history (script_pubkey address))

  -- The first output, from index `vout` on, that pays to the script.
  unfoldable pub first_paying : Bytes → Script → ℕ → List TxOut → Option Utxo
  first_paying txid spk vout [] = none
  first_paying txid spk vout (output ∷ outputs) =
      let rest = first_paying txid spk (suc vout) outputs in
      if bytes_eq output.script_pubkey spk
      then some (record { outpoint = record { txid = txid; vout = as_u32 vout }; txout = output })
      else rest

  unfoldable pub fetch_lockup_utxo_boltz :
      BtcSwapScript → String → String → SwapTxKind → Result (Option Utxo)
  fetch_lockup_utxo_boltz s boltz_url swap_id tx_kind = do
    found ← lockup_hex api s.swap_type tx_kind (record { base_url = boltz_url }) swap_id
    hex ← ok_or found (Error.hex "No transaction hex found in boltz response")
    address ← to_address lib s electrum.network
    tx ← decode_tx hex
    ok (first_paying (compute_txid tx) (script_pubkey address) 0 tx.output)

  -- The address is tested for its network, and the answer is dropped.
  unfoldable pub new_claim : BtcSwapScript → String → String → String → Result BtcSwapTx
  new_claim swap_script claim_address boltz_url swap_id = do
    fail_if (is_submarine swap_script.swap_type)
        (Error.protocol "Claim transactions cannot be constructed for Submarine swaps.")
    address ← address_from_str claim_address
    utxo_info ←
        or_else (fetch_utxos swap_script >>= λ v. ok (head? v))
          (fetch_lockup_utxo_boltz swap_script boltz_url swap_id SwapTxKind.claim)
    utxo ← ok_or utxo_info (Error.protocol "No Bitcoin UTXO detected for this script")
    ok (record {
      kind = SwapTxKind.claim;
      swap_script = swap_script;
      output_address = address;
      utxos = utxo ∷ [];
    })

  unfoldable pub new_refund : BtcSwapScript → String → String → String → Result BtcSwapTx
  new_refund swap_script refund_address boltz_url swap_id = do
    fail_if (is_reverse_submarine swap_script.swap_type)
        (Error.protocol "Refund Txs cannot be constructed for Reverse Submarine Swaps.")
    address ← address_from_str refund_address
    fail_if (not (is_valid_for_network address (test_network electrum.network)))
        (Error.address "Address validation failed")
    utxos ← or_else (fetch_utxos swap_script) (
        fetch_lockup_utxo_boltz swap_script boltz_url swap_id SwapTxKind.refund >>= λ r.
        ok (to_list r))
    fail_if (is_empty utxos) (Error.protocol "No Bitcoin UTXO detected for this script")
    ok (record {
      kind = SwapTxKind.refund;
      swap_script = swap_script;
      output_address = address;
      utxos = utxos;
    })
