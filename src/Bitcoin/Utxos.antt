-- ===== src/Bitcoin/Utxos.antt =====
-- `BtcSwapScript::fetch_utxos_core`: which outputs of the fetched transactions pay to the swap
-- script and are not spent by a confirmed transaction.
pub mod Confirmed
pub mod Spec
pub mod Kept
use bullbitcoin_rnd.Base.{
  ℕ, suc, ◌+◌, ◌%◌, ◌^◌, Bool, true, false, not, ◌&&◌, Option, none, some, List, [], ◌∷◌, ◌++◌,
  ◌==◌, Bytes, bytes_eq, any, ℤ, is_positive, if◌then◌else◌,
}
use bullbitcoin_rnd.Script.Instruction.{Script}
use bullbitcoin_rnd.Bitcoin.Crate.{OutPoint, TxIn, TxOut, Transaction, BitcoinLib}

-- The entry of an address history; the height is an `i32`, and positive only once confirmed.
pub record GetHistoryRes : Type 0 where
  pub tx_hash : Bytes
  pub height : ℤ

pub record Utxo : Type 0 where
  pub outpoint : OutPoint
  pub txout : TxOut

-- `tx_is_confirmed_map.get(&id)`: the map is collected from the history, so where a hash stands
-- twice, the last entry counts.
pub confirmed_in : List GetHistoryRes → Bytes → Option Bool
confirmed_in [] id = none
confirmed_in (h ∷ hs) id = elim (confirmed_in hs id) [
  | some later ↦ some later
  | none ↦ if bytes_eq h.tx_hash id then some (is_positive h.height) else none
]

-- `.copied().unwrap_or(false)`
abbrev or_false : Option Bool → Bool
or_false none = false
or_false (some b) = b

-- `vout as u32`
abbrev pub as_u32 : ℕ → ℕ
as_u32 n = n % 2 ^ 32

abbrev refers_to : Bytes → ℕ → TxIn → Bool
refers_to txid vout input =
    bytes_eq input.previous_output.txid txid && input.previous_output.vout == as_u32 vout

module _ (lib : BitcoinLib) (txs : List Transaction) (history : List GetHistoryRes) where
  open lib use {compute_txid}

  -- The closure given to `txs.iter().any`.
  abbrev spends_confirmed : Bytes → ℕ → Transaction → Bool
  spends_confirmed txid vout spending_tx =
      if not (any (refers_to txid vout) spending_tx.input)
      then false
      else or_false (confirmed_in history (compute_txid spending_tx))

  module _ (spk : Script) where
    -- The two filters of the loop.
    abbrev pub keeps : Bytes → ℕ → TxOut → Bool
    keeps txid vout output =
        bytes_eq output.script_pubkey spk && not (any (spends_confirmed txid vout) txs)

    -- The outputs of one transaction, from index `vout` on.
    outputs_of : Bytes → ℕ → List TxOut → List Utxo
    outputs_of txid vout [] = []
    outputs_of txid vout (output ∷ outputs) =
        let rest = outputs_of txid (suc vout) outputs in
        let utxo : Utxo = record {
          outpoint = record { txid = txid; vout = as_u32 vout };
          txout = output;
        } in
        if keeps txid vout output then utxo ∷ rest else rest

    outputs_of_all : List Transaction → List Utxo
    outputs_of_all [] = []
    outputs_of_all (tx ∷ rest) = outputs_of (compute_txid tx) 0 tx.output ++ outputs_of_all rest

    unfoldable pub fetch_utxos_core : List Utxo
    unfolding outputs_of_all outputs_of
    fetch_utxos_core = outputs_of_all txs
