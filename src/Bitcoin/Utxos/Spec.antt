-- ===== src/Bitcoin/Utxos/Spec.antt =====
-- A description of unspent outputs that does not follow the loops of `fetch_utxos_core`.
use bullbitcoin_rnd.Base.{
  ℕ, ◌≡◌, arith, true, some, List, Bytes, bytes_eq_iff, get_elem?, any, Occurs, any-eq-true,
  any_of_get_elem?,
}
use bullbitcoin_rnd.Script.Instruction.{Script}
use bullbitcoin_rnd.Bitcoin.Crate.{OutPoint, TxIn, Transaction, BitcoinLib}
use bullbitcoin_rnd.Bitcoin.Utxos.Confirmed.{
  IsConfirmed, confirmed_in-IsConfirmed, confirmed_in-last,
}
use bullbitcoin_rnd.Bitcoin.Utxos.{GetHistoryRes, Utxo, as_u32, refers_to, spends_confirmed}

module _ (lib : BitcoinLib) (txs : List Transaction) (history : List GetHistoryRes) where
  open lib use {compute_txid}

  -- Some fetched transaction has an input that spends the output, and is confirmed.
  pub record IsSpent (outpoint : OutPoint) : Type 0 where
    pub spending_tx : Transaction
    pub fetched : Occurs spending_tx txs
    pub input : TxIn
    pub has_input : Occurs input spending_tx.input
    pub spends : input.previous_output ≡ outpoint
    pub confirmed : IsConfirmed history (compute_txid spending_tx)

  -- The output is one of a fetched transaction, pays to the script, and is not spent.
  pub record IsUnspent (spk : Script) (utxo : Utxo) : Type 0 where
    pub tx : Transaction
    pub fetched : Occurs tx txs
    pub vout : ℕ
    pub is_output : get_elem? tx.output vout ≡ some utxo.txout
    pub outpoint : utxo.outpoint ≡ record { txid = compute_txid tx; vout = as_u32 vout }
    pub pays : utxo.txout.script_pubkey ≡ spk
    pub not_spent : ¬ IsSpent utxo.outpoint

  pub spends_confirmed-IsSpent :
      (txid : Bytes) (vout : ℕ)
      → any (spends_confirmed lib txs history txid vout) txs ≡ true
      → IsSpent (record { txid = txid; vout = as_u32 vout })
  spends_confirmed-IsSpent txid vout h =
      let test = spends_confirmed lib txs history txid vout in
      let (k, tx, at, holds) = any-eq-true test txs h in
      let spends : any (refers_to txid vout) tx.input ≡ true = ground (arith, holds) in
      let (j, input, place, refers) = any-eq-true (refers_to txid vout) tx.input spends in
      record {
        spending_tx = tx;
        fetched = (k, at);
        input = input;
        has_input = (j, place);
        spends = ground (arith, refers, bytes_eq_iff input.previous_output.txid txid);
        confirmed = confirmed_in-IsConfirmed history (compute_txid tx) (ground (arith, holds));
      }

  pub IsSpent-spends_confirmed :
      (txid : Bytes) (vout : ℕ)
      → IsSpent (record { txid = txid; vout = as_u32 vout })
      → any (spends_confirmed lib txs history txid vout) txs ≡ true
  IsSpent-spends_confirmed txid vout h =
      let (k, at) = h.fetched in
      let (j, place) = h.has_input in
      let refers : refers_to txid vout h.input ≡ true =
        ground (arith, h.spends, bytes_eq_iff h.input.previous_output.txid txid) in
      let c = h.confirmed in
      let confirmed =
        confirmed_in-last history (compute_txid h.spending_tx) c.index c.below c.entry c.at
          c.is_hash c.positive c.is_last in
      any_of_get_elem? (spends_confirmed lib txs history txid vout) txs k at (
        ground (
          arith,
          any_of_get_elem? (refers_to txid vout) h.spending_tx.input j place refers,
          confirmed,
        ))
