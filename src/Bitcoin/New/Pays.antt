-- ===== src/Bitcoin/New/Pays.antt =====
-- Where the utxos of a new claim or a new refund pay to.
use bullbitcoin_rnd.Base.{
  ℕ, zero, suc, ◌+◌, ◌%◌, ◌^◌, ◌⊎◌, ◌≡◌, sym, ap, ◌∙◌, arith, inl, inr, true, false, not,
  Bool-cases, Option, none, some, List, [], ◌∷◌, map, String, Bytes, bytes_eq, bytes_eq_iff, head?,
  is_empty, get_elem?, Occurs,
}
use bullbitcoin_rnd.Error.{Error}
use bullbitcoin_rnd.Result.{
  Result, ok, ◌>>=◌, fail_if, ok_or, bind-eq-ok, ok-injective, ok_or-eq-ok, fail_if-eq-ok, or_else,
  or_else-eq-ok,
}
use bullbitcoin_rnd.Boltz.Types.{SwapType, SwapTxKind}
use bullbitcoin_rnd.Boltz.Lookups.{GetLib, lockup_hex}
use bullbitcoin_rnd.Script.Instruction.{Script}
use bullbitcoin_rnd.Bitcoin.Crate.{Address, TxOut, Transaction, BitcoinLib}
use bullbitcoin_rnd.Bitcoin.SwapScript.{BtcSwapScript, to_address}
use bullbitcoin_rnd.Bitcoin.Utxos.{GetHistoryRes, Utxo, as_u32, fetch_utxos_core}
use bullbitcoin_rnd.Bitcoin.Utxos.Kept.{fetch_utxos_core-IsUnspent}
use bullbitcoin_rnd.Bitcoin.SwapTx.{BtcSwapTx}
use bullbitcoin_rnd.Taproot.KeyPath.Verified.{not-false}
use bullbitcoin_rnd.Boltz.Cooperative.{is_reverse_submarine, is_submarine}
use bullbitcoin_rnd.Bitcoin.New.{
  ElectrumLib, test_network, to_list, fetch_utxos, first_paying, fetch_lockup_utxo_boltz, new_claim,
  new_refund,
}

-- The output stands in the list, `first` counted on from its head, and pays to the script.
record IsFoundIn (txid : Bytes) (spk : Script) (first : ℕ) (outputs : List TxOut) (utxo : Utxo)
    : Type 0 where
  index : ℕ
  at : get_elem? outputs index ≡ some utxo.txout
  outpoint : utxo.outpoint ≡ record { txid = txid; vout = (first + index) % 2 ^ 32 }
  pays : utxo.txout.script_pubkey ≡ spk

module _ (electrum : ElectrumLib) (api : GetLib) (decode_tx : String → Result Transaction) where
  -- Electrum gives the transaction for the history of the script.
  abbrev pub FromElectrum : Script → Transaction → Type 0
  FromElectrum spk tx =
      (history : List GetHistoryRes) × (txs : List Transaction) × (electrum.script_get_history spk
        ≡ ok history)
      × (electrum.batch_transaction_get (map (λ h. h.tx_hash) history) ≡ ok txs)
      × Occurs tx txs

  -- The API gives the transaction for a swap.
  abbrev pub FromApi : Transaction → Type 0
  FromApi tx =
      (t : SwapType) × (kind : SwapTxKind) × (url : String) × (id : String) × (hex : String)
      × (lockup_hex api t kind (record { base_url = url }) id ≡ ok (some hex))
      × (decode_tx hex ≡ ok tx)

module _ (lib : BitcoinLib) (electrum : ElectrumLib) (api : GetLib)
    (decode_tx : String → Result Transaction) (s : BtcSwapScript) where
  open lib use {script_pubkey, is_valid_for_network, address_from_str}

  -- The output pays to the taproot address of the swap script. It is the output of a fetched
  -- transaction that its outpoint names.
  pub record IsPaidTo (utxo : Utxo) : Type 0 where
    pub address : Address
    pub tx : Transaction
    pub index : ℕ
    pub is_address : to_address lib s electrum.network ≡ ok address
    pub fetched :
        FromElectrum electrum api decode_tx (script_pubkey address) tx
        ⊎ FromApi electrum api decode_tx tx
    pub at : get_elem? tx.output index ≡ some utxo.txout
    pub outpoint : utxo.outpoint ≡ record { txid = lib.compute_txid tx; vout = index % 2 ^ 32 }
    pub pays : utxo.txout.script_pubkey ≡ script_pubkey address

  fetch_utxos-IsPaidTo :
      (utxos : List Utxo) (utxo : Utxo)
      → fetch_utxos lib electrum api decode_tx s ≡ ok utxos
      → Occurs utxo utxos
      → IsPaidTo utxo
  unfolding fetch_utxos
  fetch_utxos-IsPaidTo utxos utxo e (k, at) =
      let (u, connects, e1) = bind-eq-ok electrum.build_client _ e in
      let (address, is_address, e2) = bind-eq-ok (to_address lib s electrum.network) _ e1 in
      let spk = script_pubkey address in
      let (history, gets, e3) = bind-eq-ok (electrum.script_get_history spk) _ e2 in
      let (txs, fetches, e4) =
        bind-eq-ok (electrum.batch_transaction_get (map (λ h. h.tx_hash) history)) _ e3 in
      let is : fetch_utxos_core lib txs history spk ≡ utxos = ok-injective e4 in
      let here : Occurs utxo (fetch_utxos_core lib txs history spk) =
        (k, ap (λ us. get_elem? us k) is ∙ at) in
      let unspent = (fetch_utxos_core-IsUnspent lib txs history spk utxo).0 here in
      record {
        address = address;
        tx = unspent.tx;
        index = unspent.vout;
        is_address = is_address;
        fetched = inl (history, txs, gets, fetches, unspent.fetched);
        at = unspent.is_output;
        outpoint = unspent.outpoint;
        pays = unspent.pays;
      }

  first_paying-IsFoundIn :
      (txid : Bytes) (spk : Script) (vout : ℕ) (outputs : List TxOut) (utxo : Utxo)
      → first_paying lib electrum api decode_tx txid spk vout outputs ≡ some utxo
      → IsFoundIn txid spk vout outputs utxo
  unfolding first_paying
  first_paying-IsFoundIn txid spk vout [] utxo e = cc
  first_paying-IsFoundIn txid spk vout (output ∷ outputs) utxo e =
      elim (Bool-cases (bytes_eq output.script_pubkey spk)) [
        | inl here ↦
            let is : record {
              outpoint = record { txid = txid; vout = as_u32 vout };
              txout = output;
            }
                ≡ utxo =
              ground (arith, e, here) in
            record {
              index = 0;
              at = ap (λ (u : Utxo). some u.txout) is;
              outpoint =
                  sym (ap (λ (u : Utxo). u.outpoint) is)
                  ∙ ap (λ n. record { txid = txid; vout = n % 2 ^ 32 }) (omega arith);
              pays =
                  sym (ap (λ (u : Utxo). u.txout.script_pubkey) is)
                  ∙ (bytes_eq_iff output.script_pubkey spk).0 here;
            }
        | inr elsewhere ↦
            let later =
              first_paying-IsFoundIn txid spk (suc vout) outputs utxo
                (ground (arith, e, elsewhere)) in
            record {
              index = suc later.index;
              at = later.at;
              outpoint =
                  later.outpoint
                  ∙ ap (λ n. record { txid = txid; vout = n % 2 ^ 32 }) (omega arith);
              pays = later.pays;
            }
      ]

  lockup-IsPaidTo :
      (url id : String) (kind : SwapTxKind) (found : Option Utxo) (utxo : Utxo)
      → fetch_lockup_utxo_boltz lib electrum api decode_tx s url id kind ≡ ok found
      → found ≡ some utxo
      → IsPaidTo utxo
  unfolding fetch_lockup_utxo_boltz
  lockup-IsPaidTo url id kind found utxo e is =
      let asked = lockup_hex api s.swap_type kind (record { base_url = url }) id in
      let (hex?, asks, e1) = bind-eq-ok asked _ e in
      let (hex, has, e2) =
        bind-eq-ok (ok_or hex? (Error.hex "No transaction hex found in boltz response")) _ e1 in
      let (address, is_address, e3) = bind-eq-ok (to_address lib s electrum.network) _ e2 in
      let (tx, decodes, e4) = bind-eq-ok (decode_tx hex) _ e3 in
      let missing = Error.hex "No transaction hex found in boltz response" in
      let stands =
        first_paying-IsFoundIn (lib.compute_txid tx) (script_pubkey address) 0 tx.output utxo
          (ok-injective e4 ∙ is) in
      record {
        address = address;
        tx = tx;
        index = stands.index;
        is_address = is_address;
        fetched =
            inr (
              s.swap_type,
              kind,
              url,
              id,
              hex,
              asks ∙ ap ok (ok_or-eq-ok hex? missing has),
              decodes,
            );
        at = stands.at;
        outpoint =
            stands.outpoint
            ∙ ap (λ n. record { txid = lib.compute_txid tx; vout = n % 2 ^ 32 }) (omega arith);
        pays = stands.pays;
      }

  to_list-IsPaidTo :
      (url id : String) (utxos : List Utxo) (utxo : Utxo)
      → (fetch_lockup_utxo_boltz lib electrum api decode_tx s url id SwapTxKind.refund >>= λ r.
          ok (to_list r))
        ≡ ok utxos
      → Occurs utxo utxos
      → IsPaidTo utxo
  to_list-IsPaidTo url id utxos utxo e (k, at) =
      let asked = fetch_lockup_utxo_boltz lib electrum api decode_tx s url id SwapTxKind.refund in
      let (found, finds, e1) = bind-eq-ok asked _ e in
      let listed : get_elem? (to_list found) k ≡ some utxo =
        ap (λ us. get_elem? us k) (ok-injective e1) ∙ at in
      lockup-IsPaidTo url id SwapTxKind.refund found utxo finds (only found k listed)
    where
      only : (o : Option Utxo) (k : ℕ) → get_elem? (to_list o) k ≡ some utxo → o ≡ some utxo
      only none k h = cc
      only (some u) zero h = h
      only (some u) (suc k) h = cc

  -- A refund that is constructed is for the given swap script and the given address, which is of the
  -- right network, has at least one utxo, and each of its utxos is an output of a fetched transaction, at the
  -- outpoint, that pays to the taproot address of the swap script.
  pub new_refund-IsPaidTo :
      (refund_address url id : String) (self : BtcSwapTx)
      → new_refund lib electrum api decode_tx s refund_address url id ≡ ok self
      → (is_reverse_submarine s.swap_type ≡ false)
        × (self.swap_script ≡ s)
        × (address_from_str refund_address ≡ ok self.output_address)
        × (is_valid_for_network self.output_address (test_network electrum.network) ≡ true)
        × (is_empty self.utxos ≡ false)
        × ((utxo : Utxo) → Occurs utxo self.utxos → IsPaidTo utxo)
  unfolding new_refund
  new_refund-IsPaidTo refund_address url id self e =
      let (u1, passes, e1) = bind-eq-ok (fail_if (is_reverse_submarine s.swap_type) _) _ e in
      let (address, parses, e2) = bind-eq-ok (address_from_str refund_address) _ e1 in
      let valid = is_valid_for_network address (test_network electrum.network) in
      let (u2, valids, e3) = bind-eq-ok (fail_if (not valid) _) _ e2 in
      let first = fetch_utxos lib electrum api decode_tx s in
      let second =
        fetch_lockup_utxo_boltz lib electrum api decode_tx s url id SwapTxKind.refund >>= λ r.
        ok (to_list r) in
      let (utxos, finds, e4) = bind-eq-ok (or_else first second) _ e3 in
      let (u3, some_left, e5) = bind-eq-ok (fail_if (is_empty utxos) _) _ e4 in
      let is = ok-injective e5 in
      (
        fail_if-eq-ok (is_reverse_submarine s.swap_type) _ passes,
        ap (λ (t : BtcSwapTx). t.swap_script) (sym is),
        parses ∙ ap (λ (t : BtcSwapTx). ok t.output_address) is,
        ap
              (λ (t : BtcSwapTx).
                is_valid_for_network t.output_address (test_network electrum.network))
              (sym is)
            ∙ not-false valid (fail_if-eq-ok (not valid) _ valids),
        ap (λ (t : BtcSwapTx). is_empty t.utxos) (sym is)
            ∙ fail_if-eq-ok (is_empty utxos) _ some_left,
        λ utxo (k, at).
            or_else-eq-ok (λ us. Occurs utxo us → IsPaidTo utxo) first second
              (λ us fetched. fetch_utxos-IsPaidTo us utxo fetched)
              (λ us fetched. to_list-IsPaidTo url id us utxo fetched) finds
              (k, ap (λ (t : BtcSwapTx). get_elem? t.utxos k) is ∙ at),
      )

  head?-Occurs : (utxos : List Utxo) {utxo : Utxo} → head? utxos ≡ some utxo → Occurs utxo utxos
  head?-Occurs [] h = cc
  head?-Occurs (u ∷ utxos) h = (0, h)

  -- A claim that is constructed is for the given swap script and the given address, and has exactly
  -- one utxo, an output of a fetched transaction, at the outpoint, that pays to the taproot address
  -- of the swap script.
  pub new_claim-IsPaidTo :
      (claim_address url id : String) (self : BtcSwapTx)
      → new_claim lib electrum api decode_tx s claim_address url id ≡ ok self
      → (is_submarine s.swap_type ≡ false)
        × (self.swap_script ≡ s)
        × (address_from_str claim_address ≡ ok self.output_address)
        × (utxo : Utxo) × (self.utxos ≡ utxo ∷ [])
        × IsPaidTo utxo
  unfolding new_claim
  new_claim-IsPaidTo claim_address url id self e =
      let (u1, passes, e1) = bind-eq-ok (fail_if (is_submarine s.swap_type) _) _ e in
      let (address, parses, e2) = bind-eq-ok (address_from_str claim_address) _ e1 in
      let fetched = fetch_utxos lib electrum api decode_tx s in
      let first = fetched >>= λ v. ok (head? v) in
      let second = fetch_lockup_utxo_boltz lib electrum api decode_tx s url id SwapTxKind.claim in
      let (info, finds, e3) = bind-eq-ok (or_else first second) _ e2 in
      let (utxo, has, e4) = bind-eq-ok (ok_or info _) _ e3 in
      let is = ok-injective e4 in
      (
        fail_if-eq-ok (is_submarine s.swap_type) _ passes,
        ap (λ (t : BtcSwapTx). t.swap_script) (sym is),
        parses ∙ ap (λ (t : BtcSwapTx). ok t.output_address) is,
        utxo,
        ap (λ (t : BtcSwapTx). t.utxos) (sym is),
        or_else-eq-ok (λ o. o ≡ some utxo → IsPaidTo utxo) first second
            (λ o found is_some.
              let (utxos, fetches, f1) = bind-eq-ok fetched _ found in
              fetch_utxos-IsPaidTo utxos utxo fetches
                (head?-Occurs utxos (ok-injective f1 ∙ is_some)))
            (λ o found is_some. lockup-IsPaidTo url id SwapTxKind.claim o utxo found is_some) finds
            (ok_or-eq-ok info _ has),
      )
