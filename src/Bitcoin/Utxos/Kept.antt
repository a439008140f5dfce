-- ===== src/Bitcoin/Utxos/Kept.antt =====
-- What each loop of `fetch_utxos_core` keeps.
use bullbitcoin_rnd.Base.{
  ℕ, zero, suc, ◌+◌, ◌≡◌, refl, sym, ◌∙◌, ◌↔◌, arith, true, false, inl, inr, Bool-cases, some, List,
  [], ◌∷◌, Bytes, bytes_eq_iff, get_elem?, any, Occurs, Occurs-cons_cases, Occurs-append_left,
  Occurs-append_right, Occurs-append_cases,
}
use bullbitcoin_rnd.Script.Instruction.{Script}
use bullbitcoin_rnd.Bitcoin.Crate.{TxOut, Transaction, BitcoinLib}
use mathlib.Core.Path.{subst}
use bullbitcoin_rnd.Bitcoin.Utxos.{
  GetHistoryRes, Utxo, as_u32, spends_confirmed, keeps, outputs_of, outputs_of_all,
  fetch_utxos_core,
}
use bullbitcoin_rnd.Bitcoin.Utxos.Spec.{
  IsSpent, IsUnspent, spends_confirmed-IsSpent, IsSpent-spends_confirmed,
}

module _ (lib : BitcoinLib) (txs : List Transaction) (history : List GetHistoryRes) where
  open lib use {compute_txid}

  module _ (spk : Script) where
    abbrev outputs : Bytes → ℕ → List TxOut → List Utxo
    outputs = outputs_of lib txs history spk

    -- The output at place `i` is kept as `utxo`, where the outputs are counted from `start`.
    record IsKept (txid : Bytes) (start : ℕ) (outs : List TxOut) (utxo : Utxo) (i : ℕ)
        : Type 0 where
      is_output : get_elem? outs i ≡ some utxo.txout
      outpoint : utxo.outpoint ≡ record { txid = txid; vout = as_u32 (start + i) }
      pays : utxo.txout.script_pubkey ≡ spk
      unspent : any (spends_confirmed lib txs history txid (start + i)) txs ≡ false

    IsKept-suc :
        {txid : Bytes} {start i : ℕ} {outs : List TxOut} {utxo : Utxo} (out : TxOut)
        → IsKept txid (suc start) outs utxo i
        → IsKept txid start (out ∷ outs) utxo (suc i)
    IsKept-suc {start = start} {i = i} out kept =
        let shift : suc start + i ≡ start + suc i = omega arith in
        record {
          is_output = kept.is_output;
          outpoint = rw shift at kept.outpoint;
          pays = kept.pays;
          unspent = rw shift at kept.unspent;
        }

    IsKept-pred :
        {txid : Bytes} {start i : ℕ} {outs : List TxOut} {utxo : Utxo} (out : TxOut)
        → IsKept txid start (out ∷ outs) utxo (suc i)
        → IsKept txid (suc start) outs utxo i
    IsKept-pred {start = start} {i = i} out kept =
        let shift : start + suc i ≡ suc start + i = omega arith in
        record {
          is_output = kept.is_output;
          outpoint = rw shift at kept.outpoint;
          pays = kept.pays;
          unspent = rw shift at kept.unspent;
        }

    keeps-IsKept :
        (txid : Bytes) (start : ℕ) (out : TxOut) (outs : List TxOut)
        → keeps lib txs history spk txid start out ≡ true
        → IsKept txid start
            (out ∷ outs)
            (record { outpoint = record { txid = txid; vout = as_u32 start }; txout = out })
            0
    keeps-IsKept txid start out outs h =
        let here : start + 0 ≡ start = omega arith in
        record {
          is_output = refl;
          outpoint = rw here refl;
          pays = ground (arith, h, bytes_eq_iff out.script_pubkey spk);
          unspent = rw here (ground (arith, h));
        }

    outputs-IsKept :
        (txid : Bytes) (start : ℕ) (outs : List TxOut) {utxo : Utxo}
        → Occurs utxo (outputs txid start outs)
        → (i : ℕ) × IsKept txid start outs utxo i
    unfolding outputs_of
    outputs-IsKept txid start [] (k, at) = absurd (ground (arith, at))
    outputs-IsKept txid start (out ∷ outs) {utxo} found =
        elim (Bool-cases (keeps lib txs history spk txid start out)) [
          | inl keep ↦ elim (Occurs-cons_cases _ (rw keep at found)) [
            | inl same ↦ (
              0,
              subst (λ u. IsKept txid start (out ∷ outs) u 0) same
                  (keeps-IsKept txid start out outs keep),
            )
            | inr later ↦
                let (i, kept) = outputs-IsKept txid (suc start) outs later in
                (suc i, IsKept-suc out kept)
          ]
          | inr drop ↦
              let (i, kept) = outputs-IsKept txid (suc start) outs (rw drop at found) in
              (suc i, IsKept-suc out kept)
        ]

    IsKept-outputs :
        (txid : Bytes) (start : ℕ) (outs : List TxOut) (i : ℕ) {utxo : Utxo}
        → IsKept txid start outs utxo i
        → Occurs utxo (outputs txid start outs)
    unfolding outputs_of
    IsKept-outputs txid start [] i kept = absurd (ground (arith, kept.is_output))
    IsKept-outputs txid start (out ∷ outs) zero {utxo} kept =
        let here : start + 0 ≡ start = omega arith in
        let unspent : any (spends_confirmed lib txs history txid start) txs ≡ false =
          rw here at kept.unspent in
        let keep : keeps lib txs history spk txid start out ≡ true =
          ground (arith, unspent, kept.is_output, kept.pays, bytes_eq_iff out.script_pubkey spk) in
        rw keep (0, ground (arith, kept.is_output, rw here at kept.outpoint))
    IsKept-outputs txid start (out ∷ outs) (suc i) kept =
        let (k, at) = IsKept-outputs txid (suc start) outs i (IsKept-pred out kept) in
        elim (Bool-cases (keeps lib txs history spk txid start out)) [
          | inl keep ↦ rw keep (suc k, at)
          | inr drop ↦ rw drop (k, at)
        ]

    from_start : (i : ℕ) → 0 + i ≡ i
    from_start i = omega arith

    all-IsKept :
        (rest : List Transaction) {utxo : Utxo}
        → Occurs utxo (outputs_of_all lib txs history spk rest)
        → (tx : Transaction) × Occurs tx rest
          × (i : ℕ) × IsKept (compute_txid tx) 0 tx.output utxo i
    unfolding outputs_of_all
    all-IsKept [] (k, at) = absurd (ground (arith, at))
    all-IsKept (tx ∷ rest) found = elim (Occurs-append_cases _ _ found) [
      | inl here ↦
          let (i, kept) = outputs-IsKept (compute_txid tx) 0 tx.output here in
          (tx, (0, refl), i, kept)
      | inr later ↦
          let (tx', (k, at), i, kept) = all-IsKept rest later in (tx', (suc k, at), i, kept)
    ]

    IsKept-all :
        (rest : List Transaction) (tx : Transaction) (k i : ℕ) {utxo : Utxo}
        → get_elem? rest k ≡ some tx
        → IsKept (compute_txid tx) 0 tx.output utxo i
        → Occurs utxo (outputs_of_all lib txs history spk rest)
    unfolding outputs_of_all
    IsKept-all [] tx k i at kept = absurd (ground (arith, at))
    IsKept-all (first ∷ rest) tx zero i {utxo} at kept =
        let same : tx ≡ first = ground (arith, at) in
        Occurs-append_left _ _ (
          IsKept-outputs (compute_txid first) 0 first.output i
            (subst (λ (t : Transaction). IsKept (compute_txid t) 0 t.output utxo i) same kept))
    IsKept-all (first ∷ rest) tx (suc k) i at kept =
        Occurs-append_right _ _ (IsKept-all rest tx k i at kept)

    IsKept-IsUnspent :
        (tx : Transaction) (i : ℕ) {utxo : Utxo}
        → Occurs tx txs
        → IsKept (compute_txid tx) 0 tx.output utxo i
        → IsUnspent lib txs history spk utxo
    IsKept-IsUnspent tx i fetched kept = record {
      tx = tx;
      fetched = fetched;
      vout = i;
      is_output = kept.is_output;
      outpoint = rw (from_start i) at kept.outpoint;
      pays = kept.pays;
      not_spent = λ spent. cc (
        kept.unspent,
        IsSpent-spends_confirmed lib txs history (compute_txid tx) (0 + i)
            (subst (IsSpent lib txs history) kept.outpoint spent),
      );
    }

    IsUnspent-IsKept :
        {utxo : Utxo} (u : IsUnspent lib txs history spk utxo)
        → IsKept (compute_txid u.tx) 0 u.tx.output utxo u.vout
    IsUnspent-IsKept u =
        let txid = compute_txid u.tx in
        let at_place = u.outpoint ∙ rw (from_start u.vout) in
        record {
          is_output = u.is_output;
          outpoint = at_place;
          pays = u.pays;
          unspent =
              elim (Bool-cases (any (spends_confirmed lib txs history txid (0 + u.vout)) txs)) [
                | inl spent ↦ absurd (
                    u.not_spent (
                      subst (IsSpent lib txs history) (sym at_place)
                        (spends_confirmed-IsSpent lib txs history txid (0 + u.vout) spent)))
                | inr unspent ↦ unspent
              ];
        }

    -- `fetch_utxos_core` returns an output exactly when it is an output of a fetched transaction,
    -- pays to the script, and is not spent by a fetched transaction that the history confirms: one
    -- whose last entry in the history has a height above 0.
    pub fetch_utxos_core-IsUnspent :
        (utxo : Utxo)
        → Occurs utxo (fetch_utxos_core lib txs history spk) ↔ IsUnspent lib txs history spk utxo
    unfolding fetch_utxos_core
    fetch_utxos_core-IsUnspent utxo = (
      λ found.
          let (tx, fetched, i, kept) = all-IsKept txs found in IsKept-IsUnspent tx i fetched kept,
      λ u. IsKept-all txs u.tx u.fetched.0 u.vout u.fetched.1 (IsUnspent-IsKept u),
    )
