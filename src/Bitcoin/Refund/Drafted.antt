-- ===== src/Bitcoin/Refund/Drafted.antt =====
-- What the two branches of `create_refund` have in common.
use bullbitcoin_rnd.Base.{
  ℕ, ◌+◌, ◌-◌, ◌^◌, ◌<◌, ◌≡◌, refl, sym, ap, ◌∙◌, arith, Bool, true, false, Option, none, some,
  List, [], ◌∷◌, map, Bytes, get_elem?, get_elem?-map, length, leb, if◌then◌else◌,
}
use mathlib.Core.Option
use bullbitcoin_rnd.Result.{ok, fail_if, ok_or, bind-eq-ok, ok_or-eq-ok, fail_if-eq-ok}
use bullbitcoin_rnd.Musig.{Keypair}
use bullbitcoin_rnd.Bitcoin.Crate.{OutPoint, TxIn, Transaction, SpendInfo, BitcoinLib}
use bullbitcoin_rnd.Bitcoin.SwapScript.{refund_script, taproot_spendinfo}
use bullbitcoin_rnd.Bitcoin.Utxos.{Utxo}
use bullbitcoin_rnd.Bitcoin.SwapTx.{
  BtcSwapTx, sequence_max, stubbed_cooperative_witness, unsigned_input, sign_inputs,
}
use bullbitcoin_rnd.Script.LockTime.{find_lock_time}
use bullbitcoin_rnd.Bitcoin.Refund.{
  add_amount, total_from, with_sequences, with_witnesses, refund_draft, refund_witness_at,
  refund_by_script, create_refund,
}
use bullbitcoin_rnd.Bitcoin.SwapTx.Loop.{without_witness, unsigned, sign_inputs-unsigned}

-- What the utxos are worth together.
abbrev pub worth : List Utxo → ℕ
worth [] = 0
worth (utxo ∷ utxos) = utxo.txout.value + worth utxos

abbrev pub outpoints : List TxIn → List OutPoint
outpoints inputs = map (λ i. i.previous_output) inputs

add_amount-ok : (a b : ℕ) {c : ℕ} → add_amount a b ≡ ok c → c ≡ a + b
add_amount-ok a b e = ground arith

total_from-ok :
    (acc : ℕ) (utxos : List Utxo) {n : ℕ} → total_from acc utxos ≡ ok n → n ≡ acc + worth utxos
unfolding total_from
total_from-ok acc [] e = ground (arith, e)
total_from-ok acc (utxo ∷ utxos) e =
    let (next, added, e1) = bind-eq-ok (add_amount acc utxo.txout.value) _ e in
    omega (arith, add_amount-ok acc utxo.txout.value added, total_from-ok next utxos e1)

pub total_from-fits :
    (acc : ℕ) (utxos : List Utxo)
    → acc + worth utxos < 2 ^ 64
    → total_from acc utxos ≡ ok (acc + worth utxos)
unfolding total_from
total_from-fits acc [] h = ap ok (omega arith)
total_from-fits acc (utxo ∷ utxos) h =
    ground (arith, total_from-fits (acc + utxo.txout.value) utxos (omega arith))

-- A loop over the inputs that keeps their outpoints.
pub outpoints-map :
    (f : TxIn → TxIn)
    → ((i : TxIn) → (f i).previous_output ≡ i.previous_output)
    → (inputs : List TxIn) → outpoints (map f inputs) ≡ outpoints inputs
outpoints-map f keeps [] = refl
outpoints-map f keeps (i ∷ inputs) = rw (keeps i, outpoints-map f keeps inputs)

outpoints-unsigned_input :
    (n : ℕ) (utxos : List Utxo)
    → outpoints (map (λ u. unsigned_input u.outpoint n) utxos) ≡ map (λ u. u.outpoint) utxos
outpoints-unsigned_input n [] = refl
outpoints-unsigned_input n (u ∷ utxos) =
    ap (λ rest. u.outpoint ∷ rest) (outpoints-unsigned_input n utxos)

zeroed_sequence :
    (o : Option TxIn) (input : TxIn)
    → Option.map without_witness (Option.map {A = TxIn} (λ i. record i { sequence = 0 }) o)
      ≡ some (without_witness input)
    → input.sequence ≡ 0
zeroed_sequence none input h = cc
zeroed_sequence (some i) input h = ground (arith, h)

module _ (lib : BitcoinLib) (self : BtcSwapTx) (keys : Keypair) (fee : ℕ) where
  open lib use {script, script_pubkey}

  -- What the two branches start from.
  pub record IsDrafted (cooperative : Bool) (tx : Transaction) : Type 0 where
    pub lock_time : ℕ
    pub above : fee < worth self.utxos
    pub found :
        find_lock_time (script.instructions (refund_script lib self.swap_script)) ≡ ok lock_time
    pub finished :
        (if cooperative
          then ok (
              with_witnesses stubbed_cooperative_witness
                (refund_draft lib self (worth self.utxos - fee) lock_time))
          else refund_by_script lib self keys
              (refund_draft lib self (worth self.utxos - fee) lock_time))
        ≡ ok tx

  pub create_refund-IsDrafted :
      (cooperative : Bool) (tx : Transaction)
      → create_refund lib self keys fee cooperative ≡ ok tx
      → IsDrafted cooperative tx
  unfolding create_refund
  create_refund-IsDrafted cooperative tx e =
      let (amount, totals, e1) = bind-eq-ok (total_from 0 self.utxos) _ e in
      let is_worth : amount ≡ worth self.utxos = omega (arith, total_from-ok 0 self.utxos totals) in
      let (unit, passes, e2) = bind-eq-ok (fail_if (leb amount fee) _) _ e1 in
      let (lock_time, found, e3) =
        bind-eq-ok (find_lock_time (script.instructions (refund_script lib self.swap_script))) _
          e2 in
      record {
        lock_time = lock_time;
        above = ground (arith, is_worth, fail_if-eq-ok (leb amount fee) _ passes);
        found = found;
        finished = rw (sym is_worth) e3;
      }

  -- The branch that signs.
  pub record IsSignedRefund (draft tx : Transaction) : Type 0 where
    pub info : SpendInfo
    pub control_block : Bytes
    pub constructed : taproot_spendinfo lib self.swap_script ≡ ok info
    pub reveals : info.control_block (refund_script lib self.swap_script) ≡ some control_block
    pub signs :
        sign_inputs
          (refund_witness_at lib self.swap_script keys
            (map (λ utxo. utxo.txout) self.utxos)
            control_block)
          (length draft.input)
          0
          (with_sequences 0 draft)
        ≡ ok tx

  pub refund_by_script-IsSignedRefund :
      (draft tx : Transaction)
      → refund_by_script lib self keys draft ≡ ok tx
      → IsSignedRefund draft tx
  unfolding refund_by_script
  refund_by_script-IsSignedRefund draft tx e =
      let (info, constructed, e1) = bind-eq-ok (taproot_spendinfo lib self.swap_script) _ e in
      let reveal = info.control_block (refund_script lib self.swap_script) in
      let (control_block, reveals, e2) = bind-eq-ok (ok_or reveal _) _ e1 in
      record {
        info = info;
        control_block = control_block;
        constructed = constructed;
        reveals = ok_or-eq-ok reveal _ reveals;
        signs = e2;
      }

  pub refund_by_script-unsigned :
      (draft tx : Transaction)
      → refund_by_script lib self keys draft ≡ ok tx
      → unsigned tx ≡ unsigned (with_sequences 0 draft)
  refund_by_script-unsigned draft tx e =
      let h = refund_by_script-IsSignedRefund draft tx e in
      sign_inputs-unsigned
        (refund_witness_at lib self.swap_script keys (map (λ utxo. utxo.txout) self.utxos)
          h.control_block)
        (length draft.input) 0 (with_sequences 0 draft) tx h.signs

  pub finished-outpoints :
      (cooperative : Bool) (tx : Transaction) (h : IsDrafted cooperative tx)
      → outpoints tx.input ≡ map (λ u. u.outpoint) self.utxos
  finished-outpoints true tx h =
      let draft = refund_draft lib self (worth self.utxos - fee) h.lock_time in
      let is : with_witnesses stubbed_cooperative_witness draft ≡ tx = ground (arith, h.finished) in
      rw (sym is) (
        outpoints-map (λ i. record i { witness = stubbed_cooperative_witness }) (λ i. refl)
          draft.input
        ∙ outpoints-unsigned_input sequence_max self.utxos)
  finished-outpoints false tx h =
      let draft = refund_draft lib self (worth self.utxos - fee) h.lock_time in
      let same = refund_by_script-unsigned draft tx h.finished in
      sym (outpoints-map without_witness (λ i. refl) tx.input)
      ∙ ap (λ (t : Transaction). outpoints t.input) same
      ∙ outpoints-map without_witness (λ i. refl) (with_sequences 0 draft).input
      ∙ outpoints-map (λ i. record i { sequence = 0 }) (λ i. refl) draft.input
      ∙ outpoints-unsigned_input sequence_max self.utxos

  pub sequence_at :
      (draft tx : Transaction) (k : ℕ) (input : TxIn)
      → unsigned tx ≡ unsigned (with_sequences 0 draft)
      → get_elem? tx.input k ≡ some input
      → input.sequence ≡ 0
  sequence_at draft tx k input same at =
      let zeroed = with_sequences 0 draft in
      let zero_at : TxIn → TxIn = λ i. record i { sequence = 0 } in
      let here : Option.map without_witness (Option.map zero_at (get_elem? draft.input k))
          ≡ some (without_witness input) =
        sym (ap (Option.map without_witness) (get_elem?-map zero_at draft.input k))
        ∙ sym (get_elem?-map without_witness zeroed.input k)
        ∙ ap (λ (t : Transaction). get_elem? t.input k) (sym same)
        ∙ get_elem?-map without_witness tx.input k
        ∙ ap (Option.map without_witness) at in
      zeroed_sequence (get_elem? draft.input k) input here

  -- Both branches keep the output and the lock time of the draft.
  pub finished-output :
      (cooperative : Bool) (tx : Transaction) (h : IsDrafted cooperative tx)
      → (tx.output ≡ (refund_draft lib self (worth self.utxos - fee) h.lock_time).output)
        × (tx.lock_time ≡ h.lock_time)
  finished-output true tx h = ground (arith, h.finished)
  finished-output false tx h =
      let draft = refund_draft lib self (worth self.utxos - fee) h.lock_time in
      let same = refund_by_script-unsigned draft tx h.finished in
      (ap (λ (t : Transaction). t.output) same, ap (λ (t : Transaction). t.lock_time) same)
