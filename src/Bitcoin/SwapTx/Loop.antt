-- ===== src/Bitcoin/SwapTx/Loop.antt =====
-- The signing loop: what it changes, and which transaction each witness was made for.
use mathlib.Core.Path.{subst}
use bullbitcoin_rnd.Base.{
  ℕ, zero, suc, ◌+◌, ◌≤◌, ◌<◌, ◌≡◌, refl, sym, ap, ◌∙◌, arith, inl, inr, some, List, [], ◌∷◌, map,
  Bytes, get_elem?, length, le_cases,
}
use bullbitcoin_rnd.Result.{Result, ok, bind-eq-ok}
use bullbitcoin_rnd.Bitcoin.Crate.{TxIn, Transaction}
use bullbitcoin_rnd.Bitcoin.SwapTx.{put_witness, set_witness, sign_inputs}

abbrev pub without_witness : TxIn → TxIn
without_witness input = record input { witness = [] }

-- The transaction as a taproot signature hash sees it.
abbrev pub unsigned : Transaction → Transaction
unsigned tx = record tx { input = map without_witness tx.input }

put_witness-without_witness :
    (i : ℕ) (witness : List Bytes) (inputs : List TxIn)
    → map without_witness (put_witness i witness inputs) ≡ map without_witness inputs
put_witness-without_witness i witness [] = refl
put_witness-without_witness zero witness (input ∷ inputs) = refl
put_witness-without_witness (suc i) witness (input ∷ inputs) =
    ap (λ rest. without_witness input ∷ rest) (put_witness-without_witness i witness inputs)

pub put_witness-at :
    (i : ℕ) (witness : List Bytes) (inputs : List TxIn) (input : TxIn)
    → get_elem? (put_witness i witness inputs) i ≡ some input
    → input.witness ≡ witness
put_witness-at i witness [] input h = cc
put_witness-at zero witness (x ∷ inputs) input h = ground (arith, h)
put_witness-at (suc i) witness (x ∷ inputs) input h = put_witness-at i witness inputs input h

put_witness-before :
    (i k : ℕ) (witness : List Bytes) (inputs : List TxIn)
    → k < i
    → get_elem? (put_witness i witness inputs) k ≡ get_elem? inputs k
put_witness-before i k witness [] h = refl
put_witness-before zero k witness (x ∷ inputs) h = absurd (omega arith)
put_witness-before (suc i) zero witness (x ∷ inputs) h = refl
put_witness-before (suc i) (suc k) witness (x ∷ inputs) h =
    put_witness-before i k witness inputs (omega arith)

pub unsigned-set_witness :
    (i : ℕ) (witness : List Bytes) (tx : Transaction)
    → unsigned (set_witness i witness tx) ≡ unsigned tx
unsigned-set_witness i witness tx =
    ap (λ inputs. record tx { input = inputs }) (put_witness-without_witness i witness tx.input)

length-put_witness :
    (i : ℕ) (witness : List Bytes) (inputs : List TxIn)
    → length (put_witness i witness inputs) ≡ length inputs
length-put_witness i witness [] = refl
length-put_witness zero witness (x ∷ inputs) = refl
length-put_witness (suc i) witness (x ∷ inputs) = ap suc (length-put_witness i witness inputs)

module _ (witness_at : ℕ → Transaction → Result (List Bytes)) where
  -- The loop changes nothing but witnesses.
  pub sign_inputs-unsigned :
      (n i : ℕ) (tx after : Transaction)
      → sign_inputs witness_at n i tx ≡ ok after
      → unsigned after ≡ unsigned tx
  unfolding sign_inputs
  sign_inputs-unsigned zero i tx after e =
      let is : tx ≡ after = ground (arith, e) in ap unsigned (sym is)
  sign_inputs-unsigned (suc n) i tx after e =
      let (witness, here, e1) = bind-eq-ok (witness_at i tx) _ e in
      sign_inputs-unsigned n (suc i) (set_witness i witness tx) after e1
      ∙ unsigned-set_witness i witness tx

  -- The witness was made for a transaction that differs from this one in witnesses only.
  pub record IsMadeFor (after : Transaction) (k : ℕ) (witness : List Bytes) : Type 0 where
    pub made_from : Transaction
    pub same : unsigned made_from ≡ unsigned after
    pub makes : witness_at k made_from ≡ ok witness

  -- What a run of the loop from `i` on leaves.
  record IsSignedFrom (before after : Transaction) (i n : ℕ) : Type 0 where
    earlier : (k : ℕ) → k < i → get_elem? after.input k ≡ get_elem? before.input k
    signed :
        (k : ℕ) (input : TxIn)
        → i ≤ k
        → k < i + n
        → get_elem? after.input k ≡ some input
        → IsMadeFor after k input.witness

  signed_here :
      (i k : ℕ) (tx after : Transaction) (witness : List Bytes) (input : TxIn)
      → i ≡ k
      → unsigned after ≡ unsigned tx
      → get_elem? after.input i ≡ get_elem? (put_witness i witness tx.input) i
      → witness_at i tx ≡ ok witness
      → get_elem? after.input k ≡ some input
      → IsMadeFor after k input.witness
  signed_here i k tx after witness input is_k same kept here at =
      subst (λ j. (get_elem? after.input j ≡ some input) → IsMadeFor after j input.witness) is_k
        (λ found. record {
          made_from = tx;
          same = sym same;
          makes = here ∙ ap ok (sym (put_witness-at i witness tx.input input (sym kept ∙ found)));
        })
        at

  sign_inputs-IsSignedFrom :
      (n i : ℕ) (tx after : Transaction)
      → sign_inputs witness_at n i tx ≡ ok after
      → IsSignedFrom tx after i n
  unfolding sign_inputs
  sign_inputs-IsSignedFrom zero i tx after e =
      let is : tx ≡ after = ground (arith, e) in
      record {
        earlier = λ k h. ap (λ (t : Transaction). get_elem? t.input k) (sym is);
        signed = λ k input low high. absurd (omega arith);
      }
  sign_inputs-IsSignedFrom (suc n) i tx after e =
      let (witness, here, e1) = bind-eq-ok (witness_at i tx) _ e in
      let next = set_witness i witness tx in
      let rest = sign_inputs-IsSignedFrom n (suc i) next after e1 in
      let same = sign_inputs-unsigned n (suc i) next after e1 ∙ unsigned-set_witness i witness tx in
      record {
        earlier = λ k h. rest.earlier k (omega arith) ∙ put_witness-before i k witness tx.input h;
        signed = λ k input low high at. elim (le_cases i k low) [
          | inl is_k ↦
              signed_here i k tx after witness input is_k same (rest.earlier i (omega arith)) here
                at
          | inr above ↦ rest.signed k input above (omega arith) at
        ];
      }

  -- A loop over the first `n` inputs makes the witness of each of them.
  pub sign_inputs-IsMadeFor :
      (n : ℕ) (tx after : Transaction)
      → sign_inputs witness_at n 0 tx ≡ ok after
      → (k : ℕ) (input : TxIn) → k < n
      → get_elem? after.input k ≡ some input
      → IsMadeFor after k input.witness
  sign_inputs-IsMadeFor n tx after e k input h at =
      (sign_inputs-IsSignedFrom n 0 tx after e).signed k input (omega arith) (omega arith) at

  -- A loop whose rounds all make a witness, whatever the witnesses of the others, ends.
  pub sign_inputs-ends :
      (n i size : ℕ) (tx : Transaction)
      → ((k : ℕ) (t : Transaction)
          → k < i + n
          → length t.input ≡ size
          → (witness : List Bytes) × (witness_at k t ≡ ok witness))
      → length tx.input ≡ size
      → (after : Transaction) × (sign_inputs witness_at n i tx ≡ ok after)
  unfolding sign_inputs
  sign_inputs-ends zero i size tx makes has = (tx, refl)
  sign_inputs-ends (suc n) i size tx makes has =
      let (witness, here) = makes i tx (omega arith) has in
      let (after, rest) =
        sign_inputs-ends n (suc i) size (set_witness i witness tx)
          (λ k t inside same. makes k t (omega (arith, inside)) same)
          (length-put_witness i witness tx.input ∙ has) in
      (after, rw (here, rest) refl)
