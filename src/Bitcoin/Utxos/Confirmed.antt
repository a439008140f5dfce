-- ===== src/Bitcoin/Utxos/Confirmed.antt =====
-- When the history of an address confirms a transaction, apart from the loop of `confirmed_in`.
use bullbitcoin_rnd.Base.{
  ℕ, zero, suc, ◌<◌, ◌≡◌, refl, ◌∙◌, ap, arith, inl, inr, true, Bool-cases, Option-cases,
  some-injective, none, some, List, [], ◌∷◌, Bytes, bytes_eq, bytes_eq_iff, get_elem?, ℤ, pos,
  negsuc, is_positive,
}
use bullbitcoin_rnd.Bitcoin.Utxos.{GetHistoryRes, confirmed_in}

-- The last entry of the hash in the history has a height above 0.
pub record IsConfirmed (history : List GetHistoryRes) (id : Bytes) : Type 0 where
  pub index : ℕ
  pub entry : GetHistoryRes
  pub below : ℕ
  pub at : get_elem? history index ≡ some entry
  pub is_hash : entry.tx_hash ≡ id
  pub positive : entry.height ≡ pos (suc below)
  pub is_last :
      (later : ℕ) (other : GetHistoryRes)
      → index < later
      → get_elem? history later ≡ some other
      → ¬ (other.tx_hash ≡ id)

-- No entry of the history has the hash.
abbrev Misses : List GetHistoryRes → Bytes → Type 0
Misses history id =
    (k : ℕ) (other : GetHistoryRes) → get_elem? history k ≡ some other → ¬ (other.tx_hash ≡ id)

Misses-cons :
    (h : GetHistoryRes) (hs : List GetHistoryRes) (id : Bytes)
    → ¬ (h.tx_hash ≡ id)
    → Misses hs id
    → Misses (h ∷ hs) id
Misses-cons h hs id differs misses zero other at same =
    differs (ap (λ (r : GetHistoryRes). r.tx_hash) (some-injective at) ∙ same)
Misses-cons h hs id differs misses (suc k) other at same = misses k other at same

confirmed_in-none :
    (history : List GetHistoryRes) (id : Bytes) → confirmed_in history id ≡ none → Misses history id
unfolding confirmed_in
confirmed_in-none [] id e k other at same = ground (arith, at)
confirmed_in-none (h ∷ hs) id e k other at same = elim (Option-cases (confirmed_in hs id)) [
  | inr (b, later) ↦ ground (arith, rw later at e)
  | inl missing ↦ elim (Bool-cases (bytes_eq h.tx_hash id)) [
    | inl here ↦ ground (arith, rw (missing, here) at e)
    | inr elsewhere ↦
        Misses-cons h hs id (λ is. cc (elsewhere, (bytes_eq_iff h.tx_hash id).1 is))
          (confirmed_in-none hs id missing) k other at same
  ]
]

Misses-confirmed_in :
    (history : List GetHistoryRes) (id : Bytes) → Misses history id → confirmed_in history id ≡ none
unfolding confirmed_in
Misses-confirmed_in [] id misses = refl
Misses-confirmed_in (h ∷ hs) id misses =
    let later = Misses-confirmed_in hs id (λ k other at. misses (suc k) other at) in
    elim (Bool-cases (bytes_eq h.tx_hash id)) [
      | inl here ↦ absurd (misses 0 h refl ((bytes_eq_iff h.tx_hash id).0 here))
      | inr elsewhere ↦ rw (later, elsewhere) refl
    ]

positive-pos : (z : ℤ) → is_positive z ≡ true → (n : ℕ) × (z ≡ pos (suc n))
positive-pos (pos zero) h = absurd (ground (arith, h))
positive-pos (pos (suc n)) h = (n, refl)
positive-pos (negsuc n) h = cc

pub confirmed_in-IsConfirmed :
    (history : List GetHistoryRes) (id : Bytes)
    → confirmed_in history id ≡ some true
    → IsConfirmed history id
unfolding confirmed_in
confirmed_in-IsConfirmed [] id e = cc
confirmed_in-IsConfirmed (h ∷ hs) id e = elim (Option-cases (confirmed_in hs id)) [
  | inr (b, later) ↦
      let found = confirmed_in-IsConfirmed hs id (later ∙ rw later at e) in
      record {
        index = suc found.index;
        entry = found.entry;
        below = found.below;
        at = found.at;
        is_hash = found.is_hash;
        positive = found.positive;
        is_last = λ k other more at. shifted found k other more at;
      }
  | inl missing ↦ elim (Bool-cases (bytes_eq h.tx_hash id)) [
    | inr elsewhere ↦ absurd (ground (arith, rw (missing, elsewhere) at e))
    | inl here ↦
        let (n, is) = positive-pos h.height (some-injective (rw (missing, here) at e)) in
        record {
          index = 0;
          entry = h;
          below = n;
          at = refl;
          is_hash = (bytes_eq_iff h.tx_hash id).0 here;
          positive = is;
          is_last = λ k other more at. after k other more at (confirmed_in-none hs id missing);
        }
  ]
]
  where
    shifted :
        (found : IsConfirmed hs id) (k : ℕ) (other : GetHistoryRes)
        → suc found.index < k
        → get_elem? (h ∷ hs) k ≡ some other
        → ¬ (other.tx_hash ≡ id)
    shifted found zero other more at = absurd (omega (arith, more))
    shifted found (suc k) other more at = found.is_last k other (omega (arith, more)) at

    after :
        (k : ℕ) (other : GetHistoryRes)
        → 0 < k
        → get_elem? (h ∷ hs) k ≡ some other
        → Misses hs id
        → ¬ (other.tx_hash ≡ id)
    after zero other more at misses = absurd (omega (arith, more))
    after (suc k) other more at misses = misses k other at

pub confirmed_in-last :
    (history : List GetHistoryRes) (id : Bytes) (index below : ℕ) (entry : GetHistoryRes)
    → get_elem? history index ≡ some entry
    → entry.tx_hash ≡ id
    → entry.height ≡ pos (suc below)
    → ((later : ℕ) (other : GetHistoryRes)
        → index < later
        → get_elem? history later ≡ some other
        → ¬ (other.tx_hash ≡ id))
    → confirmed_in history id ≡ some true
unfolding confirmed_in
confirmed_in-last [] id index below entry at is_hash positive is_last = cc
confirmed_in-last (h ∷ hs) id zero below entry at is_hash positive is_last =
    let is = some-injective at in
    let missing =
      Misses-confirmed_in hs id (λ k other found. is_last (suc k) other (omega arith) found) in
    let here : bytes_eq h.tx_hash id ≡ true =
      (bytes_eq_iff h.tx_hash id).1 (ap (λ (r : GetHistoryRes). r.tx_hash) is ∙ is_hash) in
    let height : h.height ≡ pos (suc below) = ap (λ (r : GetHistoryRes). r.height) is ∙ positive in
    rw (missing, here, height) (ap some (ground arith))
confirmed_in-last (h ∷ hs) id (suc index) below entry at is_hash positive is_last =
    let later =
      confirmed_in-last hs id index below entry at is_hash positive
        (λ k other more found. is_last (suc k) other (omega (arith, more)) found) in
    rw later refl
