-- ===== src/Boltz/States/RoundTrip.antt =====
-- `Display` against `FromStr`.
use bullbitcoin_rnd.Base.{
  ◌≡◌, refl, sym, ap, ◌∙◌, arith, ◌↔◌, inl, inr, Bool-cases, some, List, [], ◌∷◌, String, str_eq,
  str_eq_iff, All,
}
use bullbitcoin_rnd.Boltz.States.{
  match_str, SubSwapStates, sub_to_string, sub_arms, sub_from_str, RevSwapStates, rev_to_string,
  rev_arms, rev_from_str, ChainSwapStates, chain_to_string, chain_arms, chain_from_str, OrderSide,
  order_side_to_string, order_side_arms, order_side_from_str,
}

-- Where every arm holds the text of its value, a match finds the text of what it gives.
match_str-text {ℓ} :
    {A : Type ℓ} (to_string : A → String) (arms : List (String × A)) (s : String) {a : A}
    → All (λ arm. to_string arm.1 ≡ arm.0) arms
    → match_str arms s ≡ some a
    → to_string a ≡ s
unfolding match_str
match_str-text to_string [] s h e = cc
match_str-text to_string ((text, value) ∷ arms) s (here, rest) e =
    elim (Bool-cases (str_eq s text)) [
      | inl same ↦ ground (arith, e, same, here, str_eq_iff s text)
      | inr differ ↦ match_str-text to_string arms s rest (ground (arith, e, differ))
    ]

sub_reads : (s : SubSwapStates) → sub_from_str (sub_to_string s) ≡ some s
unfolding sub_from_str match_str
sub_reads SubSwapStates.created = refl
sub_reads SubSwapStates.transaction_mempool = refl
sub_reads SubSwapStates.transaction_confirmed = refl
sub_reads SubSwapStates.invoice_set = refl
sub_reads SubSwapStates.invoice_paid = refl
sub_reads SubSwapStates.invoice_pending = refl
sub_reads SubSwapStates.invoice_failed_to_pay = refl
sub_reads SubSwapStates.transaction_claimed = refl
sub_reads SubSwapStates.transaction_claim_pending = refl
sub_reads SubSwapStates.transaction_lockup_failed = refl
sub_reads SubSwapStates.swap_expired = refl

sub_from_str_iff :
    (text : String) (s : SubSwapStates) → (sub_from_str text ≡ some s) ↔ (sub_to_string s ≡ text)
unfolding sub_from_str
sub_from_str_iff text s = (
  match_str-text sub_to_string sub_arms text
      (refl, (refl, (refl, (refl, (refl, (refl, (refl, (refl, (refl, (refl, (refl, tt))))))))))),
  λ prints. ap sub_from_str (sym prints) ∙ sub_reads s,
)

rev_reads : (s : RevSwapStates) → rev_from_str (rev_to_string s) ≡ some s
unfolding rev_from_str match_str
rev_reads RevSwapStates.created = refl
rev_reads RevSwapStates.miner_fee_paid = refl
rev_reads RevSwapStates.transaction_mempool = refl
rev_reads RevSwapStates.transaction_confirmed = refl
rev_reads RevSwapStates.invoice_settled = refl
rev_reads RevSwapStates.invoice_expired = refl
rev_reads RevSwapStates.swap_expired = refl
rev_reads RevSwapStates.transaction_failed = refl
rev_reads RevSwapStates.transaction_refunded = refl

rev_from_str_iff :
    (text : String) (s : RevSwapStates) → (rev_from_str text ≡ some s) ↔ (rev_to_string s ≡ text)
unfolding rev_from_str
rev_from_str_iff text s = (
  match_str-text rev_to_string rev_arms text
      (refl, (refl, (refl, (refl, (refl, (refl, (refl, (refl, (refl, tt))))))))),
  λ prints. ap rev_from_str (sym prints) ∙ rev_reads s,
)

chain_reads : (s : ChainSwapStates) → chain_from_str (chain_to_string s) ≡ some s
unfolding chain_from_str match_str
chain_reads ChainSwapStates.created = refl
chain_reads ChainSwapStates.transaction_zero_conf_rejected = refl
chain_reads ChainSwapStates.transaction_mempool = refl
chain_reads ChainSwapStates.transaction_confirmed = refl
chain_reads ChainSwapStates.transaction_server_mempool = refl
chain_reads ChainSwapStates.transaction_server_confirmed = refl
chain_reads ChainSwapStates.transaction_claimed = refl
chain_reads ChainSwapStates.transaction_lockup_failed = refl
chain_reads ChainSwapStates.swap_expired = refl
chain_reads ChainSwapStates.transaction_failed = refl
chain_reads ChainSwapStates.transaction_refunded = refl

chain_from_str_iff :
    (text : String) (s : ChainSwapStates)
    → (chain_from_str text ≡ some s) ↔ (chain_to_string s ≡ text)
unfolding chain_from_str
chain_from_str_iff text s = (
  match_str-text chain_to_string chain_arms text
      (refl, (refl, (refl, (refl, (refl, (refl, (refl, (refl, (refl, (refl, (refl, tt))))))))))),
  λ prints. ap chain_from_str (sym prints) ∙ chain_reads s,
)

order_side_reads : (s : OrderSide) → order_side_from_str (order_side_to_string s) ≡ some s
unfolding order_side_from_str match_str
order_side_reads OrderSide.buy = refl
order_side_reads OrderSide.sell = refl

order_side_from_str_iff :
    (text : String) (s : OrderSide)
    → (order_side_from_str text ≡ some s) ↔ (order_side_to_string s ≡ text)
unfolding order_side_from_str
order_side_from_str_iff text s = (
  match_str-text order_side_to_string order_side_arms text (refl, (refl, tt)),
  λ prints. ap order_side_from_str (sym prints) ∙ order_side_reads s,
)

-- For each of the four enumerations of states and order sides, `FromStr` gives a value exactly for
-- the text that `Display` prints for it.
pub from_str_iff :
    (text : String)
    → ((s : SubSwapStates) → (sub_from_str text ≡ some s) ↔ (sub_to_string s ≡ text))
      × ((s : RevSwapStates) → (rev_from_str text ≡ some s) ↔ (rev_to_string s ≡ text))
      × ((s : ChainSwapStates) → (chain_from_str text ≡ some s) ↔ (chain_to_string s ≡ text))
      × ((s : OrderSide) → (order_side_from_str text ≡ some s) ↔ (order_side_to_string s ≡ text))
from_str_iff text = (
  sub_from_str_iff text,
  rev_from_str_iff text,
  chain_from_str_iff text,
  order_side_from_str_iff text,
)
