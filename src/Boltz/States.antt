-- ===== src/Boltz/States.antt =====
-- src/swaps/boltz.rs: the states of the three kinds of swap, and the side of an order, with
-- `Display` and `FromStr`.
pub mod RoundTrip
use bullbitcoin_rnd.Base.{Bool, Option, none, some, List, [], ◌∷◌, String, str_eq, if◌then◌else◌}

-- `match s { "a" => Ok(a), …, _ => Err(()) }`: the value of the first arm whose text is `s`.
unfoldable pub match_str {ℓ} : {A : Type ℓ} → List (String × A) → String → Option A
match_str [] s = none
match_str ((text, value) ∷ arms) s =
    let rest = match_str arms s in if str_eq s text then some value else rest

pub data SubSwapStates : Type 0 where
  created transaction_mempool transaction_confirmed invoice_set invoice_paid invoice_pending
        invoice_failed_to_pay transaction_claimed transaction_claim_pending
        transaction_lockup_failed swap_expired :
      SubSwapStates

abbrev pub sub_to_string : SubSwapStates → String
sub_to_string SubSwapStates.created = "swap.created"
sub_to_string SubSwapStates.transaction_mempool = "transaction.mempool"
sub_to_string SubSwapStates.transaction_confirmed = "transaction.confirmed"
sub_to_string SubSwapStates.invoice_set = "invoice.set"
sub_to_string SubSwapStates.invoice_paid = "invoice.paid"
sub_to_string SubSwapStates.invoice_pending = "invoice.pending"
sub_to_string SubSwapStates.invoice_failed_to_pay = "invoice.failedToPay"
sub_to_string SubSwapStates.transaction_claimed = "transaction.claimed"
sub_to_string SubSwapStates.transaction_claim_pending = "transaction.claim.pending"
sub_to_string SubSwapStates.transaction_lockup_failed = "transaction.lockupFailed"
sub_to_string SubSwapStates.swap_expired = "swap.expired"

abbrev pub sub_arms : List (String × SubSwapStates)
sub_arms =
    ("swap.created", SubSwapStates.created)
    ∷ ("transaction.mempool", SubSwapStates.transaction_mempool)
    ∷ ("transaction.confirmed", SubSwapStates.transaction_confirmed)
    ∷ ("invoice.set", SubSwapStates.invoice_set)
    ∷ ("invoice.paid", SubSwapStates.invoice_paid)
    ∷ ("invoice.pending", SubSwapStates.invoice_pending)
    ∷ ("invoice.failedToPay", SubSwapStates.invoice_failed_to_pay)
    ∷ ("transaction.claimed", SubSwapStates.transaction_claimed)
    ∷ ("transaction.claim.pending", SubSwapStates.transaction_claim_pending)
    ∷ ("transaction.lockupFailed", SubSwapStates.transaction_lockup_failed)
    ∷ ("swap.expired", SubSwapStates.swap_expired)
    ∷ []

unfoldable pub sub_from_str : String → Option SubSwapStates
sub_from_str s = match_str sub_arms s

pub data RevSwapStates : Type 0 where
  created miner_fee_paid transaction_mempool transaction_confirmed invoice_settled invoice_expired
        swap_expired transaction_failed transaction_refunded :
      RevSwapStates

abbrev pub rev_to_string : RevSwapStates → String
rev_to_string RevSwapStates.created = "swap.created"
rev_to_string RevSwapStates.miner_fee_paid = "minerfee.paid"
rev_to_string RevSwapStates.transaction_mempool = "transaction.mempool"
rev_to_string RevSwapStates.transaction_confirmed = "transaction.confirmed"
rev_to_string RevSwapStates.invoice_settled = "invoice.settled"
rev_to_string RevSwapStates.invoice_expired = "invoice.expired"
rev_to_string RevSwapStates.swap_expired = "swap.expired"
rev_to_string RevSwapStates.transaction_failed = "transaction.failed"
rev_to_string RevSwapStates.transaction_refunded = "transaction.refunded"

abbrev pub rev_arms : List (String × RevSwapStates)
rev_arms =
    ("swap.created", RevSwapStates.created)
    ∷ ("minerfee.paid", RevSwapStates.miner_fee_paid)
    ∷ ("transaction.mempool", RevSwapStates.transaction_mempool)
    ∷ ("transaction.confirmed", RevSwapStates.transaction_confirmed)
    ∷ ("invoice.settled", RevSwapStates.invoice_settled)
    ∷ ("invoice.expired", RevSwapStates.invoice_expired)
    ∷ ("swap.expired", RevSwapStates.swap_expired)
    ∷ ("transaction.failed", RevSwapStates.transaction_failed)
    ∷ ("transaction.refunded", RevSwapStates.transaction_refunded)
    ∷ []

unfoldable pub rev_from_str : String → Option RevSwapStates
rev_from_str s = match_str rev_arms s

pub data ChainSwapStates : Type 0 where
  created transaction_zero_conf_rejected transaction_mempool transaction_confirmed
        transaction_server_mempool transaction_server_confirmed transaction_claimed
        transaction_lockup_failed swap_expired transaction_failed transaction_refunded :
      ChainSwapStates

abbrev pub chain_to_string : ChainSwapStates → String
chain_to_string ChainSwapStates.created = "swap.created"
chain_to_string ChainSwapStates.transaction_zero_conf_rejected = "transaction.zeroconf.rejected"
chain_to_string ChainSwapStates.transaction_mempool = "transaction.mempool"
chain_to_string ChainSwapStates.transaction_confirmed = "transaction.confirmed"
chain_to_string ChainSwapStates.transaction_server_mempool = "transaction.server.mempool"
chain_to_string ChainSwapStates.transaction_server_confirmed = "transaction.server.confirmed"
chain_to_string ChainSwapStates.transaction_claimed = "transaction.claimed"
chain_to_string ChainSwapStates.transaction_lockup_failed = "transaction.lockupFailed"
chain_to_string ChainSwapStates.swap_expired = "swap.expired"
chain_to_string ChainSwapStates.transaction_failed = "transaction.failed"
chain_to_string ChainSwapStates.transaction_refunded = "transaction.refunded"

abbrev pub chain_arms : List (String × ChainSwapStates)
chain_arms =
    ("swap.created", ChainSwapStates.created)
    ∷ ("transaction.zeroconf.rejected", ChainSwapStates.transaction_zero_conf_rejected)
    ∷ ("transaction.mempool", ChainSwapStates.transaction_mempool)
    ∷ ("transaction.confirmed", ChainSwapStates.transaction_confirmed)
    ∷ ("transaction.server.mempool", ChainSwapStates.transaction_server_mempool)
    ∷ ("transaction.server.confirmed", ChainSwapStates.transaction_server_confirmed)
    ∷ ("transaction.claimed", ChainSwapStates.transaction_claimed)
    ∷ ("transaction.lockupFailed", ChainSwapStates.transaction_lockup_failed)
    ∷ ("swap.expired", ChainSwapStates.swap_expired)
    ∷ ("transaction.failed", ChainSwapStates.transaction_failed)
    ∷ ("transaction.refunded", ChainSwapStates.transaction_refunded)
    ∷ []

unfoldable pub chain_from_str : String → Option ChainSwapStates
chain_from_str s = match_str chain_arms s

pub data OrderSide : Type 0 where
  buy sell : OrderSide

abbrev pub order_side_to_string : OrderSide → String
order_side_to_string OrderSide.buy = "buy"
order_side_to_string OrderSide.sell = "sell"

abbrev pub order_side_arms : List (String × OrderSide)
order_side_arms = ("buy", OrderSide.buy) ∷ ("sell", OrderSide.sell) ∷ []

unfoldable pub order_side_from_str : String → Option OrderSide
order_side_from_str s = match_str order_side_arms s
