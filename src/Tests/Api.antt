-- ===== src/Tests/Api.antt =====
-- The data of the API: states, limits, fees, replies and errors.
use bullbitcoin_rnd.Base.{◌≤◌, ◌≡◌, ◌↔◌, refl, some}
use bullbitcoin_rnd.Result.{ok}
use bullbitcoin_rnd.Boltz.Client.{Json, response, post, read_native}
use bullbitcoin_rnd.Boltz.Client.Answered.{post-ok}
use bullbitcoin_rnd.Boltz.Limits.{check_limits_within, check_limits_within_iff}
use bullbitcoin_rnd.Boltz.States.{
  SubSwapStates, RevSwapStates, ChainSwapStates, OrderSide, sub_to_string, sub_from_str,
  rev_to_string, rev_from_str, chain_to_string, chain_from_str, order_side_to_string,
  order_side_from_str,
}
use bullbitcoin_rnd.Boltz.States.RoundTrip.{from_str_iff}
use bullbitcoin_rnd.Tests.Crates.{http, api}

from_str_iff_example :
    ((s : SubSwapStates)
      → (sub_from_str "swap.expired" ≡ some s) ↔ (sub_to_string s ≡ "swap.expired"))
    × ((s : RevSwapStates)
        → (rev_from_str "swap.expired" ≡ some s) ↔ (rev_to_string s ≡ "swap.expired"))
    × ((s : ChainSwapStates)
        → (chain_from_str "swap.expired" ≡ some s) ↔ (chain_to_string s ≡ "swap.expired"))
    × ((s : OrderSide)
        → (order_side_from_str "swap.expired" ≡ some s) ↔ (order_side_to_string s ≡ "swap.expired"))
from_str_iff_example = from_str_iff "swap.expired"

check_limits_within_iff_example :
    (check_limits_within 25000000 1000 50000 ≡ ok tt) ↔ ((1000 ≤ 50000) × (50000 ≤ 25000000))
check_limits_within_iff_example = check_limits_within_iff 25000000 1000 50000

posted : post http api.boltz_api "swap/id" Json.null ≡ ok "http://127.0.0.1:9001/v2/swap/id"
unfolding post read_native
posted = refl

post-ok_example :
    http.send_native "http://127.0.0.1:9001/v2/swap/id" Json.null
    ≡ response (ok "http://127.0.0.1:9001/v2/swap/id")
post-ok_example =
    post-ok http api.boltz_api "swap/id" Json.null "http://127.0.0.1:9001/v2/swap/id" posted
