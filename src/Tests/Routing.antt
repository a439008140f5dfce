-- ===== src/Tests/Routing.antt =====
-- A payment request that a magic routing hint stands for, and default configurations.
use bullbitcoin_rnd.Base.{◌≡◌, refl, true, Option, none, some, [], ◌∷◌, String, ◌⊎◌}
use bullbitcoin_rnd.Error.{Error}
use bullbitcoin_rnd.Result.{Result, ok, err}
use bullbitcoin_rnd.Chain.{Chain}
use bullbitcoin_rnd.Boltz.Client.{Json}
use bullbitcoin_rnd.Boltz.Endpoints.{SerdeLib, get_mrh_bip21}
use bullbitcoin_rnd.Electrum.{ElectrumConfig, is_regtest, default}
use bullbitcoin_rnd.Electrum.Defaults.{IsDefaultFor, default-IsDefaultFor}
use bullbitcoin_rnd.MagicRouting.Split.{split}
use bullbitcoin_rnd.MagicRouting.{
  RoutingLib, magic_routing_hint_constant, lbtc_mainnet_asset_hash, find_hint,
  find_magic_routing_hint, read_param, read_params, parse_bip21, check_hint, check_for_mrh,
}
use bullbitcoin_rnd.MagicRouting.Verified.{IsVerified, check_for_mrh-IsVerified}
use bullbitcoin_rnd.MagicRouting.RoundTrip.{print_bip21, parse_bip21-print_bip21}
use bullbitcoin_rnd.Tests.Crates.{http, api, musig}
use bullbitcoin_rnd.Tests.Lockups.{lookups}

-- The second of two hops is the magic one.
abbrev routing : RoutingLib
routing = record {
  musig = musig;
  private_routes = λ invoice. ok (
      (record { src_node_id = "02aa"; short_channel_id = 7 }
        ∷ record { src_node_id = "02bb"; short_channel_id = magic_routing_hint_constant }
        ∷ [])
      ∷ []);
  amount_from_btc = λ text. some 21000;
  sha256_text = λ text. 1 ∷ 2 ∷ [];
  signature_from_slice = λ b. ok b;
  public_key_from_str = λ s. ok (2 ∷ 9 ∷ []);
  x_only = λ k. k;
}

abbrev request_text : String
request_text =
    "liquidnetwork:lq1qq?amount=0.00021&assetid=6f0279e9ed041c3d710a9f57d0c02928416460c4b722ae3457a11eec381c526d"

parse_bip21-print_bip21_example :
    parse_bip21 routing (print_bip21 "liquidnetwork" "lq1qq" "0.00021" lbtc_mainnet_asset_hash)
    ≡ ok (record {
      network = "liquidnetwork";
      address = "lq1qq";
      amount = 21000;
      assetid = some lbtc_mainnet_asset_hash;
    })
parse_bip21-print_bip21_example =
    parse_bip21-print_bip21 routing "liquidnetwork" "lq1qq" "0.00021" lbtc_mainnet_asset_hash 21000
      (record { no_question = refl; no_colon = refl; no_ampersand = refl; no_equals = refl })
      (record { no_question = refl; no_colon = refl; no_ampersand = refl; no_equals = refl })
      (record { no_question = refl; no_colon = refl; no_ampersand = refl; no_equals = refl })
      (record { no_question = refl; no_colon = refl; no_ampersand = refl; no_equals = refl }) refl

abbrev regtest_url : Option String
regtest_url = some "localhost:19002"

default-IsDefaultFor_example :
    ((is_regtest Chain.liquid_regtest ≡ true)
      × (regtest_url ≡ none)
      × (default Chain.liquid_regtest regtest_url
          ≡ err (Error.electrum "Regtest requires using a custom url")))
    ⊎ ((config : ElectrumConfig) × (default Chain.liquid_regtest regtest_url ≡ ok config)
        × IsDefaultFor Chain.liquid_regtest regtest_url config)
default-IsDefaultFor_example = default-IsDefaultFor Chain.liquid_regtest regtest_url

-- A reply that none of the runs here reads.
abbrev unread {ℓ} : {A : Type ℓ} → String → Result A
unread s = err (Error.json "unread")

abbrev serde : SerdeLib
serde = record {
  parse_fees = unread;
  parse_heights = unread;
  parse_submarine_pairs = unread;
  parse_reverse_pairs = unread;
  parse_chain_pairs = unread;
  parse_submarine = unread;
  parse_reverse = unread;
  parse_chain = unread;
  parse_submarine_claim = unread;
  parse_chain_claim = unread;
  parse_preimage = unread;
  parse_mrh = λ s. ok (record { bip21 = request_text; signature = "0102" });
  parse_bolt12 = unread;
  parse_quote = unread;
  parse_swap = unread;
  submarine_to_value = λ r. ok Json.null;
  reverse_to_value = λ r. Json.null;
  chain_to_value = λ r. Json.null;
}

followed :
    check_for_mrh routing http lookups serde api.boltz_api "lnbc1" Chain.liquid
    ≡ ok (some ("lq1qq", 21000))
unfolding check_for_mrh check_hint find_magic_routing_hint find_hint get_mrh_bip21 parse_bip21
    read_params read_param split
followed = refl

check_for_mrh-IsVerified_example :
    IsVerified routing http lookups serde api.boltz_api "lnbc1" Chain.liquid "lq1qq" 21000
check_for_mrh-IsVerified_example =
    check_for_mrh-IsVerified routing http lookups serde api.boltz_api "lnbc1" Chain.liquid "lq1qq"
      21000 followed
