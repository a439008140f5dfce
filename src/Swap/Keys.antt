-- ===== src/Swap/Keys.antt =====
-- The order in which the keys of a swap are aggregated, on either chain.
use bullbitcoin_rnd.Base.{◌≡◌}
use bullbitcoin_rnd.Result.{ok}
use bullbitcoin_rnd.Musig.{KeyAggCache, MusigLib}
use bullbitcoin_rnd.Boltz.Types.{PublicKey}
use bullbitcoin_rnd.Boltz.Offer.{Offer}
use bullbitcoin_rnd.Bitcoin.Crate.{BitcoinLib}
use bullbitcoin_rnd.Bitcoin.SwapScript as Bitcoin
use bullbitcoin_rnd.Bitcoin.SwapScript.Response as BitcoinResponse
use bullbitcoin_rnd.Liquid.Crate.{ElementsLib}
use bullbitcoin_rnd.Liquid.SwapScript as Liquid
use bullbitcoin_rnd.Liquid.SwapScript.Response as LiquidResponse

-- The cache is that of a swap script that the response creates for our key, on Bitcoin or on Liquid.
pub data IsCacheOf (offer : Offer) (ours : PublicKey) : MusigLib → KeyAggCache → Type 0 where
  on_bitcoin :
      (lib : BitcoinLib) (s : Bitcoin.BtcSwapScript)
      → BitcoinResponse.from_swap_resp lib offer ours ≡ ok s
      → IsCacheOf offer ours lib.musig (Bitcoin.musig_keyagg_cache lib s)
  on_liquid :
      (lib : ElementsLib) (s : Liquid.LBtcSwapScript)
      → LiquidResponse.from_swap_resp lib offer ours ≡ ok s
      → IsCacheOf offer ours lib.musig (Liquid.musig_keyagg_cache lib s)
