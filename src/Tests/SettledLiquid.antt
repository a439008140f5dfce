-- ===== src/Tests/SettledLiquid.antt =====
-- Whole Liquid swaps, from a concrete response to the signed transaction.
use bullbitcoin_rnd.Base.{◌≡◌, refl, false, some, [], ◌∷◌, pos, bytes_eq}
use bullbitcoin_rnd.Result.{ok}
use bullbitcoin_rnd.Chain.{Chain}
use bullbitcoin_rnd.Fees.{relative, absolute, create_tx_with_fee}
use bullbitcoin_rnd.Script.LittleEndian.{bytes_to_u32_little_endian}
use bullbitcoin_rnd.Script.LockTime.{find_lock_time}
use bullbitcoin_rnd.Script.Tree.{read_tree, claim_loop, refund_loop}
use bullbitcoin_rnd.Boltz.Types.{Side, SwapTxKind, SwapType}
use bullbitcoin_rnd.Boltz.Offer.{submarine, chain}
use bullbitcoin_rnd.Boltz.Client.{
  post, read_native, get_submarine_partial_sig, post_chain_claim_tx_details,
}
use bullbitcoin_rnd.Boltz.Cooperative.{Cooperative, ask_chain_claim}
use bullbitcoin_rnd.Boltz.Validate.Accepted.{by_claim, by_submarine}
use bullbitcoin_rnd.Taproot.KeyPath.{tweaked_cache, aggregate, cosign}
use bullbitcoin_rnd.Liquid.Crate.{Transaction}
use bullbitcoin_rnd.Liquid.SwapScript as Liquid
use bullbitcoin_rnd.Liquid.SwapTx.{LBtcSwapTx}
use bullbitcoin_rnd.Liquid.New.{
  ElectrumLib, paying_output, liquid_genesis_hash, fetch_utxo, new_claim, new_refund,
}
use bullbitcoin_rnd.Liquid.Blind.{blinded_outputs}
use bullbitcoin_rnd.Liquid.Create.{create_claim, create_refund}
use bullbitcoin_rnd.Liquid.Sign.{finish_claim, sign_claim, finish_refund, sign_refund}
use bullbitcoin_rnd.Swap.Liquid.{
  IsSettled, liquid_swap_claim-IsSettled, liquid_swap_refund-IsSettled,
}
use bullbitcoin_rnd.Tests.Hashes.{hashes, hex, floats, secret_preimage}
use bullbitcoin_rnd.Tests.Scripts.{alice, lock, decode}
use bullbitcoin_rnd.Tests.Crates.{http, api, entropy, submarine_lib}
use bullbitcoin_rnd.Tests.Elements.{
  elements-laws, reverse_script, submarine_script, submarine_elements,
}
use bullbitcoin_rnd.Tests.Lockups.{lookups}
use bullbitcoin_rnd.Tests.Validate.{
  lockup_lib, claim_elements, claim_details, chain_response, chain_validates, liquid_response,
  submarine_validates,
}
use bullbitcoin_rnd.Tests.Liquid.{electrum, refund_tx, draws, transaction}

-- The main chain, where one transaction stands at the address of every script.
abbrev liquid : ElectrumLib
liquid = record electrum {
  network = Chain.liquid;
  script_get_history = λ spk. ok (record { tx_hash = 1 ∷ []; height = pos 9 } ∷ []);
  transaction_get_raw = λ txid. ok txid;
}

submarine_made :
    Liquid.submarine_from_swap_resp submarine_elements liquid_response alice ≡ ok submarine_script
unfolding Liquid.submarine_from_swap_resp read_tree claim_loop refund_loop
    bytes_to_u32_little_endian decode
submarine_made = refl

refund_constructed :
    new_refund submarine_elements liquid lookups submarine_script "110" "http://127.0.0.1" "id"
    ≡ ok refund_tx
unfolding new_refund fetch_utxo paying_output liquid_genesis_hash Liquid.to_address
    Liquid.taproot_spendinfo Liquid.verify_funding Liquid.verify_address Liquid.musig_keyagg_cache
    decode bytes_eq
refund_constructed = refl

abbrev refunded : Transaction
refunded = transaction (
    sign_refund submarine_elements refund_tx alice http floats (absolute 50) (some api) false
      (λ fee. draws) entropy)

refund_signs :
    sign_refund submarine_elements refund_tx alice http floats
      (absolute 50)
      (some api)
      false
      (λ fee. draws)
      entropy
    ≡ ok refunded
unfolding sign_refund create_tx_with_fee create_refund blinded_outputs Liquid.refund_script
    find_lock_time bytes_to_u32_little_endian finish_refund cosign aggregate tweaked_cache
    Liquid.taproot_spendinfo Liquid.verify_funding Liquid.verify_address Liquid.musig_keyagg_cache
    get_submarine_partial_sig post read_native decode bytes_eq
refund_signs = refl

liquid_swap_refund-IsSettled_example :
    IsSettled submarine_lib submarine_elements hashes liquid lookups SwapTxKind.refund
      (submarine liquid_response)
      "110"
      refund_tx
      alice
      refunded
liquid_swap_refund-IsSettled_example =
    liquid_swap_refund-IsSettled submarine_lib submarine_elements hashes liquid lookups http floats
      (λ tx i outs genesis. refl) (elements-laws submarine_elements.script.from_hex) Chain.liquid
      (submarine liquid_response) alice submarine_script "110" "http://127.0.0.1" "id" refund_tx
      alice (absolute 50) api false (λ fee. draws) entropy refunded
      (by_submarine liquid_response (hex lock) submarine_validates) refl refl submarine_made refl
      refund_constructed refund_signs

-- Alice claims on the Liquid side of a chain swap.
abbrev claim_script : Liquid.LBtcSwapScript
claim_script = record reverse_script {
  swap_type = SwapType.chain;
  side = some Side.claim;
  blinding_key = 2 ∷ [];
}

claim_made :
    Liquid.chain_from_swap_resp claim_elements Side.claim claim_details alice ≡ ok claim_script
unfolding Liquid.chain_from_swap_resp read_tree claim_loop refund_loop bytes_to_u32_little_endian
    decode
claim_made = refl

abbrev testnet : ElectrumLib
testnet = record liquid { network = Chain.liquid_testnet }

abbrev claim_tx : LBtcSwapTx
claim_tx = record refund_tx { kind = SwapTxKind.claim; swap_script = claim_script }

claim_constructed :
    new_claim claim_elements testnet lookups claim_script "110" "http://127.0.0.1" "id"
    ≡ ok claim_tx
unfolding new_claim fetch_utxo paying_output liquid_genesis_hash Liquid.to_address
    Liquid.taproot_spendinfo Liquid.verify_funding Liquid.verify_address Liquid.musig_keyagg_cache
    decode bytes_eq
claim_constructed = refl

-- Alice's half of the other claim goes along.
abbrev with_half : Cooperative
with_half = record api { pub_nonce = some (1 ∷ []); partial_sig = some (2 ∷ []) }

abbrev claimed : Transaction
claimed = transaction (
    sign_claim claim_elements claim_tx alice http floats secret_preimage (relative 10)
      (some with_half) false (λ fee. draws) entropy)

claim_signs :
    sign_claim claim_elements claim_tx alice http floats secret_preimage
      (relative 10)
      (some with_half)
      false
      (λ fee. draws)
      entropy
    ≡ ok claimed
unfolding sign_claim create_tx_with_fee create_claim blinded_outputs finish_claim cosign aggregate
    tweaked_cache Liquid.taproot_spendinfo Liquid.verify_funding Liquid.verify_address
    Liquid.musig_keyagg_cache ask_chain_claim post_chain_claim_tx_details post read_native decode
    bytes_eq
claim_signs = refl

liquid_swap_claim-IsSettled_example :
    IsSettled lockup_lib claim_elements hashes testnet lookups SwapTxKind.claim
      (chain Side.claim claim_details)
      "110"
      claim_tx
      alice
      claimed
liquid_swap_claim-IsSettled_example =
    liquid_swap_claim-IsSettled lockup_lib claim_elements hashes testnet lookups http floats
      (λ tx i outs genesis. refl) (elements-laws claim_elements.script.from_hex)
      Chain.liquid_testnet (chain Side.claim claim_details) alice claim_script "110"
      "http://127.0.0.1" "id" claim_tx alice (relative 10) with_half false (λ fee. draws) entropy
      claimed secret_preimage
      (by_claim Chain.bitcoin_testnet Chain.liquid_testnet alice alice chain_response
        chain_validates)
      refl refl claim_made refl claim_constructed claim_signs
