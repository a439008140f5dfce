-- ===== src/Tests/Settled.antt =====
-- Whole swaps, from a concrete response to the signed transaction.
use bullbitcoin_rnd.Base.{◌≡◌, refl, some, bytes_eq}
use bullbitcoin_rnd.Result.{ok}
use bullbitcoin_rnd.Chain.{Chain}
use bullbitcoin_rnd.Fees.{relative, absolute, create_tx_with_fee}
use bullbitcoin_rnd.Script.LittleEndian.{bytes_to_u32_little_endian}
use bullbitcoin_rnd.Script.LockTime.{find_lock_time}
use bullbitcoin_rnd.Script.Tree.{read_tree, claim_loop, refund_loop}
use bullbitcoin_rnd.Boltz.Types.{CreateReverseResponse, Side, SwapType}
use bullbitcoin_rnd.Boltz.Offer.{reverse, chain}
use bullbitcoin_rnd.Boltz.Client.{post, read_native, get_reverse_partial_sig, get_chain_partial_sig}
use bullbitcoin_rnd.Boltz.Validate.{reverse_validate}
use bullbitcoin_rnd.Boltz.Validate.Accepted.{by_reverse, by_lockup}
use bullbitcoin_rnd.Taproot.KeyPath.{tweaked_cache, aggregate, cosign}
use bullbitcoin_rnd.Bitcoin.Crate.{Transaction}
use bullbitcoin_rnd.Bitcoin.SwapScript as Bitcoin
use bullbitcoin_rnd.Bitcoin.Utxos.{fetch_utxos_core}
use bullbitcoin_rnd.Bitcoin.New.{fetch_utxos, new_refund}
use bullbitcoin_rnd.Bitcoin.SwapTx.{BtcSwapTx, sign_inputs}
use bullbitcoin_rnd.Bitcoin.Claim.{create_claim}
use bullbitcoin_rnd.Bitcoin.Refund.{create_refund, total_from}
use bullbitcoin_rnd.Bitcoin.KeyPath.{key_path_witness}
use bullbitcoin_rnd.Bitcoin.Sign.{
  claim_witness, finish_claim, sign_claim, refund_key_witness, finish_refund, sign_refund,
}
use bullbitcoin_rnd.Swap.Bitcoin.{
  IsClaimed, IsRefunded, swap_claim-IsClaimed, swap_refund-IsRefunded,
}
use bullbitcoin_rnd.Tests.Hashes.{hashes, hex, floats, secret, secret_preimage}
use bullbitcoin_rnd.Tests.Scripts.{alice, decode}
use bullbitcoin_rnd.Tests.Crates.{http, api, entropy, reverse_lib, reverse_script, submarine_script}
use bullbitcoin_rnd.Tests.Elements.{reverse_elements}
use bullbitcoin_rnd.Tests.Lockups.{
  electrum, lookups, decode_tx, claim_tx, claim_constructed, refund_tx,
}
use bullbitcoin_rnd.Tests.Responses.{reverse_response, chain_details}
use bullbitcoin_rnd.Tests.Validate.{lockup_lib, claim_elements, chain_response, chain_validates}
use bullbitcoin_rnd.Tests.Transactions.{transaction}

abbrev paid_response : CreateReverseResponse
paid_response = record reverse_response { invoice = hex secret }

reverse_validates :
    reverse_validate reverse_lib reverse_elements hashes paid_response secret_preimage alice
      Chain.bitcoin_testnet
    ≡ ok tt
unfolding reverse_validate Bitcoin.reverse_from_swap_resp read_tree claim_loop refund_loop
    bytes_to_u32_little_endian Bitcoin.validate_address Bitcoin.to_address Bitcoin.taproot_spendinfo
    Bitcoin.verify_funding Bitcoin.verify_address Bitcoin.musig_keyagg_cache decode bytes_eq
reverse_validates = refl

reverse_made : Bitcoin.reverse_from_swap_resp reverse_lib paid_response alice ≡ ok reverse_script
unfolding Bitcoin.reverse_from_swap_resp read_tree claim_loop refund_loop bytes_to_u32_little_endian
    decode
reverse_made = refl

abbrev claimed : Transaction
claimed = transaction (
    sign_claim reverse_lib http floats claim_tx alice secret_preimage (relative 150) (some api)
      entropy)

claim_signs :
    sign_claim reverse_lib http floats claim_tx alice secret_preimage
      (relative 150)
      (some api)
      entropy
    ≡ ok claimed
unfolding sign_claim create_tx_with_fee create_claim finish_claim claim_witness key_path_witness
    cosign aggregate tweaked_cache Bitcoin.taproot_spendinfo Bitcoin.verify_funding
    Bitcoin.verify_address Bitcoin.musig_keyagg_cache get_reverse_partial_sig post read_native
    decode bytes_eq
claim_signs = refl

swap_claim-IsClaimed_example :
    IsClaimed reverse_lib reverse_elements hashes electrum lookups decode_tx
      (reverse paid_response)
      "10"
      claim_tx
      claimed
swap_claim-IsClaimed_example =
    swap_claim-IsClaimed reverse_lib reverse_elements hashes electrum lookups decode_tx http floats
      (λ tx i outs. refl) Chain.bitcoin_testnet (reverse paid_response) alice reverse_script "10"
      "http://127.0.0.1" "id" claim_tx alice secret_preimage (relative 150) api entropy claimed
      (by_reverse paid_response secret_preimage reverse_validates) refl refl reverse_made refl
      claim_constructed claim_signs

-- Alice locks up on the Bitcoin side of a chain swap.
abbrev lockup_script : Bitcoin.BtcSwapScript
lockup_script = record submarine_script { swap_type = SwapType.chain; side = some Side.lockup }

lockup_made :
    Bitcoin.chain_from_swap_resp lockup_lib Side.lockup chain_details alice ≡ ok lockup_script
unfolding Bitcoin.chain_from_swap_resp read_tree claim_loop refund_loop bytes_to_u32_little_endian
    decode
lockup_made = refl

abbrev lockup_refund : BtcSwapTx
lockup_refund = record refund_tx { swap_script = lockup_script }

refund_constructed :
    new_refund lockup_lib electrum lookups decode_tx lockup_script "10" "http://127.0.0.1" "id"
    ≡ ok lockup_refund
unfolding new_refund fetch_utxos fetch_utxos_core Bitcoin.to_address Bitcoin.taproot_spendinfo
    Bitcoin.verify_funding Bitcoin.verify_address Bitcoin.musig_keyagg_cache decode bytes_eq
refund_constructed = refl

abbrev refunded : Transaction
refunded = transaction (
    sign_refund lockup_lib http floats lockup_refund alice (absolute 500) (some api) (λ i. entropy))

refund_signs :
    sign_refund lockup_lib http floats lockup_refund alice (absolute 500) (some api) (λ i. entropy)
    ≡ ok refunded
unfolding sign_refund create_tx_with_fee create_refund total_from find_lock_time
    bytes_to_u32_little_endian Bitcoin.refund_script finish_refund refund_key_witness sign_inputs
    key_path_witness cosign aggregate tweaked_cache Bitcoin.taproot_spendinfo Bitcoin.verify_funding
    Bitcoin.verify_address Bitcoin.musig_keyagg_cache get_chain_partial_sig post read_native decode
    bytes_eq
refund_signs = refl

swap_refund-IsRefunded_example :
    IsRefunded lockup_lib claim_elements hashes electrum lookups decode_tx http floats
      (chain Side.lockup chain_details)
      "10"
      lockup_refund
      refunded
swap_refund-IsRefunded_example =
    swap_refund-IsRefunded lockup_lib claim_elements hashes electrum lookups decode_tx http floats
      (λ tx i outs. refl) Chain.bitcoin_testnet (chain Side.lockup chain_details) alice
      lockup_script "10" "http://127.0.0.1" "id" lockup_refund alice (absolute 500) api
      (λ i. entropy) refunded
      (by_lockup Chain.bitcoin_testnet Chain.liquid_testnet alice alice chain_response
        chain_validates)
      refl refl lockup_made refl refund_constructed refund_signs
