-- ===== src/Tests/Swaps.antt =====
-- Cooperative claims and refunds of concrete swaps.
use bullbitcoin_rnd.Base.{◌≡◌, refl, some, bytes_eq}
use bullbitcoin_rnd.Result.{ok}
use bullbitcoin_rnd.Fees.{relative, absolute, create_tx_with_fee}
use bullbitcoin_rnd.Script.LockTime.{find_lock_time}
use bullbitcoin_rnd.Script.LittleEndian.{bytes_to_u32_little_endian}
use bullbitcoin_rnd.Boltz.Client.{
  post, read_native, get_reverse_partial_sig, get_submarine_partial_sig,
}
use bullbitcoin_rnd.Bitcoin.Crate.{Transaction}
use bullbitcoin_rnd.Bitcoin.SwapScript.{
  musig_keyagg_cache, taproot_spendinfo, verify_funding, verify_address, refund_script,
}
use bullbitcoin_rnd.Bitcoin.SwapTx.{sign_inputs}
use bullbitcoin_rnd.Bitcoin.Claim.{create_claim}
use bullbitcoin_rnd.Bitcoin.Refund.{create_refund, total_from}
use bullbitcoin_rnd.Taproot.KeyPath.{tweaked_cache, aggregate, cosign}
use bullbitcoin_rnd.Bitcoin.KeyPath.{key_path_witness}
use bullbitcoin_rnd.Bitcoin.Sign.{
  claim_witness, finish_claim, sign_claim, refund_key_witness, finish_refund, sign_refund,
}
use bullbitcoin_rnd.Tests.Hashes.{floats, secret_preimage}
use bullbitcoin_rnd.Tests.Scripts.{alice, decode}
use bullbitcoin_rnd.Tests.Crates.{reverse_lib, submarine_lib, http, api, entropy}
use bullbitcoin_rnd.Tests.Transactions.{claim_swap, refund_swap, transaction}

abbrev signed_claim : Transaction
signed_claim = transaction (
    sign_claim reverse_lib http floats claim_swap alice secret_preimage (relative 150) (some api)
      entropy)

abbrev signed_refund : Transaction
signed_refund = transaction (
    sign_refund submarine_lib http floats refund_swap alice (absolute 500) (some api)
      (λ i. entropy))

claim_signs :
    sign_claim reverse_lib http floats claim_swap alice secret_preimage
      (relative 150)
      (some api)
      entropy
    ≡ ok signed_claim
unfolding sign_claim create_tx_with_fee create_claim finish_claim claim_witness key_path_witness
    cosign aggregate tweaked_cache taproot_spendinfo verify_funding verify_address
    musig_keyagg_cache get_reverse_partial_sig post read_native decode bytes_eq
claim_signs = refl

refund_signs :
    sign_refund submarine_lib http floats refund_swap alice (absolute 500) (some api) (λ i. entropy)
    ≡ ok signed_refund
unfolding sign_refund create_tx_with_fee create_refund total_from find_lock_time
    bytes_to_u32_little_endian refund_script finish_refund refund_key_witness sign_inputs
    key_path_witness cosign aggregate tweaked_cache taproot_spendinfo verify_funding verify_address
    musig_keyagg_cache get_submarine_partial_sig post read_native decode bytes_eq
refund_signs = refl
