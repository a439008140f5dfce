-- ===== src/Tests/Liquid.antt =====
-- Claims and refunds of concrete Liquid swaps.
use bullbitcoin_rnd.Base.{◌≡◌, refl, arith, true, false, some, [], ◌∷◌, bytes_eq}
use bullbitcoin_rnd.Error.{Error}
use bullbitcoin_rnd.Result.{Result, ok, err, panic}
use bullbitcoin_rnd.Chain.{Chain}
use bullbitcoin_rnd.Fees.{relative, absolute, create_tx_with_fee}
use bullbitcoin_rnd.Boltz.Types.{SwapTxKind}
use bullbitcoin_rnd.Boltz.Client.{
  post, read_native, get_reverse_partial_sig, get_submarine_partial_sig,
}
use bullbitcoin_rnd.Boltz.Lookups.{get_submarine_tx, lockup_hex}
use bullbitcoin_rnd.Script.LittleEndian.{bytes_to_u32_little_endian}
use bullbitcoin_rnd.Script.LockTime.{find_lock_time}
use bullbitcoin_rnd.Taproot.KeyPath.{tweaked_cache, aggregate, cosign}
use bullbitcoin_rnd.Liquid.Crate.{Asset, Value, TxOut, Transaction, BlindedAsset, TxOutSecrets}
use bullbitcoin_rnd.Liquid.SwapScript.{
  musig_keyagg_cache, taproot_spendinfo, verify_funding, verify_address, claim_script,
  refund_script, to_address,
}
use bullbitcoin_rnd.Liquid.SwapTx.{LBtcSwapTx}
use bullbitcoin_rnd.Liquid.New.{
  ElectrumLib, paying_output, liquid_genesis_hash, fetch_utxo, fetch_lockup_utxo_boltz, new_refund,
}
use bullbitcoin_rnd.Liquid.Blind.{BlindEntropy, blinded_outputs}
use bullbitcoin_rnd.Liquid.Create.{sign_by_script, create_claim, create_refund}
use bullbitcoin_rnd.Liquid.Create.Built.{
  IsClaim, IsRefund, liquid_create_claim-IsClaim, liquid_create_refund-IsRefund, create-overdrawn,
}
use bullbitcoin_rnd.Liquid.Sign.{finish_claim, sign_claim, finish_refund, sign_refund}
use bullbitcoin_rnd.Tests.Hashes.{floats, secret, secret_preimage}
use bullbitcoin_rnd.Tests.Scripts.{alice, decode, scripts-laws}
use bullbitcoin_rnd.Tests.Crates.{http, api, entropy}
use bullbitcoin_rnd.Tests.Lockups.{lookups}
use bullbitcoin_rnd.Tests.Elements.{
  elements-laws, reverse_script, submarine_script, reverse_elements, submarine_elements,
}

abbrev funding : TxOut
funding = record {
  script_pubkey = 10 ∷ 23 ∷ 24 ∷ 22 ∷ 21 ∷ [];
  value = Value.explicit 30000;
  asset = Asset.confidential (6 ∷ []);
  nonce = [];
  witness = record { surjection_proof = some (7 ∷ []); rangeproof = some (8 ∷ []) };
}

abbrev funded : TxOutSecrets
funded = record { asset = 6 ∷ []; asset_bf = 7 ∷ []; value = 30000; value_bf = 8 ∷ [] }

abbrev blinded : BlindedAsset
blinded = record { asset = Asset.confidential (6 ∷ []); surjection_proof = 1 ∷ [] }

abbrev pub claim_swap : LBtcSwapTx
claim_swap = record {
  kind = SwapTxKind.claim;
  swap_script = reverse_script;
  output_address = record { text = "110" };
  funding_outpoint = record { txid = 1 ∷ []; vout = 0 };
  funding_utxo = funding;
  genesis_hash = 33 ∷ [];
}

abbrev pub refund_swap : LBtcSwapTx
refund_swap = record claim_swap { kind = SwapTxKind.refund; swap_script = submarine_script }

abbrev pub draws : BlindEntropy
draws = record { out_abf = 1 ∷ []; surjection_seed = 2 ∷ []; ephemeral_sk = 3 ∷ [] }

abbrev pub transaction : Result Transaction → Transaction
transaction (ok tx) = tx
transaction _ = record { version = 0; lock_time = 0; input = []; output = [] }

abbrev pub claimed : Transaction
claimed =
    transaction (create_claim reverse_elements claim_swap alice secret_preimage 40 false draws)

abbrev pub refunded : Transaction
refunded = transaction (create_refund submarine_elements refund_swap alice 50 false draws)

pub claim_built :
    create_claim reverse_elements claim_swap alice secret_preimage 40 false draws ≡ ok claimed
unfolding create_claim blinded_outputs sign_by_script claim_script taproot_spendinfo verify_funding
    verify_address musig_keyagg_cache decode bytes_eq
claim_built = refl

pub refund_built : create_refund submarine_elements refund_swap alice 50 false draws ≡ ok refunded
unfolding create_refund blinded_outputs sign_by_script refund_script taproot_spendinfo
    verify_funding verify_address musig_keyagg_cache find_lock_time bytes_to_u32_little_endian
    decode bytes_eq
refund_built = refl

liquid_create_claim-IsClaim_example :
    IsClaim reverse_elements claim_swap alice 40 draws secret_preimage false claimed
liquid_create_claim-IsClaim_example =
    liquid_create_claim-IsClaim reverse_elements claim_swap alice 40 draws
      (elements-laws reverse_elements.script.from_hex) secret_preimage false claimed claim_built

liquid_create_refund-IsRefund_example :
    IsRefund submarine_elements refund_swap alice 50 draws 800000 false refunded
liquid_create_refund-IsRefund_example =
    liquid_create_refund-IsRefund submarine_elements refund_swap alice 50 draws
      (elements-laws submarine_elements.script.from_hex)
      (scripts-laws submarine_elements.script.from_hex) false refunded (omega arith) (omega arith)
      refund_built

create-overdrawn_example :
    (create_claim reverse_elements claim_swap alice secret_preimage 30001 true draws
      ≡ panic "Amount subtraction error")
    × (create_refund reverse_elements claim_swap alice 30001 true draws
        ≡ panic "Amount subtraction error")
create-overdrawn_example =
    create-overdrawn reverse_elements claim_swap alice 30001 draws secret_preimage secret true
      funded blinded refl refl refl (omega arith)

abbrev signed_claim : Transaction
signed_claim = transaction (
    sign_claim reverse_elements claim_swap alice http floats secret_preimage (relative 10)
      (some api) true (λ fee. draws) entropy)

abbrev signed_refund : Transaction
signed_refund = transaction (
    sign_refund submarine_elements refund_swap alice http floats (absolute 50) (some api) false
      (λ fee. draws) entropy)

claim_signs :
    sign_claim reverse_elements claim_swap alice http floats secret_preimage
      (relative 10)
      (some api)
      true
      (λ fee. draws)
      entropy
    ≡ ok signed_claim
unfolding sign_claim create_tx_with_fee create_claim blinded_outputs finish_claim cosign aggregate
    tweaked_cache taproot_spendinfo verify_funding verify_address musig_keyagg_cache
    get_reverse_partial_sig post read_native decode bytes_eq
claim_signs = refl

refund_signs :
    sign_refund submarine_elements refund_swap alice http floats
      (absolute 50)
      (some api)
      false
      (λ fee. draws)
      entropy
    ≡ ok signed_refund
unfolding sign_refund create_tx_with_fee create_refund blinded_outputs refund_script find_lock_time
    bytes_to_u32_little_endian finish_refund cosign aggregate tweaked_cache taproot_spendinfo
    verify_funding verify_address musig_keyagg_cache get_submarine_partial_sig post read_native
    decode bytes_eq
refund_signs = refl

-- The funding transaction: its second output pays to the swap.
abbrev lockup : Transaction
lockup = record {
  version = 2;
  lock_time = 1;
  input = [];
  output = record funding { script_pubkey = 1 ∷ [] } ∷ funding ∷ [];
}

-- A server that knows no history.
abbrev pub electrum : ElectrumLib
electrum = record {
  network = Chain.liquid_testnet;
  build_client = ok tt;
  script_get_history = λ spk. ok [];
  transaction_get_raw = λ txid. err (Error.electrum "unknown");
  block_header_raw = λ height. ok (height ∷ []);
  deserialize = λ raw. ok lockup;
  hex_decode = λ s. ok [];
  header_hash = λ raw. ok (33 ∷ []);
}

abbrev pub refund_tx : LBtcSwapTx
refund_tx = record refund_swap { funding_outpoint = record { txid = 1 ∷ []; vout = 1 } }

pub refund_constructed :
    new_refund submarine_elements electrum lookups submarine_script "110" "http://127.0.0.1" "id"
    ≡ ok refund_tx
unfolding new_refund fetch_utxo fetch_lockup_utxo_boltz lockup_hex get_submarine_tx paying_output
    liquid_genesis_hash to_address taproot_spendinfo verify_funding verify_address
    musig_keyagg_cache decode bytes_eq
refund_constructed = refl
