-- ===== src/Tests/Lockups.antt =====
-- New claims and refunds of concrete swaps.
use bullbitcoin_rnd.Base.{◌≡◌, refl, some, none, [], ◌∷◌, String, bytes_eq, pos}
use bullbitcoin_rnd.Error.{Error}
use bullbitcoin_rnd.Result.{Result, ok, err}
use bullbitcoin_rnd.Chain.{Chain}
use bullbitcoin_rnd.Boltz.Types.{SwapTxKind}
use bullbitcoin_rnd.Boltz.Lookups.{GetLib, get_submarine_tx, lockup_hex}
use bullbitcoin_rnd.Bitcoin.Crate.{Transaction}
use bullbitcoin_rnd.Bitcoin.SwapScript.{
  to_address, taproot_spendinfo, verify_funding, verify_address, musig_keyagg_cache,
}
use bullbitcoin_rnd.Bitcoin.SwapTx.{BtcSwapTx}
use bullbitcoin_rnd.Bitcoin.Utxos.{Utxo, fetch_utxos_core}
use bullbitcoin_rnd.Bitcoin.New.{
  ElectrumLib, fetch_utxos, first_paying, fetch_lockup_utxo_boltz, new_claim, new_refund,
}
use bullbitcoin_rnd.Tests.Scripts.{decode}
use bullbitcoin_rnd.Tests.Crates.{reverse_script, submarine_script, reverse_lib, submarine_lib}

-- One output pays to the swap.
abbrev pub lockup : Transaction
lockup = record {
  version = 2;
  lock_time = 1;
  input = [];
  output =
      record { value = 900; script_pubkey = 1 ∷ [] }
      ∷ record { value = 70000; script_pubkey = 10 ∷ 23 ∷ 24 ∷ 22 ∷ 21 ∷ [] }
      ∷ [];
}

abbrev pub electrum : ElectrumLib
electrum = record {
  network = Chain.bitcoin_testnet;
  build_client = ok tt;
  script_get_history = λ spk. ok (record { tx_hash = 1 ∷ []; height = pos 9 } ∷ []);
  batch_transaction_get = λ ids. ok (lockup ∷ []);
}

-- A server that cannot be reached.
abbrev offline : ElectrumLib
offline = record electrum { build_client = err (Error.electrum "unreachable") }

abbrev pub lookups : GetLib
lookups = record {
  get_text = λ url. ok url;
  parse_chain_txs = λ s. ok (record { user_lock = none; server_lock = none });
  parse_reverse_tx = λ s. ok (record { id = "id"; hex = some s; timeout_block_height = 800000 });
  parse_submarine_tx =
      λ s. ok (record { id = "id"; hex = some s; timeout_block_height = none; timeout_eta = none });
}

abbrev pub decode_tx : String → Result Transaction
decode_tx s = ok lockup

abbrev pub found : Utxo
found = record {
  outpoint = record { txid = 1 ∷ []; vout = 1 };
  txout = record { value = 70000; script_pubkey = 10 ∷ 23 ∷ 24 ∷ 22 ∷ 21 ∷ [] };
}

abbrev pub claim_tx : BtcSwapTx
claim_tx = record {
  kind = SwapTxKind.claim;
  swap_script = reverse_script;
  output_address = record { text = "10" };
  utxos = found ∷ [];
}

abbrev pub refund_tx : BtcSwapTx
refund_tx = record {
  kind = SwapTxKind.refund;
  swap_script = submarine_script;
  output_address = record { text = "10" };
  utxos = found ∷ [];
}

pub claim_constructed :
    new_claim reverse_lib electrum lookups decode_tx reverse_script "10" "http://127.0.0.1" "id"
    ≡ ok claim_tx
unfolding new_claim fetch_utxos fetch_utxos_core to_address taproot_spendinfo verify_funding
    verify_address musig_keyagg_cache decode bytes_eq
claim_constructed = refl

refund_constructed :
    new_refund submarine_lib offline lookups decode_tx submarine_script "10" "http://127.0.0.1" "id"
    ≡ ok refund_tx
unfolding new_refund fetch_utxos fetch_lockup_utxo_boltz lockup_hex get_submarine_tx first_paying
    to_address taproot_spendinfo verify_funding verify_address musig_keyagg_cache decode bytes_eq
refund_constructed = refl
