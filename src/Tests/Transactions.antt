-- ===== src/Tests/Transactions.antt =====
-- Claims, refunds and unspent outputs of concrete swaps.
use bullbitcoin_rnd.Base.{
  map, ℕ, ◌+◌, ◌≡◌, ◌<◌, ◌↔◌, refl, arith, true, false, List, [], ◌∷◌, bytes_eq, Occurs, pos,
}
use bullbitcoin_rnd.Error.{Error}
use bullbitcoin_rnd.Result.{Result, ok, err}
use bullbitcoin_rnd.Boltz.Types.{SwapTxKind}
use bullbitcoin_rnd.Script.LockTime.{find_lock_time}
use bullbitcoin_rnd.Script.LittleEndian.{bytes_to_u32_little_endian}
use bullbitcoin_rnd.Bitcoin.Crate.{TxOut, Transaction}
use bullbitcoin_rnd.Bitcoin.SwapScript.{
  refund_script, claim_script, musig_keyagg_cache, taproot_spendinfo, verify_funding,
  verify_address,
}
use bullbitcoin_rnd.Bitcoin.Utxos.{Utxo, GetHistoryRes, fetch_utxos_core}
use bullbitcoin_rnd.Bitcoin.Utxos.Spec.{IsUnspent}
use bullbitcoin_rnd.Bitcoin.Utxos.Kept.{fetch_utxos_core-IsUnspent}
use bullbitcoin_rnd.Bitcoin.SwapTx.{BtcSwapTx, unsigned_input, sign_inputs}
use bullbitcoin_rnd.Bitcoin.Claim.{create_claim, claim_by_script}
use bullbitcoin_rnd.Bitcoin.Claim.Value.{create_claim-output, create_claim-overdrawn}
use bullbitcoin_rnd.Bitcoin.Refund.{
  create_refund, refund_by_script, total_from, refund_refusal, refund_witness_at,
}
use bullbitcoin_rnd.Bitcoin.Refund.Drafted.{outpoints}
use bullbitcoin_rnd.Bitcoin.Refund.Built.{create_refund-conserves, create_refund-overdrawn}
use bullbitcoin_rnd.Tests.Hashes.{secret, secret_preimage}
use bullbitcoin_rnd.Tests.Scripts.{decode, alice}
use bullbitcoin_rnd.Tests.Crates.{reverse_script, submarine_script, reverse_lib, submarine_lib}

abbrev pub first_utxo : Utxo
first_utxo = record {
  outpoint = record { txid = 21 ∷ []; vout = 0 };
  txout = record { value = 30000; script_pubkey = 77 ∷ [] };
}

abbrev pub second_utxo : Utxo
second_utxo = record {
  outpoint = record { txid = 22 ∷ []; vout = 3 };
  txout = record { value = 20000; script_pubkey = 77 ∷ [] };
}

abbrev pub claim_swap : BtcSwapTx
claim_swap = record {
  kind = SwapTxKind.claim;
  swap_script = reverse_script;
  output_address = record { text = "110" };
  utxos = first_utxo ∷ [];
}

abbrev pub refund_swap : BtcSwapTx
refund_swap = record {
  kind = SwapTxKind.refund;
  swap_script = submarine_script;
  output_address = record { text = "110" };
  utxos = first_utxo ∷ second_utxo ∷ [];
}

-- The transaction of a result that is one.
abbrev pub transaction : Result Transaction → Transaction
transaction (ok tx) = tx
transaction _ = record { version = 0; lock_time = 0; input = []; output = [] }

abbrev pub claimed : ℕ → Transaction
claimed fee = transaction (create_claim reverse_lib claim_swap alice secret_preimage fee false)

pub claimed_within :
    create_claim reverse_lib claim_swap alice secret_preimage 300 false ≡ ok (claimed 300)
unfolding create_claim claim_by_script claim_script taproot_spendinfo verify_funding verify_address
    musig_keyagg_cache decode bytes_eq
claimed_within = refl

create_claim-output_example :
    (out : TxOut) × ((claimed 300).output ≡ out ∷ [])
    × (out.value + 300 ≡ 30000)
    × (out.script_pubkey ≡ reverse_lib.script_pubkey claim_swap.output_address)
    × (map (λ i. i.previous_output) (claimed 300).input ≡ first_utxo.outpoint ∷ [])
create_claim-output_example =
    create_claim-output reverse_lib claim_swap alice secret_preimage 300 false first_utxo
      (claimed 300) refl (omega arith) (omega arith) claimed_within

create_claim-overdrawn_example :
    (tx : Transaction) × (out : TxOut) × (create_claim reverse_lib claim_swap alice secret_preimage
        40000 true
      ≡ ok tx)
    × (tx.output ≡ out ∷ [])
    × (30000 < out.value)
create_claim-overdrawn_example =
    create_claim-overdrawn reverse_lib claim_swap alice secret_preimage 40000 first_utxo secret refl
      refl (omega arith) (omega arith)

abbrev pub refunded : Transaction
refunded = transaction (create_refund submarine_lib refund_swap alice 500 false)

pub refund_built : create_refund submarine_lib refund_swap alice 500 false ≡ ok refunded
unfolding create_refund total_from find_lock_time bytes_to_u32_little_endian refund_script
    refund_by_script taproot_spendinfo verify_funding verify_address musig_keyagg_cache
    refund_witness_at sign_inputs decode bytes_eq
refund_built = refl

create_refund-conserves_example :
    (out : TxOut) × (refunded.output ≡ out ∷ [])
    × (out.value + 500 ≡ 50000)
    × (500 < 50000)
    × (out.script_pubkey ≡ submarine_lib.script_pubkey refund_swap.output_address)
    × (outpoints refunded.input ≡ first_utxo.outpoint ∷ second_utxo.outpoint ∷ [])
create_refund-conserves_example =
    create_refund-conserves submarine_lib refund_swap alice 500 false refunded refund_built

create_refund-overdrawn_example :
    create_refund submarine_lib refund_swap alice 50000 true
    ≡ err (Error.generic (refund_refusal submarine_lib 50000 50000))
create_refund-overdrawn_example =
    create_refund-overdrawn submarine_lib refund_swap alice 50000 true (omega arith) (omega arith)

-- A lockup transaction with one output to the script, and a confirmed one that spends another.
abbrev lockup : Transaction
lockup = record {
  version = 2;
  lock_time = 1;
  input = unsigned_input (record { txid = 5 ∷ []; vout = 1 }) 0 ∷ [];
  output =
      record { value = 100; script_pubkey = 66 ∷ [] }
      ∷ record { value = 200; script_pubkey = 77 ∷ [] }
      ∷ [];
}

abbrev history : List GetHistoryRes
history = record { tx_hash = 1 ∷ []; height = pos 7 } ∷ []

abbrev locked : Utxo
locked = record {
  outpoint = record { txid = 1 ∷ []; vout = 1 };
  txout = record { value = 200; script_pubkey = 77 ∷ [] };
}

fetch_utxos_core-IsUnspent_example :
    Occurs locked (fetch_utxos_core reverse_lib (lockup ∷ []) history (77 ∷ []))
    ↔ IsUnspent reverse_lib (lockup ∷ []) history (77 ∷ []) locked
fetch_utxos_core-IsUnspent_example =
    fetch_utxos_core-IsUnspent reverse_lib (lockup ∷ []) history (77 ∷ []) locked
