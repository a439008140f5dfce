-- ===== src/Liquid/SwapTx.antt =====
-- `LBtcSwapTx`: a claim or a refund of the one output that funds a Liquid swap, and the shape of its
-- transactions.
use bullbitcoin_rnd.Base.{ℕ, false, none, List, [], ◌∷◌, Bytes, replicate}
use bullbitcoin_rnd.Result.{Result, ok, panic}
use bullbitcoin_rnd.Boltz.Types.{SwapTxKind}
use bullbitcoin_rnd.Liquid.Crate.{Address, OutPoint, TxIn, TxInWitness, TxOut, Transaction}
use bullbitcoin_rnd.Liquid.SwapScript.{LBtcSwapScript}

-- The genesis hash goes into each signature hash.
pub record LBtcSwapTx : Type 0 where
  pub kind : SwapTxKind
  pub swap_script : LBtcSwapScript
  pub output_address : Address
  pub funding_outpoint : OutPoint
  pub funding_utxo : TxOut
  pub genesis_hash : Bytes

-- `TxInWitness { …, script_witness: script_witness.to_vec(), … }`; the default has no items.
abbrev pub script_witness : List Bytes → TxInWitness
script_witness items = record {
  amount_rangeproof = none;
  inflation_keys_rangeproof = none;
  script_witness = items;
  pegin_witness = [];
}

-- A signature of 64 bytes, all zero, in place of the one that the key path will have.
abbrev pub stubbed_cooperative_witness : TxInWitness
stubbed_cooperative_witness = script_witness (replicate 64 0 ∷ [])

abbrev pub funding_input : LBtcSwapTx → ℕ → TxIn
funding_input self sequence = record {
  previous_output = self.funding_outpoint;
  is_pegin = false;
  script_sig = [];
  sequence = sequence;
  asset_issuance = none;
  witness = script_witness [];
}

-- The transaction that spends the funding output, still without a witness.
abbrev pub unsigned_spend : LBtcSwapTx → ℕ → ℕ → List TxOut → Transaction
unsigned_spend self sequence lock_time outputs = record {
  version = 2;
  lock_time = lock_time;
  input = funding_input self sequence ∷ [];
  output = outputs;
}

-- `tx.input[0].witness = witness`
abbrev pub set_first : TxInWitness → Transaction → List TxIn → Result Transaction
set_first witness tx [] = panic "index out of bounds: the len is 0 but the index is 0"
set_first witness tx (input ∷ inputs) =
    ok (record tx { input = record input { witness = witness } ∷ inputs })

abbrev pub set_witness : TxInWitness → Transaction → Result Transaction
set_witness witness tx = set_first witness tx tx.input

-- The same transaction once its one input has a witness.
abbrev pub spend : LBtcSwapTx → ℕ → ℕ → List TxOut → TxInWitness → Transaction
spend self sequence lock_time outputs witness =
    record (unsigned_spend self sequence lock_time outputs) {
      input = record (funding_input self sequence) { witness = witness } ∷ [];
    }
