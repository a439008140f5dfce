-- ===== src/Bitcoin/SwapTx.antt =====
-- `BtcSwapTx`, and what its claim and refund transactions share.
pub mod Loop
use bullbitcoin_rnd.Base.{ℕ, zero, suc, ◌+◌, ◌-◌, ◌%◌, ◌^◌, List, [], ◌∷◌, Bytes, replicate}
use bullbitcoin_rnd.Result.{Result, ok, ◌>>=◌}
use bullbitcoin_rnd.Boltz.Types.{SwapTxKind}
use bullbitcoin_rnd.Bitcoin.Crate.{Address, OutPoint, TxIn, Transaction}
use bullbitcoin_rnd.Bitcoin.SwapScript.{BtcSwapScript}
use bullbitcoin_rnd.Bitcoin.Utxos.{Utxo}

pub record BtcSwapTx : Type 0 where
  pub kind : SwapTxKind
  pub swap_script : BtcSwapScript
  pub output_address : Address
  pub utxos : List Utxo

-- The sequence numbers that the crate names.
abbrev pub sequence_max : ℕ
sequence_max = 0xffff_ffff

abbrev pub enable_rbf_no_locktime : ℕ
enable_rbf_no_locktime = 0xffff_fffd

-- `a - b` on `u64`, in a build without overflow checks.
abbrev pub sub_u64 : ℕ → ℕ → ℕ
sub_u64 a b = (a + 2 ^ 64 - b) % 2 ^ 64

-- A signature of 64 bytes, all zero, in place of the one that the key path will have.
abbrev pub stubbed_cooperative_witness : List Bytes
stubbed_cooperative_witness = replicate 64 0 ∷ []

-- An input that spends an outpoint, still without a witness.
abbrev pub unsigned_input : OutPoint → ℕ → TxIn
unsigned_input outpoint sequence = record {
  previous_output = outpoint;
  sequence = sequence;
  script_sig = [];
  witness = [];
}

abbrev pub put_witness : ℕ → List Bytes → List TxIn → List TxIn
put_witness i witness [] = []
put_witness zero witness (input ∷ inputs) = record input { witness = witness } ∷ inputs
put_witness (suc i) witness (input ∷ inputs) = input ∷ put_witness i witness inputs

-- `tx.input[i].witness = witness`
abbrev pub set_witness : ℕ → List Bytes → Transaction → Transaction
set_witness i witness tx = record tx { input = put_witness i witness tx.input }

-- `for input_index in 0..tx.input.len()` with a witness that each round makes from the transaction
-- as the rounds before have left it: the rounds that are left, from `input_index` on.
unfoldable pub sign_inputs :
    (ℕ → Transaction → Result (List Bytes)) → ℕ → ℕ → Transaction → Result Transaction
sign_inputs witness_at zero input_index tx = ok tx
sign_inputs witness_at (suc n) input_index tx = do
  witness ← witness_at input_index tx
  sign_inputs witness_at n (suc input_index) (set_witness input_index witness tx)
