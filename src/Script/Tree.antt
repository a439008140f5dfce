-- ===== src/Script/Tree.antt =====
-- The two leaves of a swap tree: how the six `*_from_swap_resp` functions read them, and how the
-- claim and refund scripts are built.
use bullbitcoin_rnd.Base.{
  ℕ, true, false, Option, none, some, List, [], ◌∷◌, Bytes, length, ◌==◌, if◌then◌else◌,
}
use bullbitcoin_rnd.Error.{Error}
use bullbitcoin_rnd.Result.{Result, ok, ◌>>=◌, ok_or}
use bullbitcoin_rnd.Boltz.Types.{PublicKey, SwapTree, SwapType}
use bullbitcoin_rnd.Script.Instruction.{
  Opcode, Instruction, push_bytes, op, is_checksigverify, ScriptLib,
}
use bullbitcoin_rnd.Script.LittleEndian.{bytes_to_u32_little_endian}

pub record Locks : Type 0 where
  pub hashlock : Bytes
  pub timelock : ℕ

-- `for instruction in claim_instructions`: the last push of 20 bytes is the hash lock.
unfoldable pub claim_loop :
    ScriptLib → List (Option Instruction) → Option Bytes → Result (Option Bytes)
claim_loop lib [] hashlock = ok hashlock
claim_loop lib (some (push_bytes bytes) ∷ rest) hashlock = elim (length bytes == 20) [
  | true ↦ lib.hash160_from_slice bytes >>= λ hash. claim_loop lib rest (some hash)
  | false ↦ claim_loop lib rest hashlock
]
claim_loop lib (some (op opcode) ∷ rest) hashlock = claim_loop lib rest hashlock
claim_loop lib (none ∷ rest) hashlock = claim_loop lib rest hashlock

-- `for instruction in refund_instructions`: the last push behind OP_CHECKSIGVERIFY, with no other
-- opcode between, is the lock time.
unfoldable pub refund_loop : List (Option Instruction) → Opcode → Option ℕ → Option ℕ
refund_loop [] last_op timelock = timelock
refund_loop (some (op opcode) ∷ rest) last_op timelock = refund_loop rest opcode timelock
refund_loop (some (push_bytes bytes) ∷ rest) last_op timelock =
    refund_loop rest last_op
      (if is_checksigverify last_op then some (bytes_to_u32_little_endian bytes) else timelock)
refund_loop (none ∷ rest) last_op timelock = refund_loop rest last_op timelock

-- What all six functions begin with. Only the initial `last_op` differs: OP_0 for bitcoin and
-- OP_0NOTEQUAL for liquid.
unfoldable pub read_tree : ScriptLib → Opcode → SwapTree → Result Locks
read_tree lib first_op tree = do
  claim_script ← lib.from_hex tree.claim_leaf.output
  refund_script ← lib.from_hex tree.refund_leaf.output
  found ← claim_loop lib (lib.instructions claim_script) none
  let timelock = refund_loop (lib.instructions refund_script) first_op none
  hashlock ← ok_or found (Error.protocol "No hashlock provided")
  timelock ← ok_or timelock (Error.protocol "No timelock provided")
  ok (record { hashlock = hashlock; timelock = timelock })

-- What `claim_script` pushes, for each swap type.
abbrev pub claim_instructions : ScriptLib → SwapType → Bytes → PublicKey → List Instruction
claim_instructions lib SwapType.submarine hashlock receiver =
    op Opcode.op_hash160
    ∷ push_bytes hashlock
    ∷ op Opcode.op_equalverify
    ∷ push_bytes (lib.x_only receiver)
    ∷ op Opcode.op_checksig
    ∷ []
claim_instructions lib _ hashlock receiver =
    op Opcode.op_size
    ∷ lib.push_int 32
    ∷ op Opcode.op_equalverify
    ∷ op Opcode.op_hash160
    ∷ push_bytes hashlock
    ∷ op Opcode.op_equalverify
    ∷ push_bytes (lib.x_only receiver)
    ∷ op Opcode.op_checksig
    ∷ []

-- What `refund_script` pushes.
abbrev pub refund_instructions : ScriptLib → PublicKey → ℕ → List Instruction
refund_instructions lib sender locktime =
    push_bytes (lib.x_only sender)
    ∷ op Opcode.op_checksigverify
    ∷ lib.push_int locktime
    ∷ op Opcode.op_cltv
    ∷ []
