-- ===== src/Script/Instruction.antt =====
-- Script instructions, and the script functions of the bitcoin and elements crates that the source
-- calls. Those crates are not part of the repository, so they are a record of functions, and what
-- the theorems rely on is a record of their documented laws.
use bullbitcoin_rnd.Base.{
  ℕ, ◌+◌, ◌*◌, ◌^◌, ◌<◌, ◌≡◌, Bool, true, false, Option, some, List, [], ◌∷◌, map, String, Bytes,
  IsByte, length, All,
}
use bullbitcoin_rnd.Result.{Result, ok}
use bullbitcoin_rnd.Boltz.Types.{PublicKey}

abbrev pub Script : Type 0
Script = Bytes

pub data Opcode : Type 0 where
  op_0 op_0notequal op_hash160 op_equalverify op_checksig op_size op_checksigverify op_cltv : Opcode
  other : ℕ → Opcode

pub data Instruction : Type 0 where
  push_bytes : Bytes → Instruction
  op : Opcode → Instruction

-- `opcode == OP_CHECKSIGVERIFY`
abbrev pub is_checksigverify : Opcode → Bool
is_checksigverify Opcode.op_checksigverify = true
is_checksigverify _ = false

-- `instructions` gives `none` where the crate's iterator gives an error.
pub record ScriptLib : Type 0 where
  pub from_hex : String → Result Script
  pub instructions : Script → List (Option Instruction)
  pub into_script : List Instruction → Script
  -- `push_int` (elements) and `push_lock_time` (bitcoin) of an unsigned number
  pub push_int : ℕ → Instruction
  pub hash160_from_slice : Bytes → Result Bytes
  -- `key.inner.x_only_public_key().0`, serialized
  pub x_only : PublicKey → Bytes

-- The number that a byte string spells, lowest byte first.
abbrev pub le_value : Bytes → ℕ
le_value [] = 0
le_value (b ∷ bs) = b + 256 * le_value bs

-- The instruction pushes at most four bytes, which spell the number.
pub record IsPushOf (n : ℕ) (i : Instruction) : Type 0 where
  pub bytes : Bytes
  pub is_push : i ≡ push_bytes bytes
  pub all_bytes : All IsByte bytes
  pub short : length bytes < 5
  pub spells : le_value bytes ≡ n

-- A direct push, or an opcode that is not itself a push.
abbrev pub IsPlain : Instruction → Type 0
IsPlain (push_bytes bs) = length bs < 76
IsPlain (op Opcode.op_0) = ⊥
IsPlain (op (Opcode.other n)) = ⊥
IsPlain (op _) = Unit

-- What the crates document: scripts read back as they were built, a script number of a value that
-- has no opcode of its own (above 16) and no sign bit to pad (below 2 ^ 31) is a push of its bytes,
-- `from_slice` takes 20 bytes, and an x-only key has 32 bytes.
pub record ScriptLaws (lib : ScriptLib) : Type 0 where
  pub instructions-into_script :
      (is : List Instruction) → All IsPlain is → lib.instructions (lib.into_script is) ≡ map some is
  pub push_int-IsPushOf : (n : ℕ) → 16 < n → n < 2 ^ 31 → IsPushOf n (lib.push_int n)
  pub hash160_from_slice-twenty : (bs : Bytes) → length bs ≡ 20 → lib.hash160_from_slice bs ≡ ok bs
  pub length-x_only : (k : PublicKey) → length (lib.x_only k) ≡ 32
