-- ===== src/Script/Consensus/Numbers.antt =====
-- Script numbers are read as they are written.
use bullbitcoin_rnd.Base.{ℕ, ◌^◌, ◌<◌, ◌≡◌, ◌↔◌, arith, true, some, bytes_eq, [], ◌∷◌}
use bullbitcoin_rnd.Script.Instruction.{ScriptLib, push_bytes}
use bullbitcoin_rnd.Script.Consensus.{script_number, read_number, is_true}

-- What the crates document: a number that has no opcode of its own is pushed as a script number.
abbrev pub PushLaw : ScriptLib → Type 0
PushLaw lib = (n : ℕ) → 16 < n → n < 2 ^ 31 → lib.push_int n ≡ push_bytes (script_number n)

pub read_number-script_number :
    (n : ℕ) → 16 < n → n < 2 ^ 31 → read_number (script_number n) ≡ some n
read_number-script_number n low high = ground arith

pub is_true-script_number : (n : ℕ) → 16 < n → n < 2 ^ 31 → is_true (script_number n) ≡ true
is_true-script_number n low high = ground arith

-- The number 32 has one byte, and no other has that one.
pub is_thirty_two_iff : (n : ℕ) → (bytes_eq (32 ∷ []) (script_number n) ≡ true) ↔ (n ≡ 32)
unfolding bytes_eq
is_thirty_two_iff n = ground arith
