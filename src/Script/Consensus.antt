-- ===== src/Script/Consensus.antt =====
-- What a swap script promises: the rules of Bitcoin and Liquid (BIP 65, BIP 342 and the script
-- numbers) for the operations that `claim_script` and `refund_script` use. The rules are not code of
-- the repository; they are the specification that its scripts and witnesses are held against. The
-- limit of 520 bytes on an element of the stack is left out: no element of a swap comes near it.
pub mod Numbers
pub mod Claim
pub mod Refund
pub mod Witness
use bullbitcoin_rnd.Base.{
  ℕ, ◌/◌, ◌%◌, ◌^◌, Bool, true, false, not, ◌&&◌, ◌||◌, Option, none, some, List, [], ◌∷◌, Bytes,
  bytes_eq, length, get_last?, is_empty, ltb, leb, ◌==◌, if◌then◌else◌,
}
use bullbitcoin_rnd.Script.Instruction.{
  Opcode, Instruction, push_bytes, op, Script, ScriptLib, le_value,
}

-- What a script can see of the spend: the hash function, the test of a signature of the input for
-- an x-only key, which no empty signature passes, and two fields of the transaction.
pub record Spend : Type 0 where
  pub hash160 : Bytes → Bytes
  pub check_sig : Bytes → Bytes → Bool
  pub lock_time : ℕ
  pub sequence : ℕ

-- A number in as few bytes as it needs, lowest first, with room for a sign bit; up to 2 ^ 39.
abbrev pub script_number : ℕ → Bytes
script_number n =
    if n == 0
    then []
    else if ltb n (2 ^ 7)
    then n ∷ []
    else if ltb n (2 ^ 15)
    then n % 256 ∷ n / 256 ∷ []
    else if ltb n (2 ^ 23)
    then n % 256 ∷ n / 256 % 256 ∷ n / 2 ^ 16 ∷ []
    else if ltb n (2 ^ 31)
    then n % 256 ∷ n / 256 % 256 ∷ n / 2 ^ 16 % 256 ∷ n / 2 ^ 24 ∷ []
    else n % 256 ∷ n / 256 % 256 ∷ n / 2 ^ 16 % 256 ∷ n / 2 ^ 24 % 256 ∷ n / 2 ^ 32 ∷ []

-- The sign bit is that of the last byte.
abbrev pub is_negative : Bytes → Bool
is_negative bytes = elim (get_last? bytes) [ none ↦ false | some b ↦ leb 128 b ]

abbrev pub read_number : Bytes → Option ℕ
read_number bytes =
    if ltb (length bytes) 6 && not (is_negative bytes) then some (le_value bytes) else none

-- Zero is false, with either sign.
abbrev pub is_true : Bytes → Bool
is_true [] = false
is_true (b ∷ []) = not (b == 0) && not (b == 128)
is_true (b ∷ c ∷ bytes) = not (b == 0) || is_true (c ∷ bytes)

-- A lock time below this is a height, and the others are times.
abbrev pub is_height : ℕ → Bool
is_height n = ltb n 500000000

abbrev pub same_kind : ℕ → ℕ → Bool
same_kind a b = if is_height a then is_height b else not (is_height b)

-- OP_CHECKLOCKTIMEVERIFY: the transaction waits for the lock time, and is not final.
abbrev pub is_unlocked : Spend → ℕ → Bool
is_unlocked spend n =
    same_kind n spend.lock_time && leb n spend.lock_time && not (spend.sequence == 0xffff_ffff)

abbrev unlocked_at : Spend → Option ℕ → Bool
unlocked_at spend none = false
unlocked_at spend (some n) = is_unlocked spend n

-- OP_CHECKSIG: a signature that is neither valid nor empty ends the run.
abbrev checked : Bool → Bytes → List Bytes → Option (List Bytes)
checked true sig stack = some ((1 ∷ []) ∷ stack)
checked false sig stack = if is_empty sig then some ([] ∷ stack) else none

-- One operation on the stack, its top first; `none` where the run fails, and for any operation that
-- the swap scripts do not use.
unfoldable pub step : Spend → Instruction → List Bytes → Option (List Bytes)
unfolding bytes_eq
step spend (push_bytes bytes) stack = some (bytes ∷ stack)
step spend (op Opcode.op_size) (x ∷ stack) = some (script_number (length x) ∷ x ∷ stack)
step spend (op Opcode.op_equalverify) (x ∷ y ∷ stack) = if bytes_eq x y then some stack else none
step spend (op Opcode.op_hash160) (x ∷ stack) = some (spend.hash160 x ∷ stack)
step spend (op Opcode.op_checksig) (key ∷ sig ∷ stack) = checked (spend.check_sig sig key) sig stack
step spend (op Opcode.op_checksigverify) (key ∷ sig ∷ stack) =
    if spend.check_sig sig key then some stack else none
step spend (op Opcode.op_cltv) (n ∷ stack) =
    if unlocked_at spend (read_number n) then some (n ∷ stack) else none
step spend _ _ = none

unfoldable pub run : Spend → List Instruction → Option (List Bytes) → Option (List Bytes)
run spend code none = none
run spend [] (some stack) = some stack
run spend (i ∷ code) (some stack) = run spend code (step spend i stack)

-- The run leaves one value, and it is true.
abbrev pub is_success : Option (List Bytes) → Bool
is_success (some (x ∷ [])) = is_true x
is_success _ = false

abbrev pub accepts : Spend → List Instruction → List Bytes → Bool
accepts spend code stack = is_success (run spend code (some stack))

-- Every instruction that parses.
abbrev pub parsed : List (Option Instruction) → Option (List Instruction)
parsed [] = some []
parsed (none ∷ code) = none
parsed (some i ∷ code) = elim (parsed code) [ none ↦ none | some is ↦ some (i ∷ is) ]

-- A witness of the script path ends in the script and its control block; what is before them is the
-- stack, its top last.
abbrev pub revealed : List Bytes → List Bytes → Option (List Bytes × Script)
revealed stack [] = none
revealed stack (item ∷ []) = none
revealed stack (script ∷ control_block ∷ []) = some (stack, script)
revealed stack (item ∷ next ∷ more ∷ items) = revealed (item ∷ stack) (next ∷ more ∷ items)

abbrev accepts_parsed : Spend → List Bytes → Option (List Instruction) → Bool
accepts_parsed spend stack none = false
accepts_parsed spend stack (some code) = accepts spend code stack

abbrev runs_revealed : ScriptLib → Spend → Option (List Bytes × Script) → Bool
runs_revealed lib spend none = false
runs_revealed lib spend (some (stack, script)) =
    accepts_parsed spend stack (parsed (lib.instructions script))

-- The witness satisfies the script that it reveals.
unfoldable pub satisfies : ScriptLib → Spend → List Bytes → Bool
satisfies lib spend witness = runs_revealed lib spend (revealed [] witness)
