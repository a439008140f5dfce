-- ===== src/Script/LockTime.antt =====
-- How `create_refund`, of src/swaps/bitcoin.rs and of src/swaps/liquid.rs, finds the lock time in
-- the refund script.
use bullbitcoin_rnd.Base.{
  ℕ, ◌^◌, ◌<◌, ◌≡◌, arith, Option, none, some, List, [], ◌∷◌, map, length, ltb, if◌then◌else◌,
}
use bullbitcoin_rnd.Error.{Error}
use bullbitcoin_rnd.Result.{Result, ok, err, panic}
use bullbitcoin_rnd.Boltz.Types.{PublicKey}
use bullbitcoin_rnd.Script.Instruction.{Instruction, push_bytes, op, ScriptLib, ScriptLaws}
use bullbitcoin_rnd.Script.LittleEndian.{bytes_to_u32_little_endian, bytes_to_u32_little_endian-eq}
use bullbitcoin_rnd.Script.Tree.{refund_instructions}
use bullbitcoin_rnd.Script.ReadBack.{refund_instructions-IsPlain}

-- The first push of less than five bytes. An instruction that does not parse panics, if the
-- iterator comes to it.
unfoldable pub find_lock_time : List (Option Instruction) → Result ℕ
find_lock_time [] = err (Error.protocol "Error getting timelock from refund script")
find_lock_time (none ∷ rest) = panic "called `Result::unwrap()` on an `Err` value"
find_lock_time (some (op opcode) ∷ rest) = find_lock_time rest
find_lock_time (some (push_bytes bytes) ∷ rest) =
    let later = find_lock_time rest in
    if ltb (length bytes) 5 then ok (bytes_to_u32_little_endian bytes) else later

find_lock_time-refund_instructions :
    (lib : ScriptLib) (laws : ScriptLaws lib) (sender : PublicKey) (locktime : ℕ)
    → 16 < locktime
    → locktime < 2 ^ 31
    → find_lock_time (map some (refund_instructions lib sender locktime)) ≡ ok locktime
unfolding find_lock_time
find_lock_time-refund_instructions lib laws sender locktime low high =
    let push = laws.push_int-IsPushOf locktime low high in
    ground (
      arith,
      laws.length-x_only sender,
      push.is_push,
      push.short,
      push.spells,
      bytes_to_u32_little_endian-eq push.bytes push.all_bytes push.short,
    )

pub find_lock_time-into_script :
    (lib : ScriptLib) (laws : ScriptLaws lib) (sender : PublicKey) (locktime : ℕ)
    → 16 < locktime
    → locktime < 2 ^ 31
    → find_lock_time (lib.instructions (lib.into_script (refund_instructions lib sender locktime)))
      ≡ ok locktime
find_lock_time-into_script lib laws sender locktime low high =
    rw
      (laws.instructions-into_script (refund_instructions lib sender locktime)
        (refund_instructions-IsPlain lib laws sender locktime low high))
      (find_lock_time-refund_instructions lib laws sender locktime low high)
