-- ===== src/Script/Consensus/Refund.antt =====
-- Which stacks satisfy the refund script, and when.
use bullbitcoin_rnd.Base.{ℕ, ◌^◌, ◌<◌, ◌≡◌, ◌↔◌, refl, arith, true, List, [], ◌∷◌, Bytes}
use bullbitcoin_rnd.Boltz.Types.{PublicKey}
use bullbitcoin_rnd.Script.Instruction.{push_bytes, ScriptLib}
use bullbitcoin_rnd.Script.Tree.{refund_instructions}
use bullbitcoin_rnd.Script.Consensus.{Spend, step, run, accepts, is_unlocked, script_number}
use bullbitcoin_rnd.Script.Consensus.Numbers.{
  PushLaw, read_number-script_number, is_true-script_number,
}

module _ (lib : ScriptLib) (spend : Spend) (sender : PublicKey) (locktime : ℕ) where
  -- One signature by the sender, in a transaction that waits for the lock time and is not final.
  pub record IsRefundStack (stack : List Bytes) : Type 0 where
    pub signature : Bytes
    pub is_stack : stack ≡ signature ∷ []
    pub is_signed : spend.check_sig signature (lib.x_only sender) ≡ true
    pub is_late : is_unlocked spend locktime ≡ true

  module _ (law : PushLaw lib) (low : 16 < locktime) (high : locktime < 2 ^ 31) where
    push : lib.push_int locktime ≡ push_bytes (script_number locktime)
    push = law locktime low high

    refund-IsRefundStack :
        (stack : List Bytes)
        → accepts spend (refund_instructions lib sender locktime) stack ≡ true
        → IsRefundStack stack
    unfolding run step
    refund-IsRefundStack [] e = ground (arith, e)
    refund-IsRefundStack (sig ∷ []) e = record {
      signature = sig;
      is_stack = refl;
      is_signed = ground (arith, e, push);
      is_late = ground (arith, e, push, read_number-script_number locktime low high);
    }
    refund-IsRefundStack (sig ∷ more ∷ stack) e =
        ground (arith, e, push, read_number-script_number locktime low high)

    refund-accepts :
        (stack : List Bytes)
        → IsRefundStack stack
        → accepts spend (refund_instructions lib sender locktime) stack ≡ true
    unfolding run step
    refund-accepts stack h = rw h.is_stack (
        ground (
          arith,
          push,
          h.is_signed,
          h.is_late,
          read_number-script_number locktime low high,
          is_true-script_number locktime low high,
        ))

    -- The refund script is satisfied exactly by a stack of one signature that is valid for the
    -- sender's key, in a transaction whose own lock time is of the same kind (a height or a time) and
    -- no earlier than that of the script, by an input that is not final. The lock time of the script
    -- is above 16 and below 2 ^ 31, and the law is that a number is pushed as a script number.
    pub refund_instructions-accepts_iff :
        (stack : List Bytes)
        → (accepts spend (refund_instructions lib sender locktime) stack ≡ true)
          ↔ IsRefundStack stack
    refund_instructions-accepts_iff stack = (refund-IsRefundStack stack, refund-accepts stack)
