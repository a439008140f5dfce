-- ===== src/Script/Consensus/Witness.antt =====
-- The witnesses of the script path that satisfy the claim and the refund script.
use bullbitcoin_rnd.Base.{
  ℕ, ◌^◌, ◌<◌, ◌≡◌, refl, arith, true, some, List, [], ◌∷◌, map, Bytes, length,
}
use bullbitcoin_rnd.Boltz.Types.{PublicKey, SwapType}
use bullbitcoin_rnd.Script.Instruction.{Instruction, ScriptLib, ScriptLaws}
use bullbitcoin_rnd.Script.Tree.{claim_instructions, refund_instructions}
use bullbitcoin_rnd.Script.ReadBack.{claim_instructions-IsPlain, refund_instructions-IsPlain}
use bullbitcoin_rnd.Script.Consensus.{Spend, parsed, is_unlocked, satisfies}
use bullbitcoin_rnd.Script.Consensus.Numbers.{PushLaw}
use bullbitcoin_rnd.Script.Consensus.Claim.{HasSize, claim_instructions-accepts_iff}
use bullbitcoin_rnd.Script.Consensus.Refund.{refund_instructions-accepts_iff}

parsed-some : (code : List Instruction) → parsed (map some code) ≡ some code
parsed-some [] = refl
parsed-some (i ∷ code) = rw (parsed-some code) refl

-- A transaction that waits for exactly this lock time, with an input of sequence number zero.
pub is_unlocked-own :
    (spend : Spend) (locktime : ℕ)
    → spend.lock_time ≡ locktime
    → spend.sequence ≡ 0
    → is_unlocked spend locktime ≡ true
is_unlocked-own spend locktime waits opted = rw (waits, opted) (ground arith)

module _ (lib : ScriptLib) (laws : ScriptLaws lib) (law : PushLaw lib) (spend : Spend)
    (signature control_block : Bytes) where
  pub claim-satisfies :
      (t : SwapType) (hashlock preimage : Bytes) (receiver : PublicKey)
      → length hashlock ≡ 20
      → spend.hash160 preimage ≡ hashlock
      → HasSize t preimage
      → spend.check_sig signature (lib.x_only receiver) ≡ true
      → satisfies lib spend (
          signature
          ∷ preimage
          ∷ lib.into_script (claim_instructions lib t hashlock receiver)
          ∷ control_block
          ∷ [])
        ≡ true
  unfolding satisfies
  claim-satisfies t hashlock preimage receiver twenty hashes sized signs =
      let code = claim_instructions lib t hashlock receiver in
      let plain = claim_instructions-IsPlain lib laws t hashlock receiver twenty in
      rw (laws.instructions-into_script code plain, parsed-some code)
        ((claim_instructions-accepts_iff lib spend hashlock receiver law t
            (preimage ∷ signature ∷ [])).1
          (record {
            preimage = preimage;
            signature = signature;
            is_stack = refl;
            is_preimage = hashes;
            has_size = sized;
            is_signed = signs;
          }))

  pub refund-satisfies :
      (sender : PublicKey) (locktime : ℕ)
      → 16 < locktime
      → locktime < 2 ^ 31
      → spend.check_sig signature (lib.x_only sender) ≡ true
      → is_unlocked spend locktime ≡ true
      → satisfies lib spend (
          signature
          ∷ lib.into_script (refund_instructions lib sender locktime)
          ∷ control_block
          ∷ [])
        ≡ true
  unfolding satisfies
  refund-satisfies sender locktime low high signs late =
      let code = refund_instructions lib sender locktime in
      let plain = refund_instructions-IsPlain lib laws sender locktime low high in
      rw (laws.instructions-into_script code plain) (
        (refund_instructions-accepts_iff lib spend sender locktime law low high (signature ∷ [])).1
          (record { signature = signature; is_stack = refl; is_signed = signs; is_late = late }))
