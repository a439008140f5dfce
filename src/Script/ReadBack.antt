-- ===== src/Script/ReadBack.antt =====
-- `read_tree` on the scripts that `claim_script` and `refund_script` build.
use bullbitcoin_rnd.Base.{ℕ, ◌^◌, ◌<◌, ◌≡◌, arith, false, none, some, map, Bytes, length, All}
use bullbitcoin_rnd.Result.{ok}
use bullbitcoin_rnd.Boltz.Types.{PublicKey, SwapTree, SwapType}
use bullbitcoin_rnd.Script.Instruction.{
  Opcode, is_checksigverify, ScriptLib, ScriptLaws, IsPushOf, IsPlain,
}
use bullbitcoin_rnd.Script.LittleEndian.{bytes_to_u32_little_endian-eq}
use bullbitcoin_rnd.Script.Tree.{
  claim_loop, refund_loop, read_tree, claim_instructions, refund_instructions,
}

module _ (lib : ScriptLib) (laws : ScriptLaws lib) where
  open laws use {push_int-IsPushOf, hash160_from_slice-twenty, length-x_only}

  size_push : IsPushOf 32 (lib.push_int 32)
  size_push = push_int-IsPushOf 32 (omega arith) (omega arith)

  pub claim_instructions-IsPlain :
      (t : SwapType) (hashlock : Bytes) (receiver : PublicKey)
      → length hashlock ≡ 20
      → All IsPlain (claim_instructions lib t hashlock receiver)
  claim_instructions-IsPlain SwapType.submarine hashlock receiver h =
      omega (arith, length-x_only receiver)
  claim_instructions-IsPlain _ hashlock receiver h =
      rw size_push.is_push (omega (arith, length-x_only receiver, size_push.short))

  pub refund_instructions-IsPlain :
      (sender : PublicKey) (locktime : ℕ)
      → 16 < locktime
      → locktime < 2 ^ 31
      → All IsPlain (refund_instructions lib sender locktime)
  refund_instructions-IsPlain sender locktime low high =
      let push = push_int-IsPushOf locktime low high in
      rw push.is_push (omega (arith, length-x_only sender, push.short))

  pub claim_loop-claim_instructions :
      (t : SwapType) (hashlock : Bytes) (receiver : PublicKey)
      → length hashlock ≡ 20
      → claim_loop lib (map some (claim_instructions lib t hashlock receiver)) none
        ≡ ok (some hashlock)
  unfolding claim_loop
  claim_loop-claim_instructions SwapType.submarine hashlock receiver h =
      ground (arith, hash160_from_slice-twenty hashlock, length-x_only receiver)
  claim_loop-claim_instructions _ hashlock receiver h = ground (
    arith,
    hash160_from_slice-twenty hashlock,
    length-x_only receiver,
    size_push.is_push,
    size_push.short,
    size_push.spells,
  )

  pub refund_loop-refund_instructions :
      (first_op : Opcode) (sender : PublicKey) (locktime : ℕ)
      → is_checksigverify first_op ≡ false
      → 16 < locktime
      → locktime < 2 ^ 31
      → refund_loop (map some (refund_instructions lib sender locktime)) first_op none
        ≡ some locktime
  unfolding refund_loop
  refund_loop-refund_instructions first_op sender locktime f low high =
      let push = push_int-IsPushOf locktime low high in
      ground (
        arith,
        push.is_push,
        push.spells,
        bytes_to_u32_little_endian-eq push.bytes push.all_bytes push.short,
      )

  -- A tree whose leaves hold the two scripts is read as the locks that they were built from: the hash
  -- has 20 bytes, the lock time is above 16 and below 2 ^ 31, the operation that the loop starts with
  -- is not OP_CHECKSIGVERIFY, and the script functions keep their documented laws.
  pub read_tree_lem :
      (first_op : Opcode) (t : SwapType) (hashlock : Bytes) (receiver sender : PublicKey)
      (locktime : ℕ) (tree : SwapTree)
      → is_checksigverify first_op ≡ false
      → length hashlock ≡ 20
      → 16 < locktime
      → locktime < 2 ^ 31
      → lib.from_hex tree.claim_leaf.output
        ≡ ok (lib.into_script (claim_instructions lib t hashlock receiver))
      → lib.from_hex tree.refund_leaf.output
        ≡ ok (lib.into_script (refund_instructions lib sender locktime))
      → read_tree lib first_op tree ≡ ok (record { hashlock = hashlock; timelock = locktime })
  unfolding read_tree
  read_tree_lem first_op t hashlock receiver sender locktime tree f h low high claim refund = rw (
    claim,
    refund,
    laws.instructions-into_script (claim_instructions lib t hashlock receiver)
        (claim_instructions-IsPlain t hashlock receiver h),
    laws.instructions-into_script (refund_instructions lib sender locktime)
        (refund_instructions-IsPlain sender locktime low high),
    claim_loop-claim_instructions t hashlock receiver h,
    refund_loop-refund_instructions first_op sender locktime f low high,
  )
