-- ===== src/Tests/Scripts.antt =====
-- A script format in which a push is a marker and its shifted bytes: the crates behind the scripts.
use bullbitcoin_rnd.Base.{
  ℕ, ◌+◌, ◌-◌, ◌≡◌, refl, ap, arith, Option, some, List, [], ◌∷◌, map, Bytes, All, replicate, ltb,
  ◌==◌, String, str_eq, if◌then◌else◌,
}
use bullbitcoin_rnd.Error.{Error}
use bullbitcoin_rnd.Result.{Result, ok, err}
use bullbitcoin_rnd.Boltz.Types.{SwapTree, SwapType}
use bullbitcoin_rnd.Script.Instruction.{
  Script, Opcode, Instruction, push_bytes, op, ScriptLib, ScriptLaws, IsPlain,
}
use bullbitcoin_rnd.Script.Tree.{read_tree, claim_instructions, refund_instructions}
use bullbitcoin_rnd.Script.ReadBack.{read_tree_lem}
use bullbitcoin_rnd.Script.Consensus.{script_number}
use bullbitcoin_rnd.Tests.Hashes.{pad, length-pad}

abbrev pub code_of : Opcode → ℕ
code_of Opcode.op_0notequal = 1
code_of Opcode.op_hash160 = 2
code_of Opcode.op_equalverify = 3
code_of Opcode.op_checksig = 4
code_of Opcode.op_size = 5
code_of Opcode.op_checksigverify = 6
code_of Opcode.op_cltv = 7
code_of Opcode.op_0 = 8
code_of (Opcode.other n) = 9

abbrev pub opcode_of : ℕ → Opcode
opcode_of n =
    if n == 1
    then Opcode.op_0notequal
    else if n == 2
    then Opcode.op_hash160
    else if n == 3
    then Opcode.op_equalverify
    else if n == 4
    then Opcode.op_checksig
    else if n == 5
    then Opcode.op_size
    else if n == 6
    then Opcode.op_checksigverify
    else if n == 7
    then Opcode.op_cltv
    else Opcode.op_0

abbrev pub shifted : Bytes → Script → Script
shifted [] s = s
shifted (b ∷ bs) s = (b + 20) ∷ shifted bs s

abbrev pub encode_one : Instruction → Script → Script
encode_one (push_bytes bs) s = 10 ∷ shifted bs s
encode_one (op o) s = code_of o ∷ s

abbrev pub encode : List Instruction → Script
encode [] = []
encode (i ∷ is) = encode_one i (encode is)

-- The bytes of a push that is still open, and the instructions behind it.
pub record Parsed : Type 0 where
  pub open_bytes : Bytes
  pub instructions : List (Option Instruction)

abbrev pub parse_one : ℕ → Parsed → Parsed
parse_one x p =
    if ltb 19 x
    then record { open_bytes = (x - 20) ∷ p.open_bytes; instructions = p.instructions }
    else if x == 10
    then record { open_bytes = []; instructions = some (push_bytes p.open_bytes) ∷ p.instructions }
    else record { open_bytes = []; instructions = some (op (opcode_of x)) ∷ p.instructions }

unfoldable pub parse : Script → Parsed
parse [] = record { open_bytes = []; instructions = [] }
parse (x ∷ xs) = parse_one x (parse xs)

unfoldable pub decode : Script → List (Option Instruction)
unfolding parse
decode s = (parse s).instructions

parse-shifted :
    (bs : Bytes) (s : Script)
    → (parse s).open_bytes ≡ []
    → parse (shifted bs s) ≡ record { open_bytes = bs; instructions = (parse s).instructions }
unfolding parse
parse-shifted [] s h =
    ap (λ bs. record { open_bytes = bs; instructions = (parse s).instructions }) h
parse-shifted (b ∷ bs) s h = rw (parse-shifted bs s h) (ground arith)

parse-encode :
    (is : List Instruction)
    → All IsPlain is
    → parse (encode is) ≡ record { open_bytes = []; instructions = map some is }
unfolding parse
parse-encode [] h = refl
parse-encode (push_bytes bs ∷ is) (_, h) =
    let later = parse-encode is h in
    rw (parse-shifted bs (encode is) (ap (λ p. p.open_bytes) later)) (rw later refl)
parse-encode (op Opcode.op_0notequal ∷ is) (here, h) = rw (parse-encode is h) refl
parse-encode (op Opcode.op_hash160 ∷ is) (here, h) = rw (parse-encode is h) refl
parse-encode (op Opcode.op_equalverify ∷ is) (here, h) = rw (parse-encode is h) refl
parse-encode (op Opcode.op_checksig ∷ is) (here, h) = rw (parse-encode is h) refl
parse-encode (op Opcode.op_size ∷ is) (here, h) = rw (parse-encode is h) refl
parse-encode (op Opcode.op_checksigverify ∷ is) (here, h) = rw (parse-encode is h) refl
parse-encode (op Opcode.op_cltv ∷ is) (here, h) = rw (parse-encode is h) refl
parse-encode (op Opcode.op_0 ∷ is) (here, h) = absurd here
parse-encode (op (Opcode.other n) ∷ is) (here, h) = absurd here

-- `tree_hex` gives the scripts that the texts of a tree stand for.
abbrev pub scripts : (String → Result Script) → ScriptLib
scripts tree_hex = record {
  from_hex = tree_hex;
  instructions = decode;
  into_script = encode;
  push_int = λ n. push_bytes (script_number n);
  hash160_from_slice = λ bs. ok bs;
  x_only = pad 32;
}

pub scripts-laws : (tree_hex : String → Result Script) → ScriptLaws (scripts tree_hex)
unfolding decode
scripts-laws tree_hex = record {
  instructions-into_script = λ is h. ap (λ p. p.instructions) (parse-encode is h);
  push_int-IsPushOf = λ n low high. record {
    bytes = script_number n;
    is_push = refl;
    all_bytes = ground arith;
    short = ground arith;
    spells = ground arith;
  };
  hash160_from_slice-twenty = λ bs h. refl;
  length-x_only = length-pad 32;
}

abbrev pub lock : Bytes
lock = 5 ∷ replicate 19 9

abbrev pub alice : Bytes
alice = 2 ∷ 1 ∷ []

abbrev pub bob : Bytes
bob = 3 ∷ 4 ∷ []

-- The texts "claim" and "refund" are the scripts of a swap of this type that locks until 800000.
abbrev pub tree_hex : SwapType → Bytes → Bytes → String → Result Script
tree_hex t receiver sender s =
    let lib = scripts (λ s. err (Error.hex s)) in
    if str_eq s "claim"
    then ok (encode (claim_instructions lib t lock receiver))
    else if str_eq s "refund"
    then ok (encode (refund_instructions lib sender 800000))
    else err (Error.hex "odd")

abbrev pub tree : SwapTree
tree = record {
  claim_leaf = record { output = "claim"; version = 192 };
  refund_leaf = record { output = "refund"; version = 192 };
}

read_tree_lem_example :
    read_tree (scripts (tree_hex SwapType.chain alice bob)) Opcode.op_0notequal tree
    ≡ ok (record { hashlock = lock; timelock = 800000 })
read_tree_lem_example =
    read_tree_lem (scripts (tree_hex SwapType.chain alice bob))
      (scripts-laws (tree_hex SwapType.chain alice bob)) Opcode.op_0notequal SwapType.chain lock
      alice bob 800000 tree refl refl (omega arith) (omega arith) refl refl
