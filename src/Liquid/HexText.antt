-- ===== src/Liquid/HexText.antt =====
-- `hex_to_bytes` of src/swaps/liquid.rs, and the functions of the standard library that it calls.
pub mod RoundTrip
use Prim.Native.Char.{Char, code}
use Prim.Native.String.{String, [] as nil, ◌∷◌ as ◌∷ₛ◌}
use bullbitcoin_rnd.Base.{
  ℕ, ◌+◌, ◌-◌, ◌*◌, ◌%◌, Bool, not, ◌&&◌, Option, none, some, [], ◌∷◌, ◌<>◌, Bytes, ltb, leb, ◌==◌,
  if◌then◌else◌,
}
use bullbitcoin_rnd.Error.{Error}
use bullbitcoin_rnd.Result.{Result, ok, err, panic, ◌>>=◌, ◌>>◌, fail_if, ok_or}

-- `c.len_utf8()`
abbrev pub len_utf8 : Char → ℕ
len_utf8 c =
    if ltb (code c) 0x80
    then 1
    else if ltb (code c) 0x800
    then 2
    else if ltb (code c) 0x1_0000
    then 3
    else 4

-- `hex_str.len()`, in bytes
unfoldable pub len : String → ℕ
len nil = 0
len (c ∷ₛ text) = len_utf8 c + len text

abbrev between : ℕ → ℕ → ℕ → Bool
between low high n = leb low n && leb n high

-- `c.to_digit(16)`
abbrev pub to_digit : Char → Option ℕ
to_digit c =
    if between 48 57 (code c)
    then some (code c - 48)
    else if between 65 70 (code c)
    then some (code c - 55)
    else if between 97 102 (code c)
    then some (code c - 87)
    else none

abbrev two_digits : Option ℕ → Option ℕ → Option ℕ
two_digits (some high) (some low) = some (16 * high + low)
two_digits _ _ = none

-- `u8::from_str_radix` on two characters: a plus sign in front is taken.
abbrev pub from_str_radix : Char → Char → Option ℕ
from_str_radix c d = if code c == 43 then to_digit d else two_digits (to_digit c) (to_digit d)

abbrev pub invalid : String → Error
invalid hex_pair = Error.hex ("Invalid hexadecimal pair: " <> hex_pair)

-- `&hex_str[i..i + 2]` panics where it ends inside a character, or behind the text.
abbrev not_boundary : Result Bytes
not_boundary = panic "byte index is not a char boundary"

-- The loop over `(0..hex_str.len()).step_by(2)`, from the next pair on.
unfoldable pub read_pairs : String → Result Bytes
read_pairs nil = ok []
read_pairs (c ∷ₛ nil) = if len_utf8 c == 2 then err (invalid (c ∷ₛ nil)) else not_boundary
read_pairs (c ∷ₛ d ∷ₛ text) =
    let rest = read_pairs text in
    if len_utf8 c == 2
    then err (invalid (c ∷ₛ nil))
    else if (len_utf8 c == 1) && (len_utf8 d == 1)
    then (ok_or (from_str_radix c d) (invalid (c ∷ₛ d ∷ₛ nil)) >>= λ byte.
        rest >>= λ bytes. ok (byte ∷ bytes))
    else not_boundary

unfoldable pub hex_to_bytes : String → Result Bytes
hex_to_bytes hex_str = do
  fail_if (not (len hex_str % 2 == 0)) (Error.hex "Hex string must have an even length")
  read_pairs hex_str
