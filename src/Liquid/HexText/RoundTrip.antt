-- ===== src/Liquid/HexText/RoundTrip.antt =====
-- What `hex_to_bytes` reads of a text that is printed from bytes.
use Prim.Native.Char.{Char, char, code}
use Prim.Native.String.{String, [] as nil, ◌∷◌ as ◌∷ₛ◌}
use bullbitcoin_rnd.Base.{
  ℕ, zero, suc, ◌+◌, ◌*◌, ◌/◌, ◌%◌, ◌<◌, ◌≡◌, refl, ap, ◌∙◌, arith, Bool, true, false, ◌&&◌, not,
  Option, some, none, [], ◌∷◌, Bytes, IsByte, All, length, ltb, ◌==◌, if◌then◌else◌,
}
use bullbitcoin_rnd.Result.{ok}
use bullbitcoin_rnd.Liquid.HexText.{
  len_utf8, len, to_digit, from_str_radix, read_pairs, hex_to_bytes,
}

-- The digits in lower case.
unfoldable pub digit_char : ℕ → Char
digit_char d =
    if d == 0
    then char 48 tt
    else if d == 1
    then char 49 tt
    else if d == 2
    then char 50 tt
    else if d == 3
    then char 51 tt
    else if d == 4
    then char 52 tt
    else if d == 5
    then char 53 tt
    else if d == 6
    then char 54 tt
    else if d == 7
    then char 55 tt
    else if d == 8
    then char 56 tt
    else if d == 9
    then char 57 tt
    else if d == 10
    then char 97 tt
    else if d == 11
    then char 98 tt
    else if d == 12
    then char 99 tt
    else if d == 13
    then char 100 tt
    else if d == 14
    then char 101 tt
    else char 102 tt

-- Two digits for each byte, the high one first.
unfoldable pub print_hex : Bytes → String
print_hex [] = nil
print_hex (b ∷ bytes) = digit_char (b / 16) ∷ₛ digit_char (b % 16) ∷ₛ print_hex bytes

is_some_of : ℕ → Option ℕ → Bool
is_some_of d (some e) = d == e
is_some_of d none = false

all_below : ℕ → (ℕ → Bool) → Bool
all_below zero p = true
all_below (suc n) p = p n && all_below n p

-- A test that holds below `n` holds of each number there.
all_below-true : (n : ℕ) (p : ℕ → Bool) (d : ℕ) → all_below n p ≡ true → d < n → p d ≡ true
unfolding all_below
all_below-true zero p d all low = ground arith
all_below-true (suc n) p d all low = ground (arith, all_below-true n p d)

-- A digit, and a character that is not a plus sign and has one byte.
reads_as : ℕ → Char → Bool
reads_as d c = is_some_of d (to_digit c) && (ltb (code c) 128 && not (code c == 43))

reads_as-digit_char : (d : ℕ) → d < 16 → reads_as d (digit_char d) ≡ true
unfolding all_below reads_as is_some_of digit_char
reads_as-digit_char d low = all_below-true 16 (λ n. reads_as n (digit_char n)) d refl low

is_some_of-true : (d : ℕ) (o : Option ℕ) → is_some_of d o ≡ true → o ≡ some d
unfolding is_some_of
is_some_of-true d (some e) same = ground (arith, same)
is_some_of-true d none same = ground (arith, same)

reads_as-digit : (d : ℕ) (c : Char) → reads_as d c ≡ true → to_digit c ≡ some d
unfolding reads_as
reads_as-digit d c reads = is_some_of-true d (to_digit c) ground (arith, reads)

reads_as-one_byte : (d : ℕ) (c : Char) → reads_as d c ≡ true → len_utf8 c ≡ 1
unfolding reads_as
reads_as-one_byte d c reads = ground (arith, reads)

reads_as-no_plus : (d : ℕ) (c : Char) → reads_as d c ≡ true → (code c == 43) ≡ false
unfolding reads_as
reads_as-no_plus d c reads = ground (arith, reads)

from_str_radix-some :
    (h l : ℕ) (c d : Char)
    → (code c == 43) ≡ false
    → to_digit c ≡ some h
    → to_digit d ≡ some l
    → from_str_radix c d ≡ some (16 * h + l)
from_str_radix-some h l c d plain high low = rw (plain, high, low)

read_pairs-cons :
    (c d : Char) (text : String) (b : ℕ) (bytes : Bytes)
    → len_utf8 c ≡ 1
    → len_utf8 d ≡ 1
    → from_str_radix c d ≡ some b
    → read_pairs text ≡ ok bytes
    → read_pairs (c ∷ₛ d ∷ₛ text) ≡ ok (b ∷ bytes)
unfolding read_pairs
read_pairs-cons c d text b bytes one also digits rest = rw (one, also, digits, rest)

high_digit : (b : ℕ) → IsByte b → reads_as (b / 16) (digit_char (b / 16)) ≡ true
high_digit b is = reads_as-digit_char (b / 16) (omega (arith, is))

low_digit : (b : ℕ) → reads_as (b % 16) (digit_char (b % 16)) ≡ true
low_digit b = reads_as-digit_char (b % 16) (omega arith)

len-print_hex : (bytes : Bytes) → All IsByte bytes → len (print_hex bytes) ≡ 2 * length bytes
unfolding len print_hex
len-print_hex [] are = refl
len-print_hex (b ∷ bytes) (is, are) = omega (
  arith,
  reads_as-one_byte (b / 16) (digit_char (b / 16)) (high_digit b is),
  reads_as-one_byte (b % 16) (digit_char (b % 16)) (low_digit b),
  len-print_hex bytes are,
)

read_pairs-print_hex : (bytes : Bytes) → All IsByte bytes → read_pairs (print_hex bytes) ≡ ok bytes
unfolding read_pairs print_hex
read_pairs-print_hex [] are = refl
read_pairs-print_hex (b ∷ bytes) (is, are) =
    let high = digit_char (b / 16) in
    let low = digit_char (b % 16) in
    read_pairs-cons high low (print_hex bytes) b bytes
      (reads_as-one_byte (b / 16) high (high_digit b is))
      (reads_as-one_byte (b % 16) low (low_digit b))
      (from_str_radix-some (b / 16) (b % 16) high low
          (reads_as-no_plus (b / 16) high (high_digit b is))
          (reads_as-digit (b / 16) high (high_digit b is))
          (reads_as-digit (b % 16) low (low_digit b))
        ∙ ap some (omega arith))
      (read_pairs-print_hex bytes are)

even_test : (n m : ℕ) → n ≡ 2 * m → (n % 2 == 0) ≡ true
even_test n m double = ground (arith, double)

-- `hex_to_bytes` reads any bytes back from the text that has two lower case digits for each of them.
pub hex_to_bytes-print_hex :
    (bytes : Bytes) → All IsByte bytes → hex_to_bytes (print_hex bytes) ≡ ok bytes
unfolding hex_to_bytes
hex_to_bytes-print_hex bytes are = rw (
  even_test (len (print_hex bytes)) (length bytes) (len-print_hex bytes are),
  read_pairs-print_hex bytes are,
)
