-- ===== src/Base/Text.antt =====
-- Texts: the native `String`, its test and its join, and `Display` of an unsigned integer.
use Prim.Native.Nat.{ℕ, zero, suc, ◌/◌, ◌%◌}
use Prim.Native.String.{String, ◌++◌ as ◌<>◌}
use bullbitcoin_rnd.Base.Compare.{◌==◌, if◌then◌else◌}
pub use Prim.Native.String.{◌++◌ as ◌<>◌}
pub use text.Mathlib.Text.{◌==◌ as str_eq}
pub use text.Mathlib.TextEquality.{eq_iff as str_eq_iff}

digit : ℕ → String
digit d =
    if d == 0
    then "0"
    else if d == 1
    then "1"
    else if d == 2
    then "2"
    else if d == 3
    then "3"
    else if d == 4
    then "4"
    else if d == 5
    then "5"
    else if d == 6
    then "6"
    else if d == 7
    then "7"
    else if d == 8
    then "8"
    else "9"

show_from : ℕ → ℕ → String
show_from zero n = digit (n % 10)
show_from (suc more) n =
    let high = show_from more (n / 10) in if n / 10 == 0 then digit n else high <> digit (n % 10)

-- `n.to_string()`. A `u64` has at most 20 digits.
unfoldable pub show : ℕ → String
unfolding show_from digit
show n = show_from 19 n
