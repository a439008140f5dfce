-- ===== src/Script/LittleEndian.antt =====
-- `bytes_to_u32_little_endian`, which src/swaps/bitcoin.rs and src/swaps/liquid.rs both define.
use Prim.Native.Nat.{max, digits, bit_or-bitwise}
use native.Mathlib.Nat.{pow-suc, mod-eq_of_lt}
use bullbitcoin_rnd.Base.{
  ℕ, zero, suc, ◌+◌, ◌*◌, ◌/◌, ◌%◌, ◌^◌, ◌≤◌, ◌<◌, bit_or, ◌≡◌, refl, ap, arith, [], ◌∷◌, Bytes,
  IsByte, length, All,
}
use bullbitcoin_rnd.Script.Instruction.{le_value}

-- `result |= (byte as u32) << (8 * i)`, in a build without overflow checks: the shift is taken
-- modulo 32, and bits above the 32nd are lost.
abbrev or_byte : ℕ → ℕ → ℕ → ℕ
or_byte i result byte = bit_or result (byte * 2 ^ (8 * i % 32) % 2 ^ 32)

or_bytes : ℕ → ℕ → Bytes → ℕ
or_bytes i result [] = result
or_bytes i result (byte ∷ bytes) = or_bytes (i + 1) (or_byte i result byte) bytes

unfoldable pub bytes_to_u32_little_endian : Bytes → ℕ
unfolding or_bytes
bytes_to_u32_little_endian bytes = or_bytes 0 0 bytes

or_fuel : (n m a b : ℕ) → a ≤ n → a ≤ m → digits (λ y. y) max n a b ≡ digits (λ y. y) max m a b
or_fuel zero zero a b p q = refl
or_fuel zero (suc m) zero b p q = refl
or_fuel zero (suc m) (suc a) b p q = absurd (omega arith)
or_fuel (suc n) zero zero b p q = refl
or_fuel (suc n) zero (suc a) b p q = absurd (omega arith)
or_fuel (suc n) (suc m) zero b p q = refl
or_fuel (suc n) (suc m) (suc a) b p q =
    omega (arith, or_fuel n m (suc a / 2) (b / 2) (omega arith) (omega arith))

-- One binary digit of `|`.
or_digit : (a b : ℕ) → bit_or a b ≡ bit_or (a / 2) (b / 2) * 2 + max (a % 2) (b % 2)
or_digit zero b = omega (arith, bit_or-bitwise 0 b, bit_or-bitwise 0 (b / 2))
or_digit (suc a) b = omega (
  arith,
  bit_or-bitwise (suc a) b,
  bit_or-bitwise (suc a / 2) (b / 2),
  or_fuel a (suc a / 2) (suc a / 2) (b / 2) (omega arith) (omega arith),
)

-- A number below 2 ^ k, or-ed with a multiple of 2 ^ k, is their sum.
or_disjoint : (k low high : ℕ) → low < 2 ^ k → bit_or low (high * 2 ^ k) ≡ low + high * 2 ^ k
or_disjoint zero zero high h = omega (arith, bit_or-bitwise 0 (high * 2 ^ 0))
or_disjoint zero (suc low) high h = absurd (omega arith)
or_disjoint (suc k) low high h = ground (
  arith,
  or_digit low (high * 2 ^ suc k),
  ap (λ (t : ℕ). high * t) (pow-suc 2 k),
  pow-suc 2 k,
  or_disjoint k (low / 2) high (omega (arith, pow-suc 2 k)),
)

-- A round whose byte lands above what was read adds it there.
or_byte-add :
    (i k result byte : ℕ)
    → 8 * i % 32 ≡ k
    → byte * 2 ^ k < 2 ^ 32
    → result < 2 ^ k
    → or_byte i result byte ≡ result + byte * 2 ^ k
or_byte-add i k result byte at fits below =
    rw (at, mod-eq_of_lt fits) (or_disjoint k result byte below)

-- On up to four bytes the function reads the number that they spell, lowest byte first.
pub bytes_to_u32_little_endian-eq :
    (bytes : Bytes)
    → All IsByte bytes
    → length bytes < 5
    → bytes_to_u32_little_endian bytes ≡ le_value bytes
unfolding bytes_to_u32_little_endian
bytes_to_u32_little_endian-eq [] h short = refl
bytes_to_u32_little_endian-eq (a ∷ []) (ha, _) short =
    rw (or_byte-add 0 0 0 a refl (omega arith) (omega arith)) (omega arith)
bytes_to_u32_little_endian-eq (a ∷ b ∷ []) (ha, (hb, _)) short =
    rw (or_byte-add 0 0 0 a refl (omega arith) (omega arith))
      (rw (or_byte-add 1 8 (0 + a * 2 ^ 0) b refl (omega arith) (omega arith)) (omega arith))
bytes_to_u32_little_endian-eq (a ∷ b ∷ c ∷ []) (ha, (hb, (hc, _))) short =
    rw (or_byte-add 0 0 0 a refl (omega arith) (omega arith)) (
      rw (or_byte-add 1 8 (0 + a * 2 ^ 0) b refl (omega arith) (omega arith)) (
        rw (or_byte-add 2 16 (0 + a * 2 ^ 0 + b * 2 ^ 8) c refl (omega arith) (omega arith))
          (omega arith)))
bytes_to_u32_little_endian-eq (a ∷ b ∷ c ∷ d ∷ []) (ha, (hb, (hc, (hd, _)))) short =
    rw (or_byte-add 0 0 0 a refl (omega arith) (omega arith)) (
      rw (or_byte-add 1 8 (0 + a * 2 ^ 0) b refl (omega arith) (omega arith)) (
        rw (or_byte-add 2 16 (0 + a * 2 ^ 0 + b * 2 ^ 8) c refl (omega arith) (omega arith)) (
          rw
            (or_byte-add 3 24 (0 + a * 2 ^ 0 + b * 2 ^ 8 + c * 2 ^ 16) d refl (omega arith)
              (omega arith))
            (omega arith))))
bytes_to_u32_little_endian-eq (a ∷ b ∷ c ∷ d ∷ e ∷ r) h short = absurd (omega arith)
