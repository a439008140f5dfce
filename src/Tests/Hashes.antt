-- ===== src/Tests/Hashes.antt =====
-- Hashes that pad, and a hex that counts: the crates behind `Preimage` and the floats.
use Prim.Native.Char.{char, code}
use Prim.Native.String.{String, [] as nil, ◌∷◌ as ◌∷ₛ◌}
use bullbitcoin_rnd.Base.{
  ℕ, zero, suc, ◌+◌, ◌*◌, ◌/◌, ◌≤◌, ◌≡◌, refl, ap, arith, ◌∙◌, none, [], ◌∷◌, Bytes, length,
  replicate, ◌==◌, if◌then◌else◌,
}
use bullbitcoin_rnd.Result.{ok}
use bullbitcoin_rnd.Fees.{FloatLib, create_tx_with_fee}
use bullbitcoin_rnd.Fees.Rate.{FloatLaws, create_tx_with_fee-relative}
use bullbitcoin_rnd.Secrets.Preimage.{
  Preimage, HashLib, HashLaws, new, from_vec, from_invoice_str, from_invoice_str-from_vec,
}

abbrev pub pad : ℕ → Bytes → Bytes
pad zero bs = []
pad (suc n) [] = 0 ∷ pad n []
pad (suc n) (b ∷ bs) = b ∷ pad n bs

pub length-pad : (n : ℕ) (bs : Bytes) → length (pad n bs) ≡ n
length-pad zero bs = refl
length-pad (suc n) [] = ap suc (length-pad n [])
length-pad (suc n) (b ∷ bs) = ap suc (length-pad n bs)

-- A byte is so many ones, and a zero.
abbrev ones : ℕ → String → String
ones zero s = char 48 tt ∷ₛ s
ones (suc n) s = char 49 tt ∷ₛ ones n s

abbrev pub hex : Bytes → String
hex [] = nil
hex (b ∷ bs) = ones b (hex bs)

abbrev bump : Bytes → Bytes
bump [] = []
bump (b ∷ bs) = suc b ∷ bs

abbrev pub unhex : String → Bytes
unhex nil = []
unhex (c ∷ₛ s) = let rest = unhex s in if code c == 48 then 0 ∷ rest else bump rest

unhex-ones : (b : ℕ) (s : String) → unhex (ones b s) ≡ b ∷ unhex s
unhex-ones zero s = refl
unhex-ones (suc b) s = ap bump (unhex-ones b s)

unhex-hex : (bs : Bytes) → unhex (hex bs) ≡ bs
unhex-hex [] = refl
unhex-hex (b ∷ bs) = unhex-ones b (hex bs) ∙ ap (λ rest. b ∷ rest) (unhex-hex bs)

abbrev pub hashes : HashLib
hashes = record {
  sha256 = λ bs. pad 32 bs;
  hash160 = λ bs. pad 20 (pad 32 bs);
  ripemd160 = λ bs. pad 20 bs;
  sha256_from_slice = λ bs. ok bs;
  hash160_from_slice = λ bs. ok bs;
  from_hex = λ s. ok (unhex s);
  to_hex = hex;
  payment_hash = λ s. ok (pad 32 (unhex s));
}

hashes-laws : HashLaws hashes
hashes-laws = record {
  sha256_from_slice-ok = λ bs h. refl;
  hash160_from_slice-ok = λ bs h. refl;
  from_hex-to_hex = λ bs. ap ok (unhex-hex bs);
  length-sha256 = length-pad 32;
  length-ripemd160 = length-pad 20;
  hash160-ripemd160 = λ bs. refl;
}

abbrev pub secret : Bytes
secret = 7 ∷ 3 ∷ replicate 30 1

abbrev pub secret_preimage : Preimage
secret_preimage = new hashes secret

from_vec-secret : from_vec hashes secret ≡ ok secret_preimage
unfolding from_vec
from_vec-secret = refl

from_invoice_str-from_vec_example :
    from_invoice_str hashes (hex secret) ≡ ok (record secret_preimage { bytes = none })
from_invoice_str-from_vec_example =
    from_invoice_str-from_vec hashes hashes-laws (hex secret) secret secret_preimage from_vec-secret
      refl

-- Numbers with two decimal places.
abbrev pub floats : FloatLib
floats = record {
  of_u64 = λ n. 100 * n;
  mul = λ a b. a * b / 100;
  div = λ a b. a * 100 / b;
  ceil = λ a. (a + 99) / 100 * 100;
  to_u64 = λ a. a / 100;
  ◌≼◌ = λ a b. a ≤ b;
}

pub floats-laws : FloatLaws floats
floats-laws = record { ceil-le = λ x n h below. omega arith }

-- One and a half satoshis for each of 141 vbytes.
create_tx_with_fee-relative_example : (fee : ℕ) × (ok fee ≡ ok 212) × (21150 ≤ 100 * fee)
unfolding create_tx_with_fee
create_tx_with_fee-relative_example =
    create_tx_with_fee-relative floats (λ fee. ok fee) (λ tx. 141) 150 300 212 floats-laws
      (λ a b s t e f. refl) (omega arith) (omega arith) refl
