-- ===== src/Result.antt =====
-- `Result<T, Error>`, with the outcome of a panic (`unwrap`, `expect`, a checked subtraction that
-- fails) as a third value.
use bullbitcoin_rnd.Base.{◌≡◌, refl, arith, Bool, true, false, Option, none, some, String}
use bullbitcoin_rnd.Error.{Error}

pub data Result {ℓ} (T : Type ℓ) : Type ℓ where
  panic : String → Result T
  err : Error → Result T
  ok : T → Result T

module _ {ℓ κ} {T : Type ℓ} {U : Type κ} where
  infixl 5 ◌>>=◌ ◌>>◌
  -- `step?` and what follows it
  abbrev pub ◌>>=◌ : Result T → (T → Result U) → Result U
  panic message >>= next = panic message
  err error >>= next = err error
  ok value >>= next = next value

  abbrev pub ◌>>◌ : Result T → Result U → Result U
  step >> next = step >>= λ value. next

-- `if failed { return Err(e) }`
abbrev pub fail_if : Bool → Error → Result (Unit {0})
fail_if true e = err e
fail_if false e = ok tt

-- `o.ok_or(e)`
abbrev pub ok_or {ℓ} : {A : Type ℓ} → Option A → Error → Result A
ok_or none e = err e
ok_or (some a) e = ok a

-- `o.expect(message)`
abbrev pub expect {ℓ} : {A : Type ℓ} → Option A → String → Result A
expect none m = panic m
expect (some a) m = ok a

-- `match r { Ok(v) => v, Err(_) => fallback? }`
abbrev pub or_else {ℓ} : {A : Type ℓ} → Result A → Result A → Result A
or_else (ok a) fallback = ok a
or_else (err e) fallback = fallback
or_else (panic m) fallback = panic m

pub ok-injective {ℓ} : {A : Type ℓ} {a b : A} → ok a ≡ ok b → a ≡ b
ok-injective h = ground arith

-- What a successful bind went through.
pub bind-eq-ok {ℓ κ} :
    {T : Type ℓ} {U : Type κ} (step : Result T) (next : T → Result U) {result : U}
    → (step >>= next) ≡ ok result
    → (value : T) × (step ≡ ok value) × (next value ≡ ok result)
bind-eq-ok (panic message) next done = cc
bind-eq-ok (err error) next done = cc
bind-eq-ok (ok value) next done = (value, refl, done)

pub ok_or-eq-ok {ℓ} :
    {A : Type ℓ} (o : Option A) (e : Error) {a : A} → ok_or o e ≡ ok a → o ≡ some a
ok_or-eq-ok none e h = cc
ok_or-eq-ok (some a) e h = ground arith

pub expect-eq-ok {ℓ} :
    {A : Type ℓ} (o : Option A) (m : String) {a : A} → expect o m ≡ ok a → o ≡ some a
expect-eq-ok none m h = cc
expect-eq-ok (some a) m h = ground arith

pub fail_if-eq-ok : (b : Bool) (e : Error) → fail_if b e ≡ ok tt → b ≡ false
fail_if-eq-ok true e h = cc
fail_if-eq-ok false e h = refl

-- What holds of the value of either holds of the value that is taken.
pub or_else-eq-ok {ℓ κ} :
    {A : Type ℓ} (P : A → Type κ) (r fallback : Result A) {a : A}
    → ((x : A) → r ≡ ok x → P x)
    → ((x : A) → fallback ≡ ok x → P x)
    → or_else r fallback ≡ ok a
    → P a
or_else-eq-ok P (ok x) fallback {a} first second e = first a e
or_else-eq-ok P (err m) fallback {a} first second e = second a e
or_else-eq-ok P (panic m) fallback first second e = cc
