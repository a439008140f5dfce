-- ===== src/MagicRouting/RoundTrip.antt =====
-- What `parse_bip21` reads of a text that is put together from its parts.
use Prim.Native.Char.{Char, char, code}
use Prim.Native.String.{String, [] as nil, ◌∷◌ as ◌∷ₛ◌}
use bullbitcoin_rnd.Base.{
  ℕ, ◌≡◌, refl, arith, Bool, true, false, not, ◌&&◌, some, [], ◌∷◌, ◌==◌, Bool-cases, inl, inr,
}
use bullbitcoin_rnd.Result.{ok}
use bullbitcoin_rnd.MagicRouting.Split.{split}
use bullbitcoin_rnd.MagicRouting.{RoutingLib, read_param, read_params, parse_bip21}

-- No character has this code.
abbrev pub lacks : ℕ → String → Bool
lacks c nil = true
lacks c (x ∷ₛ text) = not (code x == c) && lacks c text

-- One text behind another.
infixr 5 ◌then◌
abbrev pub ◌then◌ : String → String → String
nil then b = b
(x ∷ₛ a) then b = x ∷ₛ (a then b)

lacks-cons :
    (c : ℕ) (x : Char) (text : String)
    → lacks c (x ∷ₛ text) ≡ true
    → ((code x == c) ≡ false) × (lacks c text ≡ true)
lacks-cons c x text h = elim (Bool-cases (code x == c)) [
  | inl same ↦ ground (arith, h, same)
  | inr other ↦ (other, ground (arith, h, other))
]

split-lacks : (c : ℕ) (text : String) → lacks c text ≡ true → split c text ≡ text ∷ []
unfolding split
split-lacks c nil h = refl
split-lacks c (x ∷ₛ text) h =
    let (other, rest) = lacks-cons c x text h in rw (other, split-lacks c text rest) refl

split-at :
    (c : ℕ) (x : Char) (text rest : String)
    → (code x == c) ≡ true
    → lacks c text ≡ true
    → split c (text then (x ∷ₛ rest)) ≡ text ∷ split c rest
unfolding split
split-at c x nil rest is h = rw is refl
split-at c x (y ∷ₛ text) rest is h =
    let (other, later) = lacks-cons c y text h in rw (other, split-at c x text rest is later) refl

lacks-then :
    (c : ℕ) (a b : String) → lacks c a ≡ true → lacks c b ≡ true → lacks c (a then b) ≡ true
lacks-then c nil b h k = k
lacks-then c (x ∷ₛ a) b h k =
    let (other, later) = lacks-cons c x a h in rw (other, lacks-then c a b later k) refl

-- A text with none of the four separators, `?`, `:`, `&` and `=`.
pub record IsPlain (text : String) : Type 0 where
  pub no_question : lacks 63 text ≡ true
  pub no_colon : lacks 58 text ≡ true
  pub no_ampersand : lacks 38 text ≡ true
  pub no_equals : lacks 61 text ≡ true

abbrev address_part : String → String → String
address_part network address = network then ":" then address

abbrev params_part : String → String → String
params_part amount assetid = ("amount=" then amount) then "&" then "assetid=" then assetid

-- The text of a payment request.
abbrev pub print_bip21 : String → String → String → String → String
print_bip21 network address amount assetid =
    address_part network address then "?" then params_part amount assetid

module _ (lib : RoutingLib) (network address text assetid : String) where
  -- A payment request with an amount and an asset id is read back whole, where none of its four parts
  -- has a separator and the text of the amount is one.
  pub parse_bip21-print_bip21 :
      (amount : ℕ)
      → IsPlain network
      → IsPlain address
      → IsPlain text
      → IsPlain assetid
      → lib.amount_from_btc text ≡ some amount
      → parse_bip21 lib (print_bip21 network address text assetid)
        ≡ ok (record {
          network = network;
          address = address;
          amount = amount;
          assetid = some assetid;
        })
  unfolding parse_bip21 read_params read_param
  parse_bip21-print_bip21 amount n a t i reads =
      let params = params_part text assetid in
      let part = address_part network address in
      let no_question : lacks 63 part ≡ true =
        lacks-then 63 network (":" then address) n.no_question a.no_question in
      let params_question : lacks 63 params ≡ true =
        lacks-then 63 ("amount=" then text) ("&" then "assetid=" then assetid) t.no_question
          i.no_question in
      rw
        (
          split-at 63 (char 63 tt) part params refl no_question,
          split-lacks 63 params params_question,
          split-at 58 (char 58 tt) network address refl n.no_colon,
          split-lacks 58 address a.no_colon,
          split-at 38 (char 38 tt) ("amount=" then text) ("assetid=" then assetid) refl
              t.no_ampersand,
          split-lacks 38 ("assetid=" then assetid) i.no_ampersand,
          split-at 61 (char 61 tt) "amount" text refl refl,
          split-lacks 61 text t.no_equals,
          split-at 61 (char 61 tt) "assetid" assetid refl refl,
          split-lacks 61 assetid i.no_equals,
          reads,
        )
        refl
