-- ===== src/Base/Membership.antt =====
-- Membership in a list by place.
use Prim.Native.Nat.{ℕ, zero, suc}
use mathlib.Core.Path.{◌≡◌}
use mathlib.Core.Logic.{◌⊎◌, inl, inr}
use mathlib.Core.List.{List, [], ◌∷◌, ◌++◌}
use mathlib.Core.Option.{some}
use native.Mathlib.Omega.{arith}
use bullbitcoin_rnd.Base.Lists.{get_elem?}

-- The element stands somewhere in the list.
abbrev pub Occurs {ℓ} : {A : Type ℓ} → A → List A → Type ℓ
Occurs x xs = (k : ℕ) × (get_elem? xs k ≡ some x)

module _ {ℓ} {A : Type ℓ} where
  pub Occurs-cons_cases : {x y : A} (xs : List A) → Occurs x (y ∷ xs) → (y ≡ x) ⊎ Occurs x xs
  Occurs-cons_cases xs (zero, at) = inl (ground (arith, at))
  Occurs-cons_cases xs (suc k, at) = inr (k, at)

  pub Occurs-append_left : {x : A} (xs ys : List A) → Occurs x xs → Occurs x (xs ++ ys)
  Occurs-append_left [] ys (k, at) = absurd (ground (arith, at))
  Occurs-append_left (y ∷ xs) ys (zero, at) = (0, at)
  Occurs-append_left (y ∷ xs) ys (suc k, at) =
      let (j, found) = Occurs-append_left xs ys (k, at) in (suc j, found)

  pub Occurs-append_right : {x : A} (xs ys : List A) → Occurs x ys → Occurs x (xs ++ ys)
  Occurs-append_right [] ys h = h
  Occurs-append_right (y ∷ xs) ys h = let (j, found) = Occurs-append_right xs ys h in (suc j, found)

  pub Occurs-append_cases :
      {x : A} (xs ys : List A) → Occurs x (xs ++ ys) → Occurs x xs ⊎ Occurs x ys
  Occurs-append_cases [] ys h = inr h
  Occurs-append_cases (y ∷ xs) ys (zero, at) = inl (0, at)
  Occurs-append_cases (y ∷ xs) ys (suc k, at) = elim (Occurs-append_cases xs ys (k, at)) [
    | inl (j, found) ↦ inl (suc j, found)
    | inr there ↦ inr there
  ]
