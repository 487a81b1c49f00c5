-- ===== src/Prelude/Equality.antt =====
-- Go's `==` on comparable types: an instance for bytes, strings and the key structs.
use Prim.Native.Nat.{ℕ}
use mathlib.Core.Path.{◌≡◌, refl}
use mathlib.Core.Logic.{◌↔◌, ◌≢◌, ◌⊎◌, inl, inr}
use mathlib.Core.Bool.{Bool, true, false, ◌&&◌}
use mathlib.Core.List.{List, [], ◌∷◌}
use native.Mathlib.Omega.{arith}
use flynn_controller.Prelude.Tests.{nat_eqb, nat_eqb_iff, Bool-cases}

unfoldable pub list_eqb : List ℕ → List ℕ → Bool
list_eqb [] [] = true
list_eqb (x ∷ xs) (y ∷ ys) = nat_eqb x y && list_eqb xs ys
list_eqb _ _ = false

pub list_eqb_iff : (xs ys : List ℕ) → (list_eqb xs ys ≡ true) ↔ (xs ≡ ys)
unfolding list_eqb
list_eqb_iff [] [] = ground arith
list_eqb_iff (x ∷ xs) (y ∷ ys) = ground (arith, nat_eqb_iff x y, list_eqb_iff xs ys)
list_eqb_iff [] (y ∷ ys) = ground arith
list_eqb_iff (x ∷ xs) [] = ground arith

-- A test that decides whether two values are the same.
pub record Comparable {ℓ} (K : Type ℓ) : Type ℓ where
  pub same : K → K → Bool
  pub same_iff : (x y : K) → (same x y ≡ true) ↔ (x ≡ y)

infix 50 ◌==◌
abbrev pub ◌==◌ {ℓ} : {K : Type ℓ} ⦃c : Comparable K⦄ → K → K → Bool
◌==◌ ⦃c = c⦄ x y = c.same x y

module _ {ℓ} {A : Type ℓ} ⦃e : Comparable A⦄ where
  pub beq_refl : (a : A) → (a == a) ≡ true
  beq_refl a = (e.same_iff a a).1 refl

  pub beq_ne : (a b : A) → a ≢ b → (a == b) ≡ false
  beq_ne a b h = elim (Bool-cases (a == b)) [
    | inl hit ↦ absurd (h ((e.same_iff a b).0 hit))
    | inr other ↦ other
  ]

  pub eq_iff : (a b : A) → ((a == b) ≡ true) ↔ (a ≡ b)
  eq_iff = e.same_iff

  pub eq_cases : (a b : A) → (a ≡ b) ⊎ (a ≢ b)
  eq_cases a b = elim (Bool-cases (a == b)) [
    | inl hit ↦ inl ((e.same_iff a b).0 hit)
    | inr other ↦ inr (λ p. cc ((e.same_iff a b).1 p))
  ]

instance abbrev pub nat_eq : Comparable ℕ
nat_eq = record { same = nat_eqb; same_iff = nat_eqb_iff }

instance abbrev pub text_eq : Comparable (List ℕ)
text_eq = record { same = list_eqb; same_iff = list_eqb_iff }

module _ {ℓ κ} {A : Type ℓ} {B : Type κ} ⦃e : Comparable A⦄ ⦃f : Comparable B⦄ where
  abbrev pub pair_eqb : A × B → A × B → Bool
  pair_eqb (a, b) (c, d) = a == c && b == d

  pub pair_eqb_iff : (p q : A × B) → (pair_eqb p q ≡ true) ↔ (p ≡ q)
  pair_eqb_iff (a, b) (c, d) = ground (arith, e.same_iff a c, f.same_iff b d)

  instance abbrev pub pair_eq : Comparable (A × B)
  pair_eq = record { same = pair_eqb; same_iff = pair_eqb_iff }
