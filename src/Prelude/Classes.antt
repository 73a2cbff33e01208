-- ===== src/Prelude/Classes.antt =====
-- Boolean equality as an interface.
use Prim.Native.Nat.{ℕ}
use mathlib.Core.Path.{◌≡◌, refl}
use mathlib.Core.Logic.{◌↔◌}
use mathlib.Core.Bool.{Bool, true, false, ◌&&◌}
use mathlib.Core.List.{List, [], ◌∷◌}
use native.Mathlib.Omega.{arith}
use dr_metrix.Prelude.Tests.{◌==ℕ◌, ==ℕ_iff}

-- A Boolean test of a type that decides its equality.
pub record Eq {κ} (Carrier : Type κ) : Type κ where
  pub beq : (x y : Carrier) → Bool
  pub beq_iff : (x y : Carrier) → (beq x y ≡ true) ↔ (x ≡ y)

module _ {κ} {Carrier : Type κ} ⦃test : Eq Carrier⦄ where
  infix 50 ◌==◌
  abbrev pub ◌==◌ : (x y : Carrier) → Bool
  x == y = test.beq x y

  pub ==-refl : (x : Carrier) → (x == x) ≡ true
  ==-refl x = (test.beq_iff x x).1 refl

instance abbrev pub nat_eq : Eq ℕ
nat_eq = record { beq = ◌==ℕ◌; beq_iff = ==ℕ_iff }

module _ {ℓ} {A : Type ℓ} ⦃e : Eq A⦄ where
  unfoldable pub list_beq : List A → List A → Bool
  list_beq [] [] = true
  list_beq [] (_ ∷ _) = false
  list_beq (_ ∷ _) [] = false
  list_beq (x ∷ xs) (y ∷ ys) = x == y && list_beq xs ys

  pub list_beq_iff : (xs ys : List A) → (list_beq xs ys ≡ true) ↔ (xs ≡ ys)
  unfolding list_beq
  list_beq_iff [] [] = ground arith
  list_beq_iff [] (y ∷ ys) = ground arith
  list_beq_iff (x ∷ xs) [] = ground arith
  list_beq_iff (x ∷ xs) (y ∷ ys) = ground (arith, e.beq_iff x y, list_beq_iff xs ys)

  instance abbrev pub list_eq : Eq (List A)
  list_eq = record { beq = list_beq; beq_iff = list_beq_iff }
