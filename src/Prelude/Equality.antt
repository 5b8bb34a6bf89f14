-- ===== src/Prelude/Equality.antt =====
-- Go's `==`, as an instance for each type that the program compares.
use mathlib.Core.Path.{◌≡◌, refl}
use mathlib.Core.Logic.{◌≢◌, ◌↔◌, ◌⊎◌, inl, inr}
use mathlib.Core.Bool.{Bool, true, false, ◌&&◌}
use mathlib.Core.List.{List, [], ◌∷◌}
use Prim.Native.Nat.{ℕ}
use native.Mathlib.Omega.{arith}
use pkgserver.Prelude.Tests.{nat_beq, nat_beq_iff}

pub record Eq {ℓ} (T : Type ℓ) : Type ℓ where
  pub equals : T → T → Bool
  pub decides : (x y : T) → (equals x y ≡ true) ↔ (x ≡ y)

module _ {ℓ} {T : Type ℓ} ⦃e : Eq T⦄ where
  infix 50 ◌==◌
  abbrev pub ◌==◌ : T → T → Bool
  ◌==◌ = e.equals

  pub ==_iff : (x y : T) → ((x == y) ≡ true) ↔ (x ≡ y)
  ==_iff = e.decides

  pub ==_refl : (x : T) → (x == x) ≡ true
  ==_refl x = (e.decides x x).1 refl

  known :
      (x y : T) (test : Bool)
      → (x == y) ≡ test
      → (((x == y) ≡ true) × (x ≡ y)) ⊎ (((x == y) ≡ false) × (x ≢ y))
  known x y true h = inl (h, (e.decides x y).0 h)
  known x y false h = inr (h, λ p. cc ((e.decides x y).1 p, h))

  -- A comparison with what it says of the values.
  pub ==_cases : (x y : T) → (((x == y) ≡ true) × (x ≡ y)) ⊎ (((x == y) ≡ false) × (x ≢ y))
  ==_cases x y = known x y (x == y) refl

  pub ==_false : (x y : T) → x ≢ y → (x == y) ≡ false
  ==_false x y apart = elim (==_cases x y) [ inl (_, p) ↦ absurd (apart p) | inr (q, _) ↦ q ]

instance abbrev pub nat_eq : Eq ℕ
nat_eq = record { decides = nat_beq_iff; equals = nat_beq }

-- A byte string: the source walks its texts byte by byte.
abbrev pub Str : Type 0
Str = List ℕ

abbrev pub str_beq : Str → Str → Bool
str_beq [] [] = true
str_beq [] (_ ∷ _) = false
str_beq (_ ∷ _) [] = false
str_beq (a ∷ s) (b ∷ t) = nat_beq a b && str_beq s t

pub str_beq_iff : (s t : Str) → (str_beq s t ≡ true) ↔ (s ≡ t)
str_beq_iff [] [] = (λ _. refl, λ _. refl)
str_beq_iff [] (b ∷ t) = (λ h. cc, λ h. cc)
str_beq_iff (a ∷ s) [] = (λ h. cc, λ h. cc)
str_beq_iff (a ∷ s) (b ∷ t) = ground (arith, str_beq_iff s t)

instance abbrev pub str_eq : Eq Str
str_eq = record { decides = str_beq_iff; equals = str_beq }
