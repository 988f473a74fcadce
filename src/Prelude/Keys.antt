-- ===== src/Prelude/Keys.antt =====
-- The equality test of a type, as Go's `==` and its maps use it.
use Prim.Native.Nat.{ℕ}
use mathlib.Core.Path.{◌≡◌, refl}
use mathlib.Core.Logic.{◌↔◌}
use mathlib.Core.Bool.{Bool, true, false, ◌&&◌}
use mathlib.Core.List.{List, [], ◌∷◌}
use native.Mathlib.Omega.{arith}
use bbgrid.Prelude.Tests.{nat_eq, nat_eq_iff}
use bbgrid.Prelude.Ints.{ℤ, int_eq, int_eq_iff}

pub record Eq {ℓ} (K : Type ℓ) : Type ℓ where
  -- the test, and what a `true` of it means
  pub same : K → K → Bool
  pub same_iff : (j k : K) → (same j k ≡ true) ↔ (j ≡ k)

-- The code writes `==` at every type that it compares.
infix 50 ◌==◌
abbrev pub ◌==◌ {ℓ} : {K : Type ℓ} ⦃e : Eq K⦄ (j k : K) → Bool
◌==◌ ⦃e⦄ j k = e.same j k

-- A Go string: its bytes.
abbrev pub Text : Type 0
Text = List ℕ

abbrev pub text_eq : Text → Text → Bool
text_eq [] [] = true
text_eq (x ∷ xs) (y ∷ ys) = nat_eq x y && text_eq xs ys
text_eq _ _ = false

pub text_eq_iff : (s t : Text) → (text_eq s t ≡ true) ↔ (s ≡ t)
text_eq_iff [] [] = ground arith
text_eq_iff (x ∷ xs) (y ∷ ys) = ground (arith, text_eq_iff xs ys)
text_eq_iff _ _ = ground arith

instance abbrev pub nat_key : Eq ℕ
nat_key = record { same = nat_eq; same_iff = nat_eq_iff }

instance abbrev pub int_key : Eq ℤ
int_key = record { same = int_eq; same_iff = int_eq_iff }

instance abbrev pub text_key : Eq Text
text_key = record { same = text_eq; same_iff = text_eq_iff }

pub ==_refl {ℓ} : {K : Type ℓ} ⦃e : Eq K⦄ (a : K) → a == a ≡ true
==_refl ⦃e⦄ a = (e.same_iff a a).1 refl
