-- ===== src/Common/Totals.antt =====
-- Sums over a list, and how often a number occurs in one.
use Prim.Native.Nat.{ℕ, ◌+◌}
use mathlib.Core.Path.{◌≡◌}
use mathlib.Core.List.{List, [], ◌∷◌, ◌++◌}
use native.Mathlib.Omega.{arith}
use ncaf.Common.Tests.{nat_beq, if◌then◌else◌}

abbrev pub sum_of {ℓ} : {A : Type ℓ} → (A → ℕ) → List A → ℕ
sum_of f [] = 0
sum_of f (x ∷ xs) = f x + sum_of f xs

pub sum_of-append {ℓ} :
    {A : Type ℓ} (f : A → ℕ) (xs ys : List A) → sum_of f (xs ++ ys) ≡ sum_of f xs + sum_of f ys
sum_of-append f [] ys = omega arith
sum_of-append f (x ∷ xs) ys = omega (arith, sum_of-append f xs ys)

-- How often `w` occurs.
abbrev pub is_one : ℕ → ℕ → ℕ
is_one w x = if nat_beq w x then 1 else 0

abbrev pub occurrences : ℕ → List ℕ → ℕ
occurrences w = sum_of (is_one w)
