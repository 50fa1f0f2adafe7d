-- ===== src/Common/Int.antt =====
-- Signed counters.
use Prim.Native.Nat.{ℕ, ◌+◌, ◌-◌}
use mathlib.Core.Path.{◌≡◌}
use mathlib.Core.Bool.{Bool, true}
use native.Mathlib.Omega.{arith}
use ncaf.Common.Tests.{leb, if◌then◌else◌}

-- `negsuc n` is -(n + 1).
pub data ℤ : Type 0 where
  pos : ℕ → ℤ
  negsuc : ℕ → ℤ

-- z + n and z - n.
abbrev pub add_ℕ : ℤ → ℕ → ℤ
add_ℕ (pos m) n = pos (m + n)
add_ℕ (negsuc m) n = if leb n m then negsuc (m - n) else pos (n - m - 1)

abbrev pub sub_ℕ : ℤ → ℕ → ℤ
sub_ℕ (pos m) n = if leb n m then pos (m - n) else negsuc (n - m - 1)
sub_ℕ (negsuc m) n = negsuc (m + n)

-- z <= n
abbrev pub at_most : ℤ → ℕ → Bool
at_most (pos m) n = leb m n
at_most (negsuc m) n = true

pub at_most-sub_ℕ : (z : ℤ) (n : ℕ) → at_most (sub_ℕ z n) 0 ≡ at_most z n
at_most-sub_ℕ (pos m) n = ground arith
at_most-sub_ℕ (negsuc m) n = ground arith

pub at_most-add_ℕ : (z : ℤ) (n : ℕ) → at_most (add_ℕ z n) 0 ≡ true → at_most z 0 ≡ true
at_most-add_ℕ (pos m) n h = ground arith
at_most-add_ℕ (negsuc m) n h = ground arith
