-- ===== src/Base/Int.antt =====
-- Python's integers.
use Prim.Native.Nat.{ℕ, suc, ◌-◌, ◌≤◌}
use mathlib.Core.Path.{◌≡◌, refl}
use mathlib.Core.Logic.{◌⊎◌, inl, inr}
use mathlib.Core.Bool.{Bool, true, false}
use native.Mathlib.Omega.{arith}
use mathlib.Core.Option.{Option, none, some}
use pywayland_i6ie.Base.Tests.{ltb, if◌then◌else◌, Bool-cases}

-- `negsuc n` is -(n + 1).
pub data ℤ : Type 0 where
  pos : ℕ → ℤ
  negsuc : ℕ → ℤ

-- The position in a list of `n` items that Python reads an index as: from the end, if negative.
abbrev pub position : ℕ → ℤ → Option ℕ
position n (pos i) = if ltb i n then some i else none
position n (negsuc i) = if ltb i n then some (n - suc i) else none

infix 50 ◌≤ℤ◌
abbrev pub ◌≤ℤ◌ : ℤ → ℤ → Type 0
pos m ≤ℤ pos n = m ≤ n
pos m ≤ℤ negsuc n = ⊥
negsuc m ≤ℤ pos n = Unit
negsuc m ≤ℤ negsuc n = n ≤ m

-- `a < b`
abbrev pub int_ltb : ℤ → ℤ → Bool
int_ltb (pos m) (pos n) = ltb m n
int_ltb (pos m) (negsuc n) = false
int_ltb (negsuc m) (pos n) = true
int_ltb (negsuc m) (negsuc n) = ltb n m

-- `min(a, b)`
abbrev pub int_min : ℤ → ℤ → ℤ
int_min a b = if int_ltb b a then b else a

pub int_min_bounds : (a b : ℤ) → (int_min a b ≤ℤ a) × (int_min a b ≤ℤ b)
int_min_bounds (pos m) (pos n) = ground arith
int_min_bounds (pos m) (negsuc n) = ground arith
int_min_bounds (negsuc m) (pos n) = ground arith
int_min_bounds (negsuc m) (negsuc n) = ground arith

-- It is one of the two.
pub int_min_cases : (a b : ℤ) → (int_min a b ≡ a) ⊎ (int_min a b ≡ b)
int_min_cases a b = elim (Bool-cases (int_ltb b a)) [
  | inl below ↦ inr (rw below refl)
  | inr above ↦ inl (rw above refl)
]
