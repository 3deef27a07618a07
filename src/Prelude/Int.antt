-- ===== src/Prelude/Int.antt =====
-- The integers, where the program has a number that may be negative.
use Prim.Native.Nat.{ℕ, ◌≤◌}
use mathlib.Core.Path.{◌≡◌, refl}
use mathlib.Core.Logic.{◌↔◌}
use mathlib.Core.Bool.{Bool, true, false}
use native.Mathlib.Omega.{arith}
use qsp_protocol_node.Prelude.Tests.{ltb, if◌then◌else◌, Bool-cases}
use mathlib.Core.Logic.{inl, inr}

-- `negsuc n` is -(n + 1).
pub data ℤ : Type 0 where
  pos negsuc : ℕ → ℤ

-- `a > b`
unfoldable pub is_greater : ℤ → ℤ → Bool
is_greater (pos a) (pos b) = ltb b a
is_greater (pos a) (negsuc b) = true
is_greater (negsuc a) (pos b) = false
is_greater (negsuc a) (negsuc b) = ltb a b

infix 50 ◌≤ℤ◌
abbrev pub ◌≤ℤ◌ : ℤ → ℤ → Type 0
pos a ≤ℤ pos b = a ≤ b
pos a ≤ℤ negsuc b = ⊥
negsuc a ≤ℤ pos b = Unit
negsuc a ≤ℤ negsuc b = b ≤ a

pub is_greater_iff : (a b : ℤ) → (is_greater a b ≡ false) ↔ (a ≤ℤ b)
unfolding is_greater
is_greater_iff (pos a) (pos b) = ground arith
is_greater_iff (pos a) (negsuc b) = (λ h. cc, λ h. absurd h)
is_greater_iff (negsuc a) (pos b) = (λ h. tt, λ h. refl)
is_greater_iff (negsuc a) (negsuc b) = ground arith

-- `min`, and that it is at most its second argument, and the first if that is at most the second.
unfoldable pub min_ℤ : ℤ → ℤ → ℤ
unfolding is_greater
min_ℤ a b = if is_greater a b then b else a

le_self : (a : ℤ) → a ≤ℤ a
le_self (pos a) = omega arith
le_self (negsuc a) = omega arith

pub min-le : (a b : ℤ) → min_ℤ a b ≤ℤ b
unfolding min_ℤ
min-le a b = elim (Bool-cases (is_greater a b)) [
  | inl e ↦ rw e (le_self b)
  | inr e ↦ rw e ((is_greater_iff a b).0 e)
]

pub min_le_eq : (a b : ℤ) → a ≤ℤ b → min_ℤ a b ≡ a
unfolding min_ℤ
min_le_eq a b le = rw ((is_greater_iff a b).1 le) refl
