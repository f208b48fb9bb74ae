-- ===== src/Prelude/Ints.antt =====
-- Python's `int`, as far as the modelled code subtracts below 0.
use Prim.Native.Nat.{ℕ, ◌+◌, ◌-◌, suc, ◌≤◌}
use mathlib.Core.Path.{◌≡◌}
use native.Mathlib.Omega.{arith}
use bit_mod_ai_inference_cac.Prelude.Tests.{leb, if◌then◌else◌}

pub data ℤ : Type 0 where
  pos negsuc : ℕ → ℤ

infix 6 ◌⊖◌
abbrev pub ◌⊖◌ : ℕ → ℕ → ℤ
a ⊖ b = if leb b a then pos (a - b) else negsuc (b - a - 1)

infixl 6 ◌+ℤ◌
abbrev pub ◌+ℤ◌ : ℤ → ℤ → ℤ
pos a +ℤ pos b = pos (a + b)
pos a +ℤ negsuc b = a ⊖ suc b
negsuc a +ℤ pos b = b ⊖ suc a
negsuc a +ℤ negsuc b = negsuc (suc (a + b))

pub ⊖-pos : (a b : ℕ) → b ≤ a → (a ⊖ b) ≡ pos (a - b)
⊖-pos a b h = ground arith
