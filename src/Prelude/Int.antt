-- ===== src/Prelude/Int.antt =====
-- Integers, for the `fields.Integer` of the models.
use Prim.Native.Nat.{ℕ, ◌+◌, ◌-◌, suc}
use mathlib.Core.Path.{◌≡◌}
use mathlib.Core.Bool.{Bool, true, false}
use native.Mathlib.Omega.{arith}
use ssi_rest_api.Prelude.Tests.{leb, ltb, if◌then◌else◌}

-- `negsuc n` is -(n + 1).
pub data ℤ : Type 0 where
  pos : ℕ → ℤ
  negsuc : ℕ → ℤ

abbrev pub leb_ℤ : ℤ → ℤ → Bool
leb_ℤ (pos a) (pos b) = leb a b
leb_ℤ (pos a) (negsuc b) = false
leb_ℤ (negsuc a) (pos b) = true
leb_ℤ (negsuc a) (negsuc b) = leb b a

pub leb_ℤ-refl : (a : ℤ) → leb_ℤ a a ≡ true
leb_ℤ-refl (pos a) = ground arith
leb_ℤ-refl (negsuc a) = ground arith

pub leb_ℤ_trans : (a b c : ℤ) → leb_ℤ a b ≡ true → leb_ℤ b c ≡ true → leb_ℤ a c ≡ true
leb_ℤ_trans (pos a) (pos b) (pos c) h k = ground arith
leb_ℤ_trans (negsuc a) (negsuc b) (negsuc c) h k = ground arith
leb_ℤ_trans a b c h k = ground arith

pub leb_ℤ_total : (a b : ℤ) → leb_ℤ a b ≡ false → leb_ℤ b a ≡ true
leb_ℤ_total a b h = ground arith

-- `a + k` for a natural number and an integer.
abbrev pub plus_ℤ : ℕ → ℤ → ℤ
plus_ℤ a (pos k) = pos (a + k)
plus_ℤ a (negsuc k) = if ltb k a then pos (a - suc k) else negsuc (k - a)

-- `a > n`
abbrev pub exceeds : ℤ → ℕ → Bool
exceeds (pos a) n = ltb n a
exceeds (negsuc a) n = false
