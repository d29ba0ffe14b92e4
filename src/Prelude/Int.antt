-- ===== src/Prelude/Int.antt =====
-- `int32`: an integer between -2³¹ and 2³¹ - 1, with the wrap-around of its increment.
use Prim.Native.Nat.{ℕ, zero, suc, ◌+◌}
use mathlib.Core.Path.{◌≡◌}
use mathlib.Core.Bool.{Bool, true, false}
use native.Mathlib.Omega.{arith}
use elp.Prelude.Tests.{leb, nat_beq, if◌then◌else◌}

-- `negsuc n` is -(n + 1).
pub data ℤ : Type 0 where
  pos : ℕ → ℤ
  negsuc : ℕ → ℤ

abbrev pub leb_ℤ : ℤ → ℤ → Bool
leb_ℤ (pos a) (pos b) = leb a b
leb_ℤ (pos a) (negsuc b) = false
leb_ℤ (negsuc a) (pos b) = true
leb_ℤ (negsuc a) (negsuc b) = leb b a

abbrev pub beq_ℤ : ℤ → ℤ → Bool
beq_ℤ (pos a) (pos b) = nat_beq a b
beq_ℤ (negsuc a) (negsuc b) = nat_beq a b
beq_ℤ _ _ = false

pub beq_refl_ℤ : (a : ℤ) → beq_ℤ a a ≡ true
beq_refl_ℤ (pos n) = ground arith
beq_refl_ℤ (negsuc n) = ground arith

abbrev pub max_int32 : ℕ
max_int32 = 2147483647

-- `x++`
unfoldable pub increment : ℤ → ℤ
increment (pos n) = if nat_beq n max_int32 then negsuc max_int32 else pos (n + 1)
increment (negsuc zero) = pos 0
increment (negsuc (suc n)) = negsuc n
