-- ===== src/Sim/Checksum.antt =====
-- The checksum of the LAN_X messages of apps/z21-sim/internal/server/xpressnet.go.
use Prim.Native.Nat.{bit_xor, bit_xor-bitwise, digits, differ}
use elp.Prelude.{ℕ, zero, suc, ◌/◌, ◌%◌, ◌≤◌, ◌≡◌, refl, ◌∙◌, [], ◌∷◌, ◌++◌, arith}
use elp.Sim.Wire.{Bytes}
use elp.Sim.Broadcast.{xor_from, append_lanx_xor}

differ_self : (n : ℕ) → differ n n ≡ 0
differ_self zero = refl
differ_self (suc n) = differ_self n

digits_self : (n a : ℕ) → a ≤ n → digits (λ b. b) differ n a a ≡ 0
digits_self zero a h = omega arith
digits_self (suc n) zero h = refl
digits_self (suc n) (suc a) h =
    omega (arith, digits_self n (suc a / 2) (omega arith), differ_self (suc a % 2))

bit_xor_self : (a : ℕ) → bit_xor a a ≡ 0
bit_xor_self a = bit_xor-bitwise a a ∙ digits_self a a (omega arith)

xor_from-append : (x : ℕ) (l : Bytes) (b : ℕ) → xor_from x (l ++ b ∷ []) ≡ bit_xor (xor_from x l) b
unfolding xor_from
xor_from-append x [] b = refl
xor_from-append x (c ∷ l) b = xor_from-append (bit_xor x c) l b

-- The exclusive or of all bytes of a LAN_X message, its last byte included, is 0.
pub checksum_zero : (l : Bytes) → xor_from 0 (append_lanx_xor l) ≡ 0
unfolding append_lanx_xor
checksum_zero l = xor_from-append 0 l (xor_from 0 l) ∙ bit_xor_self (xor_from 0 l)
