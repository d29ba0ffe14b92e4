-- ===== src/Sim/Wire.antt =====
-- Bytes on the wire: encoding/binary.LittleEndian and `copy`, as apps/z21-sim/internal/server
-- uses them.
use elp.Prelude.{ℕ, ◌+◌, ◌*◌, ◌/◌, ◌%◌, ◌<◌, ◌≡◌, refl, List, [], ◌∷◌, arith, length}
use elp.Prelude.Eq.{nat_comparable}

-- A byte is a number below 256.
abbrev pub Bytes : Type 0
Bytes = List ℕ

-- `binary.LittleEndian.PutUint16`
unfoldable pub put_uint16 : ℕ → Bytes
put_uint16 n = n % 256 ∷ n / 256 % 256 ∷ []

-- `binary.LittleEndian.PutUint32`
unfoldable pub put_uint32 : ℕ → Bytes
put_uint32 n = n % 256 ∷ n / 256 % 256 ∷ n / 65536 % 256 ∷ n / 16777216 % 256 ∷ []

-- `binary.LittleEndian.Uint16` of two bytes
unfoldable pub uint16 : ℕ → ℕ → ℕ
uint16 b0 b1 = b0 + 256 * b1

-- `binary.LittleEndian.Uint32` of four bytes
unfoldable pub uint32 : ℕ → ℕ → ℕ → ℕ → ℕ
uint32 b0 b1 b2 b3 = b0 + 256 * b1 + 65536 * b2 + 16777216 * b3

-- `copy(dst, src)`
unfoldable pub copy : Bytes → Bytes → Bytes
copy [] src = []
copy (d ∷ dst) [] = d ∷ dst
copy (d ∷ dst) (b ∷ src) = b ∷ copy dst src

pub uint16-put : (n : ℕ) → n < 65536 → uint16 (n % 256) (n / 256 % 256) ≡ n
unfolding uint16
uint16-put n h = omega arith

pub uint32-put :
    (n : ℕ)
    → n < 4294967296
    → uint32 (n % 256) (n / 256 % 256) (n / 65536 % 256) (n / 16777216 % 256) ≡ n
unfolding uint32
uint32-put n h = omega arith

pub length-copy : (dst src : Bytes) → length (copy dst src) ≡ length dst
unfolding copy
length-copy [] src = refl
length-copy (d ∷ dst) [] = refl
length-copy (d ∷ dst) (b ∷ src) = omega (arith, length-copy dst src)
