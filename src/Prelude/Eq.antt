-- ===== src/Prelude/Eq.antt =====
-- Go's `==` on the types that the program compares or uses as map keys.
use mathlib.Core.Path.{◌≡◌, refl}
use mathlib.Core.Logic.{◌↔◌}
use mathlib.Core.Bool.{Bool, true, false, ◌||◌}
use mathlib.Core.List.{List, [], ◌∷◌}
use mathlib.Core.Option.{Option, none, some}
use native.Mathlib.Omega.{arith}
use Prim.Native.Nat.{ℕ}
use elp.Prelude.Tests.{nat_beq, nat_beq_iff}
use Prim.Native.String.{String}
use text.Mathlib.TextEquality.{eq_iff}
use text.Mathlib.Text.{◌==◌ as str_eq}

-- A comparable type of Go, with its test of equality.
pub record Comparable {ℓ} (K : Type ℓ) : Type ℓ where
  pub equal : K → K → Bool
  pub equal_iff : (j k : K) → (equal j k ≡ true) ↔ (j ≡ k)

instance abbrev pub string_comparable : Comparable String
string_comparable = record { equal_iff = eq_iff; equal = str_eq }

instance abbrev pub nat_comparable : Comparable ℕ
nat_comparable = record { equal_iff = nat_beq_iff; equal = nat_beq }

infix 50 ◌==◌
-- `j == k`
abbrev pub ◌==◌ {ℓ} : {K : Type ℓ} ⦃c : Comparable K⦄ (j k : K) → Bool
◌==◌ ⦃c⦄ j k = c.equal j k

pub string_eq_iff : (s t : String) → (str_eq s t ≡ true) ↔ (s ≡ t)
string_eq_iff = eq_iff

pub beq_refl {ℓ} : {A : Type ℓ} ⦃e : Comparable A⦄ (k : A) → (k == k) ≡ true
beq_refl ⦃e⦄ k = (e.equal_iff k k).1 refl

-- Whether a value stands in a list.
unfoldable pub mem {ℓ} : {A : Type ℓ} ⦃e : Comparable A⦄ → A → List A → Bool
mem a [] = false
mem a (b ∷ l) = a == b || mem a l

abbrev pub bool_equal : Bool → Bool → Bool
bool_equal true b = b
bool_equal false true = false
bool_equal false false = true

pub bool_equal_iff : (a b : Bool) → (bool_equal a b ≡ true) ↔ (a ≡ b)
bool_equal_iff true b = ground arith
bool_equal_iff false true = ground arith
bool_equal_iff false false = ground arith

instance abbrev pub bool_comparable : Comparable Bool
bool_comparable = record { equal_iff = bool_equal_iff; equal = bool_equal }

-- Two pointers to values of the type, compared by what they point to.
module _ {ℓ} {A : Type ℓ} ⦃c : Comparable A⦄ where
  abbrev pub option_equal : Option A → Option A → Bool
  option_equal none none = true
  option_equal (some a) (some b) = a == b
  option_equal _ _ = false

  pub option_equal_iff : (a b : Option A) → (option_equal a b ≡ true) ↔ (a ≡ b)
  option_equal_iff none none = ground arith
  option_equal_iff none (some b) = ground arith
  option_equal_iff (some a) none = ground arith
  option_equal_iff (some a) (some b) = ground (arith, c.equal_iff a b)

instance abbrev pub option_comparable {ℓ} : {A : Type ℓ} ⦃c : Comparable A⦄ → Comparable (Option A)
option_comparable = record { equal_iff = option_equal_iff; equal = option_equal }
