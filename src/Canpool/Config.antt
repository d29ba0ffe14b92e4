-- ===== src/Canpool/Config.antt =====
-- packages/canpool/config.go and the errors of packages/canpool/pool.go.
use elp.Prelude.{
  ℕ, ◌≤◌, ◌≡◌, String, ◌||◌, Option, none, some, List, [], ◌∷◌, arith, ltb, if◌then◌else◌,
}
use elp.Prelude.Eq.{◌==◌, nat_comparable, string_comparable}
use elp.Prelude.Assoc.{Map, lookup, insert}

-- The errors that the package returns, with the values that their messages print.
pub data Err : Type 0 where
  start_required end_too_large start_after_end : Err
  reserved_zero : Err
  reserved_out_of_range : ℕ → Err
  reserved_duplicate : ℕ → Err
  owner_required : Err
  assignment_address_required : String → Err
  address_required : Err
  address_out_of_range : Err
  assignment_out_of_range : ℕ → String → Err
  duplicate_address : ℕ → String → String → Err
  duplicate_owner : String → ℕ → ℕ → Err
  owner_already_assigned : String → ℕ → Err
  address_in_use : ℕ → String → Err
  no_address_available : Err
  owner_not_found : Err

abbrev pub max_module_address : ℕ
max_module_address = 255

-- The addresses are `uint16`s.
pub record Config : Type 0 where
  pub start : ℕ
  pub end : ℕ
  pub reserved : List ℕ

-- `map[uint16]struct{}`
abbrev pub AddrSet : Type 0
AddrSet = Map ℕ (Unit {0})

-- The loop of `Validate` over `Reserved`, with the addresses seen so far.
unfoldable pub validate_reserved : Config → AddrSet → List ℕ → Option Err
validate_reserved c seen [] = none
validate_reserved c seen (addr ∷ rest) =
    let later = validate_reserved c (insert addr tt seen) rest in
    if addr == 0
    then some reserved_zero
    else if ltb addr c.start || ltb c.end addr
    then some (reserved_out_of_range addr)
    else elim (lookup addr seen) [ some _ ↦ some (reserved_duplicate addr) | none ↦ later ]

-- `none` is Go's nil error.
unfoldable pub validate : Config → Option Err
unfolding validate_reserved
validate c =
    if c.start == 0
    then some start_required
    else if ltb max_module_address c.end
    then some end_too_large
    else if ltb c.end c.start
    then some start_after_end
    else validate_reserved c [] c.reserved

-- The loop of `reservedSet`.
unfoldable pub reserved_into : AddrSet → List ℕ → AddrSet
reserved_into set [] = set
reserved_into set (addr ∷ rest) = reserved_into (insert addr tt set) rest

unfoldable pub reserved_set : Config → AddrSet
unfolding reserved_into
reserved_set c = reserved_into [] c.reserved

-- What `Validate` establishes of the bounds.
pub record IsValid (c : Config) : Type 0 where
  pub start_pos : 1 ≤ c.start
  pub ordered : c.start ≤ c.end
  pub end_max : c.end ≤ max_module_address

pub validate-IsValid : (c : Config) → validate c ≡ none → IsValid c
unfolding validate
validate-IsValid c h = ground arith

pub record Stats : Type 0 where
  pub range_size : ℕ
  pub reserved : ℕ
  pub allocated : ℕ
  pub auto_available : ℕ
