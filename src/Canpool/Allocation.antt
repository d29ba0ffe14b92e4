-- ===== src/Canpool/Allocation.antt =====
-- What `Allocate` of packages/canpool/pool.go picks.
use elp.Prelude.{
  ℕ, zero, suc, ◌+◌, ◌≤◌, ◌<◌, ◌≡◌, ◌≢◌, ◌⊎◌, String, true, false, Option, none, some, arith,
  Bool-cases, inl, inr, leb,
}
use elp.Prelude.Result.{ok, err}
use elp.Prelude.Eq.{nat_comparable, string_comparable, string_eq_iff}
use elp.Canpool.Config.{no_address_available}
use elp.Canpool.Pool.{
  Pool, done, in_range, assign, next_addr, first_free, loop_fuel, allocate, is_free, take_found,
  address_of,
}
use elp.Canpool.Invariant.{IsConsistent}

-- What the loop finds, from `a` on.
abbrev Finds : Pool → ℕ → Option ℕ → Type 0
Finds p a (some x) =
    (a ≤ x)
    × (x ≤ p.cfg.end)
    × (is_free p x ≡ true)
    × ((b : ℕ) → a ≤ b → b ≤ p.cfg.end → is_free p b ≡ true → x ≤ b)
Finds p a none = (b : ℕ) → a ≤ b → b ≤ p.cfg.end → is_free p b ≡ false

step_past :
    (p : Pool) (a : ℕ) (found : Option ℕ)
    → p.cfg.end ≤ 255
    → a ≤ p.cfg.end
    → is_free p a ≡ false
    → Finds p (next_addr a) found
    → Finds p a found
step_past p a none m h f rest = λ b l u. ground (arith, rest b)
step_past p a (some x) m h f rest =
    (omega arith, rest.1, rest.2, λ b l u g. ground (arith, rest.3 b))

first_free-Finds :
    (fuel : ℕ) (p : Pool) (a : ℕ)
    → p.cfg.end ≤ 255
    → a ≤ p.cfg.end + 1
    → p.cfg.end + 1 < a + fuel
    → (found : Option ℕ) × (first_free fuel p a ≡ done found) × Finds p a found
unfolding first_free
first_free-Finds zero p a m l h = absurd (omega arith)
first_free-Finds (suc fuel) p a m l₀ h = elim (Bool-cases (leb a p.cfg.end)) [
  | inr past ↦ (none, rw past, λ b l u. ground arith)
  | inl inside ↦ elim (Bool-cases (is_free p a)) [
    | inl free ↦ (some a, rw (inside, free), (omega arith, ground arith, free, λ b l u g. l))
    | inr used ↦
        let (found, e, f) = first_free-Finds fuel p (next_addr a) m (ground arith) (ground arith) in
        (found, rw (inside, used) e, step_past p a found m (ground arith) used f)
  ]
]

-- `x` is the lowest address of the range that is neither reserved nor assigned.
pub record IsLowestFree (p : Pool) (x : ℕ) : Type 0 where
  pub inside : in_range p x ≡ true
  pub free : is_free p x ≡ true
  pub lowest : (b : ℕ) → in_range p b ≡ true → is_free p b ≡ true → x ≤ b

abbrev pub IsFull : Pool → Type 0
IsFull p = (b : ℕ) → in_range p b ≡ true → is_free p b ≡ false

-- The two ways in which `allocate` ends for a new owner.
abbrev pub Allocates : Pool → String → Type 0
Allocates p owner =
    ((x : ℕ) × (allocate p owner ≡ done (assign p owner x, ok x)) × IsLowestFree p x)
    ⊎ ((allocate p owner ≡ done (p, err no_address_available)) × IsFull p)

of_found :
    (p : Pool) (owner : String) (found : Option ℕ)
    → allocate p owner ≡ done (take_found p owner found)
    → Finds p p.cfg.start found
    → Allocates p owner
unfolding take_found in_range
of_found p owner none e f = inr (e, λ b r. f b (ground arith) (ground arith))
of_found p owner (some x) e f = inl (
  x,
  e,
  record {
    inside = ground arith;
    free = f.2;
    lowest = λ b r g. f.3 b (ground arith) (ground arith) g;
  },
)

-- For an owner with a name and no address, `Allocate` always ends; it assigns the lowest address
-- of the range that is neither reserved nor assigned, or, where there is none, leaves the pool
-- as it was and returns ErrNoAddressAvailable.
pub allocate_lowest :
    (p : Pool) (owner : String)
    → IsConsistent p
    → owner ≢ ""
    → address_of p owner ≡ none
    → Allocates p owner
unfolding allocate address_of
allocate_lowest p owner v n h =
    let (found, e, f) =
      first_free-Finds loop_fuel p p.cfg.start v.cfg_valid.end_max (omega (arith, v.cfg_valid))
        (omega (arith, v.cfg_valid)) in
    of_found p owner found (ground (arith, string_eq_iff owner "", e, h)) f
