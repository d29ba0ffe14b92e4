-- ===== src/Examples/Pools.antt =====
-- A pool of the addresses 10 to 12, of which 11 is reserved and 10 is assigned to the yard
-- (packages/canpool).
use elp.Prelude.{ℕ, ◌≡◌, ◌≢◌, ◌↔◌, refl, String, true, none, List, [], ◌∷◌, arith}
use elp.Prelude.Eq.{nat_comparable, string_comparable, string_eq_iff, mem}
use elp.Prelude.Assoc.{lookup, insert}
use elp.Canpool.Config.{Config, Stats, validate, reserved_set}
use elp.Canpool.Pool.{
  Pool, done, assign, available_from, new, claim, allocate, address_of, available, stats,
  is_auto_allocatable,
}
use elp.Canpool.Invariant.{IsConsistent}
use elp.Canpool.Available.{Ascending, available_exact, stats_exact}
use elp.Canpool.Laws.{take_head, allocate-available}
use elp.Canpool.Preservation.{Reach, made, called, claims, Reach-IsConsistent}
use elp.Canpool.Register.{to_claim, Reply}
use elp.Canpool.Refines.{run, Keeps, pool_refines}

abbrev pub yard_config : Config
yard_config = record { start = 10; end = 12; reserved = 11 ∷ [] }

abbrev pub empty_pool : Pool
empty_pool = record {
  cfg = yard_config;
  reserved = (11, tt) ∷ [];
  owner_by_addr = [];
  addr_by_owner = [];
}

abbrev pub yard_pool : Pool
yard_pool = record {
  cfg = yard_config;
  reserved = (11, tt) ∷ [];
  owner_by_addr = (10, "elp/yard") ∷ [];
  addr_by_owner = ("elp/yard", 10) ∷ [];
}

abbrev main_pool : Pool
main_pool = record {
  cfg = yard_config;
  reserved = (11, tt) ∷ [];
  owner_by_addr = (10, "elp/yard") ∷ (12, "elp/main") ∷ [];
  addr_by_owner = ("elp/yard", 10) ∷ ("elp/main", 12) ∷ [];
}

yard_pool-Reach : Reach yard_config yard_pool
unfolding new validate reserved_set claim lookup insert assign
yard_pool-Reach = called (made empty_pool refl) (claims empty_pool "elp/yard" 10)

pub yard_pool-IsConsistent : IsConsistent yard_pool
yard_pool-IsConsistent = Reach-IsConsistent yard_config yard_pool yard_pool-Reach

Reach-IsConsistent_example : IsConsistent yard_pool
Reach-IsConsistent_example = Reach-IsConsistent yard_config yard_pool yard_pool-Reach

abbrev main_owner : String
main_owner = "elp/main"

main_named : main_owner ≢ ""
main_named h = ground (arith, string_eq_iff main_owner "")

main_unassigned : address_of yard_pool "elp/main" ≡ none
unfolding address_of lookup
main_unassigned = refl

yard_available : available yard_pool ≡ done (12 ∷ [])
unfolding available available_from is_auto_allocatable lookup
yard_available = refl

allocate-available_example :
    allocate yard_pool "elp/main" ≡ done (take_head yard_pool "elp/main" (12 ∷ []))
allocate-available_example =
    allocate-available yard_pool "elp/main" (12 ∷ []) yard_pool-IsConsistent main_named
      main_unassigned yard_available

available_exact_example :
    (l : List ℕ) × (available yard_pool ≡ done l)
    × Ascending l
    × ((a : ℕ) → (mem a l ≡ true) ↔ (is_auto_allocatable yard_pool a ≡ true))
available_exact_example = available_exact yard_pool yard_pool-IsConsistent

stats_exact_example :
    (s : Stats) × (stats yard_pool ≡ done s)
    × (s.range_size ≡ 3)
    × (s.reserved ≡ 1)
    × (s.allocated ≡ 1)
    × (s.auto_available ≡ 1)
stats_exact_example = stats_exact yard_pool (12 ∷ []) yard_pool-IsConsistent yard_available

pool_refines_example :
    (out : Pool × Reply) × (run yard_pool (to_claim "elp/main" 10) ≡ done out)
    × Keeps yard_pool (to_claim "elp/main" 10) out
pool_refines_example = pool_refines yard_config yard_pool yard_pool-Reach (to_claim "elp/main" 10)
