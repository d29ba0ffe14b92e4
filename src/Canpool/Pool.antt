-- ===== src/Canpool/Pool.antt =====
-- packages/canpool/pool.go: a method that mutates `*Pool` returns the new pool.
use elp.Prelude.{
  ℕ, zero, suc, ◌+◌, ◌-◌, ◌%◌, String, Bool, true, false, not, ◌&&◌, Option, none, some, List, [],
  ◌∷◌, ◌++◌, leb, if◌then◌else◌, length,
}
use elp.Prelude.Result.{Result, ok, err}
use elp.Prelude.Eq.{◌==◌, nat_comparable, string_comparable}
use elp.Prelude.Assoc.{Map, lookup, insert, delete}
use elp.Canpool.Config.{
  Config, Err, AddrSet, Stats, validate, reserved_set, owner_required, assignment_address_required,
  address_required, address_out_of_range, assignment_out_of_range, duplicate_address,
  duplicate_owner, owner_already_assigned, address_in_use, no_address_available, owner_not_found,
}

pub record Assignment : Type 0 where
  pub owner : String
  pub address : ℕ
  pub net_id : ℕ

pub record Pool : Type 0 where
  pub cfg : Config
  pub reserved : AddrSet
  pub owner_by_addr : Map ℕ String
  pub addr_by_owner : Map String ℕ

unfoldable pub new : Config → Result Err Pool
new cfg = elim (validate cfg) [
  | some e ↦ err e
  | none ↦
      ok (record { cfg = cfg; reserved = reserved_set cfg; owner_by_addr = []; addr_by_owner = [] })
]

unfoldable pub in_range : Pool → ℕ → Bool
in_range p addr = leb p.cfg.start addr && leb addr p.cfg.end

abbrev pub is_some {ℓ} : {A : Type ℓ} → Option A → Bool
is_some none = false
is_some (some _) = true

unfoldable pub is_reserved : Pool → ℕ → Bool
is_reserved p addr = is_some (lookup addr p.reserved)

-- `p.ownerByAddr[addr] = owner; p.addrByOwner[owner] = addr`
unfoldable pub assign : Pool → String → ℕ → Pool
assign p owner addr = record p {
  owner_by_addr = insert addr owner p.owner_by_addr;
  addr_by_owner = insert owner addr p.addr_by_owner;
}

-- The checks of one round of the loop of `Rebuild`, in their order.
unfoldable pub check_assignment : Pool → Assignment → Option Err
unfolding in_range
check_assignment p a =
    if a.owner == ""
    then some owner_required
    else if a.address == 0
    then some (assignment_address_required a.owner)
    else if not (in_range p a.address)
    then some (assignment_out_of_range a.address a.owner)
    else elim (lookup a.address p.owner_by_addr) [
      | some other ↦ some (duplicate_address a.address other a.owner)
      | none ↦ elim (lookup a.owner p.addr_by_owner) [
        | some prev ↦ some (duplicate_owner a.owner prev a.address)
        | none ↦ none
      ]
    ]

-- The loop of `Rebuild`: on an error the assignments before it stay.
unfoldable pub rebuild_from : Pool → List Assignment → Pool × Option Err
rebuild_from p [] = (p, none)
rebuild_from p (a ∷ rest) =
    let next = rebuild_from (assign p a.owner a.address) rest in
    elim (check_assignment p a) [ some e ↦ (p, some e) | none ↦ next ]

unfoldable pub rebuild : Pool → List Assignment → Pool × Option Err
rebuild p assignments =
    rebuild_from (record p { owner_by_addr = []; addr_by_owner = [] }) assignments

-- `addr++` on a `uint16`
abbrev pub next_addr : ℕ → ℕ
next_addr addr = (addr + 1) % 65536

-- Whether the loop of `Allocate` takes `addr`.
unfoldable pub is_free : Pool → ℕ → Bool
unfolding is_reserved
is_free p addr = not (is_reserved p addr) && not (is_some (lookup addr p.owner_by_addr))

-- The outcome of a loop over addresses: it ends with a value, or the fuel runs out.
pub data Scan {ℓ} (A : Type ℓ) : Type ℓ where
  out_of_fuel : Scan A
  done : A → Scan A

-- The loop of `Allocate` from `addr` on: the first address that it may take, if there is one.
unfoldable pub first_free : ℕ → Pool → ℕ → Scan (Option ℕ)
first_free zero p addr = out_of_fuel
first_free (suc fuel) p addr =
    let later = first_free fuel p (next_addr addr) in
    if leb addr p.cfg.end then (if is_free p addr then done (some addr) else later) else done none

-- More rounds than a validated range has addresses.
abbrev pub loop_fuel : ℕ
loop_fuel = 257

abbrev pub Outcome : Type 0 → Type 0
Outcome A = Pool × Result Err A

unfoldable pub take_found : Pool → String → Option ℕ → Outcome ℕ
take_found p owner (some addr) = (assign p owner addr, ok addr)
take_found p owner none = (p, err no_address_available)

unfoldable pub allocate : Pool → String → Scan (Outcome ℕ)
unfolding take_found
allocate p owner =
    if owner == "" then done (p, err owner_required) else elim (lookup owner p.addr_by_owner) [
      | some addr ↦ done (p, ok addr)
      | none ↦ elim (first_free loop_fuel p p.cfg.start) [
        | out_of_fuel ↦ out_of_fuel
        | done found ↦ done (take_found p owner found)
      ]
    ]

unfoldable pub claim : Pool → String → ℕ → Outcome (Unit {0})
unfolding in_range
claim p owner addr =
    if owner == ""
    then (p, err owner_required)
    else if addr == 0
    then (p, err address_required)
    else if not (in_range p addr)
    then (p, err address_out_of_range)
    else elim (lookup owner p.addr_by_owner) [
      | some existing ↦
          if existing == addr then (p, ok tt) else (p, err (owner_already_assigned owner existing))
      | none ↦ elim (lookup addr p.owner_by_addr) [
        | some other ↦ (p, err (address_in_use addr other))
        | none ↦ (assign p owner addr, ok tt)
      ]
    ]

-- `delete(p.addrByOwner, owner); delete(p.ownerByAddr, addr)`
unfoldable pub unassign : Pool → String → ℕ → Pool
unassign p owner addr = record p {
  owner_by_addr = delete addr p.owner_by_addr;
  addr_by_owner = delete owner p.addr_by_owner;
}

unfoldable pub release : Pool → String → Outcome (Unit {0})
release p owner =
    if owner == "" then (p, err owner_required) else elim (lookup owner p.addr_by_owner) [
      | none ↦ (p, err owner_not_found)
      | some addr ↦ (unassign p owner addr, ok tt)
    ]

unfoldable pub release_address : Pool → ℕ → Outcome (Unit {0})
unfolding release
release_address p addr = elim (lookup addr p.owner_by_addr) [
  | none ↦ (p, err owner_not_found)
  | some owner ↦ release p owner
]

unfoldable pub owner_of : Pool → ℕ → Option String
owner_of p addr = lookup addr p.owner_by_addr

unfoldable pub address_of : Pool → String → Option ℕ
address_of p owner = lookup owner p.addr_by_owner

unfoldable pub is_available : Pool → ℕ → Bool
unfolding in_range
is_available p addr =
    if not (in_range p addr) then false else not (is_some (lookup addr p.owner_by_addr))

unfoldable pub is_auto_allocatable : Pool → ℕ → Bool
unfolding is_available is_reserved
is_auto_allocatable p addr = is_available p addr && not (is_reserved p addr)

-- The loop of `Available`, with what it has appended to `out`.
unfoldable pub available_from : ℕ → Pool → ℕ → List ℕ → Scan (List ℕ)
available_from zero p addr out = out_of_fuel
available_from (suc fuel) p addr out =
    let later =
      available_from fuel p (next_addr addr)
        (if is_auto_allocatable p addr then out ++ addr ∷ [] else out) in
    if leb addr p.cfg.end then later else done out

unfoldable pub available : Pool → Scan (List ℕ)
available p = available_from loop_fuel p p.cfg.start []

-- The loop of `Stats`.
unfoldable pub count_from : ℕ → Pool → ℕ → ℕ → Scan ℕ
count_from zero p addr auto_avail = out_of_fuel
count_from (suc fuel) p addr auto_avail =
    let later =
      count_from fuel p (next_addr addr)
        (if is_auto_allocatable p addr then auto_avail + 1 else auto_avail) in
    if leb addr p.cfg.end then later else done auto_avail

-- `int(p.cfg.End-p.cfg.Start) + 1`: the subtraction is that of `uint16`.
unfoldable pub stats : Pool → Scan Stats
stats p = elim (count_from loop_fuel p p.cfg.start 0) [
  | out_of_fuel ↦ out_of_fuel
  | done auto_avail ↦ done (record {
    range_size = (p.cfg.end + 65536 - p.cfg.start) % 65536 + 1;
    reserved = length p.reserved;
    allocated = length p.owner_by_addr;
    auto_available = auto_avail;
  })
]

-- The insertion of one element in `sort.Slice` by address.
unfoldable pub insert_sorted : Assignment → List Assignment → List Assignment
insert_sorted a [] = a ∷ []
insert_sorted a (b ∷ rest) =
    if leb a.address b.address then a ∷ b ∷ rest else b ∷ insert_sorted a rest

-- `Assignments`: the `NetID` of each stays 0. The addresses are distinct, so that any sorting
-- gives this list.
unfoldable pub sorted_assignments : Map ℕ String → List Assignment
unfolding insert_sorted
sorted_assignments [] = []
sorted_assignments ((addr, owner) ∷ rest) =
    insert_sorted (record { owner = owner; address = addr; net_id = 0 }) (sorted_assignments rest)

unfoldable pub assignments : Pool → List Assignment
unfolding sorted_assignments
assignments p = sorted_assignments p.owner_by_addr
