-- ===== src/Canpool/Preservation.antt =====
-- The operations of packages/canpool/pool.go and the consistency of the pool.
use elp.Prelude.{
  ℕ, ◌≡◌, ◌≢◌, ◌⊎◌, String, true, none, some, List, [], ◌∷◌, arith, subst, Bool-cases, Option-cases,
  inl, inr,
}
use elp.Prelude.Result.{ok, err}
use elp.Prelude.Eq.{◌==◌, nat_comparable, string_comparable, string_eq_iff}
use elp.Prelude.Assoc.{lookup, lookup-delete}
use elp.Canpool.Config.{Config, validate, validate-IsValid, owner_required, no_address_available}
use elp.Canpool.Pool.{
  Pool, Assignment, Outcome, done, new, in_range, assign, check_assignment, rebuild_from, rebuild,
  allocate, claim, release, release_address, address_of, unassign, is_free,
}
use elp.Canpool.Invariant.{IsConsistent, assign-IsConsistent}
use elp.Canpool.Allocation.{allocate_lowest}

-- A new pool.
pub new-IsConsistent : (cfg : Config) (p : Pool) → new cfg ≡ ok p → IsConsistent p
unfolding new lookup
new-IsConsistent cfg p h = elim (Option-cases (validate cfg)) [
  | inl fine ↦
      let v = validate-IsValid cfg fine in
      record {
        cfg_valid = ground (arith, v);
        owned = λ a o e. ground arith;
        held = λ o a e. ground arith;
        ranged = λ o a e. ground arith;
        named = λ a o e. ground arith;
      }
  | inr (e, bad) ↦ absurd (ground arith)
]

checked :
    (p : Pool) (a : Assignment)
    → check_assignment p a ≡ none
    → (in_range p a.address ≡ true)
      × (a.owner ≢ "")
      × (lookup a.address p.owner_by_addr ≡ none)
      × (lookup a.owner p.addr_by_owner ≡ none)
unfolding check_assignment
checked p a h = ground (arith, string_eq_iff a.owner "")

rebuild_from-IsConsistent :
    (p : Pool) (l : List Assignment) → IsConsistent p → IsConsistent (rebuild_from p l).0
unfolding rebuild_from
rebuild_from-IsConsistent p [] v = v
rebuild_from-IsConsistent p (a ∷ rest) v = elim (Option-cases (check_assignment p a)) [
  | inr (e, bad) ↦ rw (bad, rebuild_from) v
  | inl fine ↦
      let (r, n, fa, fo) = checked p a fine in
      rw (fine, rebuild_from)
        (rebuild_from-IsConsistent (assign p a.owner a.address) rest
          (assign-IsConsistent a.owner a.address v r n fa fo))
]

pub rebuild-IsConsistent :
    (p : Pool) (l : List Assignment) → IsConsistent p → IsConsistent (rebuild p l).0
unfolding rebuild lookup
rebuild-IsConsistent p l v = rebuild_from-IsConsistent _ l (record {
  cfg_valid = v.cfg_valid;
  owned = λ a o e. ground arith;
  held = λ o a e. ground arith;
  ranged = λ o a e. ground arith;
  named = λ a o e. ground arith;
})

-- `Allocate` returns, whatever the owner: the fuel of its loop is enough.
pub allocate_returns :
    (p : Pool) (owner : String)
    → IsConsistent p
    → (out : Outcome ℕ) × (allocate p owner ≡ done out) × IsConsistent out.0
unfolding allocate address_of is_free
allocate_returns p owner v = elim (Bool-cases (owner == "")) [
  | inl empty ↦ ((p, err owner_required), rw (empty, allocate), v)
  | inr named ↦ elim (Option-cases (lookup owner p.addr_by_owner)) [
    | inr (a, has) ↦ ((p, ok a), unfold allocate in ground arith, v)
    | inl fresh ↦ elim (allocate_lowest p owner v (ground (arith, string_eq_iff owner "")) fresh) [
      | inl (x, e, l) ↦ (
        (assign p owner x, ok x),
        e,
        assign-IsConsistent owner x v l.inside (ground (arith, string_eq_iff owner ""))
            (ground (arith, l.free)) fresh,
      )
      | inr (e, full) ↦ ((p, err no_address_available), e, v)
    ]
  ]
]

-- The pool after `Claim`: as it was, or with the address given to a new owner.
pub claim_cases :
    (p : Pool) (owner : String) (addr : ℕ)
    → ((claim p owner addr).0 ≡ p)
      ⊎ (((claim p owner addr).0 ≡ assign p owner addr)
          × (in_range p addr ≡ true)
          × (owner ≢ "")
          × (lookup addr p.owner_by_addr ≡ none)
          × (lookup owner p.addr_by_owner ≡ none))
unfolding claim
claim_cases p owner addr = ground (arith, string_eq_iff owner "")

pub claim-IsConsistent :
    (p : Pool) (owner : String) (addr : ℕ) → IsConsistent p → IsConsistent (claim p owner addr).0
claim-IsConsistent p owner addr v = elim (claim_cases p owner addr) [
  | inl same ↦ rw same v
  | inr (e, r, n, fa, fo) ↦ rw e (assign-IsConsistent owner addr v r n fa fo)
]

-- The pool after `Release`.
pub release_cases :
    (p : Pool) (owner : String)
    → ((release p owner).0 ≡ p)
      ⊎ ((addr : ℕ) × (lookup owner p.addr_by_owner ≡ some addr)
          × ((release p owner).0 ≡ unassign p owner addr))
unfolding release
release_cases p owner = elim (Option-cases (lookup owner p.addr_by_owner)) [
  | inl free ↦ inl (ground arith)
  | inr (addr, has) ↦ elim (Bool-cases (owner == "")) [
    | inl empty ↦ inl (ground arith)
    | inr named ↦ inr (addr, has, ground arith)
  ]
]

unassign-IsConsistent :
    (p : Pool) (owner : String) (addr : ℕ)
    → IsConsistent p
    → lookup owner p.addr_by_owner ≡ some addr
    → IsConsistent (unassign p owner addr)
unfolding unassign in_range
unassign-IsConsistent p owner addr v h = record {
  cfg_valid = v.cfg_valid;
  owned = λ a o e. ground (
    arith,
    lookup-delete addr a p.owner_by_addr,
    lookup-delete owner o p.addr_by_owner,
    v.owned a o,
    v.held owner addr,
    string_eq_iff owner o,
  );
  held = λ o a e. ground (
    arith,
    lookup-delete addr a p.owner_by_addr,
    lookup-delete owner o p.addr_by_owner,
    v.held o a,
    v.held owner addr,
    string_eq_iff owner o,
  );
  ranged = λ o a e. ground (arith, lookup-delete owner o p.addr_by_owner, v.ranged o a);
  named = λ a o e. ground (arith, lookup-delete addr a p.owner_by_addr, v.named a o);
}

pub release-IsConsistent :
    (p : Pool) (owner : String) → IsConsistent p → IsConsistent (release p owner).0
release-IsConsistent p owner v = elim (release_cases p owner) [
  | inl same ↦ rw same v
  | inr (addr, has, e) ↦ rw e (unassign-IsConsistent p owner addr v has)
]

pub release_address-IsConsistent :
    (p : Pool) (addr : ℕ) → IsConsistent p → IsConsistent (release_address p addr).0
unfolding release_address
release_address-IsConsistent p addr v = elim (Option-cases (lookup addr p.owner_by_addr)) [
  | inl free ↦ rw (free, release_address) v
  | inr (owner, used) ↦ rw (used, release_address) (release-IsConsistent p owner v)
]

-- One call of a method of the pool, with the pool before and after it.
pub data Step : Pool → Pool → Type 0 where
  rebuilds : (p : Pool) (l : List Assignment) → Step p (rebuild p l).0
  allocates :
      (p : Pool) (owner : String) (out : Outcome ℕ) → allocate p owner ≡ done out → Step p out.0
  claims : (p : Pool) (owner : String) (addr : ℕ) → Step p (claim p owner addr).0
  releases : (p : Pool) (owner : String) → Step p (release p owner).0
  releases_address : (p : Pool) (addr : ℕ) → Step p (release_address p addr).0

-- The pools that calls can lead to from what `New` returns.
pub data Reach (cfg : Config) : Pool → Type 0 where
  made : (p : Pool) → new cfg ≡ ok p → Reach cfg p
  called : {p q : Pool} → Reach cfg p → Step p q → Reach cfg q

same_out :
    (p : Pool) (owner : String) (out : Outcome ℕ)
    → IsConsistent p
    → allocate p owner ≡ done out
    → IsConsistent out.0
same_out p owner out v h =
    let (found, e, w) = allocate_returns p owner v in
    let same : found.0 ≡ out.0 = ground (arith, e, h) in subst IsConsistent same w

Step-IsConsistent : {p q : Pool} → Step p q → IsConsistent p → IsConsistent q
Step-IsConsistent (rebuilds p l) v = rebuild-IsConsistent p l v
Step-IsConsistent (allocates p owner out e) v = same_out p owner out v e
Step-IsConsistent (claims p owner addr) v = claim-IsConsistent p owner addr v
Step-IsConsistent (releases p owner) v = release-IsConsistent p owner v
Step-IsConsistent (releases_address p addr) v = release_address-IsConsistent p addr v

-- Whatever calls are made on a pool that `New` returned, its two maps stay inverse to one another,
-- and hold only addresses of the configured range and owners that are not empty.
pub Reach-IsConsistent : (cfg : Config) (p : Pool) → Reach cfg p → IsConsistent p
Reach-IsConsistent cfg p (made _ e) = new-IsConsistent cfg p e
Reach-IsConsistent cfg p (called r st) = Step-IsConsistent st (Reach-IsConsistent cfg _ r)
