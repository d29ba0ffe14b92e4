-- ===== src/Canpool/Laws.antt =====
-- How the operations of packages/canpool/pool.go meet one another.
use elp.Prelude.{
  ℕ, ◌≤◌, ◌<◌, ◌≡◌, ◌≢◌, sym, ◌∙◌, ◌↔◌, ◌⊎◌, subst, String, true, none, some, List, [], ◌∷◌, arith,
  if◌then◌else◌, Bool-cases, inl, inr, All,
}
use elp.Prelude.Result.{ok, err}
use elp.Prelude.Eq.{◌==◌, nat_comparable, string_comparable, string_eq_iff, beq_refl, mem}
use elp.Prelude.Assoc.{lookup, lookup-insert, lookup-insert_self, lookup-delete}
use elp.Canpool.Config.{no_address_available, owner_not_found}
use elp.Canpool.Pool.{
  Pool, Outcome, done, in_range, assign, unassign, allocate, release, address_of, owner_of,
  is_available, is_free, is_auto_allocatable, available,
}
use elp.Canpool.Invariant.{IsConsistent}
use elp.Canpool.Allocation.{Allocates, allocate_lowest}
use elp.Canpool.Available.{Ascending, available_exact}

is_auto_allocatable-eq :
    (p : Pool) (a : ℕ) → in_range p a ≡ true → is_auto_allocatable p a ≡ is_free p a
unfolding is_auto_allocatable is_free is_available
is_auto_allocatable-eq p a h = ground arith

is_auto_allocatable-in_range :
    (p : Pool) (a : ℕ) → is_auto_allocatable p a ≡ true → in_range p a ≡ true
unfolding is_auto_allocatable is_available
is_auto_allocatable-in_range p a h = ground arith

head_least : (a x : ℕ) (l : List ℕ) → Ascending (a ∷ l) → mem x (a ∷ l) ≡ true → a ≤ x
unfolding mem
head_least a x l asc h = elim (Bool-cases (x == a)) [
  | inl same ↦ ground arith
  | inr other ↦ above l asc.0 (ground arith)
]
  where
    above : (l : List ℕ) → All (λ b. a < b) l → mem x l ≡ true → a ≤ x
    above [] lo h = cc
    above (b ∷ l) lo h = ground (arith, above l lo.1)

-- What `Allocate` does with a list of the addresses that it may pick.
abbrev pub take_head : Pool → String → List ℕ → Outcome ℕ
take_head p owner [] = (p, err no_address_available)
take_head p owner (a ∷ l) = (assign p owner a, ok a)

module _ (p : Pool) (owner : String) where
  take_available :
      (l : List ℕ)
      → Ascending l
      → ((a : ℕ) → (mem a l ≡ true) ↔ (is_auto_allocatable p a ≡ true))
      → Allocates p owner
      → allocate p owner ≡ done (take_head p owner l)
  unfolding mem
  take_available [] asc exact (inr (r, full)) = r
  take_available [] asc exact (inl (x, r, low)) =
      cc ((exact x).1 (is_auto_allocatable-eq p x low.inside ∙ low.free))
  take_available (a ∷ l) asc exact found =
      let auto : is_auto_allocatable p a ≡ true = (exact a).0 (rw (beq_refl a)) in
      let inside = is_auto_allocatable-in_range p a auto in
      let free : is_free p a ≡ true = sym (is_auto_allocatable-eq p a inside) ∙ auto in
      elim found [
        | inr (r, full) ↦ cc (full a inside, free)
        | inl (x, r, low) ↦
            let listed = (exact x).1 (is_auto_allocatable-eq p x low.inside ∙ low.free) in
            let below = head_least a x l asc listed in
            let same : x ≡ a = omega (arith, low.lowest a inside free) in
            subst (λ y. allocate p owner ≡ done (assign p owner y, ok y)) same r
      ]

-- For a new owner with a name, `Allocate` takes the first address that `Available` lists, and it
-- fails with ErrNoAddressAvailable if that list is empty.
pub allocate-available :
    (p : Pool) (owner : String) (l : List ℕ)
    → IsConsistent p
    → owner ≢ ""
    → address_of p owner ≡ none
    → available p ≡ done l
    → allocate p owner ≡ done (take_head p owner l)
allocate-available p owner l v n h e =
    let (l', e', asc, exact) = available_exact p v in
    let same : l' ≡ l = ground (arith, e, e') in
    take_available p owner l (subst Ascending same asc)
      (λ a. subst (λ l. (mem a l ≡ true) ↔ (is_auto_allocatable p a ≡ true)) same (exact a))
      (allocate_lowest p owner v n h)

allocate_cases :
    (p q : Pool) (owner : String) (a : ℕ)
    → allocate p owner ≡ done (q, ok a)
    → (owner ≢ "")
      × (((p ≡ q) × (lookup owner p.addr_by_owner ≡ some a))
          ⊎ ((assign p owner a ≡ q) × (lookup owner p.addr_by_owner ≡ none)))
unfolding allocate
allocate_cases p q owner a h = ground (arith, string_eq_iff owner "")

-- What holds of a pool after `Allocate` has returned `a` for `owner`.
pub record Recorded (p q : Pool) (owner : String) (a : ℕ) : Type 0 where
  pub owner_there : owner_of q a ≡ some owner
  pub again : allocate q owner ≡ done (q, ok a)
  pub addresses :
      (other : String)
      → address_of q other ≡ (if owner == other then some a else address_of p other)

allocate_known :
    (q : Pool) (owner : String) (a : ℕ)
    → owner ≢ ""
    → lookup owner q.addr_by_owner ≡ some a
    → allocate q owner ≡ done (q, ok a)
unfolding allocate
allocate_known q owner a n h = ground (arith, string_eq_iff owner "")

assign-Recorded :
    (p : Pool) (owner : String) (a : ℕ) → owner ≢ "" → Recorded p (assign p owner a) owner a
unfolding assign address_of owner_of
assign-Recorded p owner a n = record {
  owner_there = lookup-insert_self a owner p.owner_by_addr;
  again = allocate_known (assign p owner a) owner a n (lookup-insert_self owner a p.addr_by_owner);
  addresses = λ other. lookup-insert owner other a p.addr_by_owner;
}

-- After an `Allocate` that returned `a`, the owner has `a` and every other owner the address that
-- it had, `a` has the owner, and a second call returns `a` again and changes nothing.
pub allocate_records :
    (p q : Pool) (owner : String) (a : ℕ)
    → IsConsistent p
    → allocate p owner ≡ done (q, ok a)
    → Recorded p q owner a
unfolding address_of owner_of
allocate_records p q owner a v e =
    let (n, which) = allocate_cases p q owner a e in
    elim which [
      | inl (same, has) ↦
          subst (λ r. Recorded p r owner a) same
            (record {
              owner_there = v.held owner a has;
              again = allocate_known p owner a n has;
              addresses = λ other. ground (arith, string_eq_iff owner other, has);
            })
      | inr (same, fresh) ↦ subst (λ r. Recorded p r owner a) same (assign-Recorded p owner a n)
    ]

-- What holds of a pool after `Release` of an owner that had `a`.
pub record Freed (p q : Pool) (owner : String) (a : ℕ) : Type 0 where
  pub open_again : is_available q a ≡ true
  pub again : release q owner ≡ (q, err owner_not_found)
  pub addresses :
      (other : String) → address_of q other ≡ (if owner == other then none else address_of p other)

unassign-Freed :
    (p : Pool) (owner : String) (a : ℕ)
    → IsConsistent p
    → lookup owner p.addr_by_owner ≡ some a
    → Freed p (unassign p owner a) owner a
unfolding unassign address_of is_available release in_range
unassign-Freed p owner a v h =
    let free = lookup-delete owner owner p.addr_by_owner in
    let n = v.named a owner (v.held owner a h) in
    record {
      open_again = ground (arith, v.ranged owner a h, lookup-delete a a p.owner_by_addr);
      again = ground (arith, free, beq_refl owner, string_eq_iff owner "");
      addresses = λ other. lookup-delete owner other p.addr_by_owner;
    }

-- `Release` of an owner with an address succeeds. After it the owner has none and every other owner
-- the address that it had, the released address is available, and a second call fails with ErrOwnerNotFound and
-- changes nothing.
pub release_frees :
    (p : Pool) (owner : String) (a : ℕ)
    → IsConsistent p
    → address_of p owner ≡ some a
    → (q : Pool) × (release p owner ≡ (q, ok tt)) × Freed p q owner a
unfolding release address_of
release_frees p owner a v e =
    let n = v.named a owner (v.held owner a e) in
    (unassign p owner a, ground (arith, string_eq_iff owner ""), unassign-Freed p owner a v e)
