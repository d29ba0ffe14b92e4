-- ===== src/Canpool/Refines.antt =====
-- The methods of packages/canpool/pool.go keep the promises of a pool.
use elp.Prelude.{
  ℕ, ◌≡◌, ◌≢◌, ◌∙◌, refl, ap, String, true, false, Option, none, some, Bool-cases, Option-cases,
  inl, inr, arith,
}
use elp.Prelude.Result.{ok, err}
use elp.Prelude.Eq.{◌==◌, nat_comparable, string_comparable, string_eq_iff}
use elp.Prelude.Assoc.{lookup, lookup-insert, lookup-delete}
use elp.Canpool.Config.{
  Config, owner_required, address_required, address_out_of_range, owner_already_assigned,
  address_in_use, no_address_available, owner_not_found,
}
use elp.Canpool.Pool.{
  Pool, Outcome, Scan, out_of_fuel, done, in_range, is_reserved, is_free, assign, unassign,
  allocate, claim, release, release_address, address_of,
}
use elp.Canpool.Invariant.{IsConsistent, in_range_iff}
use elp.Canpool.Allocation.{allocate_lowest as allocate_found}
use elp.Canpool.Preservation.{Reach, Reach-IsConsistent}
use elp.Canpool.Register.{
  Register, Call, to_allocate, to_claim, to_release, to_release_address, Reply, Gives, Drops,
  Unheld, IsOpen, Does, unnamed, allocate_again, allocate_lowest, allocate_full, claim_zero,
  claim_outside, claim_again, claim_other, claim_taken, claim_free, release_unknown, release_known,
  release_unused, release_used,
}

abbrev pub register : Pool → Register
register p o = lookup o p.addr_by_owner

abbrev reply : {A : Type 0} → (A → Option ℕ) → Outcome A → Pool × Reply
reply f (p, ok a) = (p, ok (f a))
reply f (p, err e) = (p, err e)

abbrev replies : {A : Type 0} → (A → Option ℕ) → Scan (Outcome A) → Scan (Pool × Reply)
replies f out_of_fuel = out_of_fuel
replies f (done out) = done (reply f out)

-- The method that a call stands for.
abbrev pub run : Pool → Call → Scan (Pool × Reply)
run p (to_allocate owner) = replies some (allocate p owner)
run p (to_claim owner addr) = done (reply (λ u. none) (claim p owner addr))
run p (to_release owner) = done (reply (λ u. none) (release p owner))
run p (to_release_address addr) = done (reply (λ u. none) (release_address p addr))

-- What a call on a pool does to its register is promised.
abbrev pub Keeps : Pool → Call → Pool × Reply → Type 0
Keeps p c (q, r) = Does p.cfg.start p.cfg.end (is_reserved p) (register p) c r (register q)

assign-Gives :
    (p : Pool) (owner : String) (a : ℕ) → Gives (register p) owner a (register (assign p owner a))
unfolding assign
assign-Gives p owner a o = lookup-insert owner o a p.addr_by_owner

unassign-Drops :
    (p : Pool) (owner : String) (a : ℕ) → Drops (register p) owner (register (unassign p owner a))
unfolding unassign
unassign-Drops p owner a o = lookup-delete owner o p.addr_by_owner

module _ (p : Pool) (v : IsConsistent p) where
  Unheld-none : (a : ℕ) → lookup a p.owner_by_addr ≡ none → Unheld (register p) a
  Unheld-none a free o has = ground (arith, v.held o a has, free)

  none-Unheld : (a : ℕ) → Unheld (register p) a → lookup a p.owner_by_addr ≡ none
  none-Unheld a unheld = elim (Option-cases (lookup a p.owner_by_addr)) [
    | inl free ↦ free
    | inr (o, used) ↦ elim (unheld o (v.owned a o used)) [ ]
  ]

  free-IsOpen :
      (a : ℕ)
      → in_range p a ≡ true
      → is_free p a ≡ true
      → IsOpen p.cfg.start p.cfg.end (is_reserved p) (register p) a
  unfolding is_free
  free-IsOpen a inside free = record {
    inside = in_range_iff p a inside;
    unreserved = ground arith;
    unheld = Unheld-none a (ground arith);
  }

  IsOpen-free :
      (a : ℕ)
      → IsOpen p.cfg.start p.cfg.end (is_reserved p) (register p) a
      → (in_range p a ≡ true) × (is_free p a ≡ true)
  unfolding is_free in_range
  IsOpen-free a open_ =
      let free = none-Unheld a open_.unheld in
      (ground (arith, open_.inside), ground (arith, open_.unreserved, free))

  allocate-Keeps :
      (owner : String)
      → (out : Pool × Reply) × (run p (to_allocate owner) ≡ done out)
        × Keeps p (to_allocate owner) out
  unfolding allocate address_of
  allocate-Keeps owner = elim (Bool-cases (owner == "")) [
    | inl empty ↦ (
      (p, err owner_required),
      rw (empty, allocate) refl,
      unnamed (register p) (to_allocate owner) (ap some ((string_eq_iff owner "").0 empty)),
    )
    | inr full_name ↦
        let has_name : owner ≢ "" = ground (arith, string_eq_iff owner "", full_name) in
        elim (Option-cases (lookup owner p.addr_by_owner)) [
          | inr (a, has) ↦ (
            (p, ok (some a)),
            rw (full_name, allocate) (rw (has, allocate) refl),
            allocate_again (register p) owner a has_name has,
          )
          | inl fresh ↦ elim (allocate_found p owner v has_name fresh) [
            | inl (x, e, low) ↦ (
              (assign p owner x, ok (some x)),
              ap (replies some) e,
              allocate_lowest (register p) (register (assign p owner x)) owner x has_name fresh
                  (free-IsOpen x low.inside low.free)
                  (λ b open_. let (inside, free) = IsOpen-free b open_ in low.lowest b inside free)
                  (assign-Gives p owner x),
            )
            | inr (e, full) ↦ (
              (p, err no_address_available),
              ap (replies some) e,
              allocate_full (register p) owner has_name fresh (λ b open_.
                  let (inside, free) = IsOpen-free b open_ in ground (arith, full b inside, free)),
            )
          ]
        ]
  ]

  claim_in_range :
      (owner : String) (a : ℕ)
      → owner ≢ ""
      → (owner == "") ≡ false
      → (a == 0) ≡ false
      → in_range p a ≡ true
      → (out : Pool × Reply) × (run p (to_claim owner a) ≡ done out)
        × Keeps p (to_claim owner a) out
  unfolding claim
  claim_in_range owner a has_name name positive inside =
      let inner = in_range_iff p a inside in
      elim (Option-cases (lookup owner p.addr_by_owner)) [
        | inr (b, has) ↦ elim (Bool-cases (b == a)) [
          | inl same ↦ (
            (p, ok none),
            rw (name, claim)
                (rw (positive, claim)
                  (rw (inside, claim) (rw (has, claim) (rw (same, claim) refl)))),
            claim_again (register p) owner a has_name inner
                (has ∙ ap some ((nat_comparable.equal_iff b a).0 same)),
          )
          | inr other ↦ (
            (p, err (owner_already_assigned owner b)),
            rw (name, claim)
                (rw (positive, claim)
                  (rw (inside, claim) (rw (has, claim) (rw (other, claim) refl)))),
            claim_other (register p) owner a b has_name inner has
                (λ e. ground (arith, e, other, nat_comparable.equal_iff b a)),
          )
        ]
        | inl fresh ↦ elim (Option-cases (lookup a p.owner_by_addr)) [
          | inr (other, used) ↦ (
            (p, err (address_in_use a other)),
            rw (name, claim)
                (rw (positive, claim)
                  (rw (inside, claim) (rw (fresh, claim) (rw (used, claim) refl)))),
            claim_taken (register p) owner other a has_name inner fresh (v.owned a other used),
          )
          | inl free ↦ (
            (assign p owner a, ok none),
            rw (name, claim)
                (rw (positive, claim)
                  (rw (inside, claim) (rw (fresh, claim) (rw (free, claim) refl)))),
            claim_free (register p) (register (assign p owner a)) owner a has_name inner fresh
                (Unheld-none a free) (assign-Gives p owner a),
          )
        ]
      ]

  claim-Keeps :
      (owner : String) (a : ℕ)
      → (out : Pool × Reply) × (run p (to_claim owner a) ≡ done out)
        × Keeps p (to_claim owner a) out
  unfolding claim in_range
  claim-Keeps owner a = elim (Bool-cases (owner == "")) [
    | inl empty ↦ (
      (p, err owner_required),
      rw (empty, claim) refl,
      unnamed (register p) (to_claim owner a) (ap some ((string_eq_iff owner "").0 empty)),
    )
    | inr name ↦
        let has_name : owner ≢ "" = ground (arith, string_eq_iff owner "", name) in
        elim (Bool-cases (a == 0)) [
          | inl zero_addr ↦ (
            (p, err address_required),
            rw (name, claim) (rw (zero_addr, claim) refl),
            claim_zero (register p) owner a has_name ((nat_comparable.equal_iff a 0).0 zero_addr),
          )
          | inr positive ↦ elim (Bool-cases (in_range p a)) [
            | inl inside ↦ claim_in_range owner a has_name name positive inside
            | inr outside ↦ (
              (p, err address_out_of_range),
              rw (name, claim) (rw (positive, claim) (rw (outside, claim) refl)),
              claim_outside (register p) owner a has_name
                  (λ e. ground (arith, e, positive, nat_comparable.equal_iff a 0))
                  (λ inside. ground (arith, inside, outside)),
            )
          ]
        ]
  ]

  release-Keeps :
      (owner : String)
      → (out : Pool × Reply) × (run p (to_release owner) ≡ done out)
        × Keeps p (to_release owner) out
  unfolding release
  release-Keeps owner = elim (Bool-cases (owner == "")) [
    | inl empty ↦ (
      (p, err owner_required),
      rw (empty, release) refl,
      unnamed (register p) (to_release owner) (ap some ((string_eq_iff owner "").0 empty)),
    )
    | inr name ↦
        let has_name : owner ≢ "" = ground (arith, string_eq_iff owner "", name) in
        elim (Option-cases (lookup owner p.addr_by_owner)) [
          | inl free ↦ (
            (p, err owner_not_found),
            rw (name, release) (rw (free, release) refl),
            release_unknown (register p) owner has_name free,
          )
          | inr (a, has) ↦ (
            (unassign p owner a, ok none),
            rw (name, release) (rw (has, release) refl),
            release_known (register p) (register (unassign p owner a)) owner a has_name has
                (unassign-Drops p owner a),
          )
        ]
  ]

  release_address-Keeps :
      (a : ℕ)
      → (out : Pool × Reply) × (run p (to_release_address a) ≡ done out)
        × Keeps p (to_release_address a) out
  unfolding release_address release
  release_address-Keeps a = elim (Option-cases (lookup a p.owner_by_addr)) [
    | inl free ↦ (
      (p, err owner_not_found),
      rw (free, release_address) refl,
      release_unused (register p) a (Unheld-none a free),
    )
    | inr (owner, used) ↦
        let has = v.owned a owner used in
        let name : (owner == "") ≡ false =
          ground (arith, v.named a owner used, string_eq_iff owner "") in
        (
          (unassign p owner a, ok none),
          rw (used, release_address) (rw (name, release) (rw (has, release) refl)),
          release_used (register p) (register (unassign p owner a)) owner a has
              (unassign-Drops p owner a),
        )
  ]

  pub call-Keeps : (c : Call) → (out : Pool × Reply) × (run p c ≡ done out) × Keeps p c out
  call-Keeps (to_allocate owner) = allocate-Keeps owner
  call-Keeps (to_claim owner a) = claim-Keeps owner a
  call-Keeps (to_release owner) = release-Keeps owner
  call-Keeps (to_release_address a) = release_address-Keeps a

-- Each call of Allocate, Claim, Release and ReleaseAddress on a pool that calls led to returns, and
-- what it replies and does to the addresses of the owners is what the register promises of the call:
-- the lowest open address is given out, a claim is refused for the first reason that holds, and
-- no other owner is affected.
pub pool_refines :
    (cfg : Config) (p : Pool)
    → Reach cfg p
    → (c : Call) → (out : Pool × Reply) × (run p c ≡ done out) × Keeps p c out
pool_refines cfg p reached c = call-Keeps p (Reach-IsConsistent cfg p reached) c
