-- ===== src/Operator/Chosen.antt =====
-- How operators/z21-device/internal/controller/candetector_allocate.go chooses an address.
use elp.Prelude.{
  ℕ, ◌≤◌, ◌≡◌, ◌≢◌, ◌↔◌, ◌⊎◌, false, Bool-cases, refl, ap, Bool, true, some_inj, Option, none, some,
  arith, Option-cases, inl, inr,
}
use elp.Prelude.Eq.{nat_comparable, string_comparable}
use elp.Prelude.Assoc.{lookup}
use elp.Canpool.Config.{no_address_available}
use elp.Canpool.Pool.{Pool, done, in_range, address_of, is_available, is_some}
use elp.Canpool.Invariant.{IsConsistent}
use elp.Canpool.Allocation.{IsLowestFree, IsFull}
use elp.Operator.Detector.{CanDetector, owner_key, adopt_observed_enabled}
use elp.Operator.Allocate.{AllocationResult, failed_result, adoptable, choose_address}
use elp.Operator.Exclusive.{Gives, choose, available-parts}

-- The detector may take the address `a` that it reports: it does not say that observed addresses are
-- not adopted, it reports `a`, and `a` lies in the range and has no owner.
pub record MayAdopt (p : Pool) (d : CanDetector) (a : ℕ) : Type 0 where
  pub asked : d.spec.adopt_observed ≢ some false
  pub seen : d.status.observed_address ≡ some a
  pub inside : (p.cfg.start ≤ a) × (a ≤ p.cfg.end)
  pub unused : lookup a p.owner_by_addr ≡ none

not_refused : (o : Option Bool) → ((elim o [ none ↦ true | some b ↦ b ]) ≡ true) ↔ (o ≢ some false)
not_refused none = (λ h e. ground (arith, ap (λ (x : Option Bool). is_some x) e), λ h. refl)
not_refused (some true) = (λ h e. ground (arith, some_inj e), λ h. refl)
not_refused (some false) = (λ h e. ground (arith, h), λ h. absurd (h refl))

asked-enabled :
    (d : CanDetector) → (adopt_observed_enabled d ≡ true) ↔ (d.spec.adopt_observed ≢ some false)
unfolding adopt_observed_enabled
asked-enabled d = not_refused d.spec.adopt_observed

range-parts : (p : Pool) (a : ℕ) → in_range p a ≡ true → (p.cfg.start ≤ a) × (a ≤ p.cfg.end)
unfolding in_range
range-parts p a h = ground (arith, h)

adoptable-MayAdopt : (p : Pool) (d : CanDetector) (a : ℕ) → adoptable p d ≡ some a → MayAdopt p d a
unfolding adoptable
adoptable-MayAdopt p d a h = elim (Option-cases d.status.observed_address) [
  | inl unseen ↦ ground (arith, h, unseen)
  | inr (b, seen) ↦ elim (Bool-cases (adopt_observed_enabled d)) [
    | inr refused ↦ ground (arith, h, refused)
    | inl asked ↦ elim (Bool-cases (is_available p b)) [
      | inr taken ↦ ground (arith, h, asked, seen, taken)
      | inl free ↦
          let e : b ≡ a = ground (arith, h, asked, seen, free) in
          let (inside, unused) = available-parts p a (rw e at free) in
          record {
            asked = (asked-enabled d).0 asked;
            seen = rw e at seen;
            inside = range-parts p a inside;
            unused = unused;
          }
    ]
  ]
]

MayAdopt-adoptable : (p : Pool) (d : CanDetector) (a : ℕ) → MayAdopt p d a → adoptable p d ≡ some a
unfolding adoptable is_available in_range
MayAdopt-adoptable p d a may =
    let asked = (asked-enabled d).1 may.asked in
    let seen = may.seen in
    let inside = may.inside in
    let unused = may.unused in ground (arith, asked, seen, inside, unused)

-- What the result gives out if the detector has no address in the pool.
abbrev pub ChosenNew : Pool → CanDetector → AllocationResult → Type 0
ChosenNew p d r =
    ((a : ℕ) × MayAdopt p d a × Gives r a)
    ⊎ (((a : ℕ) → ¬ MayAdopt p d a)
        × (((a : ℕ) × Gives r a × IsLowestFree p a)
            ⊎ ((r ≡ failed_result no_address_available) × IsFull p)))

-- From a consistent pool the allocation always returns. It gives out the address that the detector
-- has in the pool; if there is none, the address that the detector reports, unless the detector
-- says that it is not to be adopted, if that address is in range and has no owner; otherwise the
-- lowest address of the range that is neither reserved nor assigned; and it fails with
-- ErrNoAddressAvailable only if there is none.
pub choose_address_total :
    (p : Pool) (d : CanDetector)
    → IsConsistent p
    → (r : AllocationResult) × (choose_address p d ≡ done r)
      × (((a : ℕ) × (lookup (owner_key d) p.addr_by_owner ≡ some a) × Gives r a)
          ⊎ ((lookup (owner_key d) p.addr_by_owner ≡ none) × ChosenNew p d r))
unfolding address_of
choose_address_total p d v =
    let (r, c) = choose p d v in
    (
      r,
      c.returns,
      elim (Option-cases (address_of p (owner_key d))) [
        | inr (a, known) ↦ inl (a, known, rw known at c.chooses)
        | inl unknown ↦ inr (
          unknown,
          elim (Option-cases (adoptable p d)) [
            | inr (a, seen) ↦
                inl (a, adoptable-MayAdopt p d a seen, (rw seen at (rw unknown at c.chooses)).0)
            | inl nothing ↦ inr (
              λ a may. ground (arith, nothing, MayAdopt-adoptable p d a may),
              rw nothing at (rw unknown at c.chooses),
            )
          ],
        )
      ],
    )
