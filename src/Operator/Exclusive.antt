-- ===== src/Operator/Exclusive.antt =====
-- What operators/z21-device/internal/controller/candetector_allocate.go gives out.
use elp.Prelude.{
  ℕ, ◌≡◌, ◌≢◌, ◌⊎◌, refl, ◌∙◌, String, true, Option, none, some, arith, Option-cases, inl, inr,
}
use text.Mathlib.TextLemmas.{append-ne-nil_of_right_ne-nil, append-eq-nil_iff}
use elp.Prelude.Result.{ok}
use elp.Prelude.Eq.{nat_comparable, string_comparable, string_eq_iff}
use elp.Prelude.Assoc.{lookup, lookup-insert, lookup-insert_self}
use elp.Canpool.Config.{no_address_available}
use elp.Canpool.Pool.{Pool, done, in_range, assign, address_of, is_available, claim, is_free}
use elp.Canpool.Invariant.{IsConsistent, assign-IsConsistent}
use elp.Canpool.Allocation.{IsLowestFree, IsFull, allocate_lowest}
use elp.Canpool.Available.{available_exact, stats_exact}
use elp.Operator.Detector.{CanDetector, allocated, owner_key}
use elp.Operator.Allocate.{
  AllocationResult, failed_result, success_result, allocate_any, adoptable, adopt, choose_address,
}

slash_named : ◌≢◌ {A = String} "/" ""
slash_named = ground (arith, string_eq_iff "/" "")

owner_key_named : (d : CanDetector) → owner_key d ≢ ""
unfolding owner_key
owner_key_named d =
    append-ne-nil_of_right_ne-nil d.namespace (λ e. slash_named (append-eq-nil_iff.0 e).0)

-- A result that gives out `a`.
pub record Gives (r : AllocationResult) (a : ℕ) : Type 0 where
  pub phase : r.phase ≡ allocated
  pub assigned : r.assigned_address ≡ a
  pub desired : r.desired_address ≡ a
  pub message : r.message ≡ none

success_result-Gives :
    (p : Pool) (a : ℕ)
    → IsConsistent p
    → (r : AllocationResult) × (success_result p a ≡ done r) × Gives r a
unfolding success_result
success_result-Gives p a v =
    let (l, listed, asc, exact) = available_exact p v in
    let counts = stats_exact p l v listed in
    (
      record {
        desired_address = a;
        assigned_address = a;
        phase = allocated;
        message = none;
        stats = counts.0;
      },
      rw (counts.1, success_result),
      record { phase = refl; assigned = refl; desired = refl; message = refl },
    )

claim_available :
    (p : Pool) (owner : String) (a : ℕ)
    → IsConsistent p
    → owner ≢ ""
    → address_of p owner ≡ none
    → is_available p a ≡ true
    → claim p owner a ≡ (assign p owner a, ok tt)
unfolding claim address_of is_available in_range
claim_available p owner a v n h f = ground (arith, string_eq_iff owner "", v.cfg_valid)

-- The pool `q` that an allocation for `owner` from `p` leaves behind, with `a` given out.
pub record Given (p : Pool) (owner : String) (a : ℕ) (q : Pool) : Type 0 where
  pub consistent : IsConsistent q
  pub cfg : q.cfg ≡ p.cfg
  pub gets : lookup owner q.addr_by_owner ≡ some a
  pub keeps :
      (o : String) (b : ℕ) → lookup o p.addr_by_owner ≡ some b → lookup o q.addr_by_owner ≡ some b

assign-Given :
    (p : Pool) (owner : String) (a : ℕ)
    → IsConsistent p
    → owner ≢ ""
    → lookup owner p.addr_by_owner ≡ none
    → in_range p a ≡ true
    → lookup a p.owner_by_addr ≡ none
    → Given p owner a (assign p owner a)
assign-Given p owner a v n fo r fa = record {
  consistent = assign-IsConsistent owner a v r n fa fo;
  cfg = unfold assign in refl;
  gets = unfold assign in lookup-insert_self owner a p.addr_by_owner;
  keeps = λ o b h.
      unfold assign in
      ground (arith, lookup-insert owner o a p.addr_by_owner, string_eq_iff owner o);
}

-- How the address of a detector is chosen from a pool in which the assignments are.
abbrev pub Chooses : Pool → CanDetector → AllocationResult → Option ℕ → Option ℕ → Type 0
Chooses p d r (some a) seen = Gives r a
Chooses p d r none (some a) = Gives r a × (is_available p a ≡ true)
Chooses p d r none none =
    ((a : ℕ) × Gives r a × IsLowestFree p a) ⊎ ((r ≡ failed_result no_address_available) × IsFull p)

adoptable-is_available :
    (p : Pool) (d : CanDetector) (a : ℕ) → adoptable p d ≡ some a → is_available p a ≡ true
unfolding adoptable
adoptable-is_available p d a h = ground arith

pub available-parts :
    (p : Pool) (a : ℕ)
    → is_available p a ≡ true
    → (in_range p a ≡ true) × (lookup a p.owner_by_addr ≡ none)
unfolding is_available
available-parts p a h = ground arith

pub free-lookup : (p : Pool) (a : ℕ) → is_free p a ≡ true → lookup a p.owner_by_addr ≡ none
unfolding is_free
free-lookup p a h = ground arith

adopt-claim :
    (p q : Pool) (owner : String) (a : ℕ)
    → claim p owner a ≡ (q, ok tt)
    → adopt p owner a ≡ success_result q a
unfolding adopt
adopt-claim p q owner a h = ground arith

module _ (p : Pool) (d : CanDetector) (v : IsConsistent p) where
  -- The result of the choice, and the pool that it leaves behind if it gives out an address.
  pub record Choice (r : AllocationResult) : Type 0 where
    pub returns : choose_address p d ≡ done r
    pub chooses : Chooses p d r (address_of p (owner_key d)) (adoptable p d)
    pub given : r.phase ≡ allocated → (q : Pool) × Given p (owner_key d) r.assigned_address q

  choose_known : (a : ℕ) → address_of p (owner_key d) ≡ some a → (r : AllocationResult) × Choice r
  unfolding choose_address success_result-Gives
  choose_known a h =
      let (r, e, g) = success_result-Gives p a v in
      (
        r,
        record {
          returns = rw (h, choose_address) e;
          chooses = rw h g;
          given = λ _. (
            p,
            record {
              consistent = v;
              cfg = refl;
              gets = rw g.assigned (unfold address_of in h);
              keeps = λ o b k. k;
            },
          );
        },
      )

  choose_adopted :
      (a : ℕ)
      → address_of p (owner_key d) ≡ none
      → adoptable p d ≡ some a
      → (r : AllocationResult) × Choice r
  unfolding choose_address success_result-Gives
  choose_adopted a h k =
      let n = owner_key_named d in
      let f = adoptable-is_available p d a k in
      let claimed = claim_available p (owner_key d) a v n h f in
      let (inside, unused) = available-parts p a f in
      let after = assign-Given p (owner_key d) a v n (unfold address_of in h) inside unused in
      let (r, e, g) = success_result-Gives (assign p (owner_key d) a) a after.consistent in
      (
        r,
        record {
          returns =
              rw (h, choose_address)
                (rw (k, choose_address) (adopt-claim p _ (owner_key d) a claimed ∙ e));
          chooses = rw h (rw k (g, f));
          given = λ _. (assign p (owner_key d) a, rw g.assigned after);
        },
      )

  choose_any :
      address_of p (owner_key d) ≡ none → adoptable p d ≡ none → (r : AllocationResult) × Choice r
  unfolding choose_address allocate_any success_result-Gives
  choose_any h k =
      let n = owner_key_named d in
      elim (allocate_lowest p (owner_key d) v n h) [
        | inr (e, full) ↦ (
          failed_result no_address_available,
          record {
            returns = rw (h, choose_address) (rw (k, choose_address) (rw (e, allocate_any)));
            chooses = rw h (rw k (inr (refl, full)));
            given = λ bad. cc;
          },
        )
        | inl (x, e, low) ↦
            let after =
              assign-Given p (owner_key d) x v n (unfold address_of in h) low.inside
                (free-lookup p x low.free) in
            let (r, e', g) = success_result-Gives (assign p (owner_key d) x) x after.consistent in
            (
              r,
              record {
                returns = rw (h, choose_address) (rw (k, choose_address) (rw (e, allocate_any) e'));
                chooses = rw h (rw k (inl (x, g, low)));
                given = λ _. (assign p (owner_key d) x, rw g.assigned after);
              },
            )
      ]

  pub choose : (r : AllocationResult) × Choice r
  choose = elim (Option-cases (address_of p (owner_key d))) [
    | inr (a, h) ↦ choose_known a h
    | inl h ↦ elim (Option-cases (adoptable p d)) [
      | inr (a, k) ↦ choose_adopted a h k
      | inl k ↦ choose_any h k
    ]
  ]
