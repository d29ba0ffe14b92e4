-- ===== src/Operator/Rebuilt.antt =====
-- The pool that the allocator rebuilds from the detectors
-- (operators/z21-device/internal/controller/candetector_allocate.go).
use elp.Prelude.{
  ℕ, ◌≤◌, ◌≡◌, ◌≢◌, refl, sym, ap, ◌∙◌, subst, String, Option, none, some, List, [], ◌∷◌, arith,
  Option-cases, inl, inr, some_inj,
}
use mathlib.Core.List.{Memᴰ}
use elp.Prelude.Result.{ok, Result-cases}
use elp.Prelude.Eq.{nat_comparable, string_comparable, string_eq_iff}
use elp.Prelude.Assoc.{lookup, lookup-insert, lookup-insert_self}
use elp.Canpool.Config.{Config, Err}
use elp.Canpool.Pool.{Pool, Assignment, done, new, assign, check_assignment, rebuild_from, rebuild}
use elp.Canpool.Invariant.{IsConsistent, in_range_iff}
use elp.Canpool.Preservation.{new-IsConsistent, rebuild-IsConsistent}
use elp.Operator.Detector.{CanDetector, allocated, owner_key}
use elp.Operator.Allocate.{
  AllocationResult, assigned_address, assignments_from_detectors, choose_address,
  allocate_detector_address,
}
use elp.Operator.Exclusive.{Given, choose}

-- A rebuild that goes through, one round at a time.
rebuild_round :
    (p q : Pool) (a : Assignment) (rest : List Assignment)
    → rebuild_from p (a ∷ rest) ≡ (q, none)
    → (check_assignment p a ≡ none) × (rebuild_from (assign p a.owner a.address) rest ≡ (q, none))
unfolding rebuild_from
rebuild_round p q a rest h = ground arith

fresh_owner :
    (p : Pool) (a : Assignment)
    → check_assignment p a ≡ none
    → lookup a.owner p.addr_by_owner ≡ none
unfolding check_assignment
fresh_owner p a h = ground arith

assign_keeps :
    (p : Pool) (owner o : String) (a b : ℕ)
    → lookup owner p.addr_by_owner ≡ none
    → lookup o p.addr_by_owner ≡ some b
    → lookup o (assign p owner a).addr_by_owner ≡ some b
unfolding assign
assign_keeps p owner o a b f h =
    ground (arith, lookup-insert owner o a p.addr_by_owner, string_eq_iff owner o)

assign_gets :
    (p : Pool) (owner : String) (a : ℕ) → lookup owner (assign p owner a).addr_by_owner ≡ some a
unfolding assign
assign_gets p owner a = lookup-insert_self owner a p.addr_by_owner

rebuild_keeps :
    (p q : Pool) (l : List Assignment) (o : String) (b : ℕ)
    → rebuild_from p l ≡ (q, none)
    → lookup o p.addr_by_owner ≡ some b
    → lookup o q.addr_by_owner ≡ some b
rebuild_keeps p q [] o b h k = unfold rebuild_from in ground (arith, h)
rebuild_keeps p q (a ∷ rest) o b h k =
    let (fine, more) = rebuild_round p q a rest h in
    rebuild_keeps (assign p a.owner a.address) q rest o b more
      (assign_keeps p a.owner o a.address b (fresh_owner p a fine) k)

rebuild_cfg : (p q : Pool) (l : List Assignment) → rebuild_from p l ≡ (q, none) → q.cfg ≡ p.cfg
rebuild_cfg p q [] h = unfold rebuild_from in ground (arith, h)
rebuild_cfg p q (a ∷ rest) h =
    let (fine, more) = rebuild_round p q a rest h in
    rebuild_cfg (assign p a.owner a.address) q rest more ∙ (unfold assign in refl)

without_address :
    (c : CanDetector) (l : List CanDetector)
    → assigned_address c ≡ none
    → assignments_from_detectors (c ∷ l) ≡ assignments_from_detectors l
unfolding assignments_from_detectors
without_address c l h = rw (h, assignments_from_detectors)

with_address :
    (c : CanDetector) (l : List CanDetector) (b : ℕ)
    → assigned_address c ≡ some b
    → assignments_from_detectors (c ∷ l)
      ≡ record { owner = owner_key c; address = b; net_id = c.spec.net_id }
        ∷ assignments_from_detectors l
unfolding assignments_from_detectors
with_address c l b h = rw (h, assignments_from_detectors)

-- After a rebuild from the detectors, each detector with an address holds it.
rebuild_holds :
    (p q : Pool) (l : List CanDetector) (d : CanDetector) (b : ℕ)
    → rebuild_from p (assignments_from_detectors l) ≡ (q, none)
    → Memᴰ d l
    → assigned_address d ≡ some b
    → lookup (owner_key d) q.addr_by_owner ≡ some b
rebuild_holds p q [] d b h m k = elim m [ ]
rebuild_holds p q (c ∷ l) d b h (Memᴰ.head e) k =
    let k' : assigned_address c ≡ some b = rw (← e) k in
    let (fine, more) = rebuild_round p q _ _ (rw (with_address c l b k') at h) in
    rw e (
      rebuild_keeps (assign p (owner_key c) b) q (assignments_from_detectors l) (owner_key c) b more
        (assign_gets p (owner_key c) b))
rebuild_holds p q (c ∷ l) d b h (Memᴰ.tail m) k = elim (Option-cases (assigned_address c)) [
  | inl bare ↦ rebuild_holds p q l d b (rw (without_address c l bare) at h) m k
  | inr (x, has) ↦
      let (fine, more) = rebuild_round p q _ _ (rw (with_address c l x has) at h) in
      rebuild_holds (assign p (owner_key c) x) q l d b more m k
]

-- An allocation that gave out an address, taken apart: the pool after the rebuild, and the pool
-- that the allocation left behind.
record Traced (cfg : Config) (l : List CanDetector) (d : CanDetector) (r : AllocationResult)
    : Type 0 where
  rebuilt : Pool
  left : Pool
  held :
      (other : CanDetector) (b : ℕ)
      → Memᴰ other l
      → assigned_address other ≡ some b
      → lookup (owner_key other) rebuilt.addr_by_owner ≡ some b
  given : Given rebuilt (owner_key d) r.assigned_address left
  same_cfg : left.cfg ≡ cfg

new_cfg : (cfg : Config) (p : Pool) → new cfg ≡ ok p → p.cfg ≡ cfg
unfolding new
new_cfg cfg p h = ground arith

chosen :
    (cfg : Config) (l : List CanDetector) (d : CanDetector) (r : AllocationResult)
    → allocate_detector_address cfg l d ≡ done r
    → r.phase ≡ allocated
    → (p : Pool) × (q : Pool) × (new cfg ≡ ok p)
      × (rebuild p (assignments_from_detectors l) ≡ (q, none))
      × (choose_address q d ≡ done r)
unfolding allocate_detector_address
chosen cfg l d r h g = elim (Result-cases (new cfg)) [
  | inr (e, bad) ↦ absurd (ground arith)
  | inl (p, good) ↦ elim (Option-cases (rebuild p (assignments_from_detectors l)).1) [
    | inr (e, bad) ↦ absurd (ground arith)
    | inl fine ↦ (p, (rebuild p (assignments_from_detectors l)).0, good, ground arith, ground arith)
  ]
]

same_done : {a b : AllocationResult} → done a ≡ done b → a ≡ b
same_done h = cc

trace :
    (cfg : Config) (l : List CanDetector) (d : CanDetector) (r : AllocationResult)
    → allocate_detector_address cfg l d ≡ done r
    → r.phase ≡ allocated
    → Traced cfg l d r
unfolding rebuild
trace cfg l d r h g =
    let (p, q, made, fine, picked) = chosen cfg l d r h g in
    let v =
      subst IsConsistent (ap (λ (x : Pool × Option Err). x.0) fine)
        (rebuild-IsConsistent p (assignments_from_detectors l) (new-IsConsistent cfg p made)) in
    let (r', c) = choose q d v in
    let same : r' ≡ r = same_done (sym c.returns ∙ picked) in
    let (left, given) = c.given (ap (λ (x : AllocationResult). x.phase) same ∙ g) in
    record {
      rebuilt = q;
      left = left;
      held = λ other b m k.
          rebuild_holds (record p { owner_by_addr = []; addr_by_owner = [] }) q l other b fine m k;
      given = subst (λ x. Given q (owner_key d) x.assigned_address left) same given;
      same_cfg =
          given.cfg ∙ rebuild_cfg _ q (assignments_from_detectors l) fine ∙ new_cfg cfg p made;
    }

-- An address that was given out lies in the range of the pool's configuration, and is the address of
-- no other detector of the list, one with another owner key, that has an address.
pub allocation_exclusive :
    (cfg : Config) (l : List CanDetector) (d other : CanDetector) (r : AllocationResult) (b : ℕ)
    → allocate_detector_address cfg l d ≡ done r
    → r.phase ≡ allocated
    → Memᴰ other l
    → assigned_address other ≡ some b
    → owner_key other ≢ owner_key d
    → (cfg.start ≤ r.assigned_address) × (r.assigned_address ≤ cfg.end) × (b ≢ r.assigned_address)
unfolding trace
allocation_exclusive cfg l d other r b h g m k ne =
    let t = trace cfg l d r h g in
    let v = t.given.consistent in
    let mine = v.held (owner_key d) r.assigned_address t.given.gets in
    let theirs =
      v.held (owner_key other) b (t.given.keeps (owner_key other) b (t.held other b m k)) in
    let bounds =
      in_range_iff t.left r.assigned_address
        (v.ranged (owner_key d) r.assigned_address t.given.gets) in
    (
      rw (← t.same_cfg) bounds.0,
      rw (← t.same_cfg) bounds.1,
      λ e. ne (some_inj (sym theirs ∙ (rw e) ∙ mine)),
    )

-- A detector of the list that has an address keeps it: the allocation gives out the same one.
pub allocation_stable :
    (cfg : Config) (l : List CanDetector) (d : CanDetector) (r : AllocationResult) (a : ℕ)
    → allocate_detector_address cfg l d ≡ done r
    → r.phase ≡ allocated
    → Memᴰ d l
    → assigned_address d ≡ some a
    → r.assigned_address ≡ a
allocation_stable cfg l d r a h g m k =
    let t = trace cfg l d r h g in
    some_inj (sym t.given.gets ∙ t.given.keeps (owner_key d) a (t.held d a m k))
