-- ===== src/Gateway/Applied.antt =====
-- The phase Applied of a CAN detector, which the gateway sets
-- (apps/z21-gateway/internal/detector/manager.go) and the operator's controller resets
-- (operators/z21-device/internal/controller/candetector_controller.go).
use Prim.Native.String.{◌++◌}
use Prim.Native.Nat.{ℕ}
use elp.Prelude.{
  ◌≡◌, ◌↔◌, ◌∙◌, refl, sym, ap, subst, String, true, some, some_inj, inl, inr, Bool-cases, arith,
}
use elp.Prelude.Result.{Result, ok, err}
use elp.Prelude.Action.{Action, pure, then_do, then_do-dropped, then_do-ok}
use elp.Prelude.Eq.{◌==◌, nat_comparable, option_comparable}
use elp.Operator.Detector.{
  CanDetector, Phase, unset, pending, allocated, applied, failed, phase_equal,
}
use elp.Operator.Cluster.{Resource}
use elp.Gateway.Detected.{Manager, after_apply}
use elp.Gateway.Detectors.{
  ManagerApi, mark_applied, apply_address, reconcile_one, poll_module_address, wrapped, closing,
}

-- What the API server promises of the status of a detector: a patch that it accepts from the detector
-- that is stored under a name to the same detector with another status stores that one.
abbrev pub StoresPatch : {S E : Type 0} → Resource S E CanDetector → Type 0
StoresPatch {S} detectors =
    (s t : S) (namespace name : String) (base new stored : CanDetector)
    → detectors.get namespace name s ≡ ok base
    → new ≡ record base { status = new.status }
    → detectors.patch_status base new s ≡ (ok stored, t)
    → detectors.get namespace name t ≡ ok new

-- A call whose result is only read leaves the state as it is.
then_do-reading :
    {S E A B : Type 0} (x : Result E A × S) (k : A → Action S E B)
    → ((a : A) (s : S) → (k a s).1 ≡ s)
    → (then_do x k).1 ≡ x.1
then_do-reading (ok a, s) k reads = reads a s
then_do-reading (err e, s) k reads = refl

phase_equal_sound : (p q : Phase) → phase_equal p q ≡ true → p ≡ q
phase_equal_sound unset unset h = refl
phase_equal_sound pending pending h = refl
phase_equal_sound allocated allocated h = refl
phase_equal_sound applied applied h = refl
phase_equal_sound failed failed h = refl
phase_equal_sound _ _ h = ground (arith, h)

module _ {S E M C : Type 0} (api : ManagerApi S E M C) where
  -- The detector is stored with the phase Applied exactly if it shows this address as observed.
  abbrev pub IsHonest : CanDetector → ℕ → S → Type 0
  IsHonest det a s =
      (d : CanDetector) × (api.detectors.get det.namespace det.name s ≡ ok d)
      × ((d.status.phase ≡ applied) ↔ (d.status.observed_address ≡ some a))

  -- The detector stays as it is stored while the gateway talks to the Z21.
  pub record IsLeftAlone (det : CanDetector) : Type 0 where
    pub dials :
        (addr : String) (s : S)
        → api.detectors.get det.namespace det.name (api.dial addr s).1
          ≡ api.detectors.get det.namespace det.name s
    pub sends :
        (c : C) (m : M) (s : S)
        → api.detectors.get det.namespace det.name (api.send c m s).1
          ≡ api.detectors.get det.namespace det.name s
    pub collects :
        (m : M) (s : S)
        → api.detectors.get det.namespace det.name (api.request_collect m s).1
          ≡ api.detectors.get det.namespace det.name s
    pub closes :
        (c : C) (s : S)
        → api.detectors.get det.namespace det.name (api.close c s)
          ≡ api.detectors.get det.namespace det.name s

  wrapped_state : {A : Type 0} (text : String) (x : Result E A × S) → (wrapped api text x).1 ≡ x.1
  wrapped_state text (ok a, s) = refl
  wrapped_state text (err e, s) = refl

  poll_state :
      (net_id : ℕ) (s : S)
      → (poll_module_address api net_id s).1
        ≡ (api.request_collect (api.get_can_detector net_id) s).1
  unfolding poll_module_address
  poll_state net_id s =
      then_do-reading (api.request_collect (api.get_can_detector net_id) s) _
        (λ msgs t. then_do-reading (api.reports_from_messages msgs, t) _ (λ reports u. refl))

  -- The detector is stored after a call that leaves it alone.
  still :
      {A : Type 0} (det : CanDetector) (s t u : S) (x : Result E A × S) (a : A)
      → x ≡ (ok a, t)
      → x.1 ≡ u
      → api.detectors.get det.namespace det.name u ≡ api.detectors.get det.namespace det.name s
      → api.detectors.get det.namespace det.name s ≡ ok det
      → api.detectors.get det.namespace det.name t ≡ ok det
  still det s t u x a ran state left stored =
      let same : u ≡ t = sym state ∙ ap (λ r. r.1) ran in
      subst (λ v. api.detectors.get det.namespace det.name v ≡ ok det) same (left ∙ stored)

  module _ (stores : StoresPatch api.detectors) where
    after_apply-honest :
        (observed a : ℕ) (det : CanDetector)
        → ((after_apply api.fmt observed a det).status.phase ≡ applied)
          ↔ ((after_apply api.fmt observed a det).status.observed_address ≡ some a)
    unfolding after_apply
    after_apply-honest observed a det = elim (Bool-cases (observed == a)) [
      | inl same ↦ rw same (λ _. ap some ((nat_comparable.equal_iff observed a).0 same), λ _. refl)
      | inr other ↦ rw other (
        λ h. ground (arith, ap (λ p. phase_equal p applied) h),
        λ h. ground (arith, other, nat_comparable.equal_iff observed a, some_inj h),
      )
    ]

    -- A patch of the status of the detector that goes through.
    patched :
        (det new : CanDetector) (a : ℕ) (s t : S)
        → api.detectors.get det.namespace det.name s ≡ ok det
        → new ≡ record det { status = new.status }
        → then_do (api.detectors.patch_status det new s) (λ _. pure (tt {0})) ≡ (ok tt, t)
        → (new.status.phase ≡ applied) ↔ (new.status.observed_address ≡ some a)
        → IsHonest det a t
    patched det new a s t held same ran honest =
        let (stored, wrote) = then_do-dropped (api.detectors.patch_status det new s) t ran in
        (new, stores s t det.namespace det.name det new stored held same wrote, honest)

    mark_applied-IsHonest :
        (det : CanDetector) (a : ℕ) (s t : S)
        → api.detectors.get det.namespace det.name s ≡ ok det
        → det.status.observed_address ≡ some a
        → mark_applied api det s ≡ (ok tt, t)
        → IsHonest det a t
    unfolding mark_applied
    mark_applied-IsHonest det a s t stored seen ran =
        elim (Bool-cases (phase_equal det.status.phase applied)) [
          | inl done ↦
              let same : s ≡ t = ap (λ x. x.1) (rw (done, mark_applied) at ran) in
              (
                det,
                subst (λ u. api.detectors.get det.namespace det.name u ≡ ok det) same stored,
                (λ _. seen, λ _. phase_equal_sound det.status.phase applied done),
              )
          | inr other ↦
              patched det
                (record det { status = record (det.status) { phase = applied; message = "" } }) a s
                t stored refl (rw (other, mark_applied) at ran) (λ _. seen, λ _. refl)
        ]

    apply_address-IsHonest :
        (det : CanDetector) (a : ℕ) (maint : C) (s t : S)
        → IsLeftAlone det
        → api.detectors.get det.namespace det.name s ≡ ok det
        → apply_address api det a maint s ≡ (ok tt, t)
        → IsHonest det a t
    unfolding apply_address after_apply
    apply_address-IsHonest det a maint s t left held ran =
        let (msg, s1, set, sent) =
          then_do-ok (api.set_module_address det.spec.net_id a true, s) _ tt t ran in
        let (done, s2, went, polled) =
          then_do-ok
            (wrapped api
              ("set module address netID=0x"
                ++ (api.fmt.upper_hex4 det.spec.net_id ++ (" addr=" ++ api.fmt.decimal a)))
              (api.send maint msg s1))
            _ tt t sent in
        let (observed, s3, read, wrote) =
          then_do-ok (poll_module_address api det.spec.net_id s2) _ tt t polled in
        let held1 = still det s s1 s _ msg set refl refl held in
        let held2 =
          still det s1 s2 (api.send maint msg s1).1 _ done went
            (wrapped_state _ (api.send maint msg s1)) (left.sends maint msg s1) held1 in
        let held3 =
          still det s2 s3 _ _ observed read (poll_state det.spec.net_id s2) (left.collects _ s2)
            held2 in
        patched det (after_apply api.fmt observed a det) a s3 t held3 refl wrote
          (after_apply-honest observed a det)

    closing-IsHonest :
        (det : CanDetector) (a : ℕ) (maint : C) (x : Result E (Unit {0}) × S) (t : S)
        → IsLeftAlone det
        → ((u : S) → x ≡ (ok tt, u) → IsHonest det a u)
        → closing api maint x ≡ (ok tt, t)
        → IsHonest det a t
    closing-IsHonest det a maint (ok done, u) t left honest ran =
        let (d, there, iff) = honest u refl in
        let same : api.close maint u ≡ t = ap (λ x. x.1) ran in
        (
          d,
          subst (λ v. api.detectors.get det.namespace det.name v ≡ ok d) same
              (left.closes maint u ∙ there),
          iff,
        )
    closing-IsHonest det a maint (err e, u) t left honest ran = ground (arith, ap (λ x. x.0) ran)

    -- After a pass of the gateway over a stored detector with a desired address succeeds, the
    -- stored detector has the phase Applied exactly if the address it shows as observed is the
    -- desired one. The server stores a patch of the status that it accepts from the detector as it
    -- is stored, and the detector stays as it is stored while the gateway talks to the Z21: no one
    -- else writes it during the pass.
    pub applied-IsHonest :
        (m : Manager) (det : CanDetector) (a : ℕ) (s t : S)
        → IsLeftAlone det
        → api.detectors.get det.namespace det.name s ≡ ok det
        → det.spec.desired_address ≡ some a
        → reconcile_one api m det s ≡ (ok tt, t)
        → IsHonest det a t
    unfolding reconcile_one
    applied-IsHonest m det a s t left stored desired ran =
        elim (Bool-cases (det.status.observed_address == some a)) [
          | inl seen ↦
              mark_applied-IsHonest det a s t stored
                ((option_comparable.equal_iff det.status.observed_address (some a)).0 seen)
                (rw (seen, reconcile_one) at (rw (desired, reconcile_one) at ran))
          | inr other ↦
              let (maint, s1, dialled, closed) =
                then_do-ok
                  (wrapped api "dial maintenance port" (
                    api.dial (api.net.join_host_port m.z21_host (api.net.format_int m.maint_port))
                      s))
                  _ tt t (rw (other, reconcile_one) at (rw (desired, reconcile_one) at ran)) in
              let held =
                still det s s1
                  (api.dial (api.net.join_host_port m.z21_host (api.net.format_int m.maint_port))
                    s).1
                  _ maint dialled (wrapped_state _ _) (left.dials _ s) stored in
              closing-IsHonest det a maint (apply_address api det a maint s1) t left
                (λ u went. apply_address-IsHonest det a maint s1 u left held went) closed
        ]
