-- ===== src/Operator/Running.antt =====
-- When a device is reported as running
-- (operators/z21-device/internal/controller/z21device_controller.go).
use elp.Prelude.{
  ℕ, zero, suc, [], ◌∷◌, ◌≡◌, ◌↔◌, ◌⊎◌, inl, inr, refl, String, Bool, true, false, ◌&&◌, ◌||◌,
  Option, none, some, some_inj, List, if◌then◌else◌, Bool-cases, sym, ap, subst, ◌∙◌, arith,
}
use mathlib.Core.List.{Memᴰ}
use elp.Operator.Workload.{Deployment, DeploymentCondition}
use elp.Prelude.Eq.{◌==◌, string_comparable, string_eq_iff}
use elp.Prelude.Int.{ℤ, pos, negsuc, leb_ℤ}
use elp.Operator.Device.{phase_running, phase_failed, phase_starting, phase_pending}
use elp.Operator.Status.{is_ready, is_present, deadline_exceeded, deployment_failed, compute_phase}

not_running : (p : String) → (p == phase_running) ≡ false → ¬ (p ≡ phase_running)
not_running p h e = ground (arith, string_eq_iff p phase_running)

pub failed≢running : ¬ (phase_failed ≡ phase_running)
failed≢running = not_running phase_failed refl

starting≢running : ¬ (phase_starting ≡ phase_running)
starting≢running = not_running phase_starting refl

pending≢running : ¬ (phase_pending ≡ phase_running)
pending≢running = not_running phase_pending refl

running_iff :
    (gateway_failed sim_failed gateway_ready sim_ready present : Bool)
    → ((if gateway_failed || sim_failed
          then phase_failed
          else if gateway_ready && sim_ready
          then phase_running
          else if present
          then phase_starting
          else phase_pending)
        ≡ phase_running)
      ↔ ((gateway_failed ≡ false)
          × (sim_failed ≡ false)
          × (gateway_ready ≡ true)
          × (sim_ready ≡ true))
running_iff true sf gr sr p = ground (arith, failed≢running, starting≢running, pending≢running)
running_iff false true gr sr p = ground (arith, failed≢running, starting≢running, pending≢running)
running_iff false false true true p =
    ground (arith, failed≢running, starting≢running, pending≢running)
running_iff false false true false true =
    ground (arith, failed≢running, starting≢running, pending≢running)
running_iff false false true false false =
    ground (arith, failed≢running, starting≢running, pending≢running)
running_iff false false false sr true =
    ground (arith, failed≢running, starting≢running, pending≢running)
running_iff false false false sr false =
    ground (arith, failed≢running, starting≢running, pending≢running)

running_tests :
    (gateway sim : Option Deployment)
    → (compute_phase gateway sim false ≡ phase_running) ↔ (
        (deployment_failed gateway ≡ false)
        × (deployment_failed sim ≡ false)
        × (is_ready gateway ≡ true)
        × ((sim ≡ none) ⊎ (is_ready sim ≡ true)))
unfolding compute_phase
running_tests gateway none =
    let iff =
      running_iff (deployment_failed gateway) (deployment_failed none) (is_ready gateway) true
        (is_present gateway || is_present none) in
    (λ h. let (a, b, c, d) = iff.0 h in (a, b, c, inl refl), λ (a, b, c, d). iff.1 (a, b, c, refl))
running_tests gateway (some s) =
    let iff =
      running_iff (deployment_failed gateway) (deployment_failed (some s)) (is_ready gateway)
        (is_ready (some s)) (is_present gateway || is_present (some s)) in
    (λ h. let (a, b, c, d) = iff.0 h in (a, b, c, inr d), λ (a, b, c, d). iff.1 (a, b, c, ready d))
  where
    ready : (some s ≡ none) ⊎ (is_ready (some s) ≡ true) → is_ready (some s) ≡ true
    ready (inl h) = ground (arith, h)
    ready (inr h) = h

-- There is a deployment, and it has one ready replica or more.
abbrev pub HasReady : Option Deployment → Type 0
HasReady deploy = (d : Deployment) × (n : ℕ) × (deploy ≡ some d) × (d.ready_replicas ≡ pos (suc n))

-- The condition of a deployment that made no progress in time.
pub record IsLate (c : DeploymentCondition) : Type 0 where
  pub progressing : c.condition_type ≡ "Progressing"
  pub denied : c.status ≡ "False"
  pub expired : c.reason ≡ "ProgressDeadlineExceeded"

-- There is a deployment, and one of its conditions says so.
abbrev pub HasFailed : Option Deployment → Type 0
HasFailed deploy =
    (d : Deployment) × (c : DeploymentCondition) × (deploy ≡ some d)
    × Memᴰ c d.conditions
    × IsLate c

at_least_one : (x : ℤ) → (leb_ℤ (pos 1) x ≡ true) ↔ ((n : ℕ) × (x ≡ pos (suc n)))
at_least_one (pos zero) =
    (λ h. ground (arith, h), λ (n, e). ground (arith, ap (λ x. leb_ℤ (pos 1) x) e))
at_least_one (pos (suc n)) = (λ h. (n, refl), λ _. ground arith)
at_least_one (negsuc n) =
    (λ h. ground (arith, h), λ (m, e). ground (arith, ap (λ x. leb_ℤ (pos 1) x) e))

is_ready-HasReady : (deploy : Option Deployment) → (is_ready deploy ≡ true) ↔ HasReady deploy
unfolding is_ready
is_ready-HasReady none = (
  λ h. ground (arith, h),
  λ (d, n, e, more). ground (arith, ap (λ (o : Option Deployment). is_present o) e),
)
is_ready-HasReady (some d) = (
  λ h. let (n, e) = (at_least_one d.ready_replicas).0 h in (d, n, refl, e),
  λ (d', n, e, more).
      (at_least_one d.ready_replicas).1 (n, ap (λ d. d.ready_replicas) (some_inj e) ∙ more),
)

is_late : DeploymentCondition → Bool
is_late c =
    c.condition_type == "Progressing"
    && c.status == "False"
    && c.reason == "ProgressDeadlineExceeded"

is_late-IsLate : (c : DeploymentCondition) → (is_late c ≡ true) ↔ IsLate c
unfolding is_late
is_late-IsLate c = (
  λ h. record {
    progressing = ground (arith, h, string_eq_iff c.condition_type "Progressing");
    denied = ground (arith, h, string_eq_iff c.status "False");
    expired = ground (arith, h, string_eq_iff c.reason "ProgressDeadlineExceeded");
  },
  λ late. rw late.progressing (rw late.denied (rw late.expired refl)),
)

deadline_exceeded-cons :
    (c : DeploymentCondition) (l : List DeploymentCondition)
    → deadline_exceeded (c ∷ l) ≡ (is_late c || deadline_exceeded l)
unfolding deadline_exceeded is_late
deadline_exceeded-cons c l = refl

deadline_exceeded-IsLate :
    (l : List DeploymentCondition)
    → deadline_exceeded l ≡ true
    → (c : DeploymentCondition) × Memᴰ c l × IsLate c
unfolding deadline_exceeded
deadline_exceeded-IsLate [] h = ground (arith, h)
deadline_exceeded-IsLate (c ∷ l) h = elim (Bool-cases (is_late c)) [
  | inl late ↦ (c, Memᴰ.head refl, (is_late-IsLate c).0 late)
  | inr other ↦
      let later : deadline_exceeded l ≡ true =
        ground (arith, deadline_exceeded-cons c l, h, other) in
      let (x, m, late) = deadline_exceeded-IsLate l later in (x, Memᴰ.tail m, late)
]

late-deadline_exceeded :
    (l : List DeploymentCondition) (c : DeploymentCondition)
    → Memᴰ c l
    → IsLate c
    → deadline_exceeded l ≡ true
late-deadline_exceeded [] c m late = elim m [ ]
late-deadline_exceeded (x ∷ l) c (Memᴰ.head e) late =
    let holds = (is_late-IsLate x).1 (subst IsLate e late) in
    ground (arith, deadline_exceeded-cons x l, holds)
late-deadline_exceeded (x ∷ l) c (Memᴰ.tail m) late =
    let holds = late-deadline_exceeded l c m late in
    ground (arith, deadline_exceeded-cons x l, holds)

deployment_failed-HasFailed :
    (deploy : Option Deployment) → (deployment_failed deploy ≡ true) ↔ HasFailed deploy
unfolding deployment_failed
deployment_failed-HasFailed none = (
  λ h. ground (arith, h),
  λ (d, c, e, m, late). ground (arith, ap (λ (o : Option Deployment). is_present o) e),
)
deployment_failed-HasFailed (some d) = (
  λ h. let (c, m, late) = deadline_exceeded-IsLate d.conditions h in (d, c, refl, m, late),
  λ (d', c, e, m, late).
      late-deadline_exceeded d.conditions c (subst (λ x. Memᴰ c x.conditions) (sym (some_inj e)) m)
        late,
)

sound_exact :
    (deploy : Option Deployment) → (deployment_failed deploy ≡ false) ↔ (¬ HasFailed deploy)
sound_exact deploy = (
  λ sound failed. ground (arith, sound, (deployment_failed-HasFailed deploy).1 failed),
  λ sound. elim (Bool-cases (deployment_failed deploy)) [
    | inl fails ↦ elim (sound ((deployment_failed-HasFailed deploy).0 fails)) [ ]
    | inr fine ↦ fine
  ],
)

-- A device that is not being deleted is reported as running exactly if no deployment has a condition
-- of the type Progressing with the status False and the reason ProgressDeadlineExceeded, the
-- gateway's deployment has at least one ready replica, and so has the simulator's, where there is
-- one.
pub running_exact :
    (gateway sim : Option Deployment)
    → (compute_phase gateway sim false ≡ phase_running) ↔ (
        (¬ HasFailed gateway)
        × (¬ HasFailed sim)
        × HasReady gateway
        × ((sim ≡ none) ⊎ HasReady sim))
running_exact gateway sim =
    let tests = running_tests gateway sim in
    (
      λ h.
          let (a, b, c, d) = tests.0 h in
          (
            (sound_exact gateway).0 a,
            (sound_exact sim).0 b,
            (is_ready-HasReady gateway).0 c,
            elim d [ inl e ↦ inl e | inr ready ↦ inr ((is_ready-HasReady sim).0 ready) ],
          ),
      λ (a, b, c, d). tests.1 (
        (sound_exact gateway).1 a,
        (sound_exact sim).1 b,
        (is_ready-HasReady gateway).1 c,
        elim d [ inl e ↦ inl e | inr ready ↦ inr ((is_ready-HasReady sim).1 ready) ],
      ),
    )
