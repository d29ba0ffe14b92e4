-- ===== src/Gateway/Health.antt =====
-- The health tracker of apps/z21-gateway/internal/status/healthloop.go.
use elp.Prelude.{
  ℕ, Bool, true, false, not, ◌&&◌, ◌||◌, Option, none, some, List, [], ◌∷◌, if◌then◌else◌,
}
use elp.Prelude.Int.{ℤ, pos, leb_ℤ, beq_ℤ, increment}

-- Durations are in nanoseconds, an `int64`; thresholds are `int32`s.
pub record HealthCheckSpec : Type 0 where
  pub interval : ℤ
  pub timeout : ℤ
  pub failure_threshold : ℤ
  pub success_threshold : ℤ

abbrev pub default_health_check_interval : ℤ
default_health_check_interval = pos 2000000000

abbrev pub default_health_check_timeout : ℤ
default_health_check_timeout = pos 500000000

abbrev pub default_health_check_failure_threshold : ℤ
default_health_check_failure_threshold = pos 3

abbrev pub default_health_check_success_threshold : ℤ
default_health_check_success_threshold = pos 1

-- A time, as nanoseconds of the clock.
abbrev pub Time : Type 0
Time = ℕ

pub record HealthUpdate : Type 0 where
  pub device_reachable : Bool
  pub degraded : Bool
  pub failures : ℤ
  pub last_success : Option Time

pub record HealthTracker : Type 0 where
  pub consecutive_failures : ℤ
  pub consecutive_successes : ℤ
  pub reachable : Bool
  pub degraded : Bool

abbrev pub new_health_tracker : HealthTracker
new_health_tracker = record {
  consecutive_failures = pos 0;
  consecutive_successes = pos 0;
  reachable = false;
  degraded = false;
}

-- `if x <= 0 { x = fallback }`
unfoldable pub positive_or : ℤ → ℤ → ℤ
positive_or x fallback = if leb_ℤ x (pos 0) then fallback else x

-- The branch of `record` for a successful probe.
unfoldable pub record_success : HealthTracker → ℤ → HealthTracker
record_success t success_threshold =
    let successes = increment t.consecutive_successes in
    let t' = record t { consecutive_failures = pos 0; consecutive_successes = successes } in
    if not t.reachable && leb_ℤ success_threshold successes
    then record t' { reachable = true; degraded = false }
    else t'

-- The branch of `record` for a failed probe.
unfoldable pub record_failure : HealthTracker → ℤ → HealthTracker
record_failure t failure_threshold =
    let failures = increment t.consecutive_failures in
    let t' = record t { consecutive_successes = pos 0; consecutive_failures = failures } in
    if leb_ℤ failure_threshold failures
    then record t' { reachable = false; degraded = true }
    else t'

unfoldable pub update_of : HealthTracker → Bool → Time → HealthUpdate
update_of t success at = record {
  device_reachable = t.reachable;
  degraded = t.degraded;
  failures = t.consecutive_failures;
  last_success = if success then some at else none;
}

abbrev pub beq_Bool : Bool → Bool → Bool
beq_Bool true b = b
beq_Bool false b = not b

abbrev pub is_set {ℓ} : {A : Type ℓ} → Option A → Bool
is_set none = false
is_set (some _) = true

-- The tracker after a probe.
unfoldable pub tracked : HealthTracker → Bool → HealthCheckSpec → HealthTracker
unfolding positive_or record_success record_failure
tracked t success spec =
    let failure_threshold =
      positive_or spec.failure_threshold default_health_check_failure_threshold in
    let success_threshold =
      positive_or spec.success_threshold default_health_check_success_threshold in
    if success then record_success t success_threshold else record_failure t failure_threshold

-- `record`: the tracker, the update to report, and whether it differs from the one before.
unfoldable pub record_probe :
    HealthTracker → Bool → Time → HealthCheckSpec → HealthTracker × HealthUpdate × Bool
unfolding update_of tracked
record_probe t success at spec =
    let t' = tracked t success spec in
    let prev = update_of t success at in
    let next = update_of t' success at in
    let changed =
      not (beq_Bool next.device_reachable prev.device_reachable)
      || not (beq_Bool next.degraded prev.degraded)
      || not (beq_ℤ next.failures prev.failures)
      || (success && is_set next.last_success) in
    (t', next, changed)

-- The probes of `HealthLoop.Run`, one for each round: the configuration that the round read, and
-- whether its probe succeeded. A round that cannot read it leaves the tracker as it is.
unfoldable pub run_probes : HealthTracker → List (HealthCheckSpec × Bool) → HealthTracker
run_probes t [] = t
run_probes t ((spec, success) ∷ rest) = run_probes (tracked t success spec) rest
