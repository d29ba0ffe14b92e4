-- ===== src/Examples/Health.antt =====
-- A tracker with the thresholds 3 for failures and 2 for successes
-- (apps/z21-gateway/internal/status/healthloop.go).
use elp.Prelude.{◌≡◌, refl, Bool, true, false, ◌&&◌, List, [], ◌∷◌, arith}
use elp.Prelude.Int.{pos}
use elp.Gateway.Health.{HealthCheckSpec, new_health_tracker, positive_or, run_probes, record_probe}
use elp.Gateway.Reachability.{failures_reported, never_reachable_degraded}

abbrev pub probe_spec : HealthCheckSpec
probe_spec = record {
  interval = pos 0;
  timeout = pos 0;
  failure_threshold = pos 0;
  success_threshold = pos 2;
}

abbrev failed_probes : List (HealthCheckSpec × Bool)
failed_probes = (probe_spec, false) ∷ (probe_spec, false) ∷ (probe_spec, false) ∷ []

-- The threshold for failures is lowered to 1 while the device is reachable.
abbrev lowered_spec : HealthCheckSpec
lowered_spec = record probe_spec { failure_threshold = pos 1 }

abbrev some_probes : List (HealthCheckSpec × Bool)
some_probes = (probe_spec, true) ∷ (probe_spec, true) ∷ (probe_spec, false) ∷ []

default_threshold : positive_or (pos 0) (pos 3) ≡ pos 3
unfolding positive_or
default_threshold = refl

failures_reported_example :
    ((run_probes new_health_tracker failed_probes).consecutive_failures ≡ pos 3)
    × ((run_probes new_health_tracker failed_probes).reachable ≡ false)
    × ((run_probes new_health_tracker failed_probes).degraded ≡ true)
failures_reported_example =
    failures_reported 2 new_health_tracker probe_spec 3 0 default_threshold refl (omega arith)

never_reachable_degraded_example :
    let update =
      (record_probe (run_probes new_health_tracker some_probes) false 7 lowered_spec).1 in
    (update.device_reachable && update.degraded) ≡ false
never_reachable_degraded_example = never_reachable_degraded some_probes false 7 lowered_spec
