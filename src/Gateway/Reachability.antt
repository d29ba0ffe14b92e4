-- ===== src/Gateway/Reachability.antt =====
-- When the health tracker of apps/z21-gateway/internal/status/healthloop.go reports a device as
-- reachable or degraded.
use elp.Prelude.{
  ℕ, zero, suc, ◌+◌, ◌<◌, ◌≡◌, refl, Bool, true, false, ◌&&◌, ◌||◌, List, [], ◌∷◌, arith, replicate,
  leb, ltb,
}
use elp.Prelude.Int.{ℤ, pos, negsuc, beq_ℤ, increment, max_int32}
use elp.Gateway.Health.{
  HealthCheckSpec, HealthTracker, Time, new_health_tracker, positive_or, tracked, record_probe,
  update_of, run_probes, default_health_check_failure_threshold,
  default_health_check_success_threshold,
}

increment-ne : (x : ℤ) → beq_ℤ (increment x) x ≡ false
unfolding increment
increment-ne (pos n) = ground arith
increment-ne (negsuc zero) = refl
increment-ne (negsuc (suc n)) = ground arith

-- Every probe is reported: `record` never returns false as its second result, since each success has
-- a time and each failure changes the count of failures.
pub record_probe_changed :
    (t : HealthTracker) (success : Bool) (at : Time) (spec : HealthCheckSpec)
    → (record_probe t success at spec).2 ≡ true
unfolding record_probe
record_probe_changed t true at spec = ground arith
record_probe_changed t false at spec = ground (arith, increment-ne t.consecutive_failures)

abbrev Coherent : HealthTracker → Type 0
Coherent t = (t.reachable && t.degraded) ≡ false

tracked-Coherent :
    (t : HealthTracker) (success : Bool) (spec : HealthCheckSpec)
    → Coherent t
    → Coherent (tracked t success spec)
unfolding tracked
tracked-Coherent t true spec h = ground arith
tracked-Coherent t false spec h = ground arith

run_probes-Coherent :
    (t : HealthTracker) (l : List (HealthCheckSpec × Bool)) → Coherent t → Coherent (run_probes t l)
unfolding run_probes
run_probes-Coherent t [] h = h
run_probes-Coherent t ((spec, b) ∷ l) h =
    run_probes-Coherent (tracked t b spec) l (tracked-Coherent t b spec h)

-- After any probes of a new tracker, each under the configuration that its round read, and after one
-- more, the update that is reported never says both reachable and degraded.
pub never_reachable_degraded :
    (l : List (HealthCheckSpec × Bool)) (success : Bool) (at : Time) (spec : HealthCheckSpec)
    → let update = (record_probe (run_probes new_health_tracker l) success at spec).1 in
      (update.device_reachable && update.degraded) ≡ false
unfolding record_probe update_of
never_reachable_degraded l success at spec =
    tracked-Coherent (run_probes new_health_tracker l) success spec
      (run_probes-Coherent new_health_tracker l refl)

-- One failed probe, for a threshold `f` and `n` failures before it.
failure_step :
    (t : HealthTracker) (spec : HealthCheckSpec) (f n : ℕ)
    → positive_or spec.failure_threshold default_health_check_failure_threshold ≡ pos f
    → t.consecutive_failures ≡ pos n
    → n < max_int32
    → let t' = tracked t false spec in
      (t'.consecutive_failures ≡ pos (n + 1))
      × (t'.reachable ≡ (t.reachable && ltb (n + 1) f))
      × (t'.degraded ≡ (t.degraded || leb f (n + 1)))
unfolding tracked increment
failure_step t spec f n ef en h = ground (arith, ef, en)

-- A run of failed probes, as long as the `int32` count does not wrap: the failures are counted; the
-- device stays reachable exactly if it was and the count is still below the threshold; and it is
-- degraded exactly if it was or the count has reached the threshold.
pub failures_reported :
    (k : ℕ) (t : HealthTracker) (spec : HealthCheckSpec) (f n : ℕ)
    → positive_or spec.failure_threshold default_health_check_failure_threshold ≡ pos f
    → t.consecutive_failures ≡ pos n
    → n + k < max_int32
    → let t' = run_probes t (replicate (suc k) (spec, false)) in
      (t'.consecutive_failures ≡ pos (n + k + 1))
      × (t'.reachable ≡ (t.reachable && ltb (n + k + 1) f))
      × (t'.degraded ≡ (t.degraded || leb f (n + k + 1)))
unfolding run_probes
failures_reported zero t spec f n ef en h =
    ground (arith, failure_step t spec f n ef en (omega arith))
failures_reported (suc k) t spec f n ef en h =
    let (count, reach, deg) = failure_step t spec f n ef en (omega arith) in
    ground (
      arith,
      count,
      reach,
      deg,
      failures_reported k (tracked t false spec) spec f (n + 1) ef count (omega arith),
    )

-- One successful probe, for a threshold `s` and `m` successes before it.
success_step :
    (t : HealthTracker) (spec : HealthCheckSpec) (s m : ℕ)
    → positive_or spec.success_threshold default_health_check_success_threshold ≡ pos s
    → t.consecutive_successes ≡ pos m
    → m < max_int32
    → let t' = tracked t true spec in
      (t'.consecutive_successes ≡ pos (m + 1))
      × (t'.consecutive_failures ≡ pos 0)
      × (t'.reachable ≡ (t.reachable || leb s (m + 1)))
      × (t'.degraded ≡ (t.degraded && (t.reachable || ltb (m + 1) s)))
unfolding tracked increment
success_step t spec s m es em h = ground (arith, es, em)

-- A run of successful probes of a tracker that is not both reachable and degraded, as long as the
-- `int32` count does not wrap: the failures are 0; the device is reachable exactly if it was or the
-- count has reached the threshold; and it stays degraded exactly if it was and the count is still
-- below the threshold.
pub successes_reported :
    (k : ℕ) (t : HealthTracker) (spec : HealthCheckSpec) (s m : ℕ)
    → positive_or spec.success_threshold default_health_check_success_threshold ≡ pos s
    → t.consecutive_successes ≡ pos m
    → (t.reachable && t.degraded) ≡ false
    → m + k < max_int32
    → let t' = run_probes t (replicate (suc k) (spec, true)) in
      (t'.consecutive_failures ≡ pos 0)
      × (t'.reachable ≡ (t.reachable || leb s (m + k + 1)))
      × (t'.degraded ≡ (t.degraded && ltb (m + k + 1) s))
unfolding run_probes
successes_reported zero t spec s m es em c h =
    ground (arith, success_step t spec s m es em (omega arith))
successes_reported (suc k) t spec s m es em c h =
    let (count, none_failed, reach, deg) = success_step t spec s m es em (omega arith) in
    ground (
      arith,
      count,
      reach,
      deg,
      successes_reported k (tracked t true spec) spec s (m + 1) es count
          (tracked-Coherent t true spec c) (omega arith),
    )
