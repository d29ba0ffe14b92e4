-- ===== src/Gateway/Conditions.antt =====
-- The conditions that the gateway sets beside the operator's
-- (apps/z21-gateway/internal/status/reporter.go).
use elp.Prelude.{◌≡◌, ◌≢◌, ◌∙◌, refl, String, Bool, false, List, if◌then◌else◌, arith}
use elp.Prelude.Result.{ok}
use elp.Prelude.Action.{then_do-dropped}
use elp.Prelude.Eq.{◌==◌, string_comparable, string_eq_iff}
use elp.Operator.Cluster.{Resource}
use elp.Operator.Device.{
  Condition, Z21Device, Net, condition_gateway_ready, condition_device_reachable,
  condition_degraded,
}
use elp.Operator.Status.{SetCondition, condition_status, condition_true, condition_false}
use elp.Operator.Settled.{SetsCondition, StoresStatus}
use elp.Gateway.Health.{HealthUpdate}
use elp.Gateway.Reporter.{
  update_health, with_health, reachability_condition, degraded_condition,
  set_reachability_condition, set_degraded_condition,
}

-- Documented of `meta.SetStatusCondition`: conditions of other types stay as they are.
abbrev pub KeepsConditions : SetCondition → Type 0
KeepsConditions set =
    (cs : List Condition) (c : Condition) (ty : String)
    → ty ≢ c.condition_type
    → condition_status (set cs c) ty ≡ condition_status cs ty

differ : (s t : String) → (s == t) ≡ false → s ≢ t
differ s t h e = ground (arith, string_eq_iff s t)

abbrev pub status_of : Bool → String
status_of b = if b then condition_true else condition_false

module _ (set : SetCondition) (sets : SetsCondition set) (keeps : KeepsConditions set) where
  -- The conditions of the device say what the update says, and the gateway's readiness, which the
  -- operator sets, is as it was.
  pub record IsReported (update : HealthUpdate) (before after : Z21Device) : Type 0 where
    pub reachable :
        condition_status after.status.conditions condition_device_reachable
        ≡ status_of update.device_reachable
    pub degraded :
        condition_status after.status.conditions condition_degraded ≡ status_of update.degraded
    pub gateway_ready :
        condition_status after.status.conditions condition_gateway_ready
        ≡ condition_status before.status.conditions condition_gateway_ready
    pub failures : after.status.health_check_failures ≡ update.failures
    pub phase : after.status.phase ≡ before.status.phase

  with_health-IsReported :
      (net : Net) (update : HealthUpdate) (d : Z21Device)
      → IsReported update d (with_health set net update d)
  unfolding with_health set_reachability_condition set_degraded_condition reachability_condition
      degraded_condition
  with_health-IsReported net update d =
      let first = reachability_condition net d update.device_reachable update.failures in
      let second = degraded_condition d update.degraded in
      let cs = d.status.conditions in
      record {
        reachable =
            keeps (set cs first) second condition_device_reachable (differ _ _ refl)
            ∙ sets cs first;
        degraded = sets (set cs first) second;
        gateway_ready =
            keeps (set cs first) second condition_gateway_ready (differ _ _ refl)
            ∙ keeps cs first condition_gateway_ready (differ _ _ refl);
        failures = refl;
        phase = refl;
      }

  module _ {S E : Type 0} (devices : Resource S E Z21Device) (laws : StoresStatus devices) where
    -- Where the cluster stores the status of a device and `SetStatusCondition` sets a condition and keeps
    -- the others: after an update of the health that succeeds, the stored device shows whether it
    -- is reachable and whether it is degraded as the update says, and the count of failures; the
    -- phase and the gateway's readiness, which the operator writes, are as they were.
    pub health-IsReported :
        (namespace name : String) (net : Net) (update : HealthUpdate) (d : Z21Device) (s t : S)
        → devices.get namespace name s ≡ ok d
        → update_health devices namespace name set net update s ≡ (ok tt, t)
        → (e : Z21Device) × (devices.get namespace name t ≡ ok e) × IsReported update d e
    unfolding update_health with_health set_reachability_condition set_degraded_condition
    health-IsReported namespace name net update d s t got ran =
        let (stored, patched) =
          then_do-dropped (devices.patch_status d (with_health set net update d) s) t
            (rw (got, update_health) at ran) in
        (
          with_health set net update d,
          laws s t namespace name d (with_health set net update d) stored got refl patched,
          with_health-IsReported net update d,
        )
