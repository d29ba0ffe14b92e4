-- ===== src/Operator/Status.antt =====
-- The status of a Z21Device that its controller computes from its deployments
-- (operators/z21-device/internal/controller/z21device_controller.go).
use elp.Prelude.{
  String, Bool, true, false, not, ◌&&◌, ◌||◌, Option, none, some, List, [], ◌∷◌, if◌then◌else◌,
}
use elp.Prelude.Eq.{◌==◌, string_comparable}
use elp.Prelude.Int.{pos, leb_ℤ, beq_ℤ}
use elp.Prelude.Action.{Action, pure, reading, when, ◌>>=◌, ◌>>◌}
use elp.Operator.Cluster.{Resource}
use elp.Operator.Workload.{Deployment, DeploymentCondition}
use elp.Operator.Device.{
  Condition, Z21Device, condition_gateway_ready, phase_pending, phase_starting, phase_running,
  phase_failed, phase_stopping,
}

-- The statuses of Kubernetes' conditions.
abbrev pub condition_true : String
condition_true = "True"

abbrev pub condition_false : String
condition_false = "False"

unfoldable pub deadline_exceeded : List DeploymentCondition → Bool
deadline_exceeded [] = false
deadline_exceeded (c ∷ cs) =
    c.condition_type == "Progressing"
      && c.status == condition_false
      && c.reason == "ProgressDeadlineExceeded"
    || deadline_exceeded cs

unfoldable pub deployment_failed : Option Deployment → Bool
unfolding deadline_exceeded
deployment_failed none = false
deployment_failed (some d) = deadline_exceeded d.conditions

-- `deploy != nil && deploy.Status.ReadyReplicas >= 1`
unfoldable pub is_ready : Option Deployment → Bool
is_ready none = false
is_ready (some d) = leb_ℤ (pos 1) d.ready_replicas

unfoldable pub is_present : Option Deployment → Bool
is_present none = false
is_present (some d) = true

unfoldable pub compute_phase : Option Deployment → Option Deployment → Bool → String
unfolding deployment_failed is_ready is_present
compute_phase gateway sim stopping =
    let sim_ready : Bool = elim sim [ none ↦ true | some d ↦ is_ready (some d) ] in
    if stopping
    then phase_stopping
    else if deployment_failed gateway || deployment_failed sim
    then phase_failed
    else if is_ready gateway && sim_ready
    then phase_running
    else if is_present gateway || is_present sim
    then phase_starting
    else phase_pending

unfoldable pub gateway_ready_status : Option Deployment → String
unfolding is_ready
gateway_ready_status deploy = if is_ready deploy then condition_true else condition_false

-- The status of the first condition of the type, or empty.
unfoldable pub condition_status : List Condition → String → String
condition_status [] ty = ""
condition_status (c ∷ cs) ty =
    let rest = condition_status cs ty in if c.condition_type == ty then c.status else rest

pub record StatusInput : Type 0 where
  pub gateway_deploy : Option Deployment
  pub simulator_deploy : Option Deployment
  pub simulator_svc : String
  pub phase : String

unfoldable pub deployment_name : Option Deployment → String
deployment_name none = ""
deployment_name (some d) = d.name

unfoldable pub device_status_is_current : Z21Device → StatusInput → String → String → String → Bool
unfolding condition_status
device_status_is_current device input gateway_name simulator_name gateway_ready =
    device.status.phase == input.phase
    && device.status.gateway_deployment == gateway_name
    && device.status.simulator_deployment == simulator_name
    && device.status.simulator_service == input.simulator_svc
    && beq_ℤ device.status.observed_generation device.generation
    && condition_status device.status.conditions condition_gateway_ready == gateway_ready

-- `meta.SetStatusCondition`, on the conditions of a device.
abbrev pub SetCondition : Type 0
SetCondition = List Condition → Condition → List Condition

unfoldable pub gateway_ready_condition : Z21Device → String → Condition
gateway_ready_condition device status =
    let ready = status == condition_true in
    record {
      condition_type = condition_gateway_ready;
      status = status;
      reason = if ready then "GatewayReady" else "GatewayNotReady";
      message =
          if ready
          then "gateway deployment has at least one ready replica"
          else "gateway deployment has no ready replicas";
      observed_generation = device.generation;
    }

module _ (set : SetCondition) where
  unfoldable pub set_gateway_ready_condition : Z21Device → String → Z21Device
  unfolding gateway_ready_condition
  set_gateway_ready_condition device status =
      let conditions = set device.status.conditions (gateway_ready_condition device status) in
      record device { status = record (device.status) { conditions = conditions } }

  -- The device that the controller writes when its status is out of date.
  unfoldable pub updated_status : Z21Device → StatusInput → Z21Device
  unfolding set_gateway_ready_condition deployment_name gateway_ready_status
  updated_status latest input =
      let conditioned =
        set_gateway_ready_condition latest (gateway_ready_status input.gateway_deploy) in
      record conditioned {
        status = record (conditioned.status) {
          phase = input.phase;
          gateway_deployment = deployment_name input.gateway_deploy;
          simulator_deployment = deployment_name input.simulator_deploy;
          simulator_service = input.simulator_svc;
          observed_generation = latest.generation;
        };
      }

  module _ {S E : Type 0} (devices : Resource S E Z21Device) where
    -- The patch, unless the status is current.
    unfoldable pub patch_if_stale : StatusInput → Z21Device → Action S E (Unit {0})
    unfolding device_status_is_current updated_status deployment_name gateway_ready_status
    patch_if_stale input latest =
        let current =
          device_status_is_current latest input (deployment_name input.gateway_deploy)
            (deployment_name input.simulator_deploy) (gateway_ready_status input.gateway_deploy) in
        when (not current) (do devices.patch_status latest (updated_status latest input); pure tt)

    unfoldable pub update_status : Z21Device → StatusInput → Action S E (Unit {0})
    unfolding patch_if_stale
    update_status device input =
        reading (devices.get device.namespace device.name) >>= patch_if_stale input
