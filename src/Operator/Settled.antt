-- ===== src/Operator/Settled.antt =====
-- Laws of the status update of a device
-- (operators/z21-device/internal/controller/z21device_controller.go).
use elp.Prelude.{◌≡◌, inl, inr, refl, String, true, List, Bool-cases, sym, ap, subst, ◌∙◌, arith}
use elp.Operator.Cluster.{Resource}
use elp.Prelude.Action.{then_do-dropped}
use elp.Prelude.Result.{ok, Result-cases}
use elp.Prelude.Eq.{string_comparable, beq_refl}
use elp.Prelude.Int.{beq_refl_ℤ}
use elp.Operator.Device.{Condition, Z21Device}
use elp.Operator.Status.{
  SetCondition, patch_if_stale, StatusInput, condition_status, gateway_ready_status,
  deployment_name, device_status_is_current, updated_status, update_status,
  set_gateway_ready_condition, gateway_ready_condition,
}

-- Documented of `meta.SetStatusCondition`: the condition of that type becomes the one given.
abbrev pub SetsCondition : SetCondition → Type 0
SetsCondition set =
    (cs : List Condition) (c : Condition) → condition_status (set cs c) c.condition_type ≡ c.status

-- What the API server promises of the status of a device: a patch from the device that is stored
-- under a name to the same device with another status stores that one.
abbrev pub StoresStatus : {S E : Type 0} → Resource S E Z21Device → Type 0
StoresStatus {S} devices =
    (s t : S) (namespace name : String) (base new stored : Z21Device)
    → devices.get namespace name s ≡ ok base
    → new ≡ record base { status = new.status }
    → devices.patch_status base new s ≡ (ok stored, t)
    → devices.get namespace name t ≡ ok new

module _ (set : SetCondition) (sets : SetsCondition set) where
  updated_status-is_current :
      (latest : Z21Device) (input : StatusInput)
      → device_status_is_current
          (updated_status set latest input)
          input
          (deployment_name input.gateway_deploy)
          (deployment_name input.simulator_deploy)
          (gateway_ready_status input.gateway_deploy)
        ≡ true
  unfolding device_status_is_current updated_status set_gateway_ready_condition
      gateway_ready_condition
  updated_status-is_current latest input =
      let reported =
        sets latest.status.conditions
          (gateway_ready_condition latest (gateway_ready_status input.gateway_deploy)) in
      ground (
        arith,
        reported,
        beq_refl_ℤ latest.generation,
        beq_refl input.phase,
        beq_refl input.simulator_svc,
        beq_refl (deployment_name input.gateway_deploy),
        beq_refl (deployment_name input.simulator_deploy),
        beq_refl (gateway_ready_status input.gateway_deploy),
      )

  module _ {S E : Type 0} (devices : Resource S E Z21Device) (laws : StoresStatus devices) where
    patch_if_stale-current :
        (input : StatusInput) (d : Z21Device) (s : S)
        → device_status_is_current d input
            (deployment_name input.gateway_deploy)
            (deployment_name input.simulator_deploy)
            (gateway_ready_status input.gateway_deploy)
          ≡ true
        → patch_if_stale set devices input d s ≡ (ok tt, s)
    unfolding patch_if_stale
    patch_if_stale-current input d s current = rw (current, patch_if_stale) refl

    -- A device that the status was written for is current in the state after.
    patch_if_stale-stores :
        (input : StatusInput) (namespace name : String) (d : Z21Device) (s t : S)
        → devices.get namespace name s ≡ ok d
        → patch_if_stale set devices input d s ≡ (ok tt, t)
        → (e : Z21Device) × (devices.get namespace name t ≡ ok e)
          × (device_status_is_current e input
                (deployment_name input.gateway_deploy)
                (deployment_name input.simulator_deploy)
                (gateway_ready_status input.gateway_deploy)
              ≡ true)
    unfolding patch_if_stale updated_status set_gateway_ready_condition
    patch_if_stale-stores input namespace name d s t got ran =
        elim (Bool-cases (
          device_status_is_current d input (deployment_name input.gateway_deploy)
            (deployment_name input.simulator_deploy) (gateway_ready_status input.gateway_deploy))) [
              | inl current ↦
                  let same : s ≡ t =
                    ap (λ r. r.1) (sym (patch_if_stale-current input d s current) ∙ ran) in
                  (d, subst (λ u. devices.get namespace name u ≡ ok d) same got, current)
              | inr stale ↦
                  let (stored, patched) =
                    then_do-dropped (devices.patch_status d (updated_status set d input) s) t
                      (rw (stale, patch_if_stale) at ran) in
                  (
                    updated_status set d input,
                    laws s t namespace name d (updated_status set d input) stored got refl patched,
                    updated_status-is_current d input,
                  )
            ]

    -- Where the cluster stores the status of a device, and `SetStatusCondition` sets the condition: a
    -- second update of the status with the same deployments and phase, after one that succeeded,
    -- finds it current and writes nothing.
    pub status_settles :
        (device : Z21Device) (input : StatusInput) (s t : S)
        → update_status set devices device input s ≡ (ok tt, t)
        → update_status set devices device input t ≡ (ok tt, t)
    unfolding update_status
    status_settles device input s t ran =
        elim (Result-cases (devices.get device.namespace device.name s)) [
          | inr (e, failed) ↦ ground (arith, ran, failed)
          | inl (latest, got) ↦
              let (e, again, current) =
                patch_if_stale-stores input device.namespace device.name latest s t got
                  (rw (got, update_status) at ran) in
              rw (again, update_status) (patch_if_stale-current input e t current)
        ]
