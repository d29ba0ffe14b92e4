-- ===== src/Operator/Teardown.antt =====
-- The end of a device: its workloads go before its finalizer does
-- (operators/z21-device/internal/controller/z21device_controller.go).
use Prim.Native.String.{◌++◌}
use elp.Prelude.{◌≡◌, ◌⊎◌, inl, inr, refl, sym, subst, true}
use elp.Prelude.Result.{ok}
use elp.Prelude.Action.{reading}
use elp.Operator.Device.{Z21Device, device_finalizer_name, phase_stopping, simulator_service_name}
use elp.Operator.Workload.{gateway_deployment_name, simulator_deployment_name}
use elp.Operator.Status.{update_status}
use elp.Operator.Controller.{
  DeviceApi, Settings, workload_namespace, delete_gateway, delete_simulator,
}
use elp.Operator.Lifecycle.{reconcile_delete, only_phase}
use elp.Operator.Deletion.{
  Missing, Steady, Cleans, IsCleared, Released, dropped, chain, removal-missing, removal-kept,
  then_do-both, update_status-kept, delete_gateway-kept, delete_simulator-kept, removal,
}

module _ {S E : Type 0} (api : DeviceApi S E) where
  module _ (laws : Cleans api) (r : Settings) (device : Z21Device) where
    delete_gateway-clears :
        (s : S)
        → (delete_gateway api r device s).0 ≡ ok tt
        → Missing api api.deployments
            (workload_namespace r)
            (gateway_deployment_name device)
            (delete_gateway api r device s).1
          × Missing api api.accounts
              (workload_namespace r)
              (gateway_deployment_name device)
              (delete_gateway api r device s).1
    unfolding delete_gateway
    delete_gateway-clears s =
        let w = workload_namespace r in
        let name = gateway_deployment_name device in
        then_do-both api (Missing api api.deployments w name) (Missing api api.accounts w name)
          (removal api r api.deployments "delete gateway deployment" w name s)
          (removal api r api.accounts "delete gateway service account" w name)
          (removal-missing api api.deployments laws.deployments r _ w name s)
          (removal-kept api _ api.accounts r _ w name
            ((laws.missing_deployment w name).account w name))
          (removal-missing api api.accounts laws.accounts r _ w name)

    delete_simulator-clears :
        (s : S)
        → (delete_simulator api r device s).0 ≡ ok tt
        → Missing api api.deployments
            (workload_namespace r)
            (simulator_deployment_name device)
            (delete_simulator api r device s).1
          × Missing api api.services
              (workload_namespace r)
              (simulator_service_name device.name)
              (delete_simulator api r device s).1
    unfolding delete_simulator
    delete_simulator-clears s =
        let w = workload_namespace r in
        let name = simulator_deployment_name device in
        let service = simulator_service_name device.name in
        then_do-both api (Missing api api.deployments w name) (Missing api api.services w service)
          (removal api r api.deployments "delete simulator deployment" w name s)
          (removal api r api.services "delete simulator service" w service)
          (removal-missing api api.deployments laws.deployments r _ w name s)
          (removal-kept api _ api.services r _ w service
            ((laws.missing_deployment w name).service w service))
          (removal-missing api api.services laws.services r _ w service)

    -- The workloads of the device are gone after both calls went through.
    cleared :
        (s t : S)
        → (delete_gateway api r device s).0 ≡ ok tt
        → t ≡ (delete_gateway api r device s).1
        → (delete_simulator api r device t).0 ≡ ok tt
        → IsCleared api r device (delete_simulator api r device t).1
    cleared s t gateway same simulator =
        let w = workload_namespace r in
        let name = gateway_deployment_name device in
        let (g, a) = delete_gateway-clears s gateway in
        let (d, v) = delete_simulator-clears t simulator in
        let kept : (P : S → Type 0)
            → Steady api P
            → P (delete_gateway api r device s).1
            → P (delete_simulator api r device t).1 =
          λ P steady p. delete_simulator-kept api steady r device t (subst P (sym same) p) in
        record {
          gateway = kept (Missing api api.deployments w name) (laws.missing_deployment w name) g;
          account = kept (Missing api api.accounts w name) (laws.missing_account w name) a;
          simulator = d;
          service = v;
        }

    released :
        (P : S → Type 0)
        → Steady api P
        → (s : S) → P s
        → P (reconcile_delete api r device s).1
          ⊎ Released api r device (reconcile_delete api r device s).1
    unfolding reconcile_delete
    released P steady s p =
        let Q = Released api r device in
        chain api P Q
          (update_status api.set_condition api.devices device (only_phase phase_stopping) s) _
          (update_status-kept api steady device (only_phase phase_stopping) s p)
          (λ _ _ p1.
            chain api P Q (delete_gateway api r device _) _
              (delete_gateway-kept api steady r device _ p1)
              (λ _ gateway p2.
                chain api P Q (delete_simulator api r device _) _
                  (delete_simulator-kept api steady r device _ p2)
                  (λ _ simulator p3.
                    chain api P Q (reading (api.devices.get device.namespace device.name) _) _ p3
                      (λ latest _ _. inr (
                        _,
                        latest,
                        cleared _ _ gateway refl simulator,
                        dropped api (
                            api.devices.update (api.remove_finalizer latest device_finalizer_name)
                              _),
                      )))))

  -- The device is stored with its finalizer, so that the server keeps it.
  abbrev pub IsHeld : Z21Device → S → Type 0
  IsHeld device s =
      (d : Z21Device) × (api.devices.get device.namespace device.name s ≡ ok d)
      × (api.contains_finalizer d device_finalizer_name ≡ true)

  -- Where calls that delete delete, and neither they nor a patch of a status remove a finalizer: a
  -- pass over a device that is being deleted, whichever of its calls fail, either leaves the device
  -- held by its finalizer, or it ends with the update that removes the finalizer, in a state in which
  -- the device's deployments, service and account are all gone.
  pub finalizer_last :
      (laws : Cleans api) (r : Settings) (device : Z21Device)
      → Steady api (IsHeld device)
      → (s : S) → IsHeld device s
      → IsHeld device (reconcile_delete api r device s).1
        ⊎ Released api r device (reconcile_delete api r device s).1
  finalizer_last laws r device steady s held = released laws r device (IsHeld device) steady s held

  IsCleared-name :
      (r : Settings) (device other : Z21Device)
      → device.name ≡ other.name
      → (s : S) → IsCleared api r device s
      → IsCleared api r other s
  unfolding gateway_deployment_name simulator_deployment_name simulator_service_name
  IsCleared-name r device other same s c =
      let w = workload_namespace r in
      record {
        gateway = subst (λ n. Missing api api.deployments w ("z21-gateway-" ++ n) s) same c.gateway;
        account = subst (λ n. Missing api api.accounts w ("z21-gateway-" ++ n) s) same c.account;
        simulator = subst (λ n. Missing api api.deployments w ("z21-sim-" ++ n) s) same c.simulator;
        service = subst (λ n. Missing api api.services w ("z21-sim-" ++ n) s) same c.service;
      }

  -- Under the same conditions, a pass that removes the finalizer of a device removes the deployments,
  -- the service and the account of every device of that name, in whichever namespace.
  pub shared_workloads :
      (laws : Cleans api) (r : Settings) (device other : Z21Device)
      → device.name ≡ other.name
      → Steady api (IsHeld device)
      → (s : S) → IsHeld device s
      → IsHeld device (reconcile_delete api r device s).1
        ⊎ ((u : S) × (latest : Z21Device) × IsCleared api r other u
            × ((reconcile_delete api r device s).1
                ≡ (api.devices.update (api.remove_finalizer latest device_finalizer_name) u).1))
  shared_workloads laws r device other same steady s held =
      elim (finalizer_last laws r device steady s held) [
        | inl kept ↦ inl kept
        | inr (u, latest, clear, wrote) ↦
            inr (u, latest, IsCleared-name r device other same u clear, wrote)
      ]
