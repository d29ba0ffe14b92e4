-- ===== src/Operator/Deletion.antt =====
-- The calls that delete the workloads of a device, and what they leave as it was
-- (operators/z21-device/internal/controller/z21device_controller.go).
use elp.Prelude.{◌≡◌, ◌⊎◌, inl, inr, refl, subst, String, Bool, true, false, not, Bool-cases, arith}
use elp.Prelude.Result.{Result, ok, err}
use elp.Prelude.Action.{Action, pure, reading, then_do, when}
use elp.Operator.Cluster.{Resource}
use elp.Operator.Device.{Z21Device, device_finalizer_name, simulator_service_name}
use elp.Operator.Workload.{gateway_deployment_name, simulator_deployment_name}
use elp.Operator.Status.{
  StatusInput, update_status, patch_if_stale, updated_status, device_status_is_current,
  deployment_name, gateway_ready_status,
}
use elp.Operator.Controller.{
  DeviceApi, Settings, gone, workload_namespace, delete_gateway, delete_simulator,
}

module _ {S E : Type 0} (api : DeviceApi S E) where
  -- The server says that there is no such object.
  abbrev pub Missing : {A : Type 0} → Resource S E A → String → String → S → Type 0
  Missing resource namespace name s =
      (e : E) × (resource.get namespace name s ≡ err e) × (api.is_not_found e ≡ true)

  abbrev pub accepted : Result E (Unit {0}) → Bool
  accepted (ok u) = true
  accepted (err e) = api.is_not_found e

  -- What the API server promises of a call that deletes an object: afterwards the object is not
  -- there, also where the call found none.
  abbrev pub Deletes : {A : Type 0} → Resource S E A → Type 0
  Deletes resource =
      (namespace name : String) (s : S)
      → accepted (resource.delete namespace name s).0 ≡ true
      → Missing resource namespace name (resource.delete namespace name s).1

  -- A property of the cluster that the calls made before a finalizer is removed preserve.
  pub record Steady (P : S → Type 0) : Type 0 where
    pub status : (base new : Z21Device) (s : S) → P s → P (api.devices.patch_status base new s).1
    pub deployment :
        (namespace name : String) (s : S) → P s → P (api.deployments.delete namespace name s).1
    pub service :
        (namespace name : String) (s : S) → P s → P (api.services.delete namespace name s).1
    pub account :
        (namespace name : String) (s : S) → P s → P (api.accounts.delete namespace name s).1

  -- What it promises beside: an object that is missing stays so when others are deleted.
  pub record Cleans : Type 0 where
    pub deployments : Deletes api.deployments
    pub services : Deletes api.services
    pub accounts : Deletes api.accounts
    pub missing_deployment :
        (namespace name : String) → Steady (Missing api.deployments namespace name)
    pub missing_service : (namespace name : String) → Steady (Missing api.services namespace name)
    pub missing_account : (namespace name : String) → Steady (Missing api.accounts namespace name)

  -- No workload of the device is there.
  pub record IsCleared (r : Settings) (device : Z21Device) (s : S) : Type 0 where
    pub gateway : Missing api.deployments (workload_namespace r) (gateway_deployment_name device) s
    pub account : Missing api.accounts (workload_namespace r) (gateway_deployment_name device) s
    pub simulator :
        Missing api.deployments (workload_namespace r) (simulator_deployment_name device) s
    pub service : Missing api.services (workload_namespace r) (simulator_service_name device.name) s

  -- The state after the finalizer is removed, with no workload of `device` left.
  abbrev pub Released : Settings → Z21Device → S → Type 0
  Released r device t =
      (u : S) × (latest : Z21Device) × IsCleared r device u
      × (t ≡ (api.devices.update (api.remove_finalizer latest device_finalizer_name) u).1)

  gone-same :
      (r : Settings) (text : String) (x : Result E (Unit {0}) × S) → x.1 ≡ (gone api r text x).1
  gone-same r text (ok u, s) = refl
  gone-same r text (err e, s) = refl

  gone-accepted :
      (r : Settings) (text : String) (x : Result E (Unit {0}) × S)
      → (gone api r text x).0 ≡ ok tt
      → accepted x.0 ≡ true
  gone-accepted r text (ok u, s) h = refl
  gone-accepted r text (err e, s) h = elim (Bool-cases (api.is_not_found e)) [
    | inl found ↦ found
    | inr other ↦ ground (arith, rw other at h)
  ]

  pub dropped : {A : Type 0} (x : Result E A × S) → (then_do x (λ _. pure (tt {0}))).1 ≡ x.1
  dropped (ok a, s) = refl
  dropped (err e, s) = refl

  -- A chain of calls stops at an error or goes on.
  pub chain :
      (P Q : S → Type 0) {A B : Type 0} (x : Result E A × S) (k : A → Action S E B)
      → P x.1
      → ((a : A) → x.0 ≡ ok a → P x.1 → P (k a x.1).1 ⊎ Q (k a x.1).1)
      → P (then_do x k).1 ⊎ Q (then_do x k).1
  chain P Q (ok a, s) k p next = next a refl p
  chain P Q (err e, s) k p next = inl p

  -- A call that deletes an object, as the controller makes it.
  abbrev pub removal :
      {A : Type 0} → Settings → Resource S E A → String → String → String → Action S E (Unit {0})
  removal r resource text namespace name s = gone api r text (resource.delete namespace name s)

  pub removal-missing :
      {A : Type 0} (resource : Resource S E A)
      → Deletes resource
      → (r : Settings) (text namespace name : String) (s : S)
      → (removal r resource text namespace name s).0 ≡ ok tt
      → Missing resource namespace name (removal r resource text namespace name s).1
  removal-missing resource deletes r text namespace name s h =
      let x = resource.delete namespace name s in
      subst (Missing resource namespace name) (gone-same r text x)
        (deletes namespace name s (gone-accepted r text x h))

  abbrev pub Keeps : (P : S → Type 0) {A : Type 0} → Action S E A → Type 0
  Keeps P m = (s : S) → P s → P (m s).1

  pub removal-kept :
      (P : S → Type 0) {A : Type 0} (resource : Resource S E A) (r : Settings)
      (text namespace name : String)
      → Keeps P (resource.delete namespace name)
      → Keeps P (removal r resource text namespace name)
  removal-kept P resource r text namespace name keeps s p =
      subst P (gone-same r text (resource.delete namespace name s)) (keeps s p)

  pub then_do-kept :
      (P : S → Type 0) {A B : Type 0} (x : Result E A × S) (k : A → Action S E B)
      → P x.1
      → ((a : A) → Keeps P (k a))
      → P (then_do x k).1
  then_do-kept P (ok a, s) k p keeps = keeps a s p
  then_do-kept P (err e, s) k p keeps = p

  -- Two calls that both succeed.
  pub then_do-both :
      (P Q : S → Type 0) (x : Result E (Unit {0}) × S) (k : Action S E (Unit {0}))
      → (x.0 ≡ ok tt → P x.1)
      → Keeps P k
      → ((s : S) → (k s).0 ≡ ok tt → Q (k s).1)
      → (then_do x (λ _. k)).0 ≡ ok tt
      → P (then_do x (λ _. k)).1 × Q (then_do x (λ _. k)).1
  then_do-both P Q (ok u, s) k p keeps q h = (keeps s (p refl), q s h)
  then_do-both P Q (err e, s) k p keeps q h = ground (arith, h)

  when-kept :
      (P : S → Type 0) (c : Bool) (m : Action S E (Unit {0})) → Keeps P m → Keeps P (when c m)
  when-kept P true m keeps s p = keeps s p
  when-kept P false m keeps s p = p

  module _ {P : S → Type 0} (steady : Steady P) where
    pub update_status-kept :
        (device : Z21Device) (input : StatusInput)
        → Keeps P (update_status api.set_condition api.devices device input)
    unfolding update_status patch_if_stale
    update_status-kept device input s p =
        then_do-kept P (reading (api.devices.get device.namespace device.name) s)
          (patch_if_stale api.set_condition api.devices input) p
          (λ latest.
            when-kept P
              (not (
                device_status_is_current latest input (deployment_name input.gateway_deploy)
                  (deployment_name input.simulator_deploy)
                  (gateway_ready_status input.gateway_deploy)))
              (λ t.
                then_do
                  (api.devices.patch_status latest (updated_status api.set_condition latest input)
                    t)
                  (λ _. pure tt))
              (λ t q.
                then_do-kept P
                  (api.devices.patch_status latest (updated_status api.set_condition latest input)
                    t)
                  (λ _. pure (tt {0}))
                  (steady.status latest (updated_status api.set_condition latest input) t q)
                  (λ _ u kept. kept)))

    module _ (r : Settings) (device : Z21Device) where
      pub delete_gateway-kept : Keeps P (delete_gateway api r device)
      unfolding delete_gateway
      delete_gateway-kept s p =
          let w = workload_namespace r in
          let name = gateway_deployment_name device in
          let account = removal r api.accounts "delete gateway service account" w name in
          then_do-kept P (removal r api.deployments "delete gateway deployment" w name s)
            (λ _. account)
            (removal-kept P api.deployments r _ w name (steady.deployment w name) s p)
            (λ _. removal-kept P api.accounts r _ w name (steady.account w name))

      pub delete_simulator-kept : Keeps P (delete_simulator api r device)
      unfolding delete_simulator
      delete_simulator-kept s p =
          let w = workload_namespace r in
          let name = simulator_deployment_name device in
          let service = simulator_service_name device.name in
          then_do-kept P (removal r api.deployments "delete simulator deployment" w name s)
            (λ _. removal r api.services "delete simulator service" w service)
            (removal-kept P api.deployments r _ w name (steady.deployment w name) s p)
            (λ _. removal-kept P api.services r _ w service (steady.service w service))
