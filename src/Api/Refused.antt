-- ===== src/Api/Refused.antt =====
-- What a refused request leaves behind, and what a created device answers
-- (apps/api/internal/api/devices.go).
use Prim.Native.Nat.{ℕ, ◌<◌, ◌≤◌}
use elp.Prelude.{
  ◌≡◌, refl, String, Bool, true, false, Option, none, some, if◌then◌else◌, Option-cases, inl, inr,
  arith,
}
use elp.Prelude.Result.{Result, ok, err}
use elp.Prelude.Eq.{string_comparable}
use elp.Operator.Device.{Z21Device}
use elp.Api.Requests.{
  RequestError, DeviceCreate, is_some, validate_device_create, spec_from_create, apply_update,
}
use elp.Api.Handlers.{
  HandlerApi, Response, from_cluster, not_published, Handler, Request, lists, creates, gets,
  patches, deletes, or_else, write_error, write_device, checked, with_device, new_device,
  request_name, write_patch, list_devices, create_device, get_device, patch_device, delete_device,
  serve,
}

module _ {S E : Type 0} (api : HandlerApi S E) where
  -- A response that blames the request comes with the state as it was.
  abbrev pub Unchanged : S → Response E × S → Type 0
  Unchanged s (r, t) = 400 ≤ r.status → r.status < 500 → t ≡ s

  or_else-Unchanged :
      {A : Type 0} (s : S) (x : Result E A × S) (failed : E → Handler api) (k : A → Handler api)
      → ((e : E) → x.0 ≡ err e → Unchanged s (failed e x.1))
      → ((a : A) → x.0 ≡ ok a → Unchanged s (k a x.1))
      → Unchanged s (or_else api x failed k)
  or_else-Unchanged s (ok a, t) failed k bad good = good a refl
  or_else-Unchanged s (err e, t) failed k bad good = bad e refl

  with_device-Unchanged :
      (namespace name : String) (k : Z21Device → Handler api)
      → ((d : Z21Device) (s : S) → Unchanged s (k d s))
      → (s : S) → Unchanged s (with_device api namespace name k s)
  unfolding with_device
  with_device-Unchanged namespace name k keeps s =
      or_else-Unchanged s (api.devices.get namespace name s, s) _ k (λ e _ _ _. refl)
        (λ d _. keeps d s)

  checked-Unchanged :
      {A : Type 0} (r : Result RequestError A) (k : A → Handler api) (s : S)
      → ((a : A) → Unchanged s (k a s))
      → Unchanged s (checked api r k s)
  checked-Unchanged (ok a) k s keeps low high = keeps a low high
  checked-Unchanged (err e) k s keeps low high = refl

  -- No response of a patch that reached the server blames the request.
  write_patch-Unchanged :
      (changed : Bool) (base device : Z21Device) (s : S)
      → Unchanged s (write_patch api changed base device s)
  unfolding write_patch
  write_patch-Unchanged changed base device s =
      or_else-Unchanged s (api.devices.patch base device s) _ _
        (λ e _ low high. ground (arith, high))
        (λ written _.
          elim changed
            as (λ c. Unchanged s (
              if c
              then or_else api
                  (api.publish_set_broadcast_flags written (api.devices.patch base device s).1)
                  (λ e. write_error api 502 (not_published e)) (λ _. write_device api 200 written)
              else write_device api 200 written (api.devices.patch base device s).1)) [
                | true ↦
                    or_else-Unchanged s
                      (api.publish_set_broadcast_flags written (api.devices.patch base device s).1)
                      _ _ (λ e _ low high. ground (arith, high))
                      (λ _ _ low high. ground (arith, low))
                | false ↦ λ low high. ground (arith, low)
              ])

  -- A device that the server refuses to create is not created.
  abbrev pub RefusesCleanly : Type 0
  RefusesCleanly =
      (d : Z21Device) (e : E) (s : S)
      → (api.devices.create d s).0 ≡ err e
      → (api.devices.create d s).1 ≡ s

  create_device-Unchanged :
      RefusesCleanly
      → (namespace url_name : String) (body : Option DeviceCreate) (s : S)
      → Unchanged s (create_device api namespace url_name body s)
  unfolding create_device
  create_device-Unchanged cleanly namespace url_name none s = λ low high. refl
  create_device-Unchanged cleanly namespace url_name (some body) s =
      elim (Option-cases (request_name url_name body.name)) [
        | inl differ ↦ rw (differ, create_device) (λ _ _. refl)
        | inr (name, resolved) ↦
            elim (Option-cases (validate_device_create (record body { name = name }))) [
              | inr (e, bad) ↦ rw (resolved, create_device) (rw (bad, create_device) (λ _ _. refl))
              | inl valid ↦
                  rw (resolved, create_device)
                    (rw (valid, create_device)
                      (checked-Unchanged (spec_from_create api.net (record body { name = name })) _
                        s
                        (λ spec.
                          or_else-Unchanged s
                            (api.devices.create (new_device namespace name spec) s) _ _
                            (λ e failed _ _. cleanly (new_device namespace name spec) e s failed)
                            (λ d _ low high. ground (arith, low)))))
            ]
      ]

  -- Where the server creates nothing when it returns an error: a request on devices that is answered
  -- with a status from 400 to 499 leaves the cluster as it was, whichever request it is.
  pub refused_unchanged :
      RefusesCleanly
      → (r : Request) (s : S) → 400 ≤ (serve api r s).0.status
      → (serve api r s).0.status < 500
      → (serve api r s).1 ≡ s
  unfolding serve list_devices get_device patch_device delete_device
  refused_unchanged cleanly (lists namespace) s =
      or_else-Unchanged s (api.devices.list_in namespace s, s) _ _ (λ e _ _ _. refl)
        (λ items _ _ _. refl)
  refused_unchanged cleanly (creates namespace url_name body) s =
      create_device-Unchanged cleanly namespace url_name body s
  refused_unchanged cleanly (gets namespace name) s =
      with_device-Unchanged namespace name (λ d. write_device api 200 d) (λ d t _ _. refl) s
  refused_unchanged cleanly (patches namespace name none) s =
      with_device-Unchanged namespace name _ (λ d t _ _. refl) s
  refused_unchanged cleanly (patches namespace name (some req)) s =
      with_device-Unchanged namespace name _
        (λ d t. checked-Unchanged (apply_update api.net d.spec req) _ t (λ spec.
          write_patch-Unchanged (is_some req.broadcast_flags) d (record d { spec = spec }) t))
        s
  refused_unchanged cleanly (deletes namespace name) s =
      with_device-Unchanged namespace name _
        (λ d t.
          or_else-Unchanged t (api.devices.delete d.namespace d.name t) _ _
            (λ e _ low high. ground (arith, high)) (λ _ _ low high. ground (arith, low)))
        s

  -- What the API server promises of a device that it creates: it is there as the server answered it.
  abbrev pub StoresCreated : Type 0
  StoresCreated =
      (d stored : Z21Device) (s t : S)
      → api.devices.create d s ≡ (ok stored, t)
      → api.devices.get d.namespace d.name t ≡ ok stored

  -- A read of the device after the answer gives the body of the answer.
  abbrev pub ReadsBack : String → String → Response E × S → Type 0
  ReadsBack namespace name (r, t) =
      get_device api namespace name t ≡ (record { status = 200; body = r.body }, t)

  created_get :
      StoresCreated
      → (d : Z21Device) (s : S) (x : Result E Z21Device × S) → api.devices.create d s ≡ x
      → (failed : E → ℕ) → ((e : E) → 400 ≤ failed e)
      → (or_else api x
          (λ e. write_error api (failed e) (from_cluster e))
          (λ v. write_device api 201 v)).0.status
        ≡ 201
      → ReadsBack d.namespace d.name (
          or_else api x
            (λ e. write_error api (failed e) (from_cluster e))
            (λ v. write_device api 201 v))
  unfolding get_device with_device
  created_get stores d s (ok stored, t) made failed fails h = rw (stores d stored s t made) refl
  created_get stores d s (err e, t) made failed fails h = ground (arith, fails e, h)

  checked-ReadsBack :
      {A : Type 0} (namespace name : String) (r : Result RequestError A) (k : A → Handler api)
      (s : S)
      → ((a : A) → (k a s).0.status ≡ 201 → ReadsBack namespace name (k a s))
      → (checked api r k s).0.status ≡ 201
      → ReadsBack namespace name (checked api r k s)
  checked-ReadsBack namespace name (ok a) k s reads h = reads a h
  checked-ReadsBack namespace name (err e) k s reads h = ground (arith, h)

  -- Where the server stores what it creates: after a request to create a device that is answered with
  -- the status 201, a request for that device, by the name in the URL or in the body, is answered
  -- with the same view of the device.
  pub created_readable :
      StoresCreated
      → (namespace url_name : String) (body : DeviceCreate) (s : S)
      → (create_device api namespace url_name (some body) s).0.status ≡ 201
      → (name : String) × (request_name url_name body.name ≡ some name)
        × ReadsBack namespace name (create_device api namespace url_name (some body) s)
  unfolding create_device new_device
  created_readable stores namespace url_name body s h =
      elim (Option-cases (request_name url_name body.name)) [
        | inl differ ↦ ground (arith, rw (differ, create_device) at h)
        | inr (name, resolved) ↦
            elim (Option-cases (validate_device_create (record body { name = name }))) [
              | inr (e, bad) ↦
                  ground (arith, rw (bad, create_device) at (rw (resolved, create_device) at h))
              | inl valid ↦ (
                name,
                resolved,
                rw (resolved, create_device)
                    (rw (valid, create_device)
                      (checked-ReadsBack namespace name
                        (spec_from_create api.net (record body { name = name })) _ s
                        (λ spec.
                          created_get stores (new_device namespace name spec) s _ refl
                            (λ e. if api.is_already_exists e then 409 else 500) (λ e. ground arith))
                        (rw (valid, create_device) at (rw (resolved, create_device) at h)))),
              )
            ]
      ]
