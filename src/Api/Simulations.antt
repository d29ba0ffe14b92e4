-- ===== src/Api/Simulations.antt =====
-- The requests on the CAN detectors of a simulated device (apps/api/internal/api/simulations.go,
-- simulation_types.go).
use Prim.Native.Nat.{ℕ}
use elp.Prelude.{String, Bool, not, ◌||◌, Option, none, some, List, [], ◌∷◌, if◌then◌else◌, leb}
use elp.Prelude.Result.{Result, ok, err}
use elp.Prelude.Eq.{◌==◌, string_comparable, nat_comparable}
use elp.Prelude.Assoc.{Map, lookup, insert}
use elp.Prelude.Int.{ℤ, pos, beq_ℤ}
use elp.Operator.Cluster.{Resource}
use elp.Operator.Device.{Z21Device, backend_simulator}
use elp.Simulation.Resource.{SimulatedDetector, Simulation}

-- The view of a simulation, with its detectors as in the resource.
pub record SimulationView : Type 0 where
  pub name : String
  pub namespace : String
  pub device_ref : String
  pub can_detectors : List SimulatedDetector
  -- The phase, the message and the count of applied devices.
  pub status : Option (String × String × ℤ)

pub record SimulateCanRequest : Type 0 where
  pub simulation_name : String
  pub can_detectors : List SimulatedDetector

-- `if x == 0 { x = fallback }`
unfoldable pub default_to : ℕ → ℕ → ℕ
default_to fallback x = if x == 0 then fallback else x

unfoldable pub with_defaults : SimulatedDetector → SimulatedDetector
unfolding default_to
with_defaults d = record d {
  module_address = default_to 1 d.module_address;
  port_count = default_to 8 d.port_count;
}

-- None stands for the error that a detector has no number.
unfoldable pub detectors_from_api : List SimulatedDetector → Option (List SimulatedDetector)
unfolding with_defaults
detectors_from_api [] = some []
detectors_from_api (d ∷ rest) =
    let others = detectors_from_api rest in
    if d.net_id == 0
    then none
    else elim others [ none ↦ none | some out ↦ some (with_defaults d ∷ out) ]

-- The loops over `existing` and `incoming`.
unfoldable pub put_all : List SimulatedDetector → Map ℕ SimulatedDetector → Map ℕ SimulatedDetector
put_all [] by_net_id = by_net_id
put_all (d ∷ rest) by_net_id = put_all rest (insert d.net_id d by_net_id)

-- `netIDs`, in the order in which the map is walked.
unfoldable pub net_ids : Map ℕ SimulatedDetector → List ℕ
net_ids [] = []
net_ids ((net_id, d) ∷ rest) = net_id ∷ net_ids rest

-- `sort.Slice`
unfoldable pub insert_id : ℕ → List ℕ → List ℕ
insert_id a [] = a ∷ []
insert_id a (b ∷ rest) = if leb a b then a ∷ b ∷ rest else b ∷ insert_id a rest

unfoldable pub sort_ids : List ℕ → List ℕ
unfolding insert_id
sort_ids [] = []
sort_ids (a ∷ rest) = insert_id a (sort_ids rest)

-- `byNetID[netID]`: a key that is missing gives a detector of zeros.
unfoldable pub detectors_at : Map ℕ SimulatedDetector → List ℕ → List SimulatedDetector
detectors_at by_net_id [] = []
detectors_at by_net_id (net_id ∷ rest) =
    let d : SimulatedDetector = elim (lookup net_id by_net_id) [
      | some d ↦ d
      | none ↦ record { net_id = 0; name = []; module_address = 0; port_count = 0 }
    ] in
    d ∷ detectors_at by_net_id rest

unfoldable pub merge_can_detectors :
    List SimulatedDetector → List SimulatedDetector → List SimulatedDetector
unfolding put_all net_ids sort_ids detectors_at
merge_can_detectors existing incoming =
    let by_net_id = put_all incoming (put_all existing []) in
    detectors_at by_net_id (sort_ids (net_ids by_net_id))

unfoldable pub simulation_from_cr : Simulation → SimulationView
simulation_from_cr cr = record {
  name = cr.name;
  namespace = cr.namespace;
  device_ref = cr.spec.device_ref;
  can_detectors = cr.spec.can_detectors;
  status =
      if not (cr.status.phase == "")
        || not (cr.status.message == "")
        || not (beq_ℤ cr.status.applied_can_devices (pos 0))
      then some (cr.status.phase, cr.status.message, cr.status.applied_can_devices)
      else none;
}

pub data SimulationBody (E : Type 0) : Type 0 where
  simulation_body : SimulationView → SimulationBody E
  no_json detectors_required net_id_required : SimulationBody E
  device_missing : String → SimulationBody E
  wrong_backend : String → String → SimulationBody E
  other_device : String → String → SimulationBody E
  from_cluster : E → SimulationBody E

pub record SimulationApi (S E : Type 0) : Type 0 where
  pub is_not_found : E → Bool
  pub devices : Resource S E Z21Device
  pub simulations : Resource S E Simulation

-- A simulation that is new.
unfoldable pub new_simulation : String → String → String → List SimulatedDetector → Simulation
new_simulation namespace name device_ref detectors = record {
  namespace = namespace;
  name = name;
  generation = pos 0;
  spec = record { device_ref = device_ref; can_detectors = detectors; can_boosters = [] };
  status = record {
    phase = "";
    message = "";
    observed_generation = pos 0;
    applied_can_devices = pos 0;
  };
}

module _ {S E : Type 0} (api : SimulationApi S E) where
  -- A status and a body.
  abbrev pub Reply : Type 0
  Reply = (ℕ × SimulationBody E) × S

  abbrev pub written : Result E Simulation × S → Reply
  written (ok simulation, s) = ((200, simulation_body (simulation_from_cr simulation)), s)
  written (err e, s) = ((500, from_cluster e), s)

  -- From the simulation on.
  unfoldable pub store_simulation : String → String → String → List SimulatedDetector → S → Reply
  unfolding new_simulation merge_can_detectors simulation_from_cr
  store_simulation namespace name device_name incoming s =
      elim (api.simulations.get namespace name s) [
        | err e ↦
            if api.is_not_found e
            then written
                (api.simulations.create (new_simulation namespace name device_name incoming) s)
            else ((500, from_cluster e), s)
        | ok simulation ↦
            if not (simulation.spec.device_ref == device_name)
            then ((409, other_device name simulation.spec.device_ref), s)
            else written (
                api.simulations.patch simulation
                  (record simulation {
                    spec = record (simulation.spec) {
                      can_detectors = merge_can_detectors simulation.spec.can_detectors incoming;
                    };
                  })
                  s)
      ]

  unfoldable pub simulate_can : String → String → Option SimulateCanRequest → S → Reply
  unfolding detectors_from_api store_simulation
  simulate_can namespace device_name none s = ((400, no_json), s)
  simulate_can namespace device_name (some req) s = elim req.can_detectors [
    | [] ↦ ((400, detectors_required), s)
    | d ∷ rest ↦ elim (api.devices.get namespace device_name s) [
      | err e ↦
          if api.is_not_found e
          then ((404, device_missing device_name), s)
          else ((500, from_cluster e), s)
      | ok device ↦
          if not (device.spec.backend.backend_type == backend_simulator)
          then ((400, wrong_backend device_name device.spec.backend.backend_type), s)
          else elim (detectors_from_api req.can_detectors) [
            | none ↦ ((400, net_id_required), s)
            | some incoming ↦
                store_simulation namespace
                  (if req.simulation_name == "" then device_name else req.simulation_name)
                  device_name incoming s
          ]
    ]
  ]
