-- ===== src/Simulation/Resource.antt =====
-- The custom resource Simulation
-- (operators/z21-sim-controller/api/v1alpha1/simulation_types.go). A module's name is its bytes.
use Prim.Native.Nat.{ℕ}
use elp.Prelude.{String, List}
use elp.Prelude.Int.{ℤ}
use elp.Sim.Wire.{Bytes}

pub record SimulatedDetector : Type 0 where
  pub net_id : ℕ
  pub name : Bytes
  pub module_address : ℕ
  pub port_count : ℕ

pub record SimulatedBooster : Type 0 where
  pub net_id : ℕ
  pub name : Bytes
  pub output_port : ℕ

pub record SimulationSpec : Type 0 where
  pub device_ref : String
  pub can_detectors : List SimulatedDetector
  pub can_boosters : List SimulatedBooster

pub record SimulationStatus : Type 0 where
  pub phase : String
  pub message : String
  pub observed_generation : ℤ
  pub applied_can_devices : ℤ

pub record Simulation : Type 0 where
  pub namespace : String
  pub name : String
  pub generation : ℤ
  pub spec : SimulationSpec
  pub status : SimulationStatus

abbrev pub simulation_applied : String
simulation_applied = "Applied"

abbrev pub simulation_failed : String
simulation_failed = "Failed"
