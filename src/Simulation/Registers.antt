-- ===== src/Simulation/Registers.antt =====
-- A simulation that is played to the simulator itself: the controller of
-- operators/z21-sim-controller makes its requests of the control service of
-- apps/z21-sim/internal/control/grpc.go.
use Prim.Native.Nat.{ℕ}
use elp.Prelude.{Option, some, List, [], ◌∷◌, if◌then◌else◌}
use elp.Prelude.Result.{Result, ok, err}
use elp.Prelude.Action.{Action}
use elp.Prelude.Eq.{◌==◌, nat_comparable}
use elp.Sim.Platform.{Platform}
use elp.Sim.Device.{CanDevice}
use elp.Sim.Server.{Server}
use elp.Sim.Control.{NotifyRequest, ControlError, requested_device, rpc_notify_can_device_detected}

-- The call of the control service: the count that it answers is dropped.
abbrev pub answered : Server × Result ControlError ℕ → Result ControlError (Unit {0}) × Server
answered (s, ok count) = (ok tt, s)
answered (s, err e) = (err e, s)

-- The device that a request leaves under a number, over the one that was there.
abbrev pub after_request : ℕ → NotifyRequest → Option CanDevice → Option CanDevice
after_request id r old = elim (requested_device r) [
  | err e ↦ old
  | ok device ↦ if device.net_id == id then some device else old
]

unfoldable pub after_requests : ℕ → List NotifyRequest → Option CanDevice → Option CanDevice
after_requests id [] old = old
after_requests id (r ∷ rest) old = after_requests id rest (after_request id r old)

module _ (z : Platform) where
  abbrev pub control : NotifyRequest → Action Server ControlError (Unit {0})
  control r s = answered (rpc_notify_can_device_detected z s r)
