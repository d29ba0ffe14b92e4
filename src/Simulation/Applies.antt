-- ===== src/Simulation/Applies.antt =====
-- What the controller of simulations registers and reports
-- (operators/z21-sim-controller/internal/controller/simulation_controller.go).
use Prim.Native.String.{◌++◌}
use elp.Canpool.Messages.{Fmt}
use elp.Prelude.{◌≡◌, String, Option, none, some, List, [], ◌∷◌, ◌++◌ as ◌+++◌}
use elp.Prelude.Result.{Result, ok, err}
use elp.Prelude.Action.{Action}
use elp.Prelude.Eq.{string_comparable}
use elp.Prelude.Int.{ℤ, increment}
use elp.Sim.Control.{NotifyRequest, proto_booster}
use elp.Simulation.Resource.{
  SimulatedDetector, SimulatedBooster, Simulation, simulation_applied, simulation_failed,
}
use elp.Simulation.Controller.{SimulationApi, Counted, detector_request, booster_request}

-- The requests of a simulation, in the order in which they are made.
unfoldable pub detector_requests : List SimulatedDetector → List NotifyRequest
detector_requests [] = []
detector_requests (d ∷ rest) = detector_request d ∷ detector_requests rest

unfoldable pub booster_requests : List SimulatedBooster → List NotifyRequest
booster_requests [] = []
booster_requests (b ∷ rest) = booster_request b ∷ booster_requests rest

abbrev pub requests : Simulation → List NotifyRequest
requests simulation =
    detector_requests simulation.spec.can_detectors
    +++ booster_requests simulation.spec.can_boosters

-- The count of registered devices, the error if there is one, and the state, after the requests were
-- made one by one from a state and a count, up to the first that fails; `failed` makes the error
-- of that request's error.
pub data Played {S E : Type 0} (notify : NotifyRequest → Action S E (Unit {0}))
    (failed : NotifyRequest → E → E) : List NotifyRequest → ℤ → S → ℤ → Option E → S → Type 0 where
  all_done : {n : ℤ} {s : S} → Played notify failed [] n s n none s
  stopped :
      {r : NotifyRequest} {rest : List NotifyRequest} {n : ℤ} {s t : S} (cause : E)
      → notify r s ≡ (err cause, t)
      → Played notify failed (r ∷ rest) n s n (some (failed r cause)) t
  went_on :
      {r : NotifyRequest} {rest : List NotifyRequest} {n m : ℤ} {o : Option E} {s t u : S}
      → notify r s ≡ (ok tt, t)
      → Played notify failed rest (increment n) t m o u
      → Played notify failed (r ∷ rest) n s m o u

-- The text that goes before the error of a request: that of its kind, and its number.
unfoldable pub request_text : Fmt → NotifyRequest → String
request_text f r = elim r.kind [
  | proto_booster ↦ "register CAN booster netID=0x" ++ f.upper_hex4 r.net_id
  | _ ↦ "register CAN detector netID=0x" ++ f.upper_hex4 r.net_id
]

-- The error that is reported of a request that fails.
abbrev pub request_error : {S E : Type 0} → SimulationApi S E → NotifyRequest → E → E
request_error api r cause = api.wrap (request_text api.fmt r) cause

module _ {S E : Type 0} (api : SimulationApi S E)
    (notify : NotifyRequest → Action S E (Unit {0})) where
  abbrev IsPlayed : List NotifyRequest → ℤ → S → Counted E × S → Type 0
  IsPlayed l n s ((m, o), t) = Played notify (request_error api) l n s m o t

-- The status that is written for an outcome.
abbrev pub phase_for : {E : Type 0} → Option E → String
phase_for none = simulation_applied
phase_for (some e) = simulation_failed

module _ {S E : Type 0} (api : SimulationApi S E) where
  -- The text of the error, if there is one.
  abbrev pub text_for : Option E → String
  text_for none = ""
  text_for (some e) = api.error_text e
