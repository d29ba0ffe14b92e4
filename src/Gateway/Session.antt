-- ===== src/Gateway/Session.antt =====
-- The gateway's session with the command station, and the control commands that change it
-- (apps/z21-gateway/internal/gateway/session.go, control.go). The mutex is left out: each operation is
-- one step. The sender of a message to the command station is a parameter.
use Prim.Native.Nat.{ℕ}
use elp.Prelude.{String, Option, none, some, if◌then◌else◌}
use elp.Prelude.Result.{Result, ok}
use elp.Prelude.Eq.{◌==◌, string_comparable, nat_comparable}

-- A session with the client `C`, while one is attached.
pub record Z21Session (C : Type 0) : Type 0 where
  pub client : Option C
  pub flags : ℕ

-- `protocol.DefaultBroadcastFlags`, of github.com/trains-io/z21.go, stands for no flags.
unfoldable pub flags_or : ℕ → ℕ → ℕ
flags_or default_flags flags = if flags == 0 then default_flags else flags

module _ {C : Type 0} (default_flags : ℕ) where
  unfoldable pub new_session : ℕ → Z21Session C
  unfolding flags_or
  new_session initial = record { client = none; flags = flags_or default_flags initial }

  unfoldable pub set_flags : ℕ → Z21Session C → Z21Session C
  unfolding flags_or
  set_flags flags s = record s { flags = flags_or default_flags flags }

  unfoldable pub attach : C → Z21Session C → Z21Session C
  attach c s = record s { client = some c }

  unfoldable pub detach : Z21Session C → Z21Session C
  detach s = record s { client = none }

  -- `send` is `sendWithTimeout` of the message that sets the flags; `W` is the world it changes.
  module _ {E W : Type 0} (send : C → ℕ → W → Result E (Unit {0}) × W) where
    unfoldable pub apply_broadcast_flags :
        ℕ → Z21Session C × W → Result E (Unit {0}) × (Z21Session C × W)
    unfolding set_flags
    apply_broadcast_flags flags (s, w) =
        let next = set_flags flags s in
        elim next.client [
          | none ↦ (ok tt, (next, w))
          | some c ↦ let (sent, after) = send c next.flags w in (sent, (next, after))
        ]

    -- The decoded command: its type and its flags, or none if the payload is no JSON of one.
    unfoldable pub handle_control_message :
        Option (String × ℕ) → Z21Session C × W → Z21Session C × W
    unfolding apply_broadcast_flags
    handle_control_message none state = state
    handle_control_message (some (command_type, flags)) state =
        let applied = apply_broadcast_flags flags state in
        if command_type == "setBroadcastFlags" then applied.1 else state
