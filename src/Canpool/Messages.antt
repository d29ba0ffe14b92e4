-- ===== src/Canpool/Messages.antt =====
-- The texts of the errors of packages/canpool/config.go and pool.go.
use Prim.Native.String.{◌++◌}
use elp.Prelude.{ℕ, String}
use elp.Canpool.Config.{
  Config, Err, start_required, end_too_large, start_after_end, reserved_zero, reserved_out_of_range,
  reserved_duplicate, owner_required, assignment_address_required, address_required,
  address_out_of_range, assignment_out_of_range, duplicate_address, duplicate_owner,
  owner_already_assigned, address_in_use, no_address_available, owner_not_found,
}

-- The verbs of Go's `fmt` that the program uses: `%d`, `%q`, `%04x` and `%04X`.
pub record Fmt : Type 0 where
  pub decimal : ℕ → String
  pub quote : String → String
  pub hex4 : ℕ → String
  pub upper_hex4 : ℕ → String

-- `err.Error()`, for the configuration whose `Validate` or pool returned it.
unfoldable pub message : Fmt → Config → Err → String
message f c start_required = "canpool: start address must be >= 1"
message f c end_too_large = "canpool: end address must be <= 255"
message f c start_after_end =
    "canpool: start address "
    ++ (f.decimal c.start ++ (" must be <= end address " ++ f.decimal c.end))
message f c reserved_zero = "canpool: reserved address must be >= 1"
message f c (reserved_out_of_range a) =
    "canpool: reserved address "
    ++ (f.decimal a ++ (" outside range " ++ (f.decimal c.start ++ ("-" ++ f.decimal c.end))))
message f c (reserved_duplicate a) = "canpool: duplicate reserved address " ++ f.decimal a
message f c owner_required = "canpool: owner is required"
message f c (assignment_address_required o) =
    "canpool: assignment address is required for owner " ++ f.quote o
message f c address_required = "canpool: address must be >= 1"
message f c address_out_of_range = "canpool: address outside pool range"
message f c (assignment_out_of_range a o) =
    "canpool: assignment address "
    ++ (f.decimal a ++ (" for owner " ++ (f.quote o ++ ": canpool: address outside pool range")))
message f c (duplicate_address a other o) =
    "canpool: duplicate assignment for address "
    ++ (f.decimal a ++ (" (" ++ (f.quote other ++ (" and " ++ (f.quote o ++ ")")))))
message f c (duplicate_owner o prev a) =
    "canpool: duplicate assignment for owner "
    ++ (f.quote o ++ (" (addresses " ++ (f.decimal prev ++ (" and " ++ (f.decimal a ++ ")")))))
message f c (owner_already_assigned o a) =
    "canpool: owner "
    ++ (f.quote o
        ++ (" already has address " ++ (f.decimal a ++ ": canpool: owner already has an address")))
message f c (address_in_use a o) =
    "canpool: address "
    ++ (f.decimal a ++ (" assigned to " ++ (f.quote o ++ ": canpool: address already assigned")))
message f c no_address_available = "canpool: no address available in range"
message f c owner_not_found = "canpool: owner has no assignment"
