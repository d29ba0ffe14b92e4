-- ===== src/Api/Laws.antt =====
-- Laws of the requests on devices (apps/api/internal/api/types.go).
use elp.Prelude.{
  ◌≡◌, ◌⊎◌, String, Bool, true, false, not, ◌&&◌, ◌||◌, Option, none, some, if◌then◌else◌,
}
use elp.Prelude.Eq.{◌==◌, string_comparable}
use elp.Prelude.Int.{ℤ, pos, beq_ℤ}
use elp.Operator.Device.{BackendSpec, Z21DeviceSpec, Net, backend_hardware, backend_simulator}
use elp.Api.Requests.{is_bad_port}

-- The port is 0, for the default, or between 1 and 65535.
unfoldable pub is_port : ℤ → Bool
unfolding is_bad_port
is_port port = beq_ℤ port (pos 0) || not (is_bad_port port)

-- The rules of the resource on its backend: a hardware backend has hardware, with a host and a port
-- in range, and no simulator; a simulator backend has no hardware; and there is no other.
unfoldable pub is_valid_backend : BackendSpec → Bool
unfolding is_port
is_valid_backend b =
    if b.backend_type == backend_hardware
    then elim b.hardware [
      | none ↦ false
      | some hw ↦
          not (hw.host == "")
          && is_port hw.port
          && elim b.simulator [ none ↦ true | some _ ↦ false ]
    ]
    else b.backend_type == backend_simulator && elim b.hardware [ none ↦ true | some _ ↦ false ]

-- The host of an address, which is the whole address if there is no port in it.
abbrev pub address_host : Net → String → String
address_host net addr = elim (net.split_host_port addr) [ none ↦ addr | some (host, _) ↦ host ]

-- The rules hold, unless the host of the address is empty.
abbrev pub IsValidFrom : Net → String → BackendSpec → Type 0
IsValidFrom net addr b =
    (is_valid_backend b ≡ true) ⊎ ((address_host net addr ≡ "") × (is_valid_backend b ≡ false))

-- The rules hold of a changed specification, unless the host of the new address is empty.
abbrev pub KeepsRules : Net → Option String → Z21DeviceSpec → Type 0
KeepsRules net address updated =
    (is_valid_backend updated.backend ≡ true)
    ⊎ ((addr : String) × (address ≡ some addr)
        × (address_host net addr ≡ "")
        × (is_valid_backend updated.backend ≡ false))
