-- ===== src/Api/Requests.antt =====
-- What a request to create or to change a device makes of the custom resource
-- (apps/api/internal/api/types.go).
use elp.Prelude.{
  ℕ, String, Bool, true, false, not, ◌&&◌, ◌||◌, Option, none, some, [], if◌then◌else◌,
}
use elp.Prelude.Result.{Result, ok, err}
use elp.Prelude.Eq.{◌==◌, string_comparable}
use elp.Prelude.Int.{ℤ, pos, leb_ℤ, beq_ℤ}
use elp.Operator.Device.{
  HardwareBackend, BackendSpec, NatsSpec, GatewaySpec, Z21DeviceSpec, Net, backend_hardware,
  backend_simulator, default_broadcast_flags,
}
use elp.Api.Types.{NatsConfig, GatewayConfig}

pub record HardwareCreate : Type 0 where
  pub host : String
  pub port : ℤ

pub record SimulatorCreate : Type 0 where
  pub image : String

pub record BackendCreate : Type 0 where
  pub backend_type : String
  pub hardware : Option HardwareCreate
  pub simulator : Option SimulatorCreate

pub record DeviceCreate : Type 0 where
  pub name : String
  pub address : String
  pub backend : Option BackendCreate
  pub nats : NatsConfig
  pub gateway : Option GatewayConfig
  pub broadcast_flags : Option ℕ

pub record DeviceUpdate : Type 0 where
  pub address : Option String
  pub nats : Option NatsConfig
  pub gateway : Option GatewayConfig
  pub broadcast_flags : Option ℕ

pub data RequestError : Type 0 where
  name_required url_required address_and_backend address_or_backend_required : RequestError
  type_required simulator_not_allowed hardware_not_allowed address_and_hardware : RequestError
  host_required : RequestError
  unsupported_backend : String → RequestError
  invalid_port : ℤ → RequestError
  invalid_address_port : String → RequestError

unfoldable pub is_some {ℓ} : {A : Type ℓ} → Option A → Bool
is_some none = false
is_some (some a) = true

unfoldable pub validate_backend : BackendCreate → Option RequestError
unfolding is_some
validate_backend backend =
    if backend.backend_type == ""
    then some type_required
    else if backend.backend_type == backend_hardware
    then if is_some backend.simulator then some simulator_not_allowed else none
    else if backend.backend_type == backend_simulator
    then if is_some backend.hardware then some hardware_not_allowed else none
    else some (unsupported_backend backend.backend_type)

unfoldable pub validate_device_create : DeviceCreate → Option RequestError
unfolding is_some validate_backend
validate_device_create req =
    if req.name == ""
    then some name_required
    else if req.nats.url == ""
    then some url_required
    else if is_some req.backend && not (req.address == "")
    then some address_and_backend
    else if not (is_some req.backend) && req.address == ""
    then some address_or_backend_required
    else elim req.backend [ none ↦ none | some backend ↦ validate_backend backend ]

-- `port < 1 || port > 65535`
unfoldable pub is_bad_port : ℤ → Bool
is_bad_port port = not (leb_ℤ (pos 1) port) || not (leb_ℤ port (pos 65535))

unfoldable pub parse_hardware_address : Net → String → Result RequestError HardwareBackend
unfolding is_bad_port
parse_hardware_address net addr = elim (net.split_host_port addr) [
  | none ↦ ok (record { host = addr; port = pos 0 })
  | some (host, port_str) ↦ elim (net.parse_int32 port_str) [
    | none ↦ err (invalid_address_port port_str)
    | some port ↦
        if is_bad_port port
        then err (invalid_address_port port_str)
        else ok (record { host = host; port = port })
  ]
]

unfoldable pub hardware_from_create :
    Net → Option HardwareCreate → String → Result RequestError HardwareBackend
unfolding parse_hardware_address is_bad_port
hardware_from_create net hw address =
    if address == ""
    then elim hw [
      | none ↦ err host_required
      | some h ↦
          if h.host == ""
          then err host_required
          else if not (beq_ℤ h.port (pos 0)) && is_bad_port h.port
          then err (invalid_port h.port)
          else ok (record { host = h.host; port = h.port })
    ]
    else if is_set hw
    then err address_and_hardware
    else parse_hardware_address net address
  where
    is_set : Option HardwareCreate → Bool
    is_set none = false
    is_set (some h) = not (h.host == "") || not (beq_ℤ h.port (pos 0))

unfoldable pub hardware_spec : HardwareBackend → BackendSpec
hardware_spec hw = record { backend_type = backend_hardware; hardware = some hw; simulator = none }

unfoldable pub backend_from_create : Net → DeviceCreate → Result RequestError BackendSpec
unfolding hardware_from_create parse_hardware_address hardware_spec
backend_from_create net req = elim req.backend [
  | some backend ↦
      if backend.backend_type == backend_hardware
      then elim (hardware_from_create net backend.hardware "") [
        | err e ↦ err e
        | ok hw ↦ ok (hardware_spec hw)
      ]
      else if backend.backend_type == backend_simulator
      then ok (record {
        backend_type = backend_simulator;
        hardware = none;
        simulator = elim backend.simulator [
          | none ↦ none
          | some sim ↦ some (record { image = sim.image })
        ];
      })
      else err (unsupported_backend backend.backend_type)
  | none ↦ elim (parse_hardware_address net req.address) [
    | err e ↦ err e
    | ok hw ↦ ok (hardware_spec hw)
  ]
]

unfoldable pub nats_spec : NatsConfig → NatsSpec
nats_spec nats = record { url = nats.url; subject_prefix = nats.subject_prefix }

unfoldable pub gateway_spec : GatewayConfig → GatewaySpec
gateway_spec gateway = record {
  image = gateway.image;
  host_network = gateway.host_network;
  node_selector = gateway.node_selector;
  host_aliases = [];
}

unfoldable pub spec_from_create : Net → DeviceCreate → Result RequestError Z21DeviceSpec
unfolding backend_from_create nats_spec gateway_spec
spec_from_create net req = elim (backend_from_create net req) [
  | err e ↦ err e
  | ok backend ↦ ok (record {
    backend = backend;
    nats = nats_spec req.nats;
    health_check = record {
      interval = pos 0;
      timeout = pos 0;
      failure_threshold = pos 0;
      success_threshold = pos 0;
    };
    gateway = elim req.gateway [
      | some gateway ↦ gateway_spec gateway
      | none ↦ record { image = ""; host_network = false; node_selector = []; host_aliases = [] }
    ];
    broadcast_flags = elim req.broadcast_flags [
      | some flags ↦ some flags
      | none ↦ some default_broadcast_flags
    ];
    can_address_pool_ref = none;
  })
]

unfoldable pub apply_address :
    Net → Z21DeviceSpec → Option String → Result RequestError Z21DeviceSpec
unfolding parse_hardware_address hardware_spec
apply_address net spec none = ok spec
apply_address net spec (some addr) = elim (parse_hardware_address net addr) [
  | err e ↦ err e
  | ok hw ↦ ok (record spec { backend = hardware_spec hw })
]

unfoldable pub apply_nats : Z21DeviceSpec → Option NatsConfig → Z21DeviceSpec
unfolding nats_spec
apply_nats spec none = spec
apply_nats spec (some nats) = record spec { nats = nats_spec nats }

unfoldable pub apply_gateway : Z21DeviceSpec → Option GatewayConfig → Z21DeviceSpec
unfolding gateway_spec
apply_gateway spec none = spec
apply_gateway spec (some gateway) = record spec { gateway = gateway_spec gateway }

unfoldable pub apply_flags : Z21DeviceSpec → Option ℕ → Z21DeviceSpec
apply_flags spec none = spec
apply_flags spec (some flags) = record spec { broadcast_flags = some flags }

unfoldable pub apply_update : Net → Z21DeviceSpec → DeviceUpdate → Result RequestError Z21DeviceSpec
unfolding apply_address apply_nats apply_gateway apply_flags
apply_update net spec req = elim (apply_address net spec req.address) [
  | err e ↦ err e
  | ok addressed ↦
      ok (
        apply_flags (apply_gateway (apply_nats addressed req.nats) req.gateway) req.broadcast_flags)
]
