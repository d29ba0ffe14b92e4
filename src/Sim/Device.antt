-- ===== src/Sim/Device.antt =====
-- The simulated CAN devices of apps/z21-sim/internal/server/can.go, and what they encode to.
use elp.Prelude.{ℕ, ◌+◌, ◌%◌, ◌||◌, List, [], ◌∷◌, ◌++◌, ltb, if◌then◌else◌, replicate}
use elp.Prelude.Result.{Result, ok, err}
use elp.Prelude.Eq.{◌==◌, nat_comparable}
use elp.Sim.Wire.{Bytes, put_uint16, copy}
use elp.Sim.Platform.{Platform, Message}

-- `unset` is the zero value of the Go type.
pub data CanDeviceKind : Type 0 where
  unset detector booster : CanDeviceKind

pub record CanDevice : Type 0 where
  pub kind : CanDeviceKind
  pub net_id : ℕ
  pub name : Bytes
  pub module_addr : ℕ
  pub ports : List ℕ
  pub output_port : ℕ
  pub state : ℕ
  pub vcc_mv : ℕ
  pub current_ma : ℕ

abbrev pub default_detector_occupancy : ℕ
default_detector_occupancy = 0x0100

abbrev pub default_booster_vcc_mv : ℕ
default_booster_vcc_mv = 10000

abbrev pub default_booster_current_ma : ℕ
default_booster_current_ma = 100

abbrev pub or_one : ℕ → ℕ
or_one n = if n == 0 then 1 else n

unfoldable pub new_detector_device : ℕ → Bytes → ℕ → ℕ → CanDevice
new_detector_device net_id name module_addr port_count = record {
  kind = detector;
  net_id = net_id;
  name = name;
  module_addr = or_one module_addr;
  ports = replicate (or_one port_count) default_detector_occupancy;
  output_port = 0;
  state = 0;
  vcc_mv = 0;
  current_ma = 0;
}

unfoldable pub new_booster_device : ℕ → Bytes → ℕ → CanDevice
new_booster_device net_id name output_port = record {
  kind = booster;
  net_id = net_id;
  name = name;
  module_addr = 0;
  ports = [];
  output_port = or_one output_port;
  state = 0;
  vcc_mv = default_booster_vcc_mv;
  current_ma = default_booster_current_ma;
}

pub data BuildError : Type 0 where
  net_id_out_of_range unsupported_kind : BuildError

-- The parameters are `uint32`s; `uint16(…)` keeps the low 16 bits.
unfoldable pub build_can_device :
    ℕ → CanDeviceKind → Bytes → ℕ → ℕ → ℕ → Result BuildError CanDevice
unfolding new_detector_device new_booster_device
build_can_device net_id kind name module_addr port_count output_port =
    if net_id == 0 || ltb 0xFFFF net_id then err net_id_out_of_range else elim kind [
      | detector ↦
          ok (new_detector_device (net_id % 65536) name (module_addr % 65536) (port_count % 65536))
      | booster ↦ ok (new_booster_device (net_id % 65536) name (output_port % 65536))
      | unset ↦ err unsupported_kind
    ]

-- The string up to the first zero byte.
unfoldable pub parse_can_device_name : Bytes → Bytes
parse_can_device_name [] = []
parse_can_device_name (b ∷ raw) = if b == 0 then [] else b ∷ parse_can_device_name raw

pub record CanDetectorReport : Type 0 where
  pub net_id : ℕ
  pub addr : ℕ
  pub port : ℕ
  pub type : ℕ
  pub value1 : ℕ
  pub value2 : ℕ

unfoldable pub encode_can_detector_report : CanDetectorReport → Bytes
unfolding put_uint16
encode_can_detector_report r =
    put_uint16 r.net_id
    ++ (put_uint16 r.addr ++ (r.port ∷ r.type ∷ (put_uint16 r.value1 ++ put_uint16 r.value2)))

module _ (z : Platform) where
  unfoldable pub encode_can_device_description : ℕ → Bytes → Bytes
  unfolding put_uint16 copy
  encode_can_device_description net_id name =
      put_uint16 net_id ++ copy (replicate z.can_booster_name_len 0) name

  -- The loop of `detectorReports` from port `port` on; `uint8(port)` keeps the low 8 bits.
  unfoldable pub reports_from : CanDevice → ℕ → List ℕ → List Message
  unfolding encode_can_detector_report
  reports_from device port [] = []
  reports_from device port (value ∷ rest) =
      record {
        header = z.header_can_detector;
        payload = encode_can_detector_report (record {
          net_id = device.net_id;
          addr = device.module_addr;
          port = port % 256;
          type = z.can_detector_type_occupancy;
          value1 = value;
          value2 = 0;
        });
      }
      ∷ reports_from device (port + 1) rest

  unfoldable pub detector_reports : CanDevice → List Message
  unfolding reports_from
  detector_reports device = reports_from device 0 device.ports

  unfoldable pub booster_system_state_message : CanDevice → Message
  unfolding put_uint16
  booster_system_state_message device = record {
    header = z.header_can_booster_system_state;
    payload =
        put_uint16 device.net_id
        ++ (put_uint16 device.output_port
            ++ (put_uint16 device.state
                ++ (put_uint16 device.vcc_mv ++ put_uint16 device.current_ma)));
  }
