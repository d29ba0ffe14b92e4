-- ===== src/Sim/Names.antt =====
-- The CAN registry of the simulator as its clients see it
-- (apps/z21-sim/internal/server/can.go).
use elp.Prelude.{
  ℕ, zero, suc, ◌+◌, ◌%◌, ◌≤◌, ◌<◌, ◌≡◌, ◌≢◌, ◌⊎◌, ◌||◌, refl, ap, none, some, List, [], ◌∷◌, ◌++◌,
  arith, Bool-cases, inl, inr, length, get_elem?, some_inj, subst, ◌∙◌, length-replicate, ltb,
}
use mathlib.Core.List.{append-nil}
use elp.Prelude.Result.{ok, err}
use elp.Prelude.Eq.{◌==◌, nat_comparable}
use elp.Prelude.Assoc.{lookup, lookup-insert_self}
use elp.Sim.Wire.{Bytes, uint16, put_uint16}
use elp.Sim.Platform.{Platform, Message}
use elp.Sim.Frames.{broadcast_many_frame}
use elp.Sim.Device.{
  CanDevice, CanDeviceKind, detector, booster, unset, new_detector_device, new_booster_device,
  or_one, default_detector_occupancy, BuildError, net_id_out_of_range, unsupported_kind,
  parse_can_device_name, encode_can_detector_report, detector_reports, reports_from,
  build_can_device,
}
use elp.Sim.Server.{Server}
use elp.Sim.Can.{
  can_device, handle_detector_poll, polled, register_can_device, notify_can_device_detected,
  broadcast_can_device_detected,
}
use elp.Sim.Broadcast.{broadcast_many}

parse_name-length : (raw : Bytes) → length (parse_can_device_name raw) ≤ length raw
unfolding parse_can_device_name
parse_name-length [] = omega arith
parse_name-length (b ∷ raw) = ground (arith, parse_name-length raw)

module _ (z : Platform) where
  -- The report that port `port` of a detector has the value `value`.
  abbrev pub port_report : CanDevice → ℕ → ℕ → Message
  port_report d port value = record {
    header = z.header_can_detector;
    payload =
        put_uint16 d.net_id
        ++ (put_uint16 d.module_addr
            ++ (port % 256 ∷ z.can_detector_type_occupancy ∷ (put_uint16 value ++ put_uint16 0)));
  }

  reports_length :
      (d : CanDevice) (port : ℕ) (l : List ℕ) → length (reports_from z d port l) ≡ length l
  unfolding reports_from
  reports_length d port [] = refl
  reports_length d port (v ∷ l) = omega (arith, reports_length d (port + 1) l)

  get_elem?-reports_from :
      (d : CanDevice) (i first : ℕ) (l : List ℕ) (value : ℕ)
      → get_elem? l i ≡ some value
      → get_elem? (reports_from z d first l) i ≡ some (port_report d (first + i) value)
  unfolding reports_from encode_can_detector_report
  get_elem?-reports_from d i first [] value h = ground (arith, h)
  get_elem?-reports_from d zero first (v ∷ l) value h =
      let e : v ≡ value = some_inj h in
      let no_offset : first + 0 ≡ first = omega arith in rw (e, no_offset) refl
  get_elem?-reports_from d (suc i) first (v ∷ l) value h =
      let shift : first + 1 + i ≡ first + suc i = omega arith in
      subst (λ n. get_elem? (reports_from z d (first + 1) l) i ≡ some (port_report d n value)) shift
        (get_elem?-reports_from d i (first + 1) l value h)

  polled_one :
      (s : Server) (d : CanDevice)
      → d.kind ≡ detector
      → d.net_id ≢ z.can_detector_poll_all
      → can_device s d.net_id ≡ some d
      → polled z s d.net_id ≡ d ∷ []
  unfolding polled
  polled_one s d k ne there = ground (arith, k, ne, there)

  notify-broadcast :
      (s : Server) (d : CanDevice)
      → d.kind ≡ detector
      → notify_can_device_detected z s d
        ≡ broadcast_many z (register_can_device s d) (detector_reports z d) z.flag_can_detector none
  unfolding notify_can_device_detected broadcast_can_device_detected
  notify-broadcast s d k = simp (k, broadcast_can_device_detected)

  can_device-notify_detector :
      (s : Server) (d : CanDevice)
      → d.kind ≡ detector
      → can_device (notify_can_device_detected z s d).0 d.net_id ≡ some d
  unfolding register_can_device can_device
  can_device-notify_detector s d k =
      ap (λ x. lookup d.net_id x.0.can_devices) (notify-broadcast s d k)
      ∙ ap (λ t. lookup d.net_id t.can_devices)
          (broadcast_many_frame z (register_can_device s d) (detector_reports z d)
            z.flag_can_detector none)
      ∙ lookup-insert_self d.net_id d s.can_devices

  -- When a detector is announced over the control service, the reports that are broadcast to the
  -- subscribers of its flag are one for each port, in the order of the ports, with the network
  -- id and the address of the module, the low 8 bits of the port's index, counted from 0, and the
  -- port's value; and a LAN_CAN_DETECTOR poll of its network id, made of the simulator afterwards,
  -- answers with the same reports.
  pub poll-notify :
      (s : Server) (d : CanDevice) (b1 b2 : ℕ) (rest : Bytes)
      → d.kind ≡ detector
      → uint16 b1 b2 ≡ d.net_id
      → d.net_id ≢ z.can_detector_poll_all
      → (reports : List Message) × (notify_can_device_detected z s d
          ≡ broadcast_many z (register_can_device s d) reports z.flag_can_detector none)
        × (handle_detector_poll z (notify_can_device_detected z s d).0 (0 ∷ b1 ∷ b2 ∷ rest)
            ≡ some reports)
        × (length reports ≡ length d.ports)
        × ((i value : ℕ)
            → get_elem? d.ports i ≡ some value
            → get_elem? reports i ≡ some (port_report d i value))
  unfolding detector_reports handle_detector_poll
  poll-notify s d b1 b2 rest k e ne = (
    detector_reports z d,
    notify-broadcast s d k,
    rw (e) (
        rw
          (polled_one (notify_can_device_detected z s d).0 d k ne
            (can_device-notify_detector s d k))
          (ap some (append-nil (detector_reports z d)))),
    reports_length d 0 d.ports,
    λ i value there.
        subst (λ n. get_elem? (detector_reports z d) i ≡ some (port_report d n value)) (omega arith)
          (get_elem?-reports_from d i 0 d.ports value there),
  )

-- What holds of a device built from the parameters of a control request.
pub record IsBuilt (d : CanDevice) : Type 0 where
  pub net_id_range : (1 ≤ d.net_id) × (d.net_id < 65536)
  pub addressed :
      ((d.kind ≡ detector) × (1 ≤ d.module_addr) × (d.module_addr < 65536) × (1 ≤ length d.ports))
      ⊎ ((d.kind ≡ booster) × (1 ≤ d.output_port) × (d.output_port < 65536))

detector-IsBuilt :
    (n : ℕ) (name : Bytes) (a c : ℕ)
    → 1 ≤ n
    → n < 65536
    → a < 65536
    → IsBuilt (new_detector_device n name a c)
unfolding new_detector_device
detector-IsBuilt n name a c lo hi ha = record {
  net_id_range = (lo, hi);
  addressed = inl (
    refl,
    ground arith,
    ground arith,
    ground (arith, length-replicate (or_one c) default_detector_occupancy),
  );
}

booster-IsBuilt :
    (n : ℕ) (name : Bytes) (o : ℕ)
    → 1 ≤ n
    → n < 65536
    → o < 65536
    → IsBuilt (new_booster_device n name o)
unfolding new_booster_device
booster-IsBuilt n name o lo hi ho = record {
  net_id_range = (lo, hi);
  addressed = inr (refl, ground arith, ground arith);
}

-- BuildCANDevice returns a device exactly for a network id from 1 to 0xFFFF and a kind that is set.
-- The device then has that network id and name and the requested kind; a detector has a 16-bit
-- module address of at least 1 and at least one port, a booster a 16-bit output port of at
-- least 1.
pub build_can_device_total :
    (net_id : ℕ) (kind : CanDeviceKind) (name : Bytes) (addr count out : ℕ)
    → ((d : CanDevice) × (build_can_device net_id kind name addr count out ≡ ok d)
        × (d.net_id ≡ net_id)
        × (d.kind ≡ kind)
        × (d.name ≡ name)
        × IsBuilt d)
      ⊎ ((e : BuildError) × (build_can_device net_id kind name addr count out ≡ err e)
          × ((net_id ≡ 0) ⊎ ((65536 ≤ net_id) ⊎ (kind ≡ unset))))
unfolding build_can_device new_detector_device new_booster_device
build_can_device_total net_id unset name addr count out =
    elim (Bool-cases (net_id == 0 || ltb 0xFFFF net_id)) [
      | inl bad ↦ inr (net_id_out_of_range, rw bad, ground arith)
      | inr good ↦ inr (unsupported_kind, rw good, inr (inr refl))
    ]
build_can_device_total net_id detector name addr count out =
    elim (Bool-cases (net_id == 0 || ltb 0xFFFF net_id)) [
      | inl bad ↦ inr (net_id_out_of_range, rw bad, ground arith)
      | inr good ↦ inl (
        new_detector_device (net_id % 65536) name (addr % 65536) (count % 65536),
        rw good,
        ground arith,
        refl,
        refl,
        detector-IsBuilt (net_id % 65536) name (addr % 65536) (count % 65536) (ground arith)
            (omega arith) (omega arith),
      )
    ]
build_can_device_total net_id booster name addr count out =
    elim (Bool-cases (net_id == 0 || ltb 0xFFFF net_id)) [
      | inl bad ↦ inr (net_id_out_of_range, rw bad, ground arith)
      | inr good ↦ inl (
        new_booster_device (net_id % 65536) name (out % 65536),
        rw good,
        ground arith,
        refl,
        refl,
        booster-IsBuilt (net_id % 65536) name (out % 65536) (ground arith) (omega arith)
            (omega arith),
      )
    ]
