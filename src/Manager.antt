-- ===== src/Manager.antt =====
-- The devices of the server, class DeviceManager (src/devices/DeviceManager.h and DeviceManager.cpp).
-- Both maps of the manager hold pointers to the same Device objects, so devices live in a heap. An
-- object is destroyed, and so closed, when the manager drops it. Reading the strings of a USB device
-- and programming a board are the calls of a `Host`. The messages on the consoles are left out.
pub mod Index
pub mod Same
pub mod Adding
pub mod Removing
pub mod Returns
mod Tests
use fpga_device_server.Common.{
  ℕ, zero, suc, ◌+◌, ◌-◌, ◌<◌, ◌≡◌, Bool, true, false, not, ◌&&◌, Option, none, some, List, [], ◌∷◌,
  ◌++◌, map, ◌==◌, if◌then◌else◌,
}
use fpga_device_server.Common.Effect.{Result, ok, err}
use fpga_device_server.Common.Maps.{find, insert, erase, is_some, str_eq, str_lt}
use fpga_device_server.Common.{ltb}
use fpga_device_server.Device.{
  Link, Error, program_failed, AddrPort, RegChange, Device, Method, update_tracked_regs, track_reg,
  set_reg_changed_callback,
}
use fpga_device_server.Device.Handle.{Ftdi, open_device, close_device}

-- device_description_t
pub record Description : Type 0 where
  pub name : List ℕ
  pub serial_prefix : List ℕ
  pub fname_bitfile : List ℕ
  pub watchlist : List AddrPort

-- The calls of the manager's callbacks.
pub data ManagerEvent : Type 0 where
  device_added : List ℕ → ManagerEvent
  device_removed : List ℕ → ManagerEvent
  reg_changed : RegChange → ManagerEvent

-- getUsbDeviceStrings, of which the serial number is used, and DeviceProgrammer: each may throw.
pub record Host (W : Type 0) : Type 0 where
  pub serial_of : ℕ → W → Option (List ℕ) × W
  pub program : ℕ → List ℕ → W → Bool × W

pub record Manager (F W : Type 0) : Type 0 where
  pub world : W
  pub heap : ℕ → Device F
  pub next : ℕ
  pub device_map : List (ℕ × ℕ)
  pub serial_map : List (List ℕ × ℕ)
  pub descriptions : List Description
  pub added_cb : Bool
  pub removed_cb : Bool
  pub reg_change_cb : Bool
  pub events : List ManagerEvent

abbrev pub find_dev : ℕ → List (ℕ × ℕ) → Option ℕ
find_dev = find (◌==◌)

abbrev pub find_serial : List ℕ → List (List ℕ × ℕ) → Option ℕ
find_serial = find str_eq

-- boost's starts_with
abbrev pub starts_with : List ℕ → List ℕ → Bool
starts_with serial [] = true
starts_with [] (c ∷ prefix) = false
starts_with (s ∷ serial) (c ∷ prefix) = s == c && starts_with serial prefix

pub find_description : List ℕ → List Description → Option Description
find_description serial [] = none
find_description serial (d ∷ ds) =
    if starts_with serial d.serial_prefix then some d else find_description serial ds

module _ {F W : Type 0} where
  abbrev pub has_device : Manager F W → ℕ → Bool
  has_device m dev = is_some (find_dev dev m.device_map)

  abbrev pub has_serial : Manager F W → List ℕ → Bool
  has_serial m serial = is_some (find_serial serial m.serial_map)

  -- A pointer to the device, or null.
  abbrev pub get_device : Manager F W → List ℕ → Option ℕ
  get_device m serial = find_serial serial m.serial_map

  pub get_device_list : Manager F W → List (List ℕ)
  get_device_list m = map (λ e. e.0) m.serial_map

  -- A method of the object at `p` leaves another value there.
  abbrev pub put : ℕ → Device F → Manager F W → Manager F W
  put p d m = record m { heap = λ q. if q == p then d else m.heap q }

module _ {F W : Type 0} (link : Link F) (ftdi : Ftdi F W) (host : Host W) where
  pub close_at : ℕ → Manager F W → Manager F W
  close_at p m =
      let (d, w) = close_device ftdi (m.heap p) m.world in put p d (record m { world = w })

  pub open_at : ℕ → Manager F W → Result Error (Unit {0}) × Manager F W
  open_at p m =
      let (r, w) = open_device ftdi (m.heap p) m.world in
      elim r [
        | ok d ↦ (ok tt, put p d (record m { world = w }))
        | err e ↦ (err e, record m { world = w })
      ]

  -- What reprogramDevice does with the result of programming: the board is opened again in any case.
  reopen : Bool → ℕ → Manager F W → Result Error Bool × Manager F W
  reopen programmed p m =
      let (r, m') = open_at p m in
      elim r [
        | err e ↦ (err e, m')
        | ok _ ↦ (if programmed then ok true else err program_failed, m')
      ]

  reprogram_with : List ℕ → ℕ → Manager F W → Result Error Bool × Manager F W
  reprogram_with [] p m = (ok false, m)
  reprogram_with (c ∷ cs) p m =
      let m' = close_at p m in
      let (programmed, w) = host.program (m.heap p).usb_device (c ∷ cs) m'.world in
      reopen programmed p (record m' { world = w })

  -- DeviceManager::reprogramDevice on a device that is there. Without a description or a bitfile
  -- nothing is done.
  pub reprogram_device : ℕ → Manager F W → Result Error Bool × Manager F W
  reprogram_device p m = elim (find_description (m.heap p).name m.descriptions) [
    | none ↦ (ok false, m)
    | some desc ↦ reprogram_with desc.fname_bitfile p m
  ]

  track_all : List AddrPort → Device F → Device F
  track_all [] d = d
  track_all ((addr, port) ∷ rs) d = track_all rs (track_reg addr port true d)

  -- The end of _usbDeviceAdded for a device that is ready.
  register : ℕ → List AddrPort → Manager F W → Manager F W
  register p watchlist m =
      let d = m.heap p in
      put p (set_reg_changed_callback true (track_all watchlist d)) (record m {
        device_map = insert (◌==◌) ltb d.usb_device p m.device_map;
        serial_map = insert str_eq str_lt d.name p m.serial_map;
        events = m.events ++ (if m.added_cb then device_added d.name ∷ [] else []);
      })

  -- Device::Device, before it opens.
  abbrev new_device : ℕ → List ℕ → Device F
  new_device dev serial = record {
    name = serial;
    usb_device = dev;
    ftdi = none;
    tracked_regs = [];
    has_callback = false;
    changes = [];
  }

  -- A device is made, opened, programmed and registered. What is thrown on the way is caught, and a
  -- device that is open is closed again.
  add_device : ℕ → List ℕ → Description → Manager F W → Manager F W
  add_device dev serial desc m =
      let p = m.next in
      let m0 = put p (new_device dev serial) (record m { next = m.next + 1 }) in
      let (opened, m1) = open_at p m0 in
      elim opened [
        | err e ↦ m1
        | ok _ ↦
            let (programmed, m2) = reprogram_device p m1 in
            elim programmed [ err e ↦ close_at p m2 | ok b ↦ register p desc.watchlist m2 ]
      ]

  -- What _usbDeviceAdded does with the serial number.
  with_serial : ℕ → Option (List ℕ) × W → Manager F W → Manager F W
  with_serial dev (none, w) m = record m { world = w }
  with_serial dev (some serial, w) m =
      if has_serial m serial
      then record m { world = w }
      else elim (find_description serial m.descriptions) [
        | none ↦ record m { world = w }
        | some desc ↦ add_device dev serial desc (record m { world = w })
      ]

  -- DeviceManager::_usbDeviceAdded
  pub usb_device_added : ℕ → Manager F W → Manager F W
  usb_device_added dev m =
      if has_device m dev then m else with_serial dev (host.serial_of dev m.world) m

  -- DeviceManager::_removeDevice. The test is on the other callback; one that is not set throws when
  -- it is called, which is caught.
  pub remove_device : List ℕ → Manager F W → Manager F W
  remove_device serial m = elim (find_serial serial m.serial_map) [
    | none ↦ m
    | some p ↦ close_at p (record m {
      events = m.events ++ (if m.added_cb && m.removed_cb then device_removed serial ∷ [] else []);
      serial_map = erase str_eq serial m.serial_map;
      device_map = erase (◌==◌) (m.heap p).usb_device m.device_map;
    })
  ]

  -- DeviceManager::_usbDeviceRemoved
  pub usb_device_removed : ℕ → Manager F W → Manager F W
  usb_device_removed dev m = elim (find_dev dev m.device_map) [
    | none ↦ m
    | some p ↦ remove_device (m.heap p).name m
  ]

  -- A method of the device at `p`. The device's callback passes each change on, if the manager's
  -- callback is set.
  pub call_device : {A : Type 0} → Method link A → ℕ → Manager F W → Result Error A × Manager F W
  call_device method p m =
      let (r, d) = method (record (m.heap p) { changes = [] }) in
      (
        r,
        put p d (record m {
          events = m.events ++ (if m.reg_change_cb then map reg_changed d.changes else []);
        }),
      )

  -- One device of _periodicRegisterUpdates.
  poll_device : ℕ → Manager F W → Manager F W
  poll_device p m =
      let (r, polled) = call_device (update_tracked_regs link) p m in
      elim r [ ok _ ↦ polled | err e ↦ remove_device (polled.heap p).name polled ]

  -- The iterator is advanced before the device is polled, and no entry but that of the device is
  -- erased, so the loop sees the entries that were there at its start.
  poll_devices : List (List ℕ × ℕ) → Manager F W → Manager F W
  poll_devices [] m = m
  poll_devices ((serial, p) ∷ es) m = poll_devices es (poll_device p m)

  -- DeviceManager::_periodicRegisterUpdates
  pub periodic_register_updates : Manager F W → Manager F W
  periodic_register_updates m = poll_devices m.serial_map m
