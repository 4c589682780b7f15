-- ===== src/Manager/Removing.antt =====
-- Removing devices (DeviceManager::_usbDeviceRemoved, _removeDevice) and polling them
-- (_periodicRegisterUpdates): the maps of the manager stay in step.
use fpga_device_server.Common.{
  ℕ, ◌≡◌, refl, ap, ◌∙◌, ◌&&◌, none, List, [], ◌∷◌, ◌++◌, map, ◌==◌, if◌then◌else◌, Option-cases,
  inl, inr,
}
use fpga_device_server.Common.Effect.{Result, ok, err}
use fpga_device_server.Common.Maps.{erase, str_eq, find-erase, str_eq_sound, str_eq_refl}
use fpga_device_server.Device.{Link, Error, Device, Method, update_tracked_regs}
use fpga_device_server.Device.Handle.{Ftdi}
use fpga_device_server.Device.Ids.{KeepsIds, update_tracked_regs-KeepsIds}
use fpga_device_server.Manager.{
  Manager, Host, find_dev, find_serial, close_at, call_device, remove_device, usb_device_removed,
  poll_device, poll_devices, periodic_register_updates, device_removed, reg_changed,
}
use fpga_device_server.Manager.Index.{IsIndex-erase}
use fpga_device_server.Manager.Same.{
  SameIds, SameIds-put, IsManager, IsManager-SameIds, close_at-SameIds,
}

module _ {F W : Type 0} (link : Link F) (ftdi : Ftdi F W) (host : Host W) where
  -- Removing a device by its serial takes it out of both maps, and keeps them in step.
  pub remove_device-IsManager :
      (serial : List ℕ) (m : Manager F W)
      → IsManager m
      → IsManager (remove_device link ftdi host serial m)
        × (find_serial serial (remove_device link ftdi host serial m).serial_map ≡ none)
  unfolding remove_device
  remove_device-IsManager serial m i = elim (Option-cases (find_serial serial m.serial_map)) [
    | inl unknown ↦ rw (unknown, remove_device) (i, unknown)
    | inr (p, e) ↦
        let dropped : Manager F W = record m {
          events =
              m.events ++ (if m.added_cb && m.removed_cb then device_removed serial ∷ [] else []);
          serial_map = erase str_eq serial m.serial_map;
          device_map = erase (◌==◌) (m.heap p).usb_device m.device_map;
        } in
        let left =
          IsIndex-erase (λ q. (m.heap q).name) (λ q. (m.heap q).usb_device) m.device_map
            m.serial_map p m.next serial i e in
        let s = close_at-SameIds link ftdi host p dropped in
        let gone : find_serial serial (erase str_eq serial m.serial_map) ≡ none =
          find-erase str_eq str_eq_sound serial serial m.serial_map
          ∙ rw (str_eq_refl serial) refl in
        rw (e, remove_device)
          (
            IsManager-SameIds dropped (close_at link ftdi host p dropped) s left,
            ap (find_serial serial) s.serials ∙ gone,
          )
  ]

  -- Pulling out a device keeps the maps in step.
  pub usb_device_removed-IsManager :
      (dev : ℕ) (m : Manager F W)
      → IsManager m
      → IsManager (usb_device_removed link ftdi host dev m)
  unfolding usb_device_removed
  usb_device_removed-IsManager dev m i = elim (Option-cases (find_dev dev m.device_map)) [
    | inl unknown ↦ rw (unknown, usb_device_removed) i
    | inr (p, e) ↦ rw (e, usb_device_removed) (remove_device-IsManager (m.heap p).name m i).0
  ]

  -- A method of a device leaves the maps and the ids alone.
  pub call_device-SameIds :
      {A : Type 0} (method : Method link A)
      → KeepsIds link method
      → (p : ℕ) (m : Manager F W) → SameIds m (call_device link ftdi host method p m).1
  unfolding call_device
  call_device-SameIds {A} method keeps p m =
      let (n, u) = keeps (record (m.heap p) { changes = [] }) in SameIds-put p d m quiet n u still
    where
      d : Device F
      d = (method (record (m.heap p) { changes = [] })).1

      quiet : Manager F W
      quiet = record m {
        events = m.events ++ (if m.reg_change_cb then map reg_changed d.changes else []);
      }

      still : SameIds m quiet
      still = record {
        devices = refl;
        serials = refl;
        next = refl;
        names = λ q. refl;
        usbs = λ q. refl;
      }

  poll_device-IsManager :
      (p : ℕ) (m : Manager F W) → IsManager m → IsManager (poll_device link ftdi host p m)
  unfolding poll_device
  poll_device-IsManager p m i =
      polled (call_device link ftdi host (update_tracked_regs link) p m)
        (call_device-SameIds (update_tracked_regs link) (update_tracked_regs-KeepsIds link) p m)
    where
      polled :
          (out : Result Error (Unit {0}) × Manager F W)
          → SameIds m out.1
          → IsManager (elim out.0 as (λ _. Manager F W) [
            | ok _ ↦ out.1
            | err e ↦ remove_device link ftdi host (out.1.heap p).name out.1
          ])
      polled (ok _, n) s = IsManager-SameIds m n s i
      polled (err e, n) s =
          (remove_device-IsManager (n.heap p).name n (IsManager-SameIds m n s i)).0

  poll_devices-IsManager :
      (es : List (List ℕ × ℕ)) (m : Manager F W)
      → IsManager m
      → IsManager (poll_devices link ftdi host es m)
  unfolding poll_devices
  poll_devices-IsManager [] m i = i
  poll_devices-IsManager ((serial, p) ∷ es) m i =
      poll_devices-IsManager es (poll_device link ftdi host p m) (poll_device-IsManager p m i)

  -- A round of polling keeps the maps in step, also when devices fail and are removed in it.
  pub periodic_register_updates-IsManager :
      (m : Manager F W) → IsManager m → IsManager (periodic_register_updates link ftdi host m)
  unfolding periodic_register_updates
  periodic_register_updates-IsManager m i = poll_devices-IsManager m.serial_map m i
