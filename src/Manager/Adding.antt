-- ===== src/Manager/Adding.antt =====
-- Plugging in a device (DeviceManager::_usbDeviceAdded): the maps of the manager stay in step.
use mathlib.Core.Path.{ap₂}
use fpga_device_server.Common.{
  ℕ, suc, ◌+◌, ◌<◌, ◌≡◌, refl, ◌∙◌, Bool, true, false, Option, none, some, List, [], ◌∷◌, ◌==◌,
  arith, Bool-cases, Option-cases, inl, inr,
}
use fpga_device_server.Common.Effect.{Result, ok, err}
use fpga_device_server.Common.Maps.{is_some, nat_eq_refl}
use fpga_device_server.Device.{Link, Error, AddrPort, Device, track_reg, set_reg_changed_callback}
use fpga_device_server.Device.Handle.{Ftdi}
use fpga_device_server.Manager.{
  Manager, Description, Host, find_dev, find_serial, has_device, has_serial, put, close_at, open_at,
  reprogram_device, track_all, register, new_device, add_device, with_serial, usb_device_added,
  find_description,
}
use fpga_device_server.Manager.Index.{IsIndex, IsIndex-insert, IsIndex-same, IsIndex-grow}
use fpga_device_server.Manager.Same.{
  SameIds, SameIds-trans, SameIds-put, IndexOf, IndexOf-SameIds, IsManager, IsManager-SameIds,
  SameIds-world, close_at-SameIds, open_at-SameIds, reprogram_device-SameIds,
}

module _ {F W : Type 0} (link : Link F) (ftdi : Ftdi F W) (host : Host W) where
  track_all-ids :
      (rs : List AddrPort) (d : Device F)
      → ((track_all link ftdi host rs d).name ≡ d.name)
        × ((track_all link ftdi host rs d).usb_device ≡ d.usb_device)
  unfolding track_all track_reg
  track_all-ids [] d = (refl, refl)
  track_all-ids ((addr, port) ∷ rs) d =
      let (n, u) = track_all-ids rs (track_reg addr port true d) in (n, u)

  is_none : {A : Type 0} (o : Option A) → is_some o ≡ false → o ≡ none
  is_none none h = refl
  is_none (some x) h = absurd (ground arith)

  -- A device with a name and a USB device that are in neither map is registered.
  register-IsManager :
      (p : ℕ) (watchlist : List AddrPort) (next : ℕ) (m : Manager F W)
      → IsIndex (λ q. (m.heap q).name) (λ q. (m.heap q).usb_device) next m.device_map m.serial_map
      → find_dev (m.heap p).usb_device m.device_map ≡ none
      → find_serial (m.heap p).name m.serial_map ≡ none
      → p < m.next
      → next < suc m.next
      → IsManager (register link ftdi host p watchlist m)
  unfolding register set_reg_changed_callback
  register-IsManager p watchlist next m i new_dev new_serial fits grows =
      let (n, u) = track_all-ids watchlist (m.heap p) in
      let s =
        SameIds-put p
          (set_reg_changed_callback true (track_all link ftdi host watchlist (m.heap p))) m m n u
          (SameIds-world link ftdi host m m.world) in
      IsIndex-same _ _ _ _ m.next _ _ (λ q _. (s.names q, s.usbs q))
        (IsIndex-insert (λ q. (m.heap q).name) (λ q. (m.heap q).usb_device) m.device_map
          m.serial_map p next m.next i new_dev new_serial fits grows)

  -- What is true of a manager and of every one with the same ids.
  unregistered-SameIds :
      (p : ℕ) (m m' : Manager F W)
      → SameIds m m'
      → find_dev (m.heap p).usb_device m.device_map ≡ none
      → find_serial (m.heap p).name m.serial_map ≡ none
      → (find_dev (m'.heap p).usb_device m'.device_map ≡ none)
        × (find_serial (m'.heap p).name m'.serial_map ≡ none)
  unregistered-SameIds p m m' s a b =
      (ap₂ find_dev (s.usbs p) s.devices ∙ a, ap₂ find_serial (s.names p) s.serials ∙ b)

  add_device-IsManager :
      (dev : ℕ) (serial : List ℕ) (desc : Description) (m : Manager F W)
      → find_dev dev m.device_map ≡ none
      → find_serial serial m.serial_map ≡ none
      → IsManager m
      → IsManager (add_device link ftdi host dev serial desc m)
  unfolding add_device
  add_device-IsManager dev serial desc m new_dev new_serial i =
      opened (open_at link ftdi host p m0) (open_at-SameIds link ftdi host p m0)
    where
      p : ℕ
      p = m.next

      m0 : Manager F W
      m0 = put p (new_device link ftdi host dev serial) (record m { next = m.next + 1 })

      here : (p == p) ≡ true
      here = nat_eq_refl p

      -- The new object is beyond every pointer of the maps.
      old_index : IndexOf p m0
      old_index =
          IsIndex-same _ _ _ _ p m.device_map m.serial_map
            (λ q old. let apart : (q == p) ≡ false = ground arith in rw apart (refl, refl)) i

      valid : (n : Manager F W) → SameIds m0 n → IsManager n
      valid n s =
          IsManager-SameIds m0 n s
            (IsIndex-grow _ _ p (m.next + 1) m.device_map m.serial_map (omega arith) old_index)

      fresh :
          (n : Manager F W)
          → SameIds m0 n
          → (find_dev (n.heap p).usb_device n.device_map ≡ none)
            × (find_serial (n.heap p).name n.serial_map ≡ none)
      fresh n s = unregistered-SameIds p m0 n s (rw here new_dev) (rw here new_serial)

      programmed :
          (out : Result Error Bool × Manager F W)
          → SameIds m0 out.1
          → IsManager (elim out.0 as (λ _. Manager F W) [
            | err e ↦ close_at link ftdi host p out.1
            | ok b ↦ register link ftdi host p desc.watchlist out.1
          ])
      programmed (err e, n) s =
          valid (close_at link ftdi host p n)
            (SameIds-trans m0 n _ s (close_at-SameIds link ftdi host p n))
      programmed (ok b, n) s =
          let (a, c) = fresh n s in
          register-IsManager p desc.watchlist p n (IndexOf-SameIds p m0 n s old_index) a c
            (omega (arith, s.next)) (omega (arith, s.next))

      opened :
          (out : Result Error (Unit {0}) × Manager F W)
          → SameIds m0 out.1
          → IsManager (elim out.0 as (λ _. Manager F W) [
            | err e ↦ out.1
            | ok _ ↦
                let (r, m2) = reprogram_device link ftdi host p out.1 in
                elim r as (λ _. Manager F W) [
                  | err e ↦ close_at link ftdi host p m2
                  | ok b ↦ register link ftdi host p desc.watchlist m2
                ]
          ])
      opened (err e, n) s = valid n s
      opened (ok _, n) s =
          programmed (reprogram_device link ftdi host p n)
            (SameIds-trans m0 n _ s (reprogram_device-SameIds link ftdi host p n))

  with_serial-IsManager :
      (dev : ℕ) (answer : Option (List ℕ) × W) (m : Manager F W)
      → find_dev dev m.device_map ≡ none
      → IsManager m
      → IsManager (with_serial link ftdi host dev answer m)
  unfolding with_serial
  with_serial-IsManager dev (none, w) m new_dev i = i
  with_serial-IsManager dev (some serial, w) m new_dev i = elim (Bool-cases (has_serial m serial)) [
    | inl known ↦ rw known i
    | inr new_serial ↦ elim (Option-cases (find_description serial m.descriptions)) [
      | inl unknown ↦ rw (new_serial, with_serial, unknown) i
      | inr (desc, e) ↦
          rw (new_serial, with_serial, e)
            (add_device-IsManager dev serial desc (record m { world = w }) new_dev
              (is_none (find_serial serial m.serial_map) new_serial) i)
    ]
  ]

  -- Plugging in a device keeps the two maps of the manager in step: each device is found by its serial
  -- and by its USB device as the same object, whatever fails on the way.
  pub usb_device_added-IsManager :
      (dev : ℕ) (m : Manager F W) → IsManager m → IsManager (usb_device_added link ftdi host dev m)
  unfolding usb_device_added
  usb_device_added-IsManager dev m i = elim (Bool-cases (has_device m dev)) [
    | inl known ↦ rw known i
    | inr new_dev ↦ rw new_dev (
        with_serial-IsManager dev (host.serial_of dev m.world) m
          (is_none (find_dev dev m.device_map) new_dev) i)
  ]
