-- ===== src/Manager/Same.antt =====
-- What opening, closing and programming a device (DeviceManager::reprogramDevice) leave alone: the maps
-- of the manager, and the name and USB device of each object.
use fpga_device_server.Common.{
  ℕ, ◌≡◌, refl, sym, ap, ◌∙◌, Bool, true, List, [], ◌∷◌, ◌==◌, ==_iff, if◌then◌else◌, Bool-cases,
  Option-cases, inl, inr,
}
use fpga_device_server.Common.Effect.{Result, ok, err}
use fpga_device_server.Device.{Link, Error, Device}
use fpga_device_server.Device.Handle.{Ftdi, open_device, close_device}
use fpga_device_server.Device.Handle.Release.{close_device-ids, open_device-ids}
use fpga_device_server.Manager.{
  Manager, Host, put, close_at, open_at, reopen, reprogram_with, reprogram_device, find_description,
}
use fpga_device_server.Manager.Index.{IsIndex, IsIndex-same}

module _ {F W : Type 0} where
  abbrev pub IsManager : Manager F W → Type 0
  IsManager m =
      IsIndex (λ q. (m.heap q).name) (λ q. (m.heap q).usb_device) m.next m.device_map m.serial_map

  -- Nothing has changed but the state of objects and of the world, and the events.
  pub record SameIds (m m' : Manager F W) : Type 0 where
    pub devices : m'.device_map ≡ m.device_map
    pub serials : m'.serial_map ≡ m.serial_map
    pub next : m'.next ≡ m.next
    pub names : (q : ℕ) → (m'.heap q).name ≡ (m.heap q).name
    pub usbs : (q : ℕ) → (m'.heap q).usb_device ≡ (m.heap q).usb_device

  pub SameIds-trans : (l m n : Manager F W) → SameIds l m → SameIds m n → SameIds l n
  SameIds-trans l m n s t = record {
    devices = t.devices ∙ s.devices;
    serials = t.serials ∙ s.serials;
    next = t.next ∙ s.next;
    names = λ q. t.names q ∙ s.names q;
    usbs = λ q. t.usbs q ∙ s.usbs q;
  }

  -- Another value of the same device at `p`, and anything else that the record leaves open.
  pub SameIds-put :
      (p : ℕ) (d : Device F) (m n : Manager F W)
      → d.name ≡ (m.heap p).name
      → d.usb_device ≡ (m.heap p).usb_device
      → SameIds m n
      → SameIds m (put p d n)
  SameIds-put p d m n same_name same_usb s = record {
    devices = s.devices;
    serials = s.serials;
    next = s.next;
    names = λ q. at_name q;
    usbs = λ q. at_usb q;
  }
    where
      at_name : (q : ℕ) → ((put p d n).heap q).name ≡ (m.heap q).name
      at_name q = elim (Bool-cases (q == p)) [
        | inl here ↦ rw here (same_name ∙ ap (λ x. (m.heap x).name) (sym ((==_iff q p).0 here)))
        | inr there ↦ rw there (s.names q)
      ]

      at_usb : (q : ℕ) → ((put p d n).heap q).usb_device ≡ (m.heap q).usb_device
      at_usb q = elim (Bool-cases (q == p)) [
        | inl here ↦
            rw here (same_usb ∙ ap (λ x. (m.heap x).usb_device) (sym ((==_iff q p).0 here)))
        | inr there ↦ rw there (s.usbs q)
      ]

  -- The index of a manager, for pointers below `next`.
  abbrev pub IndexOf : ℕ → Manager F W → Type 0
  IndexOf next m =
      IsIndex (λ q. (m.heap q).name) (λ q. (m.heap q).usb_device) next m.device_map m.serial_map

  pub IndexOf-SameIds :
      (next : ℕ) (m m' : Manager F W) → SameIds m m' → IndexOf next m → IndexOf next m'
  IndexOf-SameIds next m m' s i =
      rw (s.devices, s.serials)
        (IsIndex-same _ _ _ _ next m.device_map m.serial_map (λ q _. (s.names q, s.usbs q)) i)

  pub IsManager-SameIds : (m m' : Manager F W) → SameIds m m' → IsManager m → IsManager m'
  IsManager-SameIds m m' s i = rw (s.next) (IndexOf-SameIds m.next m m' s i)

module _ {F W : Type 0} (link : Link F) (ftdi : Ftdi F W) (host : Host W) where
  -- A move of the world alone.
  pub SameIds-world : (m : Manager F W) (w : W) → SameIds m (record m { world = w })
  SameIds-world m w = record {
    devices = refl;
    serials = refl;
    next = refl;
    names = λ q. refl;
    usbs = λ q. refl;
  }

  pub close_at-SameIds : (p : ℕ) (m : Manager F W) → SameIds m (close_at link ftdi host p m)
  unfolding close_at
  close_at-SameIds p m =
      let (n, u) = close_device-ids ftdi (m.heap p) m.world in
      SameIds-put p (close_device ftdi (m.heap p) m.world).0 m _ n u
        (SameIds-world m (close_device ftdi (m.heap p) m.world).1)

  -- Opening leaves the ids alone, whether it succeeds or throws.
  pub open_at-SameIds : (p : ℕ) (m : Manager F W) → SameIds m (open_at link ftdi host p m).1
  unfolding open_at
  open_at-SameIds p m =
      opened (open_device ftdi (m.heap p) m.world) (open_device-ids ftdi (m.heap p) m.world)
    where
      opened :
          (out : Result Error (Device F) × W)
          → ((d : Device F)
              → out.0 ≡ ok d
              → (d.name ≡ (m.heap p).name) × (d.usb_device ≡ (m.heap p).usb_device))
          → SameIds m (
              (elim out.0 as (λ _. Result Error (Unit {0}) × Manager F W) [
                | ok d ↦ (ok tt, put p d (record m { world = out.1 }))
                | err e ↦ (err e, record m { world = out.1 })
              ]).1)
      opened (ok d, w) same =
          SameIds-put p d m _ (same d refl).0 (same d refl).1 (SameIds-world m w)
      opened (err e, w) same = SameIds-world m w

  reopen-SameIds :
      (programmed : Bool) (p : ℕ) (m : Manager F W)
      → SameIds m (reopen link ftdi host programmed p m).1
  unfolding reopen
  reopen-SameIds programmed p m = reopened (open_at link ftdi host p m) (open_at-SameIds p m)
    where
      reopened :
          (out : Result Error (Unit {0}) × Manager F W)
          → SameIds m out.1
          → SameIds m (
              (elim out.0 as (λ _. Result Error Bool × Manager F W) [
                | err e ↦ (err e, out.1)
                | ok _ ↦ (if programmed then ok true else err Error.program_failed, out.1)
              ]).1)
      reopened (ok _, m') s = s
      reopened (err e, m') s = s

  reprogram_with-SameIds :
      (fname : List ℕ) (p : ℕ) (m : Manager F W)
      → SameIds m (reprogram_with link ftdi host fname p m).1
  unfolding reprogram_with
  reprogram_with-SameIds [] p m = SameIds-world m m.world
  reprogram_with-SameIds (c ∷ cs) p m =
      let m' = close_at link ftdi host p m in
      let (programmed, w) = host.program (m.heap p).usb_device (c ∷ cs) m'.world in
      SameIds-trans m m' _ (close_at-SameIds p m) (
        SameIds-trans m' (record m' { world = w }) _ (SameIds-world m' w)
          (reopen-SameIds programmed p (record m' { world = w })))

  pub reprogram_device-SameIds :
      (p : ℕ) (m : Manager F W) → SameIds m (reprogram_device link ftdi host p m).1
  unfolding reprogram_device
  reprogram_device-SameIds p m =
      elim (Option-cases (find_description (m.heap p).name m.descriptions)) [
        | inl unknown ↦ rw (unknown, reprogram_device) (SameIds-world m m.world)
        | inr (desc, e) ↦ rw (e, reprogram_device) (reprogram_with-SameIds desc.fname_bitfile p m)
      ]
