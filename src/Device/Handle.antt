-- ===== src/Device/Handle.antt =====
-- Opening and closing a board (Device::open, Device::close): which handles of libftdi are held on
-- every way out. A handle is counted when ftdi_new gives it until ftdi_free takes it, and a claim on
-- the USB device from a successful open to the close.
pub mod Release
pub mod Returns
use fpga_device_server.Common.{
  ℕ, ◌+◌, ◌-◌, ◌≡◌, Bool, true, false, Option, none, some, if◌then◌else◌,
}
use fpga_device_server.Common.Effect.{Result, ok, err, Action, pure, throw, or_throw, ◌>>=◌, ◌>>◌}
use fpga_device_server.Device.{Error, new_failed, ftdi_failed, Device}

-- libftdi's calls on a handle `F`, over the state `W` of the library and the bus. A call that can fail
-- answers whether it went well.
pub record Ftdi (F W : Type 0) : Type 0 where
  pub new : W → Option F × W
  pub set_interface : ℕ → F → F
  pub usb_open_dev : ℕ → F → W → Bool × F × W
  pub usb_purge_buffers : F → W → Bool × F × W
  pub usb_reset : F → W → Bool × F × W
  pub set_bitmode : ℕ → ℕ → F → W → Bool × F × W
  pub set_latency_timer : ℕ → F → W → Bool × F × W
  pub usb_close : F → W → F × W
  pub free : F → W → W
  pub handles : W → ℕ
  pub claims : W → ℕ
  pub new_counts :
      (w : W)
      → (handles (new w).1 ≡ handles w + (elim (new w).0 [ none ↦ 0 | some f ↦ 1 ]))
        × (claims (new w).1 ≡ claims w)
  pub open_counts :
      (dev : ℕ) (f : F) (w : W)
      → (handles (usb_open_dev dev f w).2 ≡ handles w)
        × (claims (usb_open_dev dev f w).2 ≡ claims w + (if (usb_open_dev dev f w).0 then 1 else 0))
  pub purge_counts :
      (f : F) (w : W)
      → (handles (usb_purge_buffers f w).2 ≡ handles w)
        × (claims (usb_purge_buffers f w).2 ≡ claims w)
  pub reset_counts :
      (f : F) (w : W)
      → (handles (usb_reset f w).2 ≡ handles w) × (claims (usb_reset f w).2 ≡ claims w)
  pub bitmode_counts :
      (mask mode : ℕ) (f : F) (w : W)
      → (handles (set_bitmode mask mode f w).2 ≡ handles w)
        × (claims (set_bitmode mask mode f w).2 ≡ claims w)
  pub latency_counts :
      (ms : ℕ) (f : F) (w : W)
      → (handles (set_latency_timer ms f w).2 ≡ handles w)
        × (claims (set_latency_timer ms f w).2 ≡ claims w)
  pub close_counts :
      (f : F) (w : W)
      → (handles (usb_close f w).1 ≡ handles w) × (claims (usb_close f w).1 ≡ claims w - 1)
  pub free_counts :
      (f : F) (w : W) → (handles (free f w) ≡ handles w - 1) × (claims (free f w) ≡ claims w)

-- INTERFACE_A and INTERFACE_B, BITMODE_RESET and BITMODE_SYNCFF
abbrev pub interface_a : ℕ
interface_a = 1

abbrev pub interface_b : ℕ
interface_b = 2

abbrev bitmode_reset : ℕ
bitmode_reset = 0

abbrev bitmode_syncff : ℕ
bitmode_syncff = 0x40

module _ {F W : Type 0} (ftdi : Ftdi F W) where
  abbrev pub Opening : Type 0 → Type 0
  Opening A = Action Error W A

  -- ftdi_usb_close and ftdi_free
  release : F → W → W
  release f w = let (f', w') = ftdi.usb_close f w in ftdi.free f' w'

  -- ftdi_new, ftdi_set_interface and ftdi_usb_open_dev; the handle is freed if the device does not open.
  pub open_interface : ℕ → ℕ → Opening F
  open_interface interface dev w = elim (ftdi.new w).0 [
    | none ↦ (err new_failed, (ftdi.new w).1)
    | some f ↦
        let (opened, f', w') =
          ftdi.usb_open_dev dev (ftdi.set_interface interface f) (ftdi.new w).1 in
        if opened then (ok f', w') else (err ftdi_failed, ftdi.free f' w')
  ]

  -- A call on an open handle, which is released if the call fails.
  checked : (F → W → Bool × F × W) → F → Opening F
  checked call f w =
      let (went, f', w') = call f w in
      if went then (ok f', w') else (err ftdi_failed, release f' w')

  -- Interface B is opened to purge its buffers, and closed.
  pub purge_interface_b : ℕ → Opening (Unit {0})
  purge_interface_b dev = open_interface interface_b dev >>= λ b.
      checked ftdi.usb_purge_buffers b >>= λ b'. (λ w. (ok tt, release b' w))

  -- Device::open on a device that is not open: the new handle.
  pub open_handle : ℕ → Opening F
  open_handle dev = open_interface interface_a dev >>= λ a.
      purge_interface_b dev
      >> (checked ftdi.usb_reset a >>= λ a1.
          checked (ftdi.set_bitmode 0 bitmode_syncff) a1 >>= λ a2.
          checked (ftdi.set_latency_timer 1) a2)

  pub open_device : Device F → W → Result Error (Device F) × W
  open_device d w = elim d.ftdi [
    | some f ↦ (ok d, w)
    | none ↦ (open_handle d.usb_device >>= λ f. pure (record d { ftdi = some f })) w
  ]

  -- Device::close, which ~Device calls too.
  pub close_device : Device F → W → Device F × W
  close_device d w = elim d.ftdi [
    | none ↦ (d, w)
    | some f ↦
        let (_, f', w') = ftdi.set_bitmode 0xfb bitmode_reset f w in
        (record d { ftdi = none }, release f' w')
  ]
