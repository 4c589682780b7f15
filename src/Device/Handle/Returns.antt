-- ===== src/Device/Handle/Returns.antt =====
-- Opening a board ends (Device::open): it returns or throws one of the exceptions of the code.
use fpga_device_server.Common.{
  ℕ, refl, inl, inr, Bool, Option, none, some, if◌then◌else◌, Bool-cases,
}
use fpga_device_server.Common.Effect.{Result, ok, err, ◌>>=◌, pure}
use fpga_device_server.Device.{Error, new_failed, ftdi_failed, Device}
use fpga_device_server.Device.Handle.{
  Ftdi, open_interface, checked, purge_interface_b, open_handle, open_device, interface_a,
  interface_b, bitmode_syncff,
}
use fpga_device_server.Device.Returns.{Fine, Returns, Returns-bind, ok-Returns, err-Returns}

module _ {F W : Type 0} (ftdi : Ftdi F W) where
  open_interface-Returns : (interface dev : ℕ) → Returns (open_interface ftdi interface dev)
  unfolding open_interface
  open_interface-Returns interface dev w = made (ftdi.new w).0
    where
      made :
          (o : Option F)
          → Fine (
              (elim o as (λ _. Result Error F × W) [
                | none ↦ (err new_failed, (ftdi.new w).1)
                | some f ↦
                    let (opened, f', w') =
                      ftdi.usb_open_dev dev (ftdi.set_interface interface f) (ftdi.new w).1 in
                    if opened then (ok f', w') else (err ftdi_failed, ftdi.free f' w')
              ]).0)
      made none e h = err-Returns _ new_failed e refl refl h
      made (some f) e h =
          elim (Bool-cases
            (ftdi.usb_open_dev dev (ftdi.set_interface interface f) (ftdi.new w).1).0) [
              | inl opened ↦ ok-Returns _ _ e refl (rw opened at h)
              | inr failed ↦ err-Returns _ ftdi_failed e refl refl (rw failed at h)
            ]

  checked-Returns : (call : F → W → Bool × F × W) (f : F) → Returns (checked ftdi call f)
  unfolding checked
  checked-Returns call f w e h = elim (Bool-cases (call f w).0) [
    | inl went ↦ ok-Returns _ _ e refl (rw went at h)
    | inr failed ↦ err-Returns _ ftdi_failed e refl refl (rw failed at h)
  ]

  open_handle-Returns : (dev : ℕ) → Returns (open_handle ftdi dev)
  unfolding open_handle purge_interface_b
  open_handle-Returns dev =
      Returns-bind (open_interface ftdi interface_a dev) _ (open_interface-Returns interface_a dev)
        (λ a.
          Returns-bind (purge_interface_b ftdi dev) _
            (Returns-bind (open_interface ftdi interface_b dev) _
              (open_interface-Returns interface_b dev)
              (λ b.
                Returns-bind (checked ftdi ftdi.usb_purge_buffers b) _
                  (checked-Returns ftdi.usb_purge_buffers b)
                  (λ b' w e h. ok-Returns _ tt e refl h)))
            (λ _.
              Returns-bind (checked ftdi ftdi.usb_reset a) _ (checked-Returns ftdi.usb_reset a)
                (λ a1.
                  Returns-bind (checked ftdi (ftdi.set_bitmode 0 bitmode_syncff) a1) _
                    (checked-Returns (ftdi.set_bitmode 0 bitmode_syncff) a1)
                    (checked-Returns (ftdi.set_latency_timer 1)))))

  pub open_device-Returns : (d : Device F) → Returns (open_device ftdi d)
  unfolding open_device
  open_device-Returns d w = held d.ftdi
    where
      held :
          (o : Option F)
          → Fine (
              (elim o as (λ _. Result Error (Device F) × W) [
                | some f ↦ (ok d, w)
                | none ↦
                    (open_handle ftdi d.usb_device >>= λ f. pure (record d { ftdi = some f })) w
              ]).0)
      held (some f) e h = ok-Returns _ d e refl h
      held none e h =
          Returns-bind (open_handle ftdi d.usb_device) (λ f. pure (record d { ftdi = some f }))
            (open_handle-Returns d.usb_device)
            (λ f w e h. ok-Returns _ (record d { ftdi = some f }) e refl h) w e h
