-- ===== src/Manager/Returns.antt =====
-- Programming a device ends (DeviceManager::reprogramDevice): it returns or throws one of the exceptions of
-- the code.
use fpga_device_server.Common.{
  ℕ, refl, Bool, true, false, Option, none, some, List, [], ◌∷◌, if◌then◌else◌,
}
use fpga_device_server.Common.Effect.{Result, ok, err}
use fpga_device_server.Device.{Link, Method, Error, program_failed, Device}
use fpga_device_server.Device.Handle.{Ftdi, open_device}
use fpga_device_server.Device.Handle.Returns.{open_device-Returns}
use fpga_device_server.Device.Returns.{Fine, Returns, ok-Returns, err-Returns}
use fpga_device_server.Manager.{
  Manager, Host, Description, put, open_at, call_device, reopen, reprogram_with, reprogram_device,
  find_description,
}

module _ {F W : Type 0} (link : Link F) (ftdi : Ftdi F W) (host : Host W) where
  pub call_device-Returns :
      {A : Type 0} (method : Method link A) (p : ℕ)
      → Returns method
      → Returns (call_device link ftdi host method p)
  unfolding call_device
  call_device-Returns method p returns m = returns (record (m.heap p) { changes = [] })

  open_at-Returns : (p : ℕ) → Returns (open_at link ftdi host p)
  unfolding open_at
  open_at-Returns p m =
      opened (open_device ftdi (m.heap p) m.world) (open_device-Returns ftdi (m.heap p) m.world)
    where
      opened :
          (out : Result Error (Device F) × W)
          → Fine out.0
          → Fine (
              (elim out.0 as (λ _. Result Error (Unit {0}) × Manager F W) [
                | ok d ↦ (ok tt, put p d (record m { world = out.1 }))
                | err e ↦ (err e, record m { world = out.1 })
              ]).0)
      opened (ok d, w) fine e h = ok-Returns _ tt e refl h
      opened (err x, w) fine e h = err-Returns _ x e (fine x refl) refl h

  reopen-Returns : (programmed : Bool) (p : ℕ) → Returns (reopen link ftdi host programmed p)
  unfolding reopen
  reopen-Returns programmed p m =
      reopened programmed (open_at link ftdi host p m) (open_at-Returns p m)
    where
      reopened :
          (programmed : Bool) (out : Result Error (Unit {0}) × Manager F W)
          → Fine out.0
          → Fine (
              (elim out.0 as (λ _. Result Error Bool × Manager F W) [
                | err e ↦ (err e, out.1)
                | ok _ ↦ (if programmed then ok true else err Error.program_failed, out.1)
              ]).0)
      reopened true (ok u, m') fine e h = ok-Returns _ true e refl h
      reopened false (ok u, m') fine e h = err-Returns _ program_failed e refl refl h
      reopened programmed (err x, m') fine e h = err-Returns _ x e (fine x refl) refl h

  reprogram_with-Returns :
      (fname : List ℕ) (p : ℕ) → Returns (reprogram_with link ftdi host fname p)
  unfolding reprogram_with
  reprogram_with-Returns [] p m e h = ok-Returns _ false e refl h
  reprogram_with-Returns (c ∷ cs) p m e h = reopen-Returns _ p _ e h

  pub reprogram_device-Returns : (p : ℕ) → Returns (reprogram_device link ftdi host p)
  unfolding reprogram_device
  reprogram_device-Returns p m = described (find_description (m.heap p).name m.descriptions)
    where
      described :
          (o : Option Description)
          → Fine (
              (elim o as (λ _. Result Error Bool × Manager F W) [
                | none ↦ (ok false, m)
                | some desc ↦ reprogram_with link ftdi host desc.fname_bitfile p m
              ]).0)
      described none e h = ok-Returns _ false e refl h
      described (some desc) e h = reprogram_with-Returns desc.fname_bitfile p m e h
