-- ===== src/Ftdi/Open.antt =====
-- Opening and closing a device with libftdi (ftdi_new, ftdi_usb_open_dev, ftdi_usb_close and ftdi_free,
-- src/libftdi/ftdi.c), and what of libusb is held meanwhile. What libusb answers about the device is an
-- argument; the mode for the kernel driver is the one of ftdi_init. Memory and texts are left out.
pub mod Ends
use fpga_device_server.Common.{
  ℕ, ◌+◌, ◌-◌, Bool, true, false, not, ◌&&◌, ◌||◌, Option, none, some, List, [], ◌∷◌, ◌==◌, ltb,
  if◌then◌else◌, get_elem?,
}
use fpga_device_server.Common.Int.{ℤ, pos, eqb_ℤ}
use fpga_device_server.Ftdi.{
  Context, Usb, ChipType, type_am, type_bm, type_2232c, type_r, type_2232h, type_4232h, type_232h,
  type_230x, minus, usb_reset,
}
use fpga_device_server.Ftdi.Baud.{set_baudrate}

-- The fields that are read of the descriptors of libusb. Each interface has its alternate settings, of
-- which each has the packet sizes of its endpoints.
pub record Descriptor : Type 0 where
  pub num_configurations : ℕ
  pub bcd_device : ℕ
  pub serial_index : ℕ

pub record Configuration : Type 0 where
  pub configuration_value : ℕ
  pub interfaces : List (List (List ℕ))

-- What libusb answers: libusb_open, libusb_get_device_descriptor, libusb_get_config_descriptor, the errno of
-- libusb_detach_kernel_driver, libusb_get_configuration, libusb_set_configuration,
-- libusb_claim_interface and libusb_release_interface.
pub record UsbDevice : Type 0 where
  pub opens : Bool
  pub descriptor : Option Descriptor
  pub config : Option Configuration
  pub detach_errno : ℕ
  pub configuration : Option ℕ
  pub configures : Bool
  pub claims : Bool
  pub releases : Bool

-- The contexts of libusb and the open handles, and whether the handle of the context has a claim, which
-- ends with the handle at the latest.
pub record Held : Type 0 where
  pub contexts : ℕ
  pub handles : ℕ
  pub claimed : Bool

abbrev pub Session : Type 0
Session = Context × Usb × Held

-- ftdi_usb_close_internal
unfoldable pub close_internal : Session → Session
close_internal (c, u, h) =
    if c.is_open
    then (record c { is_open = false }, u, record h { handles = h.handles - 1; claimed = false })
    else (c, u, h)

-- ftdi_usb_close
unfoldable pub usb_close : UsbDevice → Session → ℤ × Session
unfolding close_internal
usb_close dev (c, u, h) =
    (if c.is_open && not dev.releases then minus 1 else pos 0, close_internal (c, u, h))

-- ftdi_deinit and ftdi_free: what is held without the context.
unfoldable pub free : Session → Held
unfolding close_internal
free s = let (c, u, h) = close_internal s in record h { contexts = h.contexts - 1 }

-- The guess of the chip: the type that was there if none fits.
unfoldable pub chip_type : Descriptor → ChipType → ChipType
chip_type d old =
    if d.bcd_device == 0x400 || (d.bcd_device == 0x200 && d.serial_index == 0)
    then type_bm
    else if d.bcd_device == 0x200
    then type_am
    else if d.bcd_device == 0x500
    then type_2232c
    else if d.bcd_device == 0x600
    then type_r
    else if d.bcd_device == 0x700
    then type_2232h
    else if d.bcd_device == 0x800
    then type_4232h
    else if d.bcd_device == 0x900
    then type_232h
    else if d.bcd_device == 0x1000
    then type_230x
    else old

default_packet_size : ChipType → ℕ
default_packet_size type_2232h = 512
default_packet_size type_4232h = 512
default_packet_size type_232h = 512
default_packet_size type_230x = 512
default_packet_size chip = 64

first_endpoint : List (List ℕ) → ℕ → ℕ
first_endpoint [] size = size
first_endpoint ([] ∷ settings) size = size
first_endpoint ((endpoint ∷ endpoints) ∷ settings) size = endpoint

-- _ftdi_determine_max_packet_size, after both descriptors have been read.
pub packet_size : ChipType → ℕ → Descriptor → Configuration → ℕ
packet_size chip interface d g =
    let size = default_packet_size chip in
    if ltb 0 d.num_configurations
    then elim (get_elem? g.interfaces interface) [
      | none ↦ size
      | some settings ↦ first_endpoint settings size
    ]
    else size

-- EPERM of the detached driver is told instead.
abbrev pub permission_or : UsbDevice → ℕ → ℤ
permission_or dev code = if dev.detach_errno == 1 then minus 8 else minus code

-- The end of ftdi_usb_open_dev, once the interface is claimed.
unfoldable pub set_up : Descriptor → Configuration → Session → ℤ × Session
unfolding close_internal
set_up d g (c, u, h) =
    let (r, (c1, u1)) = usb_reset (c, u) in
    let chip = chip_type d c1.chip in
    let c2 : Context = record c1 {
      chip = chip;
      max_packet_size = packet_size chip c1.interface d g;
    } in
    let (r', (c3, u3)) = set_baudrate (pos 9600) (c2, u1) in
    if not (eqb_ℤ r (pos 0))
    then (minus 6, close_internal (c1, u1, h))
    else if not (eqb_ℤ r' (pos 0))
    then (minus 7, close_internal (c3, u3, h))
    else (pos 0, (c3, u3, h))

unfoldable pub configure : UsbDevice → Descriptor → Configuration → ℕ → Session → ℤ × Session
unfolding set_up close_internal
configure dev d g current (c, u, h) =
    let differs = ltb 0 d.num_configurations && not (current == g.configuration_value) in
    if differs && not dev.configures
    then (permission_or dev 3, close_internal (c, u, h))
    else if not dev.claims
    then (permission_or dev 5, close_internal (c, u, h))
    else set_up d g (c, u, record h { claimed = true })

-- The early returns of ftdi_usb_open_dev, which leave the handle open.
unfoldable pub describe : UsbDevice → Session → ℤ × Session
unfolding configure
describe dev s = elim dev.descriptor [
  | none ↦ (minus 9, s)
  | some d ↦ elim dev.config [
    | none ↦ (minus 10, s)
    | some g ↦ elim dev.configuration [ none ↦ (minus 12, s) | some n ↦ configure dev d g n s ]
  ]
]

-- ftdi_usb_open_dev
unfoldable pub usb_open_dev : UsbDevice → Session → ℤ × Session
unfolding describe
usb_open_dev dev (c, u, h) =
    if dev.opens
    then describe dev
        (record c { is_open = true }, u, record h { handles = h.handles + 1; claimed = false })
    else (minus 4, (c, u, h))
