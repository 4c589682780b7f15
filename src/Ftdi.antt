-- ===== src/Ftdi.antt =====
-- The fork of libftdi in the tree (src/libftdi/ftdi.c, ftdi.h, ftdi_i.h): the context of a chip and the
-- requests that go to it over the control endpoint. A context is always there, so the tests for a
-- null pointer are left out; `is_open` says that it has a USB device. Texts of errors are left out.
pub mod Transfer
pub mod Baud
pub mod Open
mod Tests
use fpga_device_server.Common.{
  ℕ, zero, suc, ◌+◌, ◌-◌, ◌*◌, ◌^◌, bit_or, Bool, true, false, not, ◌||◌, ◌&&◌, Option, none, some,
  List, [], ◌∷◌, ◌++◌, ◌==◌, ltb, if◌then◌else◌, length, get_or,
}
use fpga_device_server.Common.Int.{ℤ, pos, negsuc, ltb_ℤ}

-- enum ftdi_chip_type
pub data ChipType : Type 0 where
  type_am type_bm type_2232c type_r type_2232h type_4232h type_232h type_230x : ChipType

-- enum ftdi_interface
pub data Interface : Type 0 where
  interface_any interface_a interface_b interface_c interface_d : Interface

abbrev pub interface_code : Interface → ℕ
interface_code interface_any = 0
interface_code interface_a = 1
interface_code interface_b = 2
interface_code interface_c = 3
interface_code interface_d = 4

-- struct ftdi_context
pub record Context : Type 0 where
  pub is_open : Bool
  pub chip : ChipType
  pub baudrate : ℤ
  pub bitbang_enabled : Bool
  pub bitbang_mode : ℕ
  pub interface : ℕ
  pub index : ℕ
  pub in_ep : ℕ
  pub out_ep : ℕ
  pub max_packet_size : ℕ
  pub readbuffer : List ℕ
  pub readbuffer_offset : ℕ
  pub readbuffer_remaining : ℕ
  pub readbuffer_chunksize : ℕ
  pub writebuffer_chunksize : ℕ

-- One request: bRequest, wValue and wIndex.
pub record Control : Type 0 where
  pub request : ℕ
  pub value : ℕ
  pub windex : ℕ

-- What an IN transfer of bulk data brings.
pub data BulkRead : Type 0 where
  bulk_failed : ℕ → BulkRead
  received : List ℕ → BulkRead

-- libusb and the chip: the requests made, the bytes written, and the answers to come. A control request
-- is answered by bytes, or by an error; a bulk write by the number of bytes taken, or by an error.
pub record Usb : Type 0 where
  pub controls : List Control
  pub control_answers : List (Option (List ℕ))
  pub sent : List ℕ
  pub write_answers : List (Option ℕ)
  pub incoming : List BulkRead

abbrev pub next_or : {A : Type 0} → A → List A → A
next_or a [] = a
next_or a (x ∷ xs) = x

abbrev pub later : {A : Type 0} → List A → List A
later [] = []
later (x ∷ xs) = xs

-- libusb_control_transfer
pub control_transfer : ℕ → ℕ → ℕ → Usb → Option (List ℕ) × Usb
control_transfer request value windex u = (
  next_or (some []) u.control_answers,
  record u {
    controls = u.controls ++ record { request = request; value = value; windex = windex } ∷ [];
    control_answers = later u.control_answers;
  },
)

-- -666, -1, -2, -3
abbrev pub minus : ℕ → ℤ
minus zero = pos 0
minus (suc n) = negsuc n

abbrev pub Chip : Type 0
Chip = Context × Usb

-- The pattern of every request that sends a value: without a device, or if the transfer fails, an error
-- code, and else a change of the context.
pub out_request : ℕ → ℕ → ℕ → ℕ → ℕ → (Context → Context) → Chip → ℤ × Chip
out_request unavailable failed request value windex update (c, u) =
    let (answer, u') = control_transfer request value windex u in
    if not c.is_open
    then (minus unavailable, (c, u))
    else elim answer [ none ↦ (minus failed, (c, u')) | some bs ↦ (pos 0, (update c, u')) ]

-- A request that reads just `size` bytes.
in_request : ℕ → ℕ → ℕ → Chip → (ℤ × List ℕ) × Chip
in_request request size windex (c, u) =
    let (answer, u') = control_transfer request 0 windex u in
    if not c.is_open then ((minus 2, []), (c, u)) else elim answer [
      | none ↦ ((minus 1, []), (c, u'))
      | some bs ↦ if length bs == size then ((pos 0, bs), (c, u')) else ((minus 1, []), (c, u'))
    ]

abbrev drop_buffered : Context → Context
drop_buffered c = record c { readbuffer_offset = 0; readbuffer_remaining = 0 }

abbrev same : Context → Context
same c = c

-- ftdi_set_interface
pub set_interface : Interface → Context → ℤ × Context
set_interface i c =
    let check = if interface_code i == 0 then 1 else interface_code i in
    if c.is_open && not (c.index == check) then (minus 3, c) else (pos 0, endpoints i)
  where
    endpoints : Interface → Context
    endpoints interface_any = record c { interface = 0; index = 1; in_ep = 0x02; out_ep = 0x81 }
    endpoints interface_a = record c { interface = 0; index = 1; in_ep = 0x02; out_ep = 0x81 }
    endpoints interface_b = record c { interface = 1; index = 2; in_ep = 0x04; out_ep = 0x83 }
    endpoints interface_c = record c { interface = 2; index = 3; in_ep = 0x06; out_ep = 0x85 }
    endpoints interface_d = record c { interface = 3; index = 4; in_ep = 0x08; out_ep = 0x87 }

-- ftdi_usb_reset, and the purges. SIO_RESET_REQUEST is 0.
pub usb_reset : Chip → ℤ × Chip
usb_reset (c, u) = out_request 2 1 0 0 c.index drop_buffered (c, u)

pub usb_purge_rx_buffer : Chip → ℤ × Chip
usb_purge_rx_buffer (c, u) = out_request 2 1 0 1 c.index drop_buffered (c, u)

pub usb_purge_tx_buffer : Chip → ℤ × Chip
usb_purge_tx_buffer (c, u) = out_request 2 1 0 2 c.index same (c, u)

pub usb_purge_buffers : Chip → ℤ × Chip
usb_purge_buffers (c, u) =
    let (rx, s) = usb_purge_rx_buffer (c, u) in
    let (tx, s') = usb_purge_tx_buffer s in
    if not c.is_open
    then (minus 3, (c, u))
    else if ltb_ℤ rx (pos 0)
    then (minus 1, s)
    else if ltb_ℤ tx (pos 0)
    then (minus 2, s')
    else (pos 0, s')

-- ftdi_set_bitmode and ftdi_disable_bitbang. SIO_SET_BITMODE_REQUEST is 0x0b.
pub set_bitmode : ℕ → ℕ → Chip → ℤ × Chip
set_bitmode bitmask mode (c, u) =
    out_request 2 1 0x0b (bit_or bitmask (mode * 2 ^ 8)) c.index
      (λ c. record c { bitbang_mode = mode; bitbang_enabled = not (mode == 0) }) (c, u)

pub disable_bitbang : Chip → ℤ × Chip
disable_bitbang (c, u) =
    out_request 2 1 0x0b 0 c.index (λ c. record c { bitbang_enabled = false }) (c, u)

-- ftdi_read_pins
pub read_pins : Chip → (ℤ × List ℕ) × Chip
read_pins (c, u) = in_request 0x0c 1 c.index (c, u)

-- ftdi_set_latency_timer and ftdi_get_latency_timer
pub set_latency_timer : ℕ → Chip → ℤ × Chip
set_latency_timer latency (c, u) =
    let out = out_request 3 2 0x09 latency c.index same (c, u) in
    if ltb latency 1 then (minus 1, (c, u)) else out

pub get_latency_timer : Chip → (ℤ × List ℕ) × Chip
get_latency_timer (c, u) = in_request 0x0a 1 c.index (c, u)

-- ftdi_poll_modem_status: the two bytes as one number. The upper one is a char, which may be signed.
pub poll_modem_status : Chip → (ℤ × List ℕ) × Chip
poll_modem_status (c, u) = in_request 0x05 2 c.index (c, u)

abbrev pub modem_status : List ℕ → ℕ
modem_status bs = get_or bs 1 0 * 2 ^ 8 + get_or bs 0 0

-- ftdi_setflowctrl
pub setflowctrl : ℕ → Chip → ℤ × Chip
setflowctrl flowctrl (c, u) = out_request 2 1 0x02 0 (bit_or flowctrl c.index) same (c, u)

-- SIO_SET_DTR_HIGH and SIO_SET_DTR_LOW, SIO_SET_RTS_HIGH and SIO_SET_RTS_LOW
abbrev pub dtr_value : Bool → ℕ
dtr_value true = 0x101
dtr_value false = 0x100

abbrev pub rts_value : Bool → ℕ
rts_value true = 0x202
rts_value false = 0x200

pub setdtr : Bool → Chip → ℤ × Chip
setdtr state (c, u) = out_request 2 1 0x01 (dtr_value state) c.index same (c, u)

pub setrts : Bool → Chip → ℤ × Chip
setrts state (c, u) = out_request 2 1 0x01 (rts_value state) c.index same (c, u)

pub setdtr_rts : Bool → Bool → Chip → ℤ × Chip
setdtr_rts dtr rts (c, u) =
    out_request 2 1 0x01 (bit_or (dtr_value dtr) (rts_value rts)) c.index same (c, u)

-- ftdi_set_event_char and ftdi_set_error_char
abbrev pub char_value : ℕ → Bool → ℕ
char_value ch enable = if enable then bit_or ch (2 ^ 8) else ch

pub set_event_char : ℕ → Bool → Chip → ℤ × Chip
set_event_char eventch enable (c, u) =
    out_request 2 1 0x06 (char_value eventch enable) c.index same (c, u)

pub set_error_char : ℕ → Bool → Chip → ℤ × Chip
set_error_char errorch enable (c, u) =
    out_request 2 1 0x07 (char_value errorch enable) c.index same (c, u)

-- enum ftdi_parity_type, ftdi_stopbits_type and ftdi_break_type
pub data Parity : Type 0 where
  parity_none parity_odd parity_even parity_mark parity_space : Parity

abbrev pub parity_code : Parity → ℕ
parity_code parity_none = 0
parity_code parity_odd = 1
parity_code parity_even = 2
parity_code parity_mark = 3
parity_code parity_space = 4

pub data StopBits : Type 0 where
  stop_bit_1 stop_bit_15 stop_bit_2 : StopBits

abbrev pub stop_code : StopBits → ℕ
stop_code stop_bit_1 = 0
stop_code stop_bit_15 = 1
stop_code stop_bit_2 = 2

-- The wValue of ftdi_set_line_property2; `bits` is 7 or 8.
pub line_value : ℕ → StopBits → Parity → Bool → ℕ
line_value bits sbit parity break_on =
    bit_or (bit_or (bit_or bits (parity_code parity * 2 ^ 8)) (stop_code sbit * 2 ^ 11))
      ((if break_on then 1 else 0) * 2 ^ 14)

pub set_line_property2 : ℕ → StopBits → Parity → Bool → Chip → ℤ × Chip
set_line_property2 bits sbit parity break_on (c, u) =
    out_request 2 1 0x04 (line_value bits sbit parity break_on) c.index same (c, u)

pub set_line_property : ℕ → StopBits → Parity → Chip → ℤ × Chip
set_line_property bits sbit parity s = set_line_property2 bits sbit parity false s
