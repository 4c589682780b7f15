-- ===== src/Programmer.antt =====
-- Programming a board: class DeviceProgrammer (src/devices/DeviceProgrammer.h and DeviceProgrammer.cpp) and
-- the algorithm that it uses, class ProgAlgXC3S (src/devices/xc3sprog/progalgxc3s.h and progalgxc3s.cpp),
-- over the JTAG chain. What is not initialised in the source is an argument `junk`. The messages on
-- stderr are left out.
pub mod Script
pub mod Polls
pub mod Configures
pub mod Opened
mod Tests
use fpga_device_server.Common.{
  ℕ, zero, suc, ◌+◌, ◌*◌, ◌/◌, ◌%◌, ◌^◌, bit_and, Bool, true, false, not, ◌||◌, Option, none, some,
  List, [], ◌∷◌, ◌==◌, if◌then◌else◌, length, get_or, drop, replicate, ltb,
}
use fpga_device_server.Common.Int.{ℤ, pos, eqb_ℤ}
use fpga_device_server.Common.Effect.{Result, ok, err}
use fpga_device_server.Tap.{test_logic_reset}
use fpga_device_server.BitFile.{BitFile, bit_file_init, read_bitfile}
use fpga_device_server.IoBase.{Io}
use fpga_device_server.Jtag.{
  Jtag, jtag_init, shift_ir_data, shift_dr_data, cycle_tck, usleep_jtag, set_tap_state, get_chain,
  get_device_id, set_device_ir_length, select_device,
}

abbrev pub family_xc2s : ℕ
family_xc2s = 0x03

abbrev pub family_xc2se : ℕ
family_xc2se = 0x05

abbrev pub family_xc7 : ℕ
family_xc7 = 0x1b

abbrev pub family_xc6s : ℕ
family_xc6s = 0x20

abbrev pub jprogram : List ℕ
jprogram = 0xcb ∷ 0xff ∷ []

abbrev pub cfg_in : List ℕ
cfg_in = 0xc5 ∷ 0xff ∷ []

abbrev pub jshutdown : List ℕ
jshutdown = 0xcd ∷ 0xff ∷ []

abbrev pub jstart : List ℕ
jstart = 0xcc ∷ 0xff ∷ []

abbrev pub isc_program : List ℕ
isc_program = 0xd1 ∷ 0xff ∷ []

abbrev pub isc_enable : List ℕ
isc_enable = 0xd0 ∷ 0xff ∷ []

abbrev pub isc_disable : List ℕ
isc_disable = 0xd6 ∷ 0xff ∷ []

abbrev pub bypass : List ℕ
bypass = 0xff ∷ 0xff ∷ []

abbrev pub isc_dna : List ℕ
isc_dna = 0x31 ∷ []

pub record ProgAlg : Type 0 where
  pub family : ℕ
  pub tck_len : ℕ
  pub array_transfer_len : ℕ

abbrev is_one_of : ℕ → List ℕ → Bool
is_one_of x [] = false
is_one_of x (y ∷ ys) = x == y || is_one_of x ys

-- ProgAlgXC3S::ProgAlgXC3S: the XC3SE, XC3SA, XC3SAN and XC3SD, then the XC5 and XC7 families.
unfoldable pub prog_alg : ℕ → ProgAlg
prog_alg family =
    if is_one_of family (0x0e ∷ 0x11 ∷ 0x13 ∷ 0x1c ∷ [])
    then record { family = family; tck_len = 16; array_transfer_len = 16 }
    else if is_one_of family (0x14 ∷ 0x15 ∷ 0x17 ∷ 0x19 ∷ 0x22 ∷ family_xc7 ∷ [])
    then record { family = family; tck_len = 12; array_transfer_len = 32 }
    else record { family = family; tck_len = 12; array_transfer_len = 64 }

-- The calls with no answer wanted, and with the arguments that are left out.
abbrev pub send_ir : List ℕ → Jtag → Jtag
send_ir code j = (shift_ir_data j code false).0

abbrev pub send_dr : List ℕ → ℕ → Jtag → Jtag
send_dr tdi length j = (shift_dr_data j (some tdi) false length 0 true).0

abbrev pub clocks : ℕ → Jtag → Jtag
clocks n j = cycle_tck j n true

-- BitFile::getLength, in bits.
abbrev pub get_length : BitFile → ℕ
get_length file = file.length * 8 % 2 ^ 32

unfoldable pub flow_enable : ProgAlg → Jtag → Jtag
flow_enable alg j = clocks alg.tck_len (send_dr (0 ∷ []) 5 (send_ir isc_enable j))

unfoldable pub flow_disable : ProgAlg → Jtag → Jtag
flow_disable alg j =
    clocks 1 (send_dr (0 ∷ []) 1 (send_ir bypass (clocks alg.tck_len (send_ir isc_disable j))))

-- flow_array_program over the parts that are left, each of `array_transfer_len` bits.
pub array_loop : ℕ → ℕ → ProgAlg → BitFile → Jtag → Jtag
array_loop zero i alg file j = j
array_loop (suc rounds) i alg file j =
    let sent = send_dr (drop (i / 8) file.buffer) alg.array_transfer_len (send_ir isc_program j) in
    let more = array_loop rounds (i + alg.array_transfer_len) alg file (clocks 1 sent) in
    if ltb i (get_length file) then more else j

pub flow_array_program : ProgAlg → BitFile → Jtag → Jtag
flow_array_program alg file j = array_loop (get_length file) 0 alg file j

abbrev xc2sbuf0 : List ℕ
xc2sbuf0 =
    0x00 ∷ 0x00 ∷ 0x00 ∷ 0x00 ∷ 0x00 ∷ 0x00 ∷ 0x00 ∷ 0x00 ∷ 0x55 ∷ 0x99 ∷ 0xaa ∷ 0x66 ∷ 0x0c ∷ 0x80
    ∷ 0x04 ∷ 0x80 ∷ 0x00 ∷ 0x05 ∷ 0xfd ∷ 0xbc ∷ 0x0c ∷ 0x00 ∷ 0x01 ∷ 0x80 ∷ 0x00 ∷ 0x00 ∷ 0x00
    ∷ 0xa0 ∷ 0x0c ∷ 0x00 ∷ 0x01 ∷ 0x80 ∷ 0x00 ∷ 0x00 ∷ 0x00 ∷ 0xe0 ∷ 0x00 ∷ 0x00 ∷ 0x00 ∷ 0x00 ∷ []

abbrev xc2sbuf1 : List ℕ
xc2sbuf1 =
    0x00 ∷ 0x00 ∷ 0x00 ∷ 0x00 ∷ 0x00 ∷ 0x00 ∷ 0x00 ∷ 0x00 ∷ 0x55 ∷ 0x99 ∷ 0xaa ∷ 0x66 ∷ 0x0c ∷ 0x00
    ∷ 0x01 ∷ 0x80 ∷ 0x00 ∷ 0x00 ∷ 0x00 ∷ 0x10 ∷ 0x0c ∷ 0x80 ∷ 0x04 ∷ 0x80 ∷ 0x00 ∷ 0x05 ∷ 0xfc
    ∷ 0xff ∷ 0x0c ∷ 0x00 ∷ 0x01 ∷ 0x80 ∷ 0x00 ∷ 0x00 ∷ 0x00 ∷ 0xa0 ∷ 0x0c ∷ 0x00 ∷ 0x01 ∷ 0x80
    ∷ 0x00 ∷ 0x00 ∷ 0x00 ∷ 0xe0 ∷ 0x00 ∷ 0x00 ∷ 0x00 ∷ 0x00 ∷ []

-- CFG_IN with its data, and JSTART.
abbrev xc2s_part : List ℕ → Jtag → Jtag
xc2s_part buf j = clocks 13 (send_ir jstart (send_dr buf (length buf * 8) (send_ir cfg_in j)))

unfoldable pub flow_program_xc2s : List ℕ → BitFile → Jtag → Jtag
flow_program_xc2s junk file j =
    let prepared = xc2s_part xc2sbuf0 (xc2s_part xc2sbuf1 (xc2s_part xc2sbuf0 j)) in
    let loaded = clocks 1 (send_dr file.buffer (get_length file) (send_ir cfg_in prepared)) in
    clocks 1 (send_dr junk 1 (send_ir bypass (clocks 13 (send_ir jstart loaded))))

unfoldable pub flow_program_legacy : ProgAlg → BitFile → Jtag → Jtag
flow_program_legacy alg file j =
    let shut = send_ir cfg_in (clocks alg.tck_len (send_ir jshutdown j)) in
    let loaded = clocks 1 (send_dr file.buffer (get_length file) shut) in
    clocks 1
      (send_dr (0 ∷ []) 1 (send_ir bypass (clocks (2 * alg.tck_len) (send_ir jstart loaded))))

-- `buf[0] & 0x10`, and `(buf[0] & 0x23) != 0x21`.
abbrev pub is_cleared : ℕ → Bool
is_cleared status = not (bit_and status 0x10 == 0)

abbrev pub is_up : ℕ → Bool
is_up status = bit_and status 0x23 == 0x21

-- The loop that waits until the configuration is cleared, on fuel; `none` is still waiting.
pub clear_loop : ℕ → ℕ → Jtag → Option ℕ × Jtag
clear_loop zero status j = (none, j)
clear_loop (suc fuel) status j =
    let (j', tdo) = shift_ir_data j cfg_in true in
    let status' = get_or tdo 0 status in
    let more = clear_loop fuel status' j' in if is_cleared status' then (some status', j') else more

-- The families 0x11, 0x13, 0x1c and 0x20.
abbrev pub has_dna : ProgAlg → Bool
has_dna alg = is_one_of alg.family (0x11 ∷ 0x13 ∷ 0x1c ∷ family_xc6s ∷ [])

unfoldable pub read_dna : ProgAlg → Jtag → Jtag
read_dna alg j =
    if has_dna alg
    then clocks 1 (shift_dr_data (send_ir isc_dna (send_ir isc_enable j)) none true 64 0 true).0
    else j

-- `while (((buf[0] & 0x23) != 0x21) && (i < 50))`, over the rounds left: how many there were.
pub up_loop : ℕ → ℕ → ℕ → Jtag → ℕ × Jtag
up_loop zero i status j = (i, j)
up_loop (suc left) i status j =
    let (j', tdo) = shift_ir_data j bypass true in
    let more = up_loop left (i + 1) (get_or tdo 0 status) (usleep_jtag j' 1000) in
    if is_up status then (i, j) else more

pub data ProgError : Type 0 where
  -- "Error configuring device"
  configuring : ProgError
  -- The device has not cleared its configuration in as many polls as there was fuel for.
  not_cleared : ProgError

-- array_program after the first loop.
pub load : ProgAlg → BitFile → ℕ → Jtag → Result ProgError (Unit {0}) × Jtag
load alg file status j =
    let (i, j') =
      up_loop 50 0 status (flow_disable alg (flow_program_legacy alg file (read_dna alg j))) in
    (if i == 50 then err configuring else ok tt, j')

after_clear : ProgAlg → BitFile → Option ℕ × Jtag → Result ProgError (Unit {0}) × Jtag
after_clear alg file (none, j) = (err not_cleared, j)
after_clear alg file (some status, j) = load alg file status j

pub array_program : ℕ → List ℕ → ProgAlg → BitFile → Jtag → Result ProgError (Unit {0}) × Jtag
unfolding after_clear
array_program fuel junk alg file j =
    if is_one_of alg.family (family_xc2s ∷ family_xc2se ∷ [])
    then (ok tt, flow_program_xc2s junk file j)
    else after_clear alg file (clear_loop fuel 0 (send_ir jprogram (flow_enable alg j)))

abbrev xc3sbuf : List ℕ
xc3sbuf = 0xff ∷ 0xff ∷ 0x55 ∷ 0x99 ∷ 0x0c ∷ 0x85 ∷ 0x00 ∷ 0x70 ∷ 0x04 ∷ 0x00 ∷ 0x04 ∷ 0x00 ∷ []

abbrev xc6sbuf : List ℕ
xc6sbuf = 0xff ∷ 0xff ∷ 0x55 ∷ 0x99 ∷ 0xaa ∷ 0x66 ∷ 0x0c ∷ 0x85 ∷ 0x00 ∷ 0x70 ∷ 0x04 ∷ 0x00 ∷ []

-- The families XC2V, XC3S, XC3SE, XC3SA, XC3SAN, XC3SD and XC6S.
pub reconfig : ProgAlg → Jtag → Jtag
reconfig alg j =
    let buf = if alg.family == family_xc6s then xc6sbuf else xc3sbuf in
    let sent = send_dr buf (12 * 8) (send_ir cfg_in (clocks 16 (send_ir jshutdown j))) in
    let started = clocks 1 (send_ir bypass (clocks 32 (send_ir jstart sent))) in
    if is_one_of alg.family (0x08 ∷ 0x0a ∷ 0x0e ∷ 0x11 ∷ 0x13 ∷ 0x1c ∷ family_xc6s ∷ [])
    then set_tap_state started test_logic_reset 0
    else j

pub record Programmer : Type 0 where
  pub jtag : Jtag
  pub family : ℕ

pub data ProgrammerError : Type 0 where
  jtag_chain jtag_id no_bitfile bad_bitfile : ProgrammerError
  algorithm : ProgError → ProgrammerError

-- XC6_XC7_IRLEN
abbrev pub irlen_xc6_xc7 : ℕ
irlen_xc6_xc7 = 6

abbrev pub family_of : ℕ → Option ℕ
family_of idcode =
    if idcode == 0x24001093
    then some family_xc6s
    else if idcode == 0x0362d093
    then some family_xc7
    else none

-- The last lines of the constructor.
unfoldable pub prepare : Jtag → Jtag
prepare j =
    (select_device
      (set_tap_state (set_device_ir_length j (pos 0) irlen_xc6_xc7).0 test_logic_reset 0) (pos 0)).0

-- DeviceProgrammer::DeviceProgrammer, on a cable that is open.
unfoldable pub programmer : ℕ → Io → Result ProgrammerError Programmer
programmer junk io =
    let (j, n) = get_chain (jtag_init io) false junk in
    if not (eqb_ℤ n (pos 1)) then err jtag_chain else elim (family_of (get_device_id j 0)) [
      | none ↦ err jtag_id
      | some family ↦ ok (record { jtag = prepare j; family = family })
    ]

-- DeviceProgrammer::program; `file` is what fopen finds.
unfoldable pub program :
    ℕ → ℕ → List ℕ → Option (List ℕ) → Programmer → Result ProgrammerError (Unit {0}) × Programmer
program fuel junk junk_bits file p = elim file [
  | none ↦ (err no_bitfile, p)
  | some bytes ↦
      let (code, bits) = read_bitfile junk bit_file_init bytes in
      let (r, j) = array_program fuel junk_bits (prog_alg p.family) bits p.jtag in
      let good : Bool = elim code [ none ↦ false | some c ↦ c == 0 ] in
      if good
      then (elim r [ ok u ↦ ok u | err e ↦ err (algorithm e) ], record p { jtag = j })
      else (err bad_bitfile, p)
]
