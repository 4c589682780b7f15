-- ===== src/Jtag.antt =====
-- The JTAG chain, class Jtag (src/devices/xc3sprog/jtag.h and jtag.cpp): the believed state of the
-- TAP controllers, the devices found, and the shifts through one selected device. The debug file and
-- the messages on stderr are left out.
pub mod Frame
mod Steps
pub mod Replies
pub mod Reset
pub mod Shifts
pub mod Instructions
pub mod Chain
pub mod Idle
pub mod Settings
mod Tests
use fpga_device_server.Common.{
  ℕ, zero, suc, ◌+◌, ◌-◌, ◌*◌, ◌^◌, Bool, true, false, not, ◌&&◌, ◌||◌, Option, none, some, List,
  [], ◌∷◌, ◌==◌, if◌then◌else◌, get_or, set, get_elem?,
}
use fpga_device_server.Common.Int.{ℤ, pos, negsuc, pos_part, ◌+ℤ◌, ◌-ℤ◌, ltb_ℤ, leb_ℤ, eqb_ℤ}
use fpga_device_server.Tap.{
  TapState, test_logic_reset, run_test_idle, shift_dr, exit1_dr, shift_ir, exit1_ir, unknown,
  same_state, tap_move,
}
use fpga_device_server.IoBase.{
  Io, set_tms, flush_tms, shift_tdi_tdo, shift_tdi, shift_tdo, shift, usleep_io,
}

-- chainParam_t
pub record ChainParam : Type 0 where
  pub idcode : ℕ
  pub irlen : ℕ

pub record Jtag : Type 0 where
  pub current_state : TapState
  pub devices : List ChainParam
  pub num_devices : ℤ
  pub post_dr_state : TapState
  pub post_ir_state : TapState
  pub device_index : ℤ
  pub shift_dr_incomplete : Bool
  pub io : Io

abbrev minus_one : ℤ
minus_one = negsuc 0

-- Jtag::Jtag
unfoldable pub jtag_init : Io → Jtag
jtag_init io = record {
  current_state = unknown;
  devices = [];
  num_devices = minus_one;
  post_dr_state = run_test_idle;
  post_ir_state = run_test_idle;
  device_index = minus_one;
  shift_dr_incomplete = false;
  io = io;
}

pub set_post_dr_state : Jtag → TapState → Jtag
set_post_dr_state j s = record j { post_dr_state = s }

pub set_post_ir_state : Jtag → TapState → Jtag
set_post_ir_state j s = record j { post_ir_state = s }

-- `for (i = 0; i < n; i++) io->set_tms(val)`
repeat_tms : ℕ → Bool → Io → Io
repeat_tms zero val io = io
repeat_tms (suc n) val io = repeat_tms n val (set_tms io val)

unfoldable pub tap_test_logic_reset : Jtag → Jtag
unfolding repeat_tms
tap_test_logic_reset j = record j {
  current_state = test_logic_reset;
  io = flush_tms (repeat_tms 5 true j.io) true;
}

-- One round of the loop in setTapState: the `switch` and the bit that is sent after it.
tap_round : TapState → Jtag → Jtag
tap_round state j =
    if same_state j.current_state unknown
    then (let j' = tap_test_logic_reset j in record j' { io = set_tms j'.io true })
    else (let (next, tms) = tap_move j.current_state state in
        record j { current_state = next; io = set_tms j.io tms })

-- `while (current_state != state)`, on fuel.
set_tap_loop : ℕ → TapState → Jtag → Jtag
set_tap_loop zero state j = j
set_tap_loop (suc fuel) state j =
    let rest = set_tap_loop fuel state (tap_round state j) in
    if same_state j.current_state state then j else rest

-- Eight moves are enough from a known state, and one more resets an unknown one.
abbrev tap_fuel : ℕ
tap_fuel = 9

unfoldable pub set_tap_state : Jtag → TapState → ℕ → Jtag
unfolding set_tap_loop tap_round repeat_tms
set_tap_state j state pre =
    let j' = set_tap_loop tap_fuel state j in record j' { io = repeat_tms pre false j'.io }

unfoldable pub next_tap_state : Jtag → Bool → Jtag
unfolding tap_test_logic_reset
next_tap_state j tms =
    if same_state j.current_state shift_dr
    then record j { current_state = if tms then exit1_dr else j.current_state }
    else if same_state j.current_state shift_ir
    then record j { current_state = if tms then exit1_ir else j.current_state }
    else tap_test_logic_reset j

unfoldable pub cycle_tck : Jtag → ℕ → Bool → Jtag
cycle_tck j n tdi = record j { io = shift j.io tdi n false }

pub usleep_jtag : Jtag → ℕ → Jtag
usleep_jtag j usec = record j { io = usleep_io j.io usec }

-- byteArrayToLong on four bytes, the first the least significant.
unfoldable pub byte_array_to_long : List ℕ → ℕ
byte_array_to_long b =
    get_or b 3 0 * 2 ^ 24 + get_or b 2 0 * 2 ^ 16 + get_or b 1 0 * 2 ^ 8 + get_or b 0 0

abbrev pub is_idcode : ℕ → Bool
is_idcode id = not (id == 0) && not (id == 0xffff_ffff)

-- The do-while loop of getChain. The irlen of a new entry is not initialised: the argument `junk`.
chain_loop : ℕ → ℕ → Jtag → Jtag
chain_loop zero junk j = j
chain_loop (suc left) junk j =
    let (io, idx) = shift_tdi_tdo j.io (some (0 ∷ 0 ∷ 0 ∷ 0 ∷ [])) true 32 false in
    let found = record j {
      io = io;
      num_devices = j.num_devices +ℤ pos 1;
      devices = record { idcode = byte_array_to_long idx; irlen = junk } ∷ j.devices;
    } in
    let rest = chain_loop left junk found in
    if is_idcode (byte_array_to_long idx) then rest else record j { io = io }

-- MAXNUMDEVICES
abbrev pub max_num_devices : ℕ
max_num_devices = 1000

pub get_chain : Jtag → Bool → ℕ → Jtag × ℤ
get_chain j detect junk =
    let scan = set_tap_state (tap_test_logic_reset j) shift_dr 0 in
    let j' =
      set_tap_state (chain_loop max_num_devices junk (record scan { num_devices = pos 0 }))
        test_logic_reset 0 in
    if eqb_ℤ j.num_devices minus_one || detect then (j', j'.num_devices) else (j, j.num_devices)

-- Zero is the answer for a position that is not in the chain.
unfoldable pub get_device_id : Jtag → ℕ → ℕ
get_device_id j dev = elim (get_elem? j.devices dev) [ none ↦ 0 | some d ↦ d.idcode ]

unfoldable pub select_device : Jtag → ℤ → Jtag × ℤ
select_device j dev =
    let index = if leb_ℤ j.num_devices dev then minus_one else dev in
    (record j { device_index = index }, index)

abbrev pub with_irlen : List ChainParam → ℕ → ℕ → List ChainParam
with_irlen ds dev len =
    set ds dev (record (get_or ds dev (record { idcode = 0; irlen = 0 })) { irlen = len })

unfoldable pub set_device_ir_length : Jtag → ℤ → ℕ → Jtag × ℤ
set_device_ir_length j dev len =
    if leb_ℤ j.num_devices dev || ltb_ℤ dev (pos 0)
    then (j, minus_one)
    else (record j { devices = with_irlen j.devices (pos_part dev) len }, dev)

-- `pre = -post; while (pre <= 0) pre += align`, on fuel; one round more than `post` is enough.
align_loop : ℕ → ℤ → ℕ → ℤ
align_loop zero pre align = pre
align_loop (suc fuel) pre align =
    let rest = align_loop fuel (pre +ℤ pos align) align in if leb_ℤ pre (pos 0) then rest else pre

-- The clocks before the data: one for each device behind, or as the alignment asks.
pre_bits : Jtag → ℕ → ℤ
pre_bits j align =
    if align == 0
    then j.num_devices -ℤ j.device_index -ℤ pos 1
    else align_loop (suc (pos_part j.device_index)) (pos 0 -ℤ j.device_index) align

-- The four ways of calling the cable, by which of `tdi` and `tdo` are given.
shift_any : Io → Option (List ℕ) → Bool → ℕ → Bool → Io × List ℕ
shift_any io (some tdi) true length last = shift_tdi_tdo io (some tdi) true length last
shift_any io (some tdi) false length last = (shift_tdi io tdi length last, [])
shift_any io none true length last = shift_tdo io length last
shift_any io none false length last = (shift io false length last, [])

-- What shiftDR does after the data when it is to leave the shift state.
leave_shift_dr : Jtag → ℕ → Jtag
leave_shift_dr j post =
    let j' = record j { io = shift j.io false post true } in
    let j'' = if not (post == 0) then next_tap_state j' true else j' in
    record (set_tap_state j'' j''.post_dr_state 0) { shift_dr_incomplete = false }

shift_dr_at : ℕ → Jtag → Option (List ℕ) → Bool → ℕ → ℕ → Bool → Jtag × List ℕ
shift_dr_at post j tdi wants_tdo length align exit =
    let ready =
      if j.shift_dr_incomplete then j else set_tap_state j shift_dr (pos_part (pre_bits j align)) in
    let (io, tdo) = shift_any ready.io tdi wants_tdo length (post == 0 && exit) in
    let shifted = next_tap_state (record ready { io = io }) (post == 0 && exit) in
    (
      if exit then leave_shift_dr shifted post else record shifted { shift_dr_incomplete = true },
      tdo,
    )

pub shift_dr_data : Jtag → Option (List ℕ) → Bool → ℕ → ℕ → Bool → Jtag × List ℕ
shift_dr_data j tdi wants_tdo length align exit =
    if ltb_ℤ j.device_index (pos 0)
    then (j, [])
    else shift_dr_at (pos_part j.device_index) j tdi wants_tdo length align exit

-- The sum of the instruction register lengths of `count` devices from `first` on.
irlen_sum : List ChainParam → ℕ → ℕ → ℕ
irlen_sum devices first zero = 0
irlen_sum devices first (suc count) =
    elim (get_elem? devices first) [ none ↦ 0 | some d ↦ d.irlen ]
    + irlen_sum devices (suc first) count

-- The bypass bits before, the instruction, and the bypass bits behind it.
instruction_blocks : Io → ℕ → ℕ → ℕ → List ℕ → Bool → Io × List ℕ
instruction_blocks io pre len post tdi wants_tdo =
    let padded = shift io true pre false in
    let (io', tdo) = shift_tdi_tdo padded (some tdi) wants_tdo len (post == 0) in
    (shift io' true post true, tdo)

shift_ir_at : ℕ → Jtag → List ℕ → Bool → Jtag × List ℕ
shift_ir_at index j tdi wants_tdo =
    let ready = set_tap_state j shift_ir 0 in
    let pre = irlen_sum j.devices (suc index) (pos_part (j.num_devices -ℤ pos (suc index))) in
    let post = irlen_sum j.devices 0 index in
    let (io, tdo) =
      instruction_blocks ready.io pre (irlen_sum j.devices index 1) post tdi wants_tdo in
    let left = next_tap_state (record ready { io = io }) true in
    (set_tap_state left left.post_ir_state 0, tdo)

pub shift_ir_data : Jtag → List ℕ → Bool → Jtag × List ℕ
shift_ir_data j tdi wants_tdo =
    if ltb_ℤ j.device_index (pos 0)
    then (j, [])
    else shift_ir_at (pos_part j.device_index) j tdi wants_tdo
