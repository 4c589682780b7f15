-- ===== src/Tap.antt =====
-- The TAP controller as Jtag::setTapState drives it (src/devices/xc3sprog/jtag.h and jtag.cpp).
-- `tap_move` is one round of its `switch`, for a known current state; `tap_next` is the transition
-- table of the controller itself, IEEE 1149.1, which the code never spells out.
pub mod Moves
mod Tests
use fpga_device_server.Common.{ℕ, zero, suc, Bool, true, false, List, [], ◌∷◌, ◌==◌, if◌then◌else◌}

pub data TapState : Type 0 where
  test_logic_reset run_test_idle : TapState
  select_dr_scan capture_dr shift_dr exit1_dr pause_dr exit2_dr update_dr : TapState
  select_ir_scan capture_ir shift_ir exit1_ir pause_ir exit2_ir update_ir : TapState
  unknown : TapState

-- The values of the source's enum.
abbrev pub code : TapState → ℕ
code test_logic_reset = 0
code run_test_idle = 1
code select_dr_scan = 2
code capture_dr = 3
code shift_dr = 4
code exit1_dr = 5
code pause_dr = 6
code exit2_dr = 7
code update_dr = 8
code select_ir_scan = 9
code capture_ir = 10
code shift_ir = 11
code exit1_ir = 12
code pause_ir = 13
code exit2_ir = 14
code update_ir = 15
code unknown = 999

-- `a == b` on the enum.
abbrev pub same_state : TapState → TapState → Bool
same_state s t = code s == code t

-- The next state and the TMS bit on the way from the first state to the second.
unfoldable pub tap_move : TapState → TapState → TapState × Bool
tap_move test_logic_reset test_logic_reset = (test_logic_reset, true)
tap_move test_logic_reset _ = (run_test_idle, false)
tap_move run_test_idle run_test_idle = (run_test_idle, false)
tap_move run_test_idle _ = (select_dr_scan, true)
tap_move select_dr_scan capture_dr = (capture_dr, false)
tap_move select_dr_scan shift_dr = (capture_dr, false)
tap_move select_dr_scan exit1_dr = (capture_dr, false)
tap_move select_dr_scan pause_dr = (capture_dr, false)
tap_move select_dr_scan exit2_dr = (capture_dr, false)
tap_move select_dr_scan update_dr = (capture_dr, false)
tap_move select_dr_scan _ = (select_ir_scan, true)
tap_move capture_dr shift_dr = (shift_dr, false)
tap_move capture_dr _ = (exit1_dr, true)
tap_move shift_dr shift_dr = (shift_dr, false)
tap_move shift_dr _ = (exit1_dr, true)
tap_move exit1_dr pause_dr = (pause_dr, false)
tap_move exit1_dr exit2_dr = (pause_dr, false)
tap_move exit1_dr shift_dr = (pause_dr, false)
tap_move exit1_dr exit1_dr = (pause_dr, false)
tap_move exit1_dr _ = (update_dr, true)
tap_move pause_dr pause_dr = (pause_dr, false)
tap_move pause_dr _ = (exit2_dr, true)
tap_move exit2_dr shift_dr = (shift_dr, false)
tap_move exit2_dr exit1_dr = (shift_dr, false)
tap_move exit2_dr pause_dr = (shift_dr, false)
tap_move exit2_dr _ = (update_dr, true)
tap_move update_dr run_test_idle = (run_test_idle, false)
tap_move update_dr _ = (select_dr_scan, true)
tap_move select_ir_scan capture_ir = (capture_ir, false)
tap_move select_ir_scan shift_ir = (capture_ir, false)
tap_move select_ir_scan exit1_ir = (capture_ir, false)
tap_move select_ir_scan pause_ir = (capture_ir, false)
tap_move select_ir_scan exit2_ir = (capture_ir, false)
tap_move select_ir_scan update_ir = (capture_ir, false)
tap_move select_ir_scan _ = (test_logic_reset, true)
tap_move capture_ir shift_ir = (shift_ir, false)
tap_move capture_ir _ = (exit1_ir, true)
tap_move shift_ir shift_ir = (shift_ir, false)
tap_move shift_ir _ = (exit1_ir, true)
tap_move exit1_ir pause_ir = (pause_ir, false)
tap_move exit1_ir exit2_ir = (pause_ir, false)
tap_move exit1_ir shift_ir = (pause_ir, false)
tap_move exit1_ir exit1_ir = (pause_ir, false)
tap_move exit1_ir _ = (update_ir, true)
tap_move pause_ir pause_ir = (pause_ir, false)
tap_move pause_ir _ = (exit2_ir, true)
tap_move exit2_ir shift_ir = (shift_ir, false)
tap_move exit2_ir exit1_ir = (shift_ir, false)
tap_move exit2_ir pause_ir = (shift_ir, false)
tap_move exit2_ir _ = (update_ir, true)
tap_move update_ir run_test_idle = (run_test_idle, false)
tap_move update_ir _ = (select_dr_scan, true)
tap_move unknown _ = (test_logic_reset, true)

-- The controller's own table: the state after one clock with the given TMS.
unfoldable pub tap_next : TapState → Bool → TapState
tap_next test_logic_reset tms = if tms then test_logic_reset else run_test_idle
tap_next run_test_idle tms = if tms then select_dr_scan else run_test_idle
tap_next select_dr_scan tms = if tms then select_ir_scan else capture_dr
tap_next capture_dr tms = if tms then exit1_dr else shift_dr
tap_next shift_dr tms = if tms then exit1_dr else shift_dr
tap_next exit1_dr tms = if tms then update_dr else pause_dr
tap_next pause_dr tms = if tms then exit2_dr else pause_dr
tap_next exit2_dr tms = if tms then update_dr else shift_dr
tap_next update_dr tms = if tms then select_dr_scan else run_test_idle
tap_next select_ir_scan tms = if tms then test_logic_reset else capture_ir
tap_next capture_ir tms = if tms then exit1_ir else shift_ir
tap_next shift_ir tms = if tms then exit1_ir else shift_ir
tap_next exit1_ir tms = if tms then update_ir else pause_ir
tap_next pause_ir tms = if tms then exit2_ir else pause_ir
tap_next exit2_ir tms = if tms then update_ir else shift_ir
tap_next update_ir tms = if tms then select_dr_scan else run_test_idle
tap_next unknown _ = unknown

-- The controller after a sequence of TMS bits, one per clock.
unfoldable pub tap_run : TapState → List Bool → TapState
tap_run s [] = s
tap_run s (b ∷ bs) = tap_run (tap_next s b) bs
