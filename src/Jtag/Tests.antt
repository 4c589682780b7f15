-- ===== src/Jtag/Tests.antt =====
-- Runs of the JTAG chain.
use fpga_device_server.Common.{
  ℕ, ◌≡◌, refl, true, false, some, List, [], ◌∷◌, ◌++◌, inl, inr, arith, length,
}
use mathlib.Core.List.{reverse}
use fpga_device_server.Common.Int.{pos}
use fpga_device_server.Tap.{test_logic_reset, run_test_idle, shift_ir, unknown, tap_next}
use fpga_device_server.IoBase.{io_init}
use fpga_device_server.IoBase.Wire.{io_init-IsBuffer}
use fpga_device_server.Jtag.{
  Jtag, jtag_init, set_tap_state, shift_dr_data, shift_ir_data, get_chain, max_num_devices,
}
use fpga_device_server.Jtag.Reset.{Tracks, MayTrack, set_tap_state-Tracks}
use fpga_device_server.Jtag.Shifts.{IsReady, shift_dr_data-IsReady}
use fpga_device_server.Jtag.Instructions.{shift_ir_data-IsReady}
use fpga_device_server.Jtag.Chain.{chain_ids, idcodes, get_chain-Found}

abbrev replies : List (List ℕ)
replies = (0x93 ∷ 0x10 ∷ 0x02 ∷ 0x14 ∷ []) ∷ (255 ∷ 255 ∷ 255 ∷ 255 ∷ []) ∷ []

abbrev j0 : Jtag
j0 = jtag_init (io_init replies)

j0-MayTrack : MayTrack test_logic_reset j0
unfolding jtag_init
j0-MayTrack = record { buffer = io_init-IsBuffer replies; honest = inl refl }

-- A chain of two devices, the second of which is selected.
abbrev j2 : Jtag
j2 = record {
  current_state = unknown;
  devices = record { idcode = 7; irlen = 6 } ∷ record { idcode = 9; irlen = 10 } ∷ [];
  num_devices = pos 2;
  post_dr_state = run_test_idle;
  post_ir_state = run_test_idle;
  device_index = pos 1;
  shift_dr_incomplete = false;
  io = io_init [];
}

j2-IsReady : IsReady test_logic_reset j2
j2-IsReady = record {
  start = omega arith;
  may_track = record { buffer = io_init-IsBuffer []; honest = inl refl };
  open_shift = λ h. absurd (ground arith);
  post_dr = omega arith;
  post_ir = omega arith;
}

set_tap_state-Tracks_example :
    Tracks test_logic_reset (set_tap_state j0 shift_ir 3)
    × ((set_tap_state j0 shift_ir 3).current_state ≡ shift_ir)
set_tap_state-Tracks_example =
    set_tap_state-Tracks test_logic_reset j0 shift_ir 3 (omega arith) (omega arith)
      (inr (unfold tap_next in refl)) j0-MayTrack

shift_dr_data-IsReady_example :
    let j' = (shift_dr_data j2 (some (1 ∷ [])) true 8 0 true).0 in
    IsReady test_logic_reset j'
    × Tracks test_logic_reset j'
    × (j'.current_state ≡ run_test_idle)
    × (j'.shift_dr_incomplete ≡ false)
shift_dr_data-IsReady_example =
    shift_dr_data-IsReady test_logic_reset j2 (some (1 ∷ [])) true 8 0 true j2-IsReady (omega arith)
      (omega arith)

shift_ir_data-IsReady_example :
    let j' = (shift_ir_data j2 (3 ∷ 0 ∷ []) false).0 in
    IsReady test_logic_reset j' × Tracks test_logic_reset j' × (j'.current_state ≡ run_test_idle)
shift_ir_data-IsReady_example =
    shift_ir_data-IsReady test_logic_reset j2 1 (record { idcode = 9; irlen = 10 }) (3 ∷ 0 ∷ [])
      false j2-IsReady refl refl refl (omega arith)

get_chain-Found_example :
    let ids = chain_ids max_num_devices j0.io.replies in
    let (j', n) = get_chain j0 false 0 in
    Tracks test_logic_reset j'
    × (j'.current_state ≡ test_logic_reset)
    × (n ≡ pos (length ids))
    × (j'.num_devices ≡ n)
    × (idcodes j'.devices ≡ reverse ids ++ idcodes j0.devices)
get_chain-Found_example =
    get_chain-Found test_logic_reset j0 false 0 (omega arith) j0-MayTrack.buffer
      (inl (unfold jtag_init in refl))
