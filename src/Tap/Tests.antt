-- ===== src/Tap/Tests.antt =====
-- Runs of the TAP moves.
use fpga_device_server.Common.{◌≡◌, refl, true, false, [], ◌∷◌, arith}
use fpga_device_server.Tap.{
  tap_run, tap_next, tap_move, run_test_idle, shift_ir, exit1_dr, update_ir, shift_dr,
}
use fpga_device_server.Tap.Moves.{tap_next-tap_move, arrives, arrives_within}

to_shift_ir : tap_run run_test_idle (true ∷ true ∷ false ∷ false ∷ []) ≡ shift_ir
unfolding tap_run tap_next
to_shift_ir = refl

tap_next-tap_move_example :
    tap_next exit1_dr (tap_move exit1_dr shift_ir).1 ≡ (tap_move exit1_dr shift_ir).0
tap_next-tap_move_example = tap_next-tap_move exit1_dr shift_ir (omega arith) (omega arith)

arrives_within_example : arrives 8 update_ir shift_dr ≡ true
arrives_within_example = arrives_within update_ir shift_dr (omega arith) (omega arith)
