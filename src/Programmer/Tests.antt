-- ===== src/Programmer/Tests.antt =====
-- Runs of the programming algorithm on a board that answers, and its theorems at it.
use fpga_device_server.Common.{◌≡◌, refl, ℕ, false, inl, some, none, List, [], ◌∷◌, arith}
use fpga_device_server.Common.Int.{pos}
use fpga_device_server.Common.Effect.{err}
use fpga_device_server.Tap.{test_logic_reset, run_test_idle, unknown}
use fpga_device_server.BitFile.{BitFile, bit_file_init, read_bitfile, read_keys, fread_all, fread}
use fpga_device_server.IoBase.{io_init}
use fpga_device_server.IoBase.Wire.{io_init-IsBuffer}
use fpga_device_server.Jtag.{ChainParam, Jtag, max_num_devices}
use fpga_device_server.Jtag.Chain.{chain_ids}
use fpga_device_server.Jtag.Idle.{IsPrepared, IsIdle}
use fpga_device_server.Programmer.{
  ProgAlg, prog_alg, family_xc7, array_program, programmer, program, no_bitfile, bad_bitfile,
}
use fpga_device_server.Programmer.Configures.{
  Configures, array_program-Configures, array_program-IsIdle,
}
use fpga_device_server.Programmer.Opened.{Opened, programmer-Opened}

abbrev artix : ChainParam
artix = record { idcode = 0x0362d093; irlen = 6 }

-- The board clears its configuration at once, and is up after one poll.
abbrev board : Jtag
board = record {
  current_state = unknown;
  devices = artix ∷ [];
  num_devices = pos 1;
  post_dr_state = run_test_idle;
  post_ir_state = run_test_idle;
  device_index = pos 0;
  shift_dr_incomplete = false;
  io = io_init ((0x11 ∷ []) ∷ (0x21 ∷ []) ∷ []);
}

abbrev one_byte : BitFile
one_byte = record bit_file_init { length = 1; buffer = 0x5a ∷ [] }

abbrev series_7 : ProgAlg
series_7 = record { family = family_xc7; tck_len = 12; array_transfer_len = 32 }

run_prog_alg : prog_alg family_xc7 ≡ series_7
unfolding prog_alg
run_prog_alg = refl

board-IsPrepared : IsPrepared test_logic_reset 0 artix board
board-IsPrepared = record {
  ready = record {
    start = omega arith;
    may_track = record { buffer = io_init-IsBuffer _; honest = inl refl };
    open_shift = λ h. absurd (ground arith);
    post_dr = omega arith;
    post_ir = omega arith;
  };
  closed = refl;
  selected = refl;
  there = refl;
  irlen = omega arith;
  post_dr = refl;
  post_ir = refl;
}

array_program-Configures_example :
    Configures 3 series_7 one_byte board (array_program 3 [] series_7 one_byte board)
array_program-Configures_example =
    array_program-Configures 3 [] series_7 one_byte board board-IsPrepared (omega arith) refl

array_program-IsIdle_example :
    IsIdle test_logic_reset 0 artix (array_program 3 [] series_7 one_byte board).1
array_program-IsIdle_example =
    array_program-IsIdle 3 [] series_7 one_byte board board-IsPrepared (omega arith) refl

-- A board with one device answers with its code, and then with ones.
abbrev artix_replies : List (List ℕ)
artix_replies = (0x93 ∷ 0xd0 ∷ 0x62 ∷ 0x03 ∷ []) ∷ (255 ∷ 255 ∷ 255 ∷ 255 ∷ []) ∷ []

programmer-Opened_example :
    Opened test_logic_reset
      (chain_ids max_num_devices (io_init artix_replies).replies)
      (programmer 0 (io_init artix_replies))
programmer-Opened_example =
    programmer-Opened test_logic_reset 0 (io_init artix_replies) (omega arith)
      (io_init-IsBuffer artix_replies)

run_bad_file :
    (program 3 0 [] (some (0 ∷ [])) (record { jtag = board; family = family_xc7 })).0
    ≡ err bad_bitfile
unfolding program read_bitfile read_keys fread_all fread bit_file_init
run_bad_file = refl

run_no_file :
    (program 3 0 [] none (record { jtag = board; family = family_xc7 })).0 ≡ err no_bitfile
unfolding program
run_no_file = refl
