-- ===== src/IoFtdi/Tests.antt =====
-- Runs of the cable on a link that loses nothing, and its theorems at concrete blocks.
use fpga_device_server.Common.{
  ◌≡◌, refl, ℕ, ◌+◌, ◌*◌, ◌/◌, ◌≤◌, ◌<◌, ◌^◌, true, false, none, some, [], ◌∷◌, arith,
}
use fpga_device_server.Bench.{Wire, wire_link}
use fpga_device_server.IoFtdi.{
  Cable, mpsse_send, mpsse_add_cmd, tx_tms, txrx_block, usleep_cable, pause_ticks,
}
use fpga_device_server.IoFtdi.Mpsse.{tms_clocks, data_clocks}
use fpga_device_server.IoFtdi.Stream.{Sends, Emits}
use fpga_device_server.IoFtdi.Buffer.{mpsse_add_cmd-Sends}
use fpga_device_server.IoFtdi.Tms.{level_after, tx_tms-Emits}
use fpga_device_server.IoFtdi.Block.{block_clocks, end_level, txrx_block-Emits}
use fpga_device_server.IoFtdi.Pause.{usleep_cable-Emits}
use fpga_device_server.IoFtdi.Played.{
  ArePlayable, played_clocks, played_level, tms_of, play, play-Tracks,
}
use fpga_device_server.Tap.{run_test_idle, capture_dr, tap_run, tap_next}
use fpga_device_server.IoBase.{Io, io_init, flush_tms}
use fpga_device_server.IoBase.Wire.{wire, io_init-IsBuffer}
use fpga_device_server.Jtag.{Jtag, jtag_init}
use fpga_device_server.Jtag.Reset.{Tracks}
use fpga_device_server.IoBase as Base

abbrev no_errno : Wire → ℕ
no_errno f = 0

-- A command waits in the buffer.
abbrev cable : Cable Wire
cable = record {
  ftdi_handle = ([], 0x42 ∷ [], []);
  usbuf = 0x87 ∷ [];
  calls_rd = 0;
  calls_wr = 0;
  retries = 0;
  has_fast_clock = true;
  tck_freq = 30000000;
}

run_sent : (mpsse_send wire_link no_errno cable).1.ftdi_handle.0 ≡ 0x87 ∷ []
unfolding mpsse_send
run_sent = refl

run_added :
    (mpsse_add_cmd wire_link no_errno (0x80 ∷ 0 ∷ 0 ∷ []) cable).1.usbuf ≡ 0x87 ∷ 0x80 ∷ 0 ∷ 0 ∷ []
unfolding mpsse_add_cmd
run_added = refl

mpsse_add_cmd-Sends_example :
    Sends wire_link
      (0x80 ∷ 0 ∷ 0 ∷ [])
      cable
      (mpsse_add_cmd wire_link no_errno (0x80 ∷ 0 ∷ 0 ∷ []) cable)
mpsse_add_cmd-Sends_example =
    mpsse_add_cmd-Sends wire_link no_errno (0x80 ∷ 0 ∷ 0 ∷ []) cable (omega arith) (omega arith)

-- Nine bits, which take two commands.
tx_tms-Emits_example :
    Emits wire_link false
      (tms_clocks true (0x5a ∷ 1 ∷ []) 0 9)
      (level_after false (0x5a ∷ 1 ∷ []) 0 9)
      cable
      (tx_tms wire_link no_errno (0x5a ∷ 1 ∷ []) 9 true cable)
tx_tms-Emits_example =
    tx_tms-Emits wire_link no_errno (0x5a ∷ 1 ∷ []) 9 true false cable (omega arith)

-- Ten bits out, the last of them with TMS high.
txrx_block-Emits_example :
    Emits wire_link false
      (block_clocks false (some (0x5a ∷ 2 ∷ [])) 10 true)
      (end_level true false)
      cable
      (txrx_block wire_link no_errno [] (some (0x5a ∷ 2 ∷ [])) false [] 10 true cable)
txrx_block-Emits_example =
    txrx_block-Emits wire_link no_errno [] false (some (0x5a ∷ 2 ∷ [])) false [] 10 true cable tt
      (omega arith) (omega arith) (omega arith)

millisecond : pause_ticks 1000 30000000 < 2 ^ 19
unfolding pause_ticks
millisecond = omega arith

-- The millisecond that the programming algorithm waits.
usleep_cable-Emits_example :
    (n : ℕ) × Emits wire_link false
      (data_clocks false none 0 n)
      false
      cable
      (usleep_cable wire_link no_errno 1000 cable)
    × (1000 * (cable.tck_freq / 100) ≤ n * 10000)
    × (n * 10000 < (1000 + 1) * (cable.tck_freq / 100) + 80000)
usleep_cable-Emits_example =
    usleep_cable-Emits wire_link no_errno false 1000 cable refl (omega arith) (omega arith)
      (omega arith) millisecond (omega arith)

-- A chain that has been reset and has had eight bits shifted through a data register, as its log says.
abbrev shifted_io : Io
shifted_io = record (io_init []) {
  log =
      Base.tx_tms (0x5f ∷ 0 ∷ []) 9 false
      ∷ Base.txrx_block (some (0x5a ∷ [])) false 8 true
      ∷ Base.tx_tms (1 ∷ []) 2 false
      ∷ [];
}

abbrev shifted : Jtag
shifted = record (jtag_init shifted_io) { current_state = run_test_idle }

shifted-Tracks : Tracks capture_dr shifted
unfolding wire tap_run tap_next io_init jtag_init
shifted-Tracks =
    let b = io_init-IsBuffer [] in
    record {
      buffer = record { size = b.size; bytes = b.bytes; fits = b.fits; clear = b.clear };
      follows = refl;
      known = omega arith;
    }

shifted-ArePlayable : ArePlayable false (flush_tms shifted.io true).log
unfolding flush_tms io_init jtag_init
shifted-ArePlayable = (tt, ((refl, tt, omega arith, omega arith), (tt, tt)))

play-Tracks_example :
    let es = (flush_tms shifted.io true).log in
    Emits wire_link false
      (played_clocks false es)
      (played_level false es)
      cable
      (play wire_link no_errno es cable)
    × (tap_run capture_dr (tms_of (played_clocks false es)) ≡ shifted.current_state)
play-Tracks_example =
    play-Tracks wire_link no_errno capture_dr shifted true false cable shifted-Tracks
      shifted-ArePlayable (omega arith)
