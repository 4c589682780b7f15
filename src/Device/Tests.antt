-- ===== src/Device/Tests.antt =====
-- Runs of the device's methods on a link that loses nothing.
use fpga_device_server.Common.{◌≡◌, refl, true, false, none, some, [], ◌∷◌, if◌then◌else◌}
use fpga_device_server.Bench.{Wire, wire_link, bus_ftdi}
use fpga_device_server.Device.{
  Device, AddrPort, key_eq, find_reg, track_reg, write_raw, update_tracked_regs, read_data_wait,
}
use fpga_device_server.Device
use fpga_device_server.Device.Handle.{open_handle}
use fpga_device_server.Device.Handle.Release.{OpenEnds, open_handle-OpenEnds}
use fpga_device_server.Device.Raw.{Writes, write_raw-Writes}
use fpga_device_server.Device.Packets.{Sends, packets, chunks, write_reg_n-Sends}
use fpga_device_server.Device.Words.{ReadsWords, read_reg_n-ReadsWords}
use fpga_device_server.Device.Tracking.{IsSorted, track_reg_lem}
use fpga_device_server.Device.Registers.{
  Polls, update_tracked_regs-Polls, ReadsRegister, read_reg-ReadsRegister,
}

abbrev board : Device Wire
board = record {
  name = 65 ∷ [];
  usb_device = 1;
  ftdi = some ([], 0 ∷ 7 ∷ 0 ∷ 9 ∷ [], []);
  tracked_regs = ((1, 2), 5) ∷ ((3, 4), 9) ∷ [];
  has_callback = true;
  changes = [];
}

polled : (update_tracked_regs wire_link board).1.tracked_regs ≡ ((1, 2), 7) ∷ ((3, 4), 9) ∷ []
unfolding update_tracked_regs Device.write_whole Device.read_commands read_data_wait
    Device.read_loop Device.store_all Device.store_values Device.write_on Device.read_on
polled = refl

write_raw-Writes_example :
    Writes wire_link (1 ∷ 2 ∷ []) board (write_raw wire_link (1 ∷ 2 ∷ []) board)
write_raw-Writes_example = write_raw-Writes wire_link (1 ∷ 2 ∷ []) board

write_reg_n-Sends_example :
    Sends wire_link
      (packets 5 3 (chunks 3 (7 ∷ 8 ∷ [])))
      board
      (Device.write_reg_n wire_link 5 3 (7 ∷ 8 ∷ []) board)
write_reg_n-Sends_example = write_reg_n-Sends wire_link 5 3 (7 ∷ 8 ∷ []) board

update_tracked_regs-Polls_example : Polls wire_link board (update_tracked_regs wire_link board)
update_tracked_regs-Polls_example = update_tracked_regs-Polls wire_link board

read_reg-ReadsRegister_example :
    ReadsRegister wire_link 1 2 board (Device.read_reg wire_link 1 2 board)
read_reg-ReadsRegister_example = read_reg-ReadsRegister wire_link 1 2 board

track_reg_lem_example :
    let d' = track_reg 3 4 false board in
    IsSorted d'.tracked_regs
    × ((j : AddrPort)
        → find_reg j d'.tracked_regs
          ≡ (if key_eq j (3, 4) then none else find_reg j board.tracked_regs))
track_reg_lem_example = track_reg_lem 3 4 false board ((refl, tt), (tt, tt))

open_handle-OpenEnds_example : OpenEnds bus_ftdi 1 (0, 0) (open_handle bus_ftdi 1 (0, 0))
open_handle-OpenEnds_example = open_handle-OpenEnds bus_ftdi 1 (0, 0)

read_reg_n-ReadsWords_example :
    ReadsWords wire_link 1 2 2 board (Device.read_reg_n wire_link 1 2 2 board)
read_reg_n-ReadsWords_example = read_reg_n-ReadsWords wire_link 1 2 2 board
