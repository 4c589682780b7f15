-- ===== src/Ftdi/Tests.antt =====
-- Runs of the libftdi model (src/libftdi/ftdi.c), and its theorems at concrete inputs.
use fpga_device_server.Common.{◌⊎◌, ◌≡◌, refl, arith, true, false, some, [], ◌∷◌}
use fpga_device_server.Common.Int.{pos, negsuc}
use fpga_device_server.Ftdi.{Context, Usb, received, type_2232h}
use fpga_device_server.Ftdi.Transfer.{
  read_data, read_loop, read_round, unpack, move_chunks, memmove, buffered,
}
use fpga_device_server.Ftdi.Transfer.{write_data}
use fpga_device_server.Ftdi.Transfer.Sending.{Sends, write_data-Sends}
use fpga_device_server.Ftdi.Transfer.Stream.{Streams, read_data-Streams}
use fpga_device_server.Ftdi.Open.{UsbDevice, Held, usb_open_dev, free}
use fpga_device_server.Ftdi.Open.Ends.{OpenEnds, usb_open_dev-OpenEnds}
use fpga_device_server.Ftdi.Baud.Tolerance.{Refused, Accepted, set_baudrate-Accepted}
use fpga_device_server.Ftdi.Baud.{set_baudrate, to_clkbits, convert_baudrate, encode_divisor}

-- A chip with packets of four bytes, two of them data, and a byte left in its read buffer.
abbrev open_chip : Context
open_chip = record {
  is_open = true;
  chip = type_2232h;
  baudrate = negsuc 0;
  bitbang_enabled = false;
  bitbang_mode = 1;
  interface = 0;
  index = 1;
  in_ep = 0x02;
  out_ep = 0x81;
  max_packet_size = 4;
  readbuffer = 0 ∷ 0 ∷ 9 ∷ [];
  readbuffer_offset = 2;
  readbuffer_remaining = 1;
  readbuffer_chunksize = 64;
  writebuffer_chunksize = 64;
}

-- Three packets in one transfer.
abbrev three_packets : Usb
three_packets = record {
  controls = [];
  control_answers = [];
  sent = [];
  write_answers = [];
  incoming = received (1 ∷ 2 ∷ 10 ∷ 11 ∷ 1 ∷ 2 ∷ 12 ∷ 13 ∷ 1 ∷ 2 ∷ 14 ∷ []) ∷ [];
}

run_reads_across_packets : (read_data 4 (open_chip, three_packets)).1 ≡ 9 ∷ 10 ∷ 11 ∷ 12 ∷ []
unfolding read_data read_loop read_round unpack move_chunks memmove
run_reads_across_packets = refl

run_keeps_what_is_left : buffered (read_data 4 (open_chip, three_packets)).2.0 ≡ 13 ∷ 14 ∷ []
unfolding read_data read_loop read_round unpack move_chunks memmove
run_keeps_what_is_left = refl

read_data-Streams_example :
    Streams 4 (9 ∷ []) (open_chip, three_packets) (read_data 4 (open_chip, three_packets))
read_data-Streams_example = read_data-Streams 4 open_chip three_packets refl (omega arith)

-- 115200 baud on the three kinds of chip.
run_baud_h : convert_baudrate (pos 115200) open_chip ≡ some (115246, 0xc068, 0x0201)
unfolding convert_baudrate to_clkbits encode_divisor
run_baud_h = refl

set_baudrate-Accepted_example :
    Refused open_chip (set_baudrate (pos 9600) (open_chip, three_packets))
    ⊎ Accepted
        (pos 9600)
        (open_chip, three_packets)
        (set_baudrate (pos 9600) (open_chip, three_packets))
set_baudrate-Accepted_example =
    set_baudrate-Accepted (pos 9600) open_chip three_packets (omega arith)

-- A transfer that takes two bytes only, and one that takes the rest.
abbrev slow_writes : Usb
slow_writes = record three_packets { write_answers = some 2 ∷ [] }

write_data-Sends_example :
    Sends 3
      (7 ∷ 8 ∷ 9 ∷ [])
      (open_chip, slow_writes)
      (write_data (7 ∷ 8 ∷ 9 ∷ []) (open_chip, slow_writes))
write_data-Sends_example =
    write_data-Sends (7 ∷ 8 ∷ 9 ∷ []) open_chip slow_writes refl (omega arith)

-- A 2232H that opens, and is configured already.
abbrev hi_speed : UsbDevice
hi_speed = record {
  opens = true;
  descriptor = some (record { num_configurations = 1; bcd_device = 0x700; serial_index = 3 });
  config = some (record { configuration_value = 1; interfaces = ((512 ∷ 512 ∷ []) ∷ []) ∷ [] });
  detach_errno = 0;
  configuration = some 1;
  configures = true;
  claims = true;
  releases = true;
}

abbrev nothing_held : Held
nothing_held = record { contexts = 1; handles = 0; claimed = false }

usb_open_dev-OpenEnds_example :
    let (r, s) =
      usb_open_dev hi_speed (record open_chip { is_open = false }, three_packets, nothing_held) in
    OpenEnds nothing_held (r, s) × (free s ≡ record nothing_held { contexts = 0 })
usb_open_dev-OpenEnds_example =
    usb_open_dev-OpenEnds hi_speed (record open_chip { is_open = false }) three_packets nothing_held
      refl refl
