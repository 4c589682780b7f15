-- ===== src/IoBase/Tests.antt =====
-- Runs of the cable's buffer.
use fpga_device_server.Common.{true, false, []}
use fpga_device_server.IoBase.{Io, io_init, set_tms, shift}
use fpga_device_server.IoBase.Wire.{io_init-IsBuffer, wire-set_tms}
use fpga_device_server.IoBase.Blocks.{Clocked, shift-Clocked}
use fpga_device_server.IoBase.Wire.{block_clocks}

abbrev io0 : Io
io0 = io_init []

shift-Clocked_example :
    Clocked (set_tms io0 true) (block_clocks 2000 true) (shift (set_tms io0 true) false 2000 true)
shift-Clocked_example =
    shift-Clocked (set_tms io0 true) false 2000 true (wire-set_tms io0 true (io_init-IsBuffer [])).0
