-- ===== src/Requests/Tests.antt =====
-- Runs of requests on the bench.
use fpga_device_server.Common.{List, [], ◌∷◌}
use fpga_device_server.Bench.{
  Wire, Bus, wire_link, bus_ftdi, bus_host, empty_manager, Item, num, text, call,
}
use fpga_device_server.Manager.{Manager, usb_device_added}
use fpga_device_server.Requests.Replies.{Replies}

-- ["readraw", "A\\x01", 2]
abbrev raw_request : Item
raw_request = call (114 ∷ 101 ∷ 97 ∷ 100 ∷ 114 ∷ 97 ∷ 119 ∷ []) (65 ∷ 1 ∷ []) (2 ∷ [])

abbrev raw_args : List Item
raw_args = text (114 ∷ 101 ∷ 97 ∷ 100 ∷ 114 ∷ 97 ∷ 119 ∷ []) ∷ text (65 ∷ 1 ∷ []) ∷ num 2 ∷ []

-- A board is there.
abbrev one_board : Manager Wire Bus
one_board = usb_device_added wire_link bus_ftdi bus_host 1 empty_manager
