-- ===== src/Manager/Tests.antt =====
-- Runs of the manager on the bench.
use fpga_device_server.Common.{arith}
use fpga_device_server.Bench.{Wire, wire_link, Bus, bus_ftdi, bus_host, empty_manager}
use fpga_device_server.Manager.{
  Manager, usb_device_added, usb_device_removed, periodic_register_updates,
}
use fpga_device_server.Manager.Same.{IsManager}
use fpga_device_server.Manager.Adding.{usb_device_added-IsManager}
use fpga_device_server.Manager.Removing.{
  usb_device_removed-IsManager, periodic_register_updates-IsManager,
}

empty-IsManager : IsManager empty_manager
empty-IsManager = record {
  by_serial = λ s p e. absurd (ground arith);
  by_device = λ d p e. absurd (ground arith);
}

abbrev one_device : Manager Wire Bus
one_device = usb_device_added wire_link bus_ftdi bus_host 1 empty_manager

usb_device_added-IsManager_example : IsManager one_device
usb_device_added-IsManager_example =
    usb_device_added-IsManager wire_link bus_ftdi bus_host 1 empty_manager empty-IsManager

one_device-IsManager : IsManager one_device
one_device-IsManager =
    usb_device_added-IsManager wire_link bus_ftdi bus_host 1 empty_manager empty-IsManager

usb_device_removed-IsManager_example :
    IsManager (usb_device_removed wire_link bus_ftdi bus_host 1 one_device)
usb_device_removed-IsManager_example =
    usb_device_removed-IsManager wire_link bus_ftdi bus_host 1 one_device one_device-IsManager

periodic_register_updates-IsManager_example :
    IsManager (periodic_register_updates wire_link bus_ftdi bus_host one_device)
periodic_register_updates-IsManager_example =
    periodic_register_updates-IsManager wire_link bus_ftdi bus_host one_device one_device-IsManager
