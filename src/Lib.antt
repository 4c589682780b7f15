-- ===== src/Lib.antt =====
-- A model of the FPGA device server and the theorems that make it correct.
--
-- The server lets clients on the network use FPGA boards that hang on USB through FTDI chips. A client
-- sends msgpack messages over TCP; each is a command for one board, known by its serial number, and is
-- answered by one packet. Boards come and go; their watched registers are polled, and changes are told
-- to all clients. A board that is plugged in can be programmed through JTAG first.
--
-- The parts, from the wire up, and the files that model them:
--   * Tap and IoBase: the states of the JTAG controller (src/devices/xc3sprog/jtag.h, jtag.cpp) with the
--     table of IEEE 1149.1, and the cable's base class (src/devices/xc3sprog/iobase.h, iobase.cpp), whose
--     buffer of TMS bits is sent before anything else is clocked. Calls that reach the cable are events
--     of a log, so that the TMS bits that the controller has seen can be read off it.
--   * Jtag: class Jtag. Each method is a function on its state: set_tap_state is setTapState, shift_dr_data
--     and shift_ir_data are shiftDR and shiftIR, get_chain is getChain, and so on.
--   * Protocol and Device: class Device (src/devices/Device.h, Device.cpp), with the register protocol and an
--     independent reader of it. A method is an action that changes the device and may throw; the loops
--     of writeRegN and readRegN are write_packets and read_packets. Device.Handle is open and close.
--   * Manager: class DeviceManager (src/devices/DeviceManager.h, DeviceManager.cpp), over a heap of devices,
--     since both of its maps point to the same objects.
--   * Requests: class DeviceRequestHandler (src/DeviceRequestHandler.h, DeviceRequestHandler.cpp). The reply
--     is the list of the calls of the packer, or none where a call does not come back.
--   * Connection and Server: classes ClientConnection, ConnectionManager and Server (src/network). What asio
--     runs, and in which order, is a relation of steps, and the theorems hold for every order.
--   * Ftdi: the fork of libftdi (src/libftdi/ftdi.c, ftdi.h). Ftdi has the context and the control requests,
--     Ftdi.Transfer the buffered reads and writes, Ftdi.Baud the baud rates, Ftdi.Open the opening
--     and closing of a device.
--   * IoFtdi: class IOFtdi (src/devices/xc3sprog/ioftdi.h, ioftdi.cpp), the cable behind IoBase: tx_tms, txrx_block,
--     usleep_cable and the buffer of commands, with a reader of the MPSSE's commands in IoFtdi.Mpsse that
--     says which bits they clock.
--   * BitFile: class BitFile (src/devices/xc3sprog/bitfile.h, bitfile.cpp, bitrev.cpp): read_bitfile is
--     readBitfile and save_bit is saveAs with STYLE_BIT.
--   * Programmer: classes ProgAlgXC3S and DeviceProgrammer (src/devices/xc3sprog/progalgxc3s.h,
--     progalgxc3s.cpp, src/devices/DeviceProgrammer.h, DeviceProgrammer.cpp). Programmer.Script has the
--     script of instructions, data and clocks that array_program is compared with.
--   * UsbService: class libusb_service and its watchers (src/libusb_asio). What libusb and asio do, and in
--     which order, is a relation of steps over a heap of watchers.
--   * Common: numbers, lists, maps, and the effect of code that changes a state and may throw. Bench: the
--     data that tests run on.
--
-- Code that the models take as parameters, with what is relied on as laws: libftdi's transfers (Link)
-- and handles (Ftdi), the USB strings and the programmer (Host), msgpack's conversions (Msgpack) and its
-- unpacker (Unpacked), and the socket, of which a write takes no more bytes than it is given.
--
-- Loops run on fuel where they are not structural, and the theorems show that it is enough: nine rounds
-- for setTapState (eight moves reach every state, and one more resets an unknown one), one round more
-- than there are bytes or words for the transfers of Device, as many rounds as bits for IOBase::shift.
-- A read of libftdi has a round more than bytes asked for, a write one more than answers of libusb and
-- bytes together.
-- Reading a bit file has two rounds more than bytes after the header, of which each round takes one at
-- least or meets the end; the loops of the cable send a bit at least in each round, and readusb has its
-- thousand tries. The wait for a cleared configuration has no limit in the code, so array_program takes its
-- fuel as an argument, and its result has a case for a device that has not answered.
-- The wait for an answer has the hundred rounds of the code.
--
-- Not modelled: the JSON parser (src/config/json11.cpp) and the streaming of libftdi, which belong to
-- other projects; finding devices, the EEPROM and the asynchronous transfers of libftdi; the
-- initialisation of the cable and the variant for the FTD2XX library; the formats of bit files that nothing
-- reads; the hotplug callbacks of the libusb service; Config and the main program; texts on the consoles.
pub mod Common
pub mod Tap
pub mod IoBase
pub mod Jtag
pub mod Protocol
pub mod Device
pub mod Connection
pub mod Server
pub mod Manager
pub mod Requests
pub mod Bench
pub mod Ftdi
pub mod BitFile
pub mod IoFtdi
pub mod Programmer
pub mod UsbService
