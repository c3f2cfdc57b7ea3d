-- ===== src/Lib.antt =====
-- usbip-python: virtual USB devices and host drivers over USB/IP.
--
-- The program has a pure core of USB types (usbip/core.py), a device core whose endpoints are byte
-- pipes between the program and the URB handler (usbip/device.py), the USB/IP wire protocol
-- (usbip/protocol.py), transports that own the sockets (usbip/transport.py), and device and host
-- classes on top. The device side serves a connection by reading URBs from the wire, handing each
-- to the device, and writing replies, at once or when data arrives for a parked URB.
--
-- Files:
-- Base: native numbers, lists, integers, the option monad.
-- Struct: Python's struct (B, H, I, i in both byte orders); a value out of range raises.
-- Core: usbip/core.py. Setup and the descriptor modules are the classes of the same name, with
--   pack and parse; Walk is iter_descriptors; Text has the string descriptors; Decode the
--   decoding of UTF-8; MsOs the Microsoft OS descriptors; Bos the BOS and WebUSB ones; Lengths their
--   length fields; Urb the record.
-- Endpoint: class Endpoint of usbip/device.py. Each method is a function on the record; callbacks that
--   run after the lock is released are the list of completions. Run is a sequence of operations.
-- Device: class USBDevice of usbip/device.py. State has the device's state and the profile that the
--   program set up; EpMap the dict of endpoints; Routing route_endpoint; Config the device and
--   configuration descriptors; Vendor string, BOS, Microsoft OS and WebUSB descriptors; Control
--   endpoint 0; Transfer handle_urb and cancel_urb. Handlers and callbacks of the classes above are
--   functions on the state, which may answer, stall, or raise. Build has the methods that set a device up,
--   and Conflicts the check of plug().
-- Protocol: usbip/protocol.py. Socket is a stream in segments, and _recvall; Io the actions on it
--   that may raise; Header, RetHeader and IsoPackets the wire formats; Command the requests (read_cmd,
--   the sending half of client_submit); Reply the replies (write_ret, the reading half).
-- Serve: serve_connection of usbip/protocol.py. UsbDevice is the description of a device on the
--   wire; Handshake the operation phase of both sides; the rest the loop over URBs. A Round is what
--   the program does between two commands, and the clock; replies of callbacks go out in their order.
-- Transport: class _Listener of usbip/transport.py, the devices that are exported together.
-- Function: usbip/function.py, interfaces and functions, and how they are attached to a device.
-- Msc: class MSC of usbip/classes/device/msc.py. Pages builds what the commands return, Scsi is
--   _dispatch, Bot the transport; what the class does to its endpoints is a list of calls. The store
--   that the application supplies is a parameter.
-- Dfu: class DFU of usbip/classes/device/dfu.py, its state and its requests. Transfer is the host that
--   downloads and uploads an image; the target that the application supplies is a parameter.
-- HostMsc: usbip/classes/host/msc.py, the host's driver over a handle that is a parameter; Loop is the
--   handle whose transfers meet the device class of Msc.
-- Mtp: usbip/classes/device/mtp.py, the Media Transfer Protocol over backends that the application
--   supplies. Encode has the strings and datasets; Names compares names and finds formats; Storage is class
--   MtpStorage, its walk and rescan, with Query for what is read and Edit for what is changed; Machine is
--   class MTP: Datasets and ObjectProps are the builders, Execute is what _dispatch does for each
--   operation, Receive the handlers of data-out phases, Bulk is on_out. What a handler calls to answer is a
--   list of acts, its Outcome, which conclude performs in order. An exception is the end of a run, and
--   what it leaves half done is not kept. Texts of events are left out; times are whole seconds; the local time, MD5
--   and how deep calls may nest are of the Platform.
-- HostMtp: usbip/classes/host/mtp.py, the host's driver over a handle that is a parameter; Operations are
--   its methods, Datasets the readers, Containers the pipe between it and the class.
-- Tests: runs and instances.
--
-- Bounds and fuel: iter_descriptors has the blob's length as fuel and _recvall the wanted count and
-- one; a walk with more fuel is the same (iter_from_fuel), and _recvall is shown to answer for
-- every stream. Python integers that a format packs are natural numbers, but for the signed fields.
-- The host of Dfu.Transfer counts blocks by fuel, 65535 at most, since wValue has 16 bits. The flag that
-- a device is composite is taken when a function is attached: set_composite comes before every add.
-- The loop of MtpStorage.descendants has one round per object and one more as fuel: an object is pushed
-- when its parent is popped, and has one parent. _walk and _copy_tree nest as deep as the Platform lets
-- them, and raise beyond.
-- The host of HostMtp reads a header in 12 rounds and a body in as many as it has bytes, since an empty
-- read raises; how many containers it waits for is given.
-- Times are whole microseconds, and the monotonic clock is an argument.
--
-- Not modelled: threads beyond the atomic steps of an endpoint, the pacer's thread, blocking reads,
-- capture (usbip/pcap.py), debug output, sockets that fail, the text of log lines, and the other
-- classes over the core.
pub mod Base
pub mod Struct
pub mod Core
pub mod Endpoint
pub mod Protocol
pub mod Device
pub mod Serve
pub mod Transport
pub mod Msc
pub mod Dfu
pub mod Function
pub mod HostMsc
pub mod HostMtp
pub mod Mtp
pub mod Tests
