-- ===== src/Lib.antt =====
-- twinleaf-rust: the tio protocol of Twinleaf sensors, the ports that carry it, the proxy that
-- shares a device between clients, the parser of its samples, and the logs and the upload of
-- firmware of the command line tool.
--
-- A tio packet is a header of four bytes, a payload, and a route of at most eight hops behind it.
-- The crate twinleaf parses and serialises packets (twinleaf/src/tio/proto.rs and the files under
-- twinleaf/src/tio/proto), moves them over TCP, UDP and serial lines (twinleaf/src/tio/port.rs and
-- the files under twinleaf/src/tio/port), and passes them between one device and many clients
-- (twinleaf/src/tio/proxy.rs and proxy_core.rs). A client that reads samples asks the device for
-- its metadata over RPCs (twinleaf/src/data/mod.rs).
--
-- Shared and its children hold the result type, list lemmas, Boolean tests, little-endian words and
-- association lists. Text is String::from_utf8_lossy: texts are lists of bytes.
--
-- Proto models proto.rs and its children. Proto/Limits has the constants and `Error`, Proto/Header
-- `TioPktHdr` and `TioPktType`, Proto/Packet `Packet`, Proto/Payload `Payload`, one file per
-- payload for the rest; Proto/Frame is the header and size check that every payload writes.
-- Proto/Vararg is proto/vararg.rs, Proto/Route proto/route.rs, Proto/Rpc proto/rpc.rs, Proto/Meta
-- proto/meta.rs, Proto/Updates its `make_update`, Proto/LegacyInfo and Proto/LegacyStreamData
-- proto/legacy.rs. Each parser is `deserialize`, with the bytes of the payload and the whole buffer
-- that errors carry, each serialiser `serialize`. `Err(())` is `err tt`.
--
-- Port/IoBuf is `IOBuf` of port/iobuf.rs: a buffer of 4096 bytes with a start and an end. Port/Tcp
-- is the port of port/tcp.rs over two such buffers, Port/Udp that of port/udp.rs, Port/Serial that
-- of port/serial.rs, with its sending half in Port/Serial/Sender. The CRC32 of a serial frame is a
-- parameter, a function from bytes to 32 bits; so are the readings of the clock. Sockets are
-- parameters: a reader maps the room that it is given to bytes or an error, a writer maps the bytes
-- that it is offered to the number taken or an error. `IsReader` and `IsWriter` say that neither
-- exceeds what it was given.
--
-- Port/Url is the url of `Port::new` in port.rs and in port/serial.rs, with `find_addr`, whose
-- resolver is a parameter. Port/Poller is one round of `Port::poller_thread`, over any raw port, a
-- record of operations that may panic (`none`): `before_poll` is what is done before the poll and
-- `after_poll` what is done with the events, `check_tx` and `tx_loop` read the channel of packets
-- to send. Port/Channel is what the users of a port call.
--
-- Util has the packets that `PacketBuilder` of tio/util.rs makes, and Util/Values its typed
-- arguments and replies: the traits are records of functions, and a floating point number is its
-- bits.
--
-- Proxy/Client, Proxy/Rpcs, Proxy/Rates and Proxy/Core model tio/proxy_core.rs. Proxy/Client is
-- `ProxyClient`, whose channel is a function from the packet to the answer of `try_send`;
-- Proxy/Rpcs is the part of `ProxyCore` that knows the RPCs in flight, with `dispatch_rpc_errors`
-- in Proxy/Rpcs/Dispatch; Proxy/Rates is the negotiation of the data rate, where the comparison in
-- floating point is a parameter. Proxy/Core is `ProxyCore` with its main loop: Proxy/Core/Handlers
-- has what is done with packets of the device and new clients, Proxy/Core/Rounds what a round does
-- before it waits, the packets of a client, and the rounds of `run`, each with one time, what the
-- selector found ready, and what that channel holds. `Outside` is what the channels and the port
-- answer, anew in every round; events and delivered packets are collected in the state. An event
-- that the status queue does not take is a panic. The steps on the maps alone, in Proxy/Rpcs and
-- Proxy/Rates, return no events: those are sent by the functions of Proxy/Core that use them
-- (`remap_event`, `answer_all`, and `negotiate`, `internal_reply` and `internal_error` with the
-- lists of Proxy/Rates/Events). Hash maps are association lists, whose order is left open, and the
-- B-tree of timeouts is a list that is kept sorted.
--
-- Proxy/Event is `Event` of tio/proxy.rs, Proxy/Port its `Port`, a client with its calls, and
-- Proxy/Interface the making of ports. A channel is the finite list of what arrives on it, behind
-- which it counts as disconnected, so that a receive that waits for ever is not represented: what
-- is said of the end of a loop over a channel is said for such a list.
--
-- Data models data/mod.rs: Data/Requests the metadata requests and their packing into RPCs,
-- Data/Metarep the parsing of replies, Data/Column and Data/Stream columns, samples and
-- `DeviceStream`, Data/Parser `DeviceDataParser`, and Data/Device `Device` over its proxy port.
-- Data/Equal is the derived equality of metadata, and Data/Stop how a function ends that returns
-- nothing.
--
-- Tool models the core of twinleaf-tools/src/bin/tio-tool.rs: Tool/Log the bytes of a log and the
-- loop of `log_dump`, Tool/Firmware the upload of `firmware_upgrade`, whose loop is `upload_loop`
-- and a round of it `step`.
--
-- A panic is `none`, or `err panicked` where a function has another end as well (Data/Stop, the
-- exit of the poller, the end of the main loop). In Data and Tool an overflow of the source is a
-- panic too; elsewhere numbers are unbounded, also the sums of times, and where the source casts,
-- the model takes the remainder. The parsers of Proto index and slice with total functions: out of
-- range a byte is zero and a slice short, where the source would panic, so nothing is said of such
-- a panic there. Fuel: that of from_utf8_lossy, of the decimal printer, of the packing of requests
-- and of the parsing of replies is the length or size of the argument, which every step shortens.
-- The loop over samples has the length of the data, which is enough for samples of at least one
-- byte, and the loops that wait for a packet one step more than there are arrivals, as has the
-- upload. Reading a log has the length of the file, since a packet takes a byte at least. How often
-- the poller receives in a round is an argument, as the port may go on for ever.
--
-- Floating point numbers do not occur in what is modelled but as their bits, and in the comparison
-- of rates, which is a parameter. Not modelled: opening of sockets and serial lines, the
-- registration with mio, the start of threads, the inside of channels and selectors, the timestamps
-- of samples, and the rest of the tools (twinleaf-tools).
pub mod Shared
pub mod Text
pub mod Proto
pub mod Port
pub mod Util
pub mod Proxy
pub mod Data
pub mod Tool
