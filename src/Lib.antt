-- ===== src/Lib.antt =====
-- neptun is a protocol for games over UDP. This library models its core and proves what makes it
-- correct.
--
-- The parts of the program and the files that model them:
--
-- - network/io_buffer.h (IoBuffer) and common/types.h (byte_span, advance): Io.antt. A span is a list
--   of numbers, one for each byte. A call that writes returns the span after it. Big-endian encoding
--   and its laws are in Io/Encode, Io/Fields and Io/RoundTrip; Io/BitFields is about
--   fields of bits.
-- - neptun/messages/*.h and network/message.h: Messages.antt and one file for each message.
--   `write` returns the buffer after it and the span of what it has written; `encoding` is the bytes
--   that it writes. Messages/RoundTrip is about `write` and the getters together.
-- - common/errors.h and neptun/error.h: Errors.antt.
-- - neptun/packet_delivery_manager.h and neptun/common.h: PacketDelivery.antt. The state is the
--   record PacketDeliveryManager; `write`, `process_read` and `drop_old_packets` are its operations.
--   Acks, Timeouts, Outgoing and Msb are about one operation each, History about any sequence of
--   them.
-- - common/flip_buffer.h: FlipBuffer.antt, with its laws in FlipBuffer/Laws, and in
--   FlipBuffer/Filling what a client does with the span of `remaining`.
-- - neptun/reliable_stream.h: ReliableStream.antt, with `on_packet_delivery_status`, `read`, `write`
--   and `send`. ReliableStream/Invariant has the invariant; Statuses, Sending (with Shifting and
--   Flipping), Packing (with Writing and Fitting), Packets, Reading and Ordering are about the
--   operations.
-- - neptun/connection_manager.h: Connection.antt, with `connect`, `read`, `write` and
--   `on_packet_status_delivery`; Connection/Statuses is about statuses, Handshake about what is read
--   of a handshake, and Agreement about its bytes as they are written, cut and overwritten.
-- - neptun/unreliable_stream.h: UnreliableStream.antt, with `read`, `write` and `send`;
--   UnreliableStream/Reading, Writing, Packets and Segments are about the first two, Sending
--   about the third.
-- - common/ticker.h: Ticker.antt; Ticker/Phase is about sequences of ticks. Durations are signed
--   numbers, of Common/Int, since a clock may go back.
-- - network/ip_address.h: IpAddress.antt, with the text in IpAddress/Text and the comparisons in
--   IpAddress/Order. IpMap.antt is the `std::map` with these keys.
-- - network/udp_socket.h: UdpSocket.antt, over a network that is a record of operations on a state
--   (Network.antt, with the types of network/network.h that networks share).
-- - network/fake_network.h: FakeNetwork.antt, a network in that sense; FakeNetwork/Binding and Sockets
--   are about sockets and their addresses, Steps and Delivery about packets.
-- - common/metrics.h and neptun/neptun_metrics.h: Metrics.antt, counters by any type of keys, with
--   those of Neptun; network/network_metrics.h: NetworkMetrics.antt.
-- - network/network.h, `OsNetwork`: OsNetwork.antt, over a record of the system calls;
--   OsNetwork/Calls is about what its operations make of the calls' results.
-- - neptun/format.h: Format.antt, the text of a packet. Format/Packets is about well-formed packets
--   and about handshakes, Format/Ends about any payload.
-- - neptun/pcap/main.cc and file_format.h: Pcap.antt, with the headers of a datagram in Pcap/Headers.
--   Datagram and Records are about one record, Files about whole files, Ends about any file.
-- - neptun/neptun.h: Neptun.antt has the state, the peers and what the statuses of packets do to
--   them, Neptun/Reading has `read`, and Neptun/Writing has `write`, `tick` and the constructor.
--   Packets, Delivery and Exchange are about a packet between two peers, Greeting and Misread about
--   one with a handshake, OverNetwork about one between two instances over the fake network, Peers
--   about the map of the peers, Stale about packets that are given up, Rate about the rate of
--   packets and Statuses about the statuses. Printing is about the text of a packet that is written.
--
-- How they interact: a packet is a PacketHeader, which PacketDeliveryManager writes and reads, and
-- behind it the segments of the managers, each read and written in turn from the rest of the span.
-- PacketDeliveryManager turns the acks of a header into statuses of packets sent, and ReliableStream
-- and ConnectionManager get each of these. For the stream an ACK frees the messages of that packet,
-- and a DROP makes them pending again. Neptun keeps these parts for each peer: `tick` first drops old
-- packets, then reads one packet from the network and passes it through the parts in turn, then
-- writes a packet to each peer whose Ticker is due.
--
-- How the code is modelled: `Outcome` is a result or a fault. A fault stands for a failed assertion
-- and for undefined behaviour (an access outside a span, a range that ends before it begins, a shift
-- by too much, a loop that never ends). Loops that count are recursion on the rounds left, loops
-- over a queue are recursion on the queue, and these need no fuel. The two loops whose rounds the
-- data do not bound at once, over the segments of a payload and over the records of a file, have a
-- number of rounds; as many as there are bytes, and one more for a file, are enough, as Format/Ends
-- and Pcap/Ends show. Numbers are native; a field of w bits keeps its wrap-around as `% 2 ^ w`, and
-- a subtraction stands behind the test that keeps it from wrapping. Sizes and indices of spans,
-- which are 64 bits wide, do not wrap. The queues are lists, the front first. Times are nanoseconds.
-- The callback of `send` is a function from the free span to what it writes at its start; the
-- callback of `read` is modelled by the list of what it is given. A network is passed on as a state;
-- an exception, which nothing in the code catches, is a fault as well. The vector that Neptun reads
-- into and writes from is one list, so bytes of earlier packets stay behind those of the present
-- one.
--
-- Not modelled: the printing of metrics, which converts them to floating-point numbers, OsNetwork on
-- Windows, the arguments of the programs, the examples and the tests, which are input, output and
-- support; lines on the standard error; the overflow of 64-bit durations. `std::stoi`,
-- `std::to_string`, `std::map` and `std::find_if` are modelled as far as the code uses them.
pub mod Common
pub mod Errors
pub mod Ticker
pub mod IpAddress
pub mod IpMap
pub mod Network
pub mod NetworkMetrics
pub mod OsNetwork
pub mod UdpSocket
pub mod FakeNetwork
pub mod Metrics
pub mod Neptun
pub mod Io
pub mod Messages
pub mod PacketDelivery
pub mod FlipBuffer
pub mod Format
pub mod Pcap
pub mod ReliableStream
pub mod Connection
pub mod UnreliableStream
