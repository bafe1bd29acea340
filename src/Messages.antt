-- ===== src/Messages.antt =====
-- neptun/messages: the layouts of the messages. `write` returns the span's bytes after it, with
-- the span that it returns; a getter takes the span that the message was made from.
pub mod PacketHeader
pub mod Segment
pub mod MessageHeader
pub mod LetsConnect
pub mod RejectLetsConnect
pub mod ReliableMessage
pub mod UnreliableMessage
pub mod Ping
pub mod RoundTrip
pub mod Tests
