-- ===== src/Protocol.antt =====
-- internal/protocol: the wire format. A byte is a number below 256.
pub mod Bytes
pub mod Message
pub mod Encode
pub mod Decode
pub mod Frame
pub mod RoundTrip
pub mod Faults
pub mod Stream
mod Tests
