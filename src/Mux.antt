-- ===== src/Mux.antt =====
-- common/mux/mux.go: the multiplexer of one TCP connection. The bytes on the wire are in Frame, the
-- state of the two ends and their operations in Channel and Multiplexer.
pub mod Frame
pub mod RoundTrip
pub mod Write
pub mod Channel
pub mod Flow
pub mod Progress
pub mod Read
pub mod Multiplexer
pub mod WriteLoop
pub mod WriteAccount
pub mod WriteOrder
mod Tests
mod TableTests
