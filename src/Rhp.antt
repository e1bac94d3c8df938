-- ===== src/Rhp.antt =====
-- The rhpv2 crate: crates/rhpv2/src. Framing, codec and error codes of the wire (Wire), the frames that
-- the server sends (Frame) and the requests that it is sent (Requests), the registries of connects and
-- accepts that callers wait on (Registry), the reader thread that feeds them (Reader), the sink that keeps
-- what it is told (Buffering), and the client that makes the requests (Client).
pub mod Wire
pub mod Frame
pub mod Registry
pub mod Reader
pub mod Requests
pub mod Client
pub mod Buffering
