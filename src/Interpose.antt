-- ===== src/Interpose.antt =====
-- The ax25-interpose crate: crates/ax25-interpose/src.
pub mod RecvPump
pub mod Arrival
pub mod EventSink
pub mod Outbound
pub mod Sockaddr
pub mod Sockets
pub mod DgramPump
pub mod Race
pub mod Session
