-- ===== src/Lib.antt =====
-- pdn-libax25: native AX.25 for unmodified Linux ham-radio programs, over the RHPv2 protocol.
--
-- The program is three crates. crates/libax25 is a C library: callsigns and their 7-byte shifted
-- form (src/addr.rs) and the configuration files (src/config.rs). crates/rhpv2 is the client of the
-- node: a framed JSON protocol over one TCP stream, a reader thread that answers the waiting
-- requests and hands the node's pushes to an event sink, and the tables that connecting and
-- accepting callers wait on. crates/ax25-interpose is preloaded into the program: it backs an
-- AF_AX25 socket by a socketpair, and pumps carry what the node sends into the program's end of it.
--
-- Which file models which part:
--   Prelude and below: Boolean tests, lists, byte strings, UTF-8 white space, hash maps as
--     association lists (Tables), errno numbers.
--   Callsign, Callsign/*: crates/libax25/src/addr.rs. `encode_entry`, `decode_entry`, `cmp_entry`,
--     `validate_entry` and `scan_int` (Callsign), `fill_sax` and `ax25_aton` (Callsign/Path);
--     Callsign/Wrappers: the C functions over them. Entry, Scan, RoundTrip, Accept, Compare, Panics
--     and Slots hold the proofs.
--   Rose, Noops: crates/libax25/src/stubs.rs, the ROSE addresses and the exports without effect.
--   Axports, Axports/*: crates/libax25/src/config.rs. `parse_axports` (Axports), the loaded table
--     and the `ax25_config_*` functions (Axports/Loaded), `parse_calls` and `get_call`
--     (Axports/Uids).
--   Rhp/Wire: crates/rhpv2/src/framing.rs, codec.rs and errors.rs. Rhp/Frame, Rhp/Requests:
--     messages.rs. Rhp/Registry, Rhp/Reader, Rhp/Buffering: the registries, the reader thread and
--     `BufferingSink` of client.rs. Rhp/Client and below: the requests of `RhpClient` over the
--     state that the reader shares; Rhp/Client/Ids: the ids of the requests of all threads.
--   Interpose/RecvPump, Interpose/DgramPump: the two pumps of crates/ax25-interpose/src/state.rs
--     that deliver received data; RecvPump/Flusher: `flusher_loop`; RecvPump/Handles, Own
--     and Ends: the pump as it is seen from one handle, with the order of what is done to its
--     socket. Interpose/Outbound: its connect gates and the pump
--     for written data. Interpose/EventSink: `InterposeSink`, the sink that the reader thread
--     calls, and Interpose/Arrival: the reader thread with this sink, from the RHP stream to the
--     socketpair. Interpose/Sockaddr: its addr.rs, with what it writes to the application in
--     Sockaddr/Writing. Interpose/Sockets: the table of descriptors (state.rs), and the socket
--     options and UI datagrams of lib.rs. Interpose/Session and below: the calls bind, listen,
--     connect (Calls), accept, getsockname, getpeername, close (Accept), and those that carry data
--     (Transfer) of lib.rs on one state, which joins the table of descriptors, the RHP client and,
--     as the state of its sink, the pumps. Interpose/Session/Ordered: `ax25_send` and the
--     background pump for written data over that client. Interpose/Race: a non-blocking connect
--     against the reader thread.
--
-- How the code is read. A `&str`, a `&[u8]` and a C string are the lists of their bytes. A method
-- that holds a lock is a function on what the lock guards, and concurrent calls are sequences of
-- such steps (`Event`, `Call`). What the kernel, the node or the file system answers is an input.
-- Signed machine integers are carried as their bit pattern, with the remainder of each operation
-- that wraps in the release profile written out. A panic is an outcome of its own (`Outcome`).
--
-- Parameters: the JSON parser and serializer (serde_json's), the event sink of the reader thread,
-- what the reader does while a request waits (`during`) or at each wake-up of a waiting call
-- (`turns`), the environment variables and the files, the UTF-8 check of the standard library,
-- libc's results, the padding of a C struct, and the acts of other threads where a lock is released
-- in between.
--
-- Fuel: `reader_loop` takes a frame of at least two bytes in each turn, so that a turn for each
-- byte of the stream and one more is enough. `chunks` takes a byte at least in each round, so that
-- a round for each byte is enough. The rounds of `flusher_loop` are a list of the answers that they
-- get; one round more than the longest backlog has bytes is enough for it to come to rest.
--
-- Not modelled: the symbol lookup of real.rs, and select and poll of lib.rs, which only call libc.
-- A TCP stream is the bytes written to it: how the stream is opened and its threads are started is
-- left out. The threads' wake-ups (condition variables, `poll` with a time-out) appear only as the
-- turns of the calls that wait.
--
pub mod Prelude
pub mod Callsign
pub mod Rhp
pub mod Interpose
pub mod Axports
pub mod Rose
pub mod Noops
