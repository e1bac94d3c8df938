-- ===== src/Interpose/Session/Transfer.antt =====
-- The exported calls of crates/ax25-interpose/src/lib.rs that carry data: write, send and sendto, read, recv
-- and recvfrom, with `ax25_dgram_send` and `ax25_dgram_recv` behind them. `real` is what libc does for the
-- descriptors that it serves.
pub mod Datagrams
mod Tests
use pdn_libax.Prelude.{
  ℕ, Bool, true, false, ◌||◌, List, [], ◌∷◌, Option, none, some, if◌then◌else◌, length, Bytes,
  Table,
}
use pdn_libax.Prelude.Errno.{eio, ebadf}
use pdn_libax.Rhp.Frame.{Value}
use pdn_libax.Rhp.Client.{RhpResult, given, failed, Conn, to_errno}
use pdn_libax.Rhp.Client
use pdn_libax.Interpose.DgramPump.{Line}
use pdn_libax.Interpose.EventSink.{Pumps}
use pdn_libax.Interpose.Sockaddr.{Sockaddr, read_call}
use pdn_libax.Interpose.Sockaddr.Writing.{OutAddr, write_call}
use pdn_libax.Interpose.Sockets.{FdState, Reply, returned, failed_with, has_fd, dgram_of}
use pdn_libax.Interpose.Sockets.Payload
use pdn_libax.Interpose.Sockets.Payload.{
  Tried, ready, refused, Outgoing, sends, stops, outgoing, Incoming, recv_turn,
}
use pdn_libax.Interpose.Session.{Session, Env, on_pumps, on_net, fd_of, ensure_client, ensure_dgram}
use pdn_libax.Interpose.Session.Accept.{remote_of, write_peer}
use pdn_libax.Interpose.Session.Ordered.{ax25_send}

-- The destination of a `sendto`: `none` for NULL, else what `read_call` finds.
abbrev pub destination : Option (Sockaddr × ℕ) → Option (Option Bytes)
destination none = none
destination (some (sa, len)) = some (read_call (some sa) len)

-- What a reading call gives: its result, `none` while it waits, the bytes, and the source address.
pub record Received : Type 0 where
  pub reply : Option Reply
  pub bytes : Bytes
  pub source : OutAddr
  pub after : Session

abbrev pub pidincl_of : Option FdState → Bool
pidincl_of none = false
pidincl_of (some f) = f.pidincl

-- The end of `ax25_dgram_recv`.
abbrev pub received : Bytes → OutAddr → Payload.Incoming → Session → Received
received pad out (Payload.given bytes source) s = record {
  reply = some (returned (length bytes));
  bytes = bytes;
  source = write_call pad source out;
  after = s;
}
received pad out Payload.ended s = record {
  reply = some (returned 0);
  bytes = [];
  source = out;
  after = s;
}
received pad out (Payload.failed e) s = record {
  reply = some (failed_with e);
  bytes = [];
  source = out;
  after = s;
}

abbrev pub on_dgrams : Table Line → Session → Session
on_dgrams m = on_pumps λ p. record p { dgrams = m }

abbrev pub dgram_turn :
    Bytes → OutAddr → Option Incoming × Table Line → Session → Received → Received
dgram_turn pad out (some incoming, m) s later = received pad out incoming (on_dgrams m s)
dgram_turn pad out (none, m) s later = later

-- The loop of `ax25_dgram_recv`; `turns` is what the reader does up to each time that `poll` returns.
unfoldable pub dgram_loop :
    Bytes → OutAddr → ℕ → Bool → Bool → ℕ → List (Conn Pumps → Conn Pumps) → Session → Received
unfolding recv_turn write_call
dgram_loop pad out h pidincl nonblock len [] s =
    dgram_turn pad out (recv_turn h pidincl nonblock len s.net.core.sink.dgrams) s
      (record { reply = none; bytes = []; source = out; after = s })
dgram_loop pad out h pidincl nonblock len (turn ∷ turns) s =
    let later = dgram_loop pad out h pidincl nonblock len turns (record s { net = turn s.net }) in
    dgram_turn pad out (recv_turn h pidincl nonblock len s.net.core.sink.dgrams) s later

module _ (to_vec : Value → Bytes) (during : ℕ → Conn Pumps → Conn Pumps) (env : Env) where
  abbrev pub dgram_sent : ℕ → RhpResult (Unit {0}) × Session → Reply × Session
  dgram_sent n (given u, s) = (returned n, s)
  dgram_sent n (failed e, s) = (failed_with (to_errno e), s)

  abbrev pub dgram_client : ℕ → ℕ → Bytes → Bytes → Bytes → Bool × Session → Reply × Session
  dgram_client n h remote local wire (false, s) = (failed_with eio, s)
  dgram_client n h remote local wire (true, s) =
      dgram_sent n (on_net (Client.sendto to_vec during h remote local wire) s)

  abbrev pub dgram_outgoing : ℕ → ℕ → Outgoing → Session → Reply × Session
  dgram_outgoing n h (stops e) s = (failed_with e, s)
  dgram_outgoing n h (sends remote local wire) s =
      dgram_client n h remote local wire (ensure_client to_vec during env s)

  abbrev pub dgram_destined :
      Option (Option Bytes) → Bytes → ℕ → Option FdState → Session → Reply × Session
  dgram_destined dest app h none s = (failed_with ebadf, s)
  dgram_destined dest app h (some f) s =
      dgram_outgoing (length app) h (outgoing dest env.src_call app f) s

  abbrev pub dgram_ready : ℕ → Option (Option Bytes) → Bytes → Tried × Session → Reply × Session
  dgram_ready fd dest app (refused e, s) = (failed_with e, s)
  dgram_ready fd dest app (ready h, s) = dgram_destined dest app h (fd_of fd s) s

  unfoldable pub ax25_dgram_send : ℕ → Option (Option Bytes) → Bytes → Session → Reply × Session
  unfolding ensure_dgram ensure_client outgoing
  ax25_dgram_send fd dest app s = dgram_ready fd dest app (ensure_dgram to_vec during env fd s)

  module _ (pad : Bytes) (nonblock : Bool) (len : ℕ) (turns : List (Conn Pumps → Conn Pumps)) where
    abbrev pub dgram_receiving : ℕ → OutAddr → Tried × Session → Received
    dgram_receiving fd out (refused e, s) = record {
      reply = some (failed_with e);
      bytes = [];
      source = out;
      after = s;
    }
    dgram_receiving fd out (ready h, s) =
        dgram_loop pad out h (pidincl_of (fd_of fd s)) nonblock len turns s

    unfoldable pub ax25_dgram_recv : ℕ → OutAddr → Session → Received
    unfolding ensure_dgram dgram_loop
    ax25_dgram_recv fd out s = dgram_receiving fd out (ensure_dgram to_vec during env fd s)

    abbrev pub filled : OutAddr → Option Bytes → Reply → OutAddr
    filled out remote (failed_with e) = out
    filled out remote (returned n) = write_peer pad remote out

    -- `taken` is what libc's `recv` gives on the socketpair, or `recvfrom` on another descriptor.
    unfoldable pub recvfrom : ℕ → OutAddr → Reply × Bytes → Session → Received
    unfolding ax25_dgram_recv
    recvfrom fd out taken s = if dgram_of (fd_of fd s) then ax25_dgram_recv fd out s else record {
      reply = some taken.0;
      bytes = taken.1;
      source = if has_fd (fd_of fd s) then filled out (remote_of (fd_of fd s)) taken.0 else out;
      after = s;
    }

    -- `read` and `recv` ask for no source.
    unfoldable pub read : ℕ → Reply × Bytes → Session → Received
    unfolding recvfrom
    read fd taken s = recvfrom fd none taken s

  -- `write` and `send` have no destination. `reads` is what `recv` gives on our end of a stream.
  unfoldable pub sendto :
      Reply → List Bytes → ℕ → Option (Option Bytes) → Bytes → Session → Reply × Session
  unfolding ax25_dgram_send ax25_send
  sendto real reads fd dest bytes s =
      if dgram_of (fd_of fd s)
      then ax25_dgram_send fd dest bytes s
      else if has_fd (fd_of fd s)
      then ax25_send to_vec during env fd reads bytes s
      else (real, s)

  unfoldable pub write : Reply → List Bytes → ℕ → Bytes → Session → Reply × Session
  unfolding sendto
  write real reads fd bytes s = sendto real reads fd none bytes s
