-- ===== src/Interpose/Session.antt =====
-- crates/ax25-interpose/src/lib.rs: the calls on a whole socket, with `ensure_client` and
-- `destroy_ax25_fd` of state.rs. The state is the table of descriptors and the RHP client, whose sink
-- state are the pumps. `during` is what the reader thread does while a request waits; what libc answers,
-- a new socketpair included, is an input, and so is what the network does to a new client.
pub mod Calls
pub mod Accept
pub mod Wiring
pub mod Connecting
pub mod Ensuring
pub mod Ordered
pub mod Transfer
pub mod Errnos
pub mod Failures
mod Tests
use pdn_libax.Prelude.{
  ℕ, Bool, true, false, ◌&&◌, not, List, [], ◌∷◌, Option, none, some, if◌then◌else◌, Bytes, codes,
  Table, lookup, remove, adjust,
}
use pdn_libax.Prelude.Errno.{
  eio, ebadf, eagain, einval, enfile, econnaborted, econnrefused, enotconn, einprogress, etimedout,
}
use pdn_libax.Rhp.Frame.{Value}
use pdn_libax.Rhp.Registry.{Link, up, down, AcceptInfo, try_accept, result}
use pdn_libax.Rhp.Client.{
  RhpResult, given, failed, RhpError, Conn, Call, to_errno, OpenResult, auth,
}
use pdn_libax.Rhp.Client
use pdn_libax.Interpose.RecvPump
use pdn_libax.Interpose.RecvPump.{Pump}
use pdn_libax.Interpose.DgramPump
use pdn_libax.Interpose.Outbound
use pdn_libax.Interpose.Outbound.{
  Outbound, destroy, arm_connect_gate, resolve_connect_gate, send_ordered,
}
use pdn_libax.Interpose.EventSink.{Pumps}
use pdn_libax.Interpose.Sockaddr.{Sockaddr, read_call, read_digipeaters}
use pdn_libax.Interpose.Sockaddr.Writing.{OutAddr, write_call, write_sockname}
use pdn_libax.Interpose.Sockets.{FdState, Reply, returned, failed_with, new_fd, has_fd, dgram_of}
use pdn_libax.Interpose.Sockets.Payload.{Tried, ready, refused, source_call}

pub record Session : Type 0 where
  pub fds : Table FdState
  pub cached : Bool
  pub net : Conn Pumps

-- The network and the environment: whether a new stream to the engine opens, PDN_RHP_USER with
-- PDN_RHP_PASS, and AX25_SRC_CALL.
pub record Env : Type 0 where
  pub opens : Bool
  pub credentials : Option (Bytes × Bytes)
  pub src_call : Option Bytes

abbrev pub fresh_client : Pumps → Conn Pumps
fresh_client pumps = record {
  core = record {
    pending = [];
    replies = [];
    conns = [];
    accepts = [];
    closed = false;
    sink = pumps;
  };
  last_id = 0;
  written = [];
}

-- The pumps are the process's: a change of them is seen through every client.
abbrev pub on_pumps : (Pumps → Pumps) → Session → Session
on_pumps f s = record s {
  net = record s.net { core = record s.net.core { sink = f s.net.core.sink } };
}

abbrev pub on_net : {A : Type 0} → Call Pumps A → Session → RhpResult A × Session
on_net call s = let (r, c) = call s.net in (r, record s { net = c })

abbrev pub set_fd : ℕ → (FdState → FdState) → Session → Session
set_fd fd f s = record s { fds = adjust fd f s.fds }

abbrev pub fd_of : ℕ → Session → Option FdState
fd_of fd s = lookup fd s.fds

abbrev pub handle_of : Option FdState → Option ℕ
handle_of none = none
handle_of (some f) = f.handle

abbrev pub local_of : Option FdState → Option Bytes
local_of none = none
local_of (some f) = f.local

abbrev pub register_recv : ℕ → ℕ → Session → Session
register_recv h inner = on_pumps λ p. record p { recv = RecvPump.register h inner p.recv }

abbrev pub register_dgram : ℕ → ℕ → ℕ → Session → Session
register_dgram h app_fd inner =
    on_pumps λ p. record p { dgrams = DgramPump.register h app_fd inner p.dgrams }

abbrev pub register_outbound : ℕ → ℕ → Session → Session
register_outbound h inner =
    on_pumps λ p. record p { outbound = Outbound.register h inner p.outbound }

module _ (to_vec : Value → Bytes) (during : ℕ → Conn Pumps → Conn Pumps) (env : Env) where
  abbrev authorized : RhpResult (Unit {0}) × Session → Bool × Session
  authorized (given u, s) = (true, record s { cached = true })
  authorized (failed e, s) = (false, record s { cached = false })

  -- A new client over the same pumps; it is kept if it can be used.
  unfoldable pub connect_client : Option (Bytes × Bytes) → Session → Bool × Session
  connect_client none s = (true, record s { cached = true; net = fresh_client s.net.core.sink })
  connect_client (some (user, pass)) s =
      authorized
        (on_net (auth to_vec during user pass) (record s { net = fresh_client s.net.core.sink }))

  unfoldable pub ensure_client : Session → Bool × Session
  unfolding connect_client
  ensure_client s =
      if s.cached && not s.net.core.closed
      then (true, s)
      else if env.opens
      then connect_client env.credentials s
      else (false, s)

  -- Calls of the client whose result is dropped.
  abbrev pub close_handle : ℕ → Session → Session
  close_handle h s = (on_net (Client.close to_vec during h) s).1

  abbrev pub dgram_stored : ℕ → ℕ → Option FdState → Session → Tried × Session
  dgram_stored fd h none s = (refused ebadf, close_handle h s)
  dgram_stored fd h (some f) s = elim f.handle [
    | some other ↦ (ready other, close_handle h s)
    | none ↦ (
      ready h,
      register_dgram h f.app_fd f.inner_fd (set_fd fd (λ v. record v { handle = some h }) s),
    )
  ]

  abbrev pub dgram_bound : ℕ → ℕ → RhpResult (Unit {0}) × Session → Tried × Session
  dgram_bound fd h (failed e, s) = (refused (to_errno e), close_handle h s)
  dgram_bound fd h (given u, s) = dgram_stored fd h (fd_of fd s) s

  abbrev pub bind_local : ℕ → Option Bytes → Session → RhpResult (Unit {0}) × Session
  bind_local h none s = (given tt, s)
  bind_local h (some local) s = on_net (Client.bind to_vec during h local none) s

  abbrev pub dgram_opened : ℕ → Option Bytes → RhpResult ℕ × Session → Tried × Session
  dgram_opened fd local (failed e, s) = (refused (to_errno e), s)
  dgram_opened fd local (given h, s) = dgram_bound fd h (bind_local h local s)

  abbrev pub dgram_reached : ℕ → Option Bytes → Bool × Session → Tried × Session
  dgram_reached fd local (false, s) = (refused econnrefused, s)
  dgram_reached fd local (true, s) =
      dgram_opened fd local (on_net (Client.socket_dgram to_vec during) s)

  -- `ensure_dgram_handle`, on the client itself.
  unfoldable pub ensure_dgram : ℕ → Session → Tried × Session
  unfolding ensure_client
  ensure_dgram fd s = elim (fd_of fd s) [
    | none ↦ (refused ebadf, s)
    | some f ↦ elim f.handle [
      | some h ↦ (ready h, s)
      | none ↦ dgram_reached fd f.local (ensure_client s)
    ]
  ]

-- The part of `destroy_ax25_fd` on the pumps; then both ends are closed.
abbrev pub drop_handle : Option ℕ → ℕ → Pumps → Pumps
drop_handle none inner p = record p {
  outbound = record p.outbound { pipes = remove inner p.outbound.pipes };
}
drop_handle (some h) inner p = record {
  recv = RecvPump.unregister h p.recv;
  dgrams = DgramPump.unregister h p.dgrams;
  outbound = destroy h inner p.outbound;
}

unfoldable pub destroy_ax25_fd : ℕ → Session → Session
destroy_ax25_fd fd s = elim (fd_of fd s) [
  | none ↦ s
  | some f ↦ on_pumps (drop_handle f.handle f.inner_fd) (record s { fds = remove fd s.fds })
]
