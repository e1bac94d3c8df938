-- ===== src/Interpose/Session/Ensuring.antt =====
-- What `ensure_dgram_handle` of crates/ax25-interpose/src/lib.rs leaves behind over the RHP client: the handle
-- in the table of descriptors and in the datagram pump, or no open socket at the node.

mod Tests
use pdn_libax.Prelude.{
  ℕ, ◌≡◌, ◌⊎◌, Bool, false, List, [], ◌∷◌, some, Bytes, lookup, if◌then◌else◌, ◌==◌, Table,
}
use pdn_libax.Rhp.Frame.{Value}
use pdn_libax.Rhp.Client.{RhpResult, given, failed, RhpError, Conn}
use pdn_libax.Rhp.Client
use pdn_libax.Interpose.DgramPump
use pdn_libax.Interpose.DgramPump.{new_line}
use pdn_libax.Interpose.EventSink.{Pumps}
use pdn_libax.Interpose.Sockets.{FdState}
use pdn_libax.Interpose.Sockets.Payload.{Tried, ready, refused}
use pdn_libax.Interpose.Session.{Session, Env, set_fd, register_dgram}

-- The descriptor and the datagram pump know the handle, and the other descriptors are as they were.
abbrev pub Allocated : ℕ → ℕ → FdState → Table FdState → Session → Type 0
Allocated fd h f fds s =
    ((j : ℕ)
      → lookup j s.fds ≡ (if fd == j then some (record f { handle = some h }) else lookup j fds))
    × (lookup h s.net.core.sink.dgrams ≡ some (new_line f.app_fd f.inner_fd))

module _ (to_vec : Value → Bytes) (during : ℕ → Conn Pumps → Conn Pumps) (env : Env) where
  -- The last request to the node closed this handle.
  abbrev pub ClosedLast : ℕ → Session → Type 0
  ClosedLast h s = (c : Conn Pumps) × (s.net ≡ (Client.close to_vec during h c).1)

  -- A handle that the node gave is kept in the descriptor, or it is closed.
  abbrev Settles : ℕ → ℕ → FdState → Table FdState → Tried × Session → Type 0
  Settles fd h f fds r =
      ((r.0 ≡ ready h) × Allocated fd h f fds r.1)
      ⊎ ((e : ℕ) × (r.0 ≡ refused e) × (r.1.fds ≡ fds) × ClosedLast h r.1)

  -- No socket was opened at the node, or the handle that it gave settles.
  abbrev pub Comes : ℕ → FdState → Table FdState → Bool → RhpResult ℕ → Tried × Session → Type 0
  Comes fd f fds reached opened r =
      (((reached ≡ false) ⊎ ((x : RhpError) × (opened ≡ failed x)))
        × (e : ℕ) × (r.0 ≡ refused e)
        × (r.1.fds ≡ fds))
      ⊎ ((h : ℕ) × (opened ≡ given h) × Settles fd h f fds r)
