-- ===== src/Interpose/Session/Accept.antt =====
-- The exported calls of crates/ax25-interpose/src/lib.rs on AF_AX25 sockets: accept, getsockname,
-- getpeername and close. `real` is what libc returns for other descriptors.
use pdn_libax.Prelude.{
  ℕ, Bool, true, false, List, [], ◌∷◌, Option, none, some, if◌then◌else◌, Bytes, Table,
}
use pdn_libax.Prelude.Errno.{eagain, einval, enfile, econnaborted}
use pdn_libax.Rhp.Frame.{Value, or_else}
use pdn_libax.Rhp.Registry.{AcceptInfo, try_accept}
use pdn_libax.Rhp.Client.{Conn}
use pdn_libax.Interpose.EventSink.{Pumps}
use pdn_libax.Interpose.Sockaddr.Writing.{OutAddr, write_call, write_sockname}
use pdn_libax.Interpose.Sockets.{FdState, Reply, returned, failed_with, has_fd, create_ax25_fd}
use pdn_libax.Interpose.Sockets.Payload.{source_text}
use pdn_libax.Interpose.Session.{
  Session, Env, set_fd, fd_of, handle_of, local_of, register_recv, register_outbound, ensure_client,
  destroy_ax25_fd, close_handle,
}

-- What a wait comes to: `waits` if it goes on when the reader's turns are over.
pub data Waited : Type 0 where
  waits ended : Waited
  arrived : AcceptInfo → Waited

abbrev pub with_accepts :
    Option AcceptInfo × Table (List AcceptInfo) → Session → Option AcceptInfo × Session
with_accepts (info, accepts) s =
    (info, record s { net = record s.net { core = record s.net.core { accepts = accepts } } })

unfoldable pub take_accept : ℕ → Session → Option AcceptInfo × Session
unfolding try_accept
take_accept listener s = with_accepts (try_accept listener s.net.core.accepts) s

abbrev pub accept_turn : Option AcceptInfo × Session → Waited × Session → Waited × Session
accept_turn (some info, s) later = (arrived info, s)
accept_turn (none, s) later = if s.net.core.closed then (ended, s) else later

-- `wait_accept` without a time-out: `turns` is what the reader does up to each time that the wait is
-- woken.
unfoldable pub wait_accept : ℕ → List (Conn Pumps → Conn Pumps) → Session → Waited × Session
unfolding take_accept
wait_accept listener [] s = accept_turn (take_accept listener s) (waits, s)
wait_accept listener (turn ∷ turns) s =
    let later = wait_accept listener turns (record s { net = turn s.net }) in
    accept_turn (take_accept listener s) later

-- The result of `accept`, `none` while it waits, with the peer address and the state.
abbrev pub Accepted : Type 0
Accepted = Option Reply × OutAddr × Session

abbrev pub write_peer : Bytes → Option Bytes → OutAddr → OutAddr
write_peer pad none out = out
write_peer pad (some remote) out = write_call pad remote out

-- The new descriptor is wired to the child. `pair` is what `socketpair` gives.
unfoldable pub accept_child :
    Bytes → OutAddr → Option (ℕ × ℕ) → Option Bytes → AcceptInfo → Session → Accepted
unfolding create_ax25_fd write_call
accept_child pad out none local info s = (some (failed_with enfile), out, s)
accept_child pad out (some (app, inner)) local info s =
    let sockets =
      (create_ax25_fd (some (app, inner)) false (record { fds = s.fds; client = none })).1 in
    let s' =
      set_fd app
        (λ f. record f {
          handle = some info.child_handle;
          remote = info.remote;
          local = or_else info.local local;
        })
        (record s { fds = sockets.fds }) in
    (
      some (returned app),
      write_peer pad info.remote out,
      register_outbound info.child_handle inner (register_recv info.child_handle inner s'),
    )

abbrev pub accept_waited :
    Bytes → OutAddr → Option (ℕ × ℕ) → Option Bytes → Waited × Session → Accepted
accept_waited pad out pair local (waits, s) = (none, out, s)
accept_waited pad out pair local (ended, s) = (some (failed_with econnaborted), out, s)
accept_waited pad out pair local (arrived info, s) = accept_child pad out pair local info s

abbrev pub accept_tried :
    Bytes → OutAddr → Option (ℕ × ℕ) → Option Bytes → Option AcceptInfo × Session → Accepted
accept_tried pad out pair local (none, s) = (some (failed_with eagain), out, s)
accept_tried pad out pair local (some info, s) = accept_child pad out pair local info s

abbrev pub text_of : Option Bytes → Bytes
text_of = source_text

abbrev pub remote_of : Option FdState → Option Bytes
remote_of none = none
remote_of (some f) = f.remote

module _ (to_vec : Value → Bytes) (during : ℕ → Conn Pumps → Conn Pumps) (env : Env)
    (real : Reply) where
  module _ (pad : Bytes) (nonblock : Bool) (turns : List (Conn Pumps → Conn Pumps))
      (pair : Option (ℕ × ℕ)) where
    abbrev pub accept_reached : OutAddr → ℕ → Option Bytes → Bool × Session → Accepted
    accept_reached out listener local (false, s) = (some (failed_with econnaborted), out, s)
    accept_reached out listener local (true, s) =
        if nonblock
        then accept_tried pad out pair local (take_accept listener s)
        else accept_waited pad out pair local (wait_accept listener turns s)

    unfoldable pub accept : ℕ → OutAddr → Session → Accepted
    unfolding ensure_client
    accept fd out s = elim (fd_of fd s) [
      | none ↦ (some real, out, s)
      | some f ↦ elim f.handle [
        | none ↦ (some (failed_with einval), out, s)
        | some listener ↦ accept_reached out listener f.local (ensure_client to_vec during env s)
      ]
    ]

  unfoldable pub getsockname : ℕ → OutAddr → Session → Reply × OutAddr
  unfolding write_sockname
  getsockname fd out s =
      if has_fd (fd_of fd s)
      then (returned 0, write_sockname (text_of (local_of (fd_of fd s))) out)
      else (real, out)

  unfoldable pub getpeername : Bytes → ℕ → OutAddr → Session → Reply × OutAddr
  unfolding write_call
  getpeername pad fd out s =
      if has_fd (fd_of fd s)
      then (returned 0, write_call pad (text_of (remote_of (fd_of fd s))) out)
      else (real, out)

  abbrev pub close_reached : ℕ → Bool × Session → Session
  close_reached h (false, s) = s
  close_reached h (true, s) = close_handle to_vec during env h s

  abbrev pub close_session : Option ℕ → Session → Session
  close_session none s = s
  close_session (some h) s = close_reached h (ensure_client to_vec during env s)

  unfoldable pub close : ℕ → Session → Reply × Session
  unfolding ensure_client destroy_ax25_fd
  close fd s =
      if has_fd (fd_of fd s)
      then (returned 0, destroy_ax25_fd fd (close_session (handle_of (fd_of fd s)) s))
      else (real, s)
