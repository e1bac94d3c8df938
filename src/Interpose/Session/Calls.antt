-- ===== src/Interpose/Session/Calls.antt =====
-- The exported calls of crates/ax25-interpose/src/lib.rs on AF_AX25 sockets: bind, listen and
-- connect. `real` is what libc returns for other descriptors.
use pdn_libax.Prelude.{
  ℕ, Bool, true, false, List, [], ◌∷◌, Option, none, some, if◌then◌else◌, Bytes,
}
use pdn_libax.Prelude.Errno.{ebadf, einval, econnrefused, einprogress, etimedout}
use pdn_libax.Rhp.Frame.{Value}
use pdn_libax.Rhp.Registry.{Link, up, down, wait_turn}
use pdn_libax.Rhp.Client.{
  RhpResult, given, failed, Conn, Call, ◌>>=◌, ◌>>◌, pure, to_errno, OpenResult,
}
use pdn_libax.Rhp.Client
use pdn_libax.Interpose.EventSink.{Pumps}
use pdn_libax.Interpose.Sockaddr.{Sockaddr, read_call, read_digipeaters}
use pdn_libax.Interpose.Sockets.{FdState, Reply, returned, failed_with, has_fd, dgram_of}
use pdn_libax.Interpose.Sockets.Payload.{Tried, ready, refused, source_call}
use pdn_libax.Interpose.Race.{Move, steps}
use pdn_libax.Interpose.Session.{
  Session, Env, on_net, set_fd, fd_of, register_recv, register_outbound, ensure_client,
  ensure_dgram,
}

abbrev pub replied : Tried × Session → Reply × Session
replied (ready h, s) = (returned 0, s)
replied (refused e, s) = (failed_with e, s)

abbrev pub store_local : ℕ → Option Bytes → Session → Session
store_local fd none s = s
store_local fd (some call) s = set_fd fd (λ f. record f { local = some call }) s

abbrev pub wait_ended : Option Link → Session → Link × Session → Link × Session
wait_ended (some r) s later = (r, s)
wait_ended none s later = later

-- The blocking `wait_connected`. `turns` is what the reader does up to each time that the wait is
-- woken; behind them it times out.
unfoldable pub wait_connected : ℕ → List (Conn Pumps → Conn Pumps) → Session → Link × Session
unfolding wait_turn
wait_connected h [] s =
    wait_ended (wait_turn h s.net.core.closed false s.net.core.conns) s
      (wait_ended (wait_turn h s.net.core.closed true s.net.core.conns) s (down etimedout, s))
wait_connected h (turn ∷ turns) s =
    let later = wait_connected h turns (record s { net = turn s.net }) in
    wait_ended (wait_turn h s.net.core.closed false s.net.core.conns) s later

module _ (to_vec : Value → Bytes) (during : ℕ → Conn Pumps → Conn Pumps) (env : Env)
    (real : Reply) where
  abbrev pub bound : ℕ → Session → Reply × Session
  bound fd s =
      if dgram_of (fd_of fd s)
      then replied (ensure_dgram to_vec during env fd s)
      else (returned 0, s)

  unfoldable pub bind : ℕ → Option Sockaddr → ℕ → Session → Reply × Session
  unfolding read_call ensure_dgram
  bind fd addr len s =
      if has_fd (fd_of fd s) then bound fd (store_local fd (read_call addr len) s) else (real, s)

  abbrev pub listen_calls : Bytes → Call Pumps ℕ
  listen_calls local = do
    h ← Client.socket to_vec during
    Client.bind to_vec during h local none
    Client.listen to_vec during h
    pure h

  abbrev pub listened : ℕ → RhpResult ℕ × Session → Reply × Session
  listened fd (given h, s) =
      (returned 0, set_fd fd (λ f. record f { handle = some h; listening = true }) s)
  listened fd (failed e, s) = (failed_with (to_errno e), s)

  abbrev pub listen_reached : ℕ → Bytes → Bool × Session → Reply × Session
  listen_reached fd local (false, s) = (failed_with econnrefused, s)
  listen_reached fd local (true, s) = listened fd (on_net (listen_calls local) s)

  unfoldable pub listen : ℕ → Session → Reply × Session
  unfolding ensure_client
  listen fd s = elim (fd_of fd s) [
    | none ↦ (real, s)
    | some f ↦ elim f.local [
      | none ↦ (failed_with einval, s)
      | some local ↦ listen_reached fd local (ensure_client to_vec during env s)
    ]
  ]

  abbrev pub connect_dgram : ℕ → Bytes → Tried × Session → Reply × Session
  connect_dgram fd remote (refused e, s) = (failed_with e, s)
  connect_dgram fd remote (ready h, s) =
      (returned 0, set_fd fd (λ f. record f { remote = some remote }) s)

  abbrev pub connect_waited : ℕ → ℕ → Link × Session → Reply × Session
  connect_waited h inner (up, s) = (returned 0, register_outbound h inner s)
  connect_waited h inner (down e, s) = (failed_with e, s)

  -- `arm_connect_gate`, the look at `connect_result` and the drain after it, with the reader's steps
  -- that fall between them.
  abbrev pub gate_steps : ℕ → ℕ → ℕ → List Move → Session → Session
  gate_steps h inner fill moves s =
      let core = s.net.core in
      let g =
        steps h inner fill moves
          (record { conns = core.conns; outbound = core.sink.outbound; seen = false }) in
      record s {
        net = record s.net {
          core = record core { conns = g.conns; sink = record core.sink { outbound = g.outbound } };
        };
      }

  module _ (nonblock : Bool) (fill : ℕ) (moves : List Move)
      (turns : List (Conn Pumps → Conn Pumps)) where
    abbrev pub connect_wired : ℕ → ℕ → Session → Reply × Session
    connect_wired h inner s =
        if nonblock
        then (failed_with einprogress, gate_steps h inner fill moves s)
        else connect_waited h inner (wait_connected h turns s)

    abbrev pub connect_stored :
        ℕ → Bytes → List Bytes → OpenResult → Option FdState → Session → Reply × Session
    connect_stored fd remote digis res none s = (failed_with ebadf, s)
    connect_stored fd remote digis res (some f) s = connect_wired res.handle f.inner_fd (
        register_recv res.handle f.inner_fd (
          set_fd fd
            (λ v. record v { handle = some res.handle; remote = some remote; digis = digis }) s))

    abbrev pub connect_opened :
        ℕ → Bytes → List Bytes → RhpResult OpenResult × Session → Reply × Session
    connect_opened fd remote digis (failed e, s) = (failed_with (to_errno e), s)
    connect_opened fd remote digis (given res, s) =
        connect_stored fd remote digis res (fd_of fd s) s

    abbrev pub connect_reached : ℕ → Bytes → Bytes → List Bytes → Bool × Session → Reply × Session
    connect_reached fd local remote digis (false, s) = (failed_with econnrefused, s)
    connect_reached fd local remote digis (true, s) =
        connect_opened fd remote digis
          (on_net (Client.open_connect to_vec during local remote digis) s)

    unfoldable pub connect : ℕ → Option Sockaddr → ℕ → Session → Reply × Session
    unfolding read_call read_digipeaters ensure_dgram ensure_client
    connect fd addr len s = elim (fd_of fd s) [
      | none ↦ (real, s)
      | some f ↦ elim (read_call addr len) [
        | none ↦ (failed_with einval, s)
        | some remote ↦
            if f.dgram
            then connect_dgram fd remote (ensure_dgram to_vec during env fd s)
            else connect_reached fd (source_call f.local env.src_call) remote
                (read_digipeaters addr len) (ensure_client to_vec during env s)
      ]
    ]
