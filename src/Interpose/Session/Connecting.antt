-- ===== src/Interpose/Session/Connecting.antt =====
-- A non-blocking `connect` of crates/ax25-interpose/src/lib.rs as a whole: the request, the wiring of the
-- descriptor and the gate, with the reader's steps between its own.
use pdn_libax.Prelude.{
  ℕ, ◌≡◌, ◌≢◌, refl, subst, true, List, none, some, arith, ==_refl, Bytes, Table, lookup,
  lookup-insert, Option-cases, inl, inr,
}
use pdn_libax.Prelude.Errno.{einprogress}
use pdn_libax.Rhp.Frame.{Value}
use pdn_libax.Rhp.Registry.{ConnPhase, pending, set_pending}
use pdn_libax.Rhp.Client.{
  RhpResult, given, failed, Conn, go_on, ◌>>◌, pure, track, OpenResult, open_connect, open_handle,
  via_text,
}
use pdn_libax.Rhp.Requests.{open_flag_active}
use pdn_libax.Interpose.EventSink.{Pumps}
use pdn_libax.Interpose.Sockets.{FdState, Reply, failed_with}
use pdn_libax.Interpose.Race.{Resolution, Move}
use pdn_libax.Interpose.Race.Released.{Merge, connect_moves, reader_moves, Open, connect_released}
use pdn_libax.Interpose.Session.{Session, Env, on_net}
use pdn_libax.Interpose.Session.Calls.{connect_opened}

set_pending-known : (h : ℕ) (m : Table ConnPhase) → lookup h (set_pending h m) ≢ none
unfolding set_pending
set_pending-known h m = elim (Option-cases (lookup h m)) [
  | inl absent ↦
      rw (set_pending, absent, lookup-insert h h pending m, ==_refl h) (λ e. absurd (ground arith))
  | inr (p, found) ↦ rw (set_pending, found) (λ e. absurd (ground arith))
]

-- The handle that an `open` returned is tracked.
track_opened :
    {S : Type 0} (r : RhpResult OpenResult) (c : Conn S) (res : OpenResult)
    → (go_on r (λ res. track res.handle >> pure res) c).0 ≡ given res
    → lookup res.handle (go_on r (λ res. track res.handle >> pure res) c).1.core.conns ≢ none
track_opened (given opened) c res e =
    let same : opened.handle ≡ res.handle = ground arith in
    subst (λ h. lookup h (set_pending opened.handle c.core.conns) ≢ none) same
      (set_pending-known opened.handle c.core.conns)
track_opened (failed x) c res e = absurd (ground arith)

module _ (to_vec : Value → Bytes) (during : ℕ → Conn Pumps → Conn Pumps) where
  open_connect-known :
      (local remote : Bytes) (via : List Bytes) (c : Conn Pumps) (res : OpenResult)
      → (open_connect to_vec during local remote via c).0 ≡ given res
      → lookup res.handle (open_connect to_vec during local remote via c).1.core.conns ≢ none
  unfolding open_connect
  open_connect-known local remote via c res e =
      let r = open_handle to_vec during local (some remote) (via_text via) open_flag_active c in
      track_opened r.0 r.1 res e

  module _ (env : Env) (real : Reply) (fill : ℕ) (moves : List Move)
      (turns : List (Conn Pumps → Conn Pumps)) where
    -- A non-blocking `connect` whose `open` is accepted reports EINPROGRESS. If the reader marks and then
    -- resolves the connect only when `open_connect` has tracked the handle, and these two steps fall in any
    -- order between the steps of the gate, the application's end is writable when both are through: no
    -- gate is left, and no filler. A push that comes before the handle is tracked is not among these
    -- steps.
    pub connect_opened-writable :
        (fd : ℕ) (local remote : Bytes) (digis : List Bytes) (r : Resolution) (res : OpenResult)
        (f : FdState) (s : Session)
        → (open_connect to_vec during local remote digis s.net).0 ≡ given res
        → lookup fd s.fds ≡ some f
        → Merge connect_moves (reader_moves r) moves
        → let (reply, s') =
            connect_opened to_vec during env real true fill moves turns fd remote digis
              (on_net (open_connect to_vec during local remote digis) s) in
          (reply ≡ failed_with einprogress)
          × Open res.handle f.inner_fd fill s'.net.core.sink.outbound
    connect_opened-writable fd local remote digis r res f s opened found order =
        let known = open_connect-known local remote digis s.net res opened in
        rw (opened, found) (refl, connect_released res.handle f.inner_fd fill r moves _ order known)
