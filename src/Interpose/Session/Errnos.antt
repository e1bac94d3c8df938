-- ===== src/Interpose/Session/Errnos.antt =====
-- The errno of the calls bind, listen, write, send and sendto of crates/ax25-interpose/src/lib.rs.
use pdn_libax.Prelude.{
  ℕ, ◌≢◌, ap, Bool, true, false, List, [], ◌∷◌, Option, none, some, arith, Bytes, Bool-cases,
  Option-cases, inl, inr, length,
}
use pdn_libax.Prelude.Errno.{eio, ebadf, einval, enotconn, edestaddrreq}
use pdn_libax.Rhp.Frame.{Value}
use pdn_libax.Rhp.Client.{RhpResult, given, failed, Conn, Call, to_errno}
use pdn_libax.Rhp.Client
use pdn_libax.Rhp.Client.Errnos.{
  Honest, errno_of, errno_after, errno_after_nonzero, socket_dgram_op, bind_op, send_op, sendto_op,
}
use pdn_libax.Interpose.EventSink.{Pumps}
use pdn_libax.Interpose.Sockets.{FdState, Reply, returned, failed_with, has_fd, dgram_of}
use pdn_libax.Interpose.Sockets.Payload.{Tried, ready, refused, send_wire, outgoing}
use pdn_libax.Interpose.Session.{
  Session, Env, on_net, fd_of, handle_of, bind_local, dgram_stored, dgram_bound, dgram_opened,
  dgram_reached, ensure_client, ensure_dgram,
}
use pdn_libax.Interpose.Session.Calls.{replied}
use pdn_libax.Interpose.Session.Ordered.{send_ordered, flush, sent_reply, send_reached, ax25_send}
use pdn_libax.Interpose.Session.Transfer.{
  dgram_sent, dgram_client, dgram_outgoing, dgram_destined, dgram_ready, ax25_dgram_send, sendto,
}

-- The caller can tell a failure from a success by errno.
abbrev pub Tells : Reply → Type 0
Tells r = r ≢ failed_with 0

abbrev pub TellsTried : Tried → Type 0
TellsTried (ready h) = Unit
TellsTried (refused e) = e ≢ 0

pub errno_Tells : (e : ℕ) → e ≢ 0 → Tells (failed_with e)
errno_Tells e h same = absurd (ground arith)

pub returned-Tells : (n : ℕ) → Tells (returned n)
returned-Tells n same = absurd (ground arith)

pub honest :
    {A : Type 0} {S : Type 0} (to_vec : Value → Bytes) (during : ℕ → Conn S → Conn S)
    (r : RhpResult A)
    → errno_of to_vec during r ≢ some 0
    → Honest r
unfolding errno_of
honest to_vec during (given a) h = tt
honest to_vec during (failed e) h = λ zero. h (ap some zero)

pub replied-Tells : (r : Tried × Session) → TellsTried r.0 → Tells (replied r).0
replied-Tells (ready h, s) t = returned-Tells 0
replied-Tells (refused e, s) t = errno_Tells e t

module _ (to_vec : Value → Bytes) (during : ℕ → Conn Pumps → Conn Pumps) (env : Env) where
  stored-TellsTried :
      (fd h : ℕ) (o : Option FdState) (s : Session)
      → TellsTried (dgram_stored to_vec during env fd h o s).0
  stored-TellsTried fd h none s = λ e. absurd (omega arith)
  stored-TellsTried fd h (some f) s = elim (Option-cases f.handle) [
    | inl e ↦ rw e tt
    | inr (other, e) ↦ rw e tt
  ]

  bound-TellsTried :
      (fd h : ℕ) (r : RhpResult (Unit {0}) × Session)
      → Honest r.0
      → TellsTried (dgram_bound to_vec during env fd h r).0
  bound-TellsTried fd h (given u, s) t = stored-TellsTried fd h (fd_of fd s) s
  bound-TellsTried fd h (failed e, s) t = t

  bind_local-Honest :
      (h : ℕ) (local : Option Bytes) (s : Session)
      → Honest (bind_local to_vec during env h local s).0
  unfolding errno_after
  bind_local-Honest h none s = tt
  bind_local-Honest h (some local) s =
      honest to_vec during (Client.bind to_vec during h local none s.net).0
        (errno_after_nonzero to_vec during (bind_op h local none) s.net)

  opened-TellsTried :
      (fd : ℕ) (local : Option Bytes) (r : RhpResult ℕ × Session)
      → Honest r.0
      → TellsTried (dgram_opened to_vec during env fd local r).0
  opened-TellsTried fd local (failed e, s) t = t
  opened-TellsTried fd local (given h, s) t = bound-TellsTried fd h _ (bind_local-Honest h local s)

  reached-TellsTried :
      (fd : ℕ) (local : Option Bytes) (r : Bool × Session)
      → TellsTried (dgram_reached to_vec during env fd local r).0
  unfolding errno_after
  reached-TellsTried fd local (false, s) = λ e. absurd (omega arith)
  reached-TellsTried fd local (true, s) =
      opened-TellsTried fd local (on_net (Client.socket_dgram to_vec during) s) (
        honest to_vec during (Client.socket_dgram to_vec during s.net).0
          (errno_after_nonzero to_vec during socket_dgram_op s.net))

  pub ensure_dgram-TellsTried :
      (fd : ℕ) (s : Session) → TellsTried (ensure_dgram to_vec during env fd s).0
  unfolding ensure_dgram
  ensure_dgram-TellsTried fd s = elim (Option-cases (fd_of fd s)) [
    | inl absent ↦ rw (ensure_dgram, absent) (λ e. absurd (omega arith))
    | inr (f, found) ↦ elim (Option-cases f.handle) [
      | inr (h, has) ↦ rw (ensure_dgram, found, has) tt
      | inl none_yet ↦
          rw (ensure_dgram, found, none_yet)
            (reached-TellsTried fd f.local (ensure_client to_vec during env s))
    ]
  ]

  sent_reply-Tells :
      (n : ℕ) (r : RhpResult (Unit {0}) × Session)
      → Honest r.0
      → Tells (sent_reply to_vec during env n r).0
  sent_reply-Tells n (given u, s) t = returned-Tells n
  sent_reply-Tells n (failed e, s) t = errno_Tells (to_errno e) t

  send_reached-Tells :
      (h : ℕ) (reads : List Bytes) (bytes : Bytes) (r : Bool × Session)
      → Tells (send_reached to_vec during env h reads bytes r).0
  unfolding errno_after send_ordered
  send_reached-Tells h reads bytes (false, s) = errno_Tells eio (λ e. absurd (omega arith))
  send_reached-Tells h reads bytes (true, s) =
      let s' = flush to_vec during h reads s in
      sent_reply-Tells (length bytes) (send_ordered to_vec during h reads bytes s) (
        honest to_vec during (Client.send to_vec during h bytes s'.net).0
          (errno_after_nonzero to_vec during (send_op h bytes) s'.net))

  ax25_send-Tells :
      (fd : ℕ) (reads : List Bytes) (bytes : Bytes) (s : Session)
      → Tells (ax25_send to_vec during env fd reads bytes s).0
  unfolding ax25_send
  ax25_send-Tells fd reads bytes s = elim (Option-cases (handle_of (fd_of fd s))) [
    | inl none_yet ↦ rw (ax25_send, none_yet) (errno_Tells enotconn (λ e. absurd (omega arith)))
    | inr (h, has) ↦
        rw (ax25_send, has) (send_reached-Tells h reads bytes (ensure_client to_vec during env s))
  ]

  dgram_sent-Tells :
      (n : ℕ) (r : RhpResult (Unit {0}) × Session)
      → Honest r.0
      → Tells (dgram_sent to_vec during env n r).0
  dgram_sent-Tells n (given u, s) t = returned-Tells n
  dgram_sent-Tells n (failed e, s) t = errno_Tells (to_errno e) t

  dgram_client-Tells :
      (n h : ℕ) (remote local wire : Bytes) (r : Bool × Session)
      → Tells (dgram_client to_vec during env n h remote local wire r).0
  unfolding errno_after
  dgram_client-Tells n h remote local wire (false, s) = errno_Tells eio (λ e. absurd (omega arith))
  dgram_client-Tells n h remote local wire (true, s) =
      dgram_sent-Tells n (on_net (Client.sendto to_vec during h remote local wire) s) (
        honest to_vec during (Client.sendto to_vec during h remote local wire s.net).0
          (errno_after_nonzero to_vec during (sendto_op h remote local wire) s.net))

  send_wire-Tells :
      (n h : ℕ) (remote local wire : Bytes) (s : Session)
      → Tells (dgram_outgoing to_vec during env n h (send_wire remote local wire) s).0
  send_wire-Tells n h remote local [] s = errno_Tells einval (λ e. absurd (omega arith))
  send_wire-Tells n h remote local (b ∷ wire) s =
      dgram_client-Tells n h remote local (b ∷ wire) (ensure_client to_vec during env s)

  dgram_outgoing-Tells :
      (n h : ℕ) (dest : Option (Option Bytes)) (app : Bytes) (f : FdState) (s : Session)
      → Tells (dgram_outgoing to_vec during env n h (outgoing dest env.src_call app f) s).0
  unfolding outgoing
  dgram_outgoing-Tells n h (some none) app f s = errno_Tells einval (λ e. absurd (omega arith))
  dgram_outgoing-Tells n h (some (some remote)) app f s = send_wire-Tells n h remote _ _ s
  dgram_outgoing-Tells n h none app f s = elim (Option-cases f.remote) [
    | inl e ↦ rw e (errno_Tells edestaddrreq (λ e. absurd (omega arith)))
    | inr (remote, e) ↦ rw e (send_wire-Tells n h remote _ _ s)
  ]

  dgram_ready-Tells :
      (fd : ℕ) (dest : Option (Option Bytes)) (app : Bytes) (r : Tried × Session)
      → TellsTried r.0
      → Tells (dgram_ready to_vec during env fd dest app r).0
  dgram_ready-Tells fd dest app (refused e, s) t = errno_Tells e t
  dgram_ready-Tells fd dest app (ready h, s) t = by_fd (fd_of fd s)
    where
      by_fd : (o : Option FdState) → Tells (dgram_destined to_vec during env dest app h o s).0
      by_fd none = errno_Tells ebadf (λ e. absurd (omega arith))
      by_fd (some f) = dgram_outgoing-Tells (length app) h dest app f s

  module _ (real : Reply) (tells : Tells real) where
    -- A failing sendto (of which write and send are cases) has an errno other than 0, on a stream and on
    -- a datagram descriptor, whatever the node answers, if libc's own errno is not 0 for a descriptor
    -- that is not AF_AX25.
    pub sendto-Tells :
        (reads : List Bytes) (fd : ℕ) (dest : Option (Option Bytes)) (bytes : Bytes) (s : Session)
        → (sendto to_vec during env real reads fd dest bytes s).0 ≢ failed_with 0
    unfolding sendto ax25_dgram_send
    sendto-Tells reads fd dest bytes s = elim (Bool-cases (dgram_of (fd_of fd s))) [
      | inl dgram ↦
          rw (sendto, dgram)
            (dgram_ready-Tells fd dest bytes (ensure_dgram to_vec during env fd s)
              (ensure_dgram-TellsTried fd s))
      | inr stream ↦ elim (Bool-cases (has_fd (fd_of fd s))) [
        | inl ours ↦ rw (sendto, stream, ours) (ax25_send-Tells fd reads bytes s)
        | inr other ↦ rw (sendto, stream, other) tells
      ]
    ]
