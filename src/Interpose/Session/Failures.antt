-- ===== src/Interpose/Session/Failures.antt =====
-- The errno of bind, listen and sendto of crates/ax25-interpose/src/lib.rs together.
use pdn_libax.Prelude.{
  ℕ, ◌≢◌, Bool, true, false, List, Option, none, arith, Bytes, Bool-cases, Option-cases, inl, inr,
}
use pdn_libax.Prelude.Errno.{einval, econnrefused}
use pdn_libax.Rhp.Frame.{Value}
use pdn_libax.Rhp.Client.{RhpResult, given, failed, Conn, Call, pure, ◌>>◌, ◌>>=◌, to_errno}
use pdn_libax.Rhp.Client
use pdn_libax.Rhp.Client.Errnos.{
  Honest, bind-Honest, errno_after, errno_after_nonzero, socket_op, bind_op, listen_op,
}
use pdn_libax.Interpose.EventSink.{Pumps}
use pdn_libax.Interpose.Sockaddr.{Sockaddr, read_call}
use pdn_libax.Interpose.Sockets.{Reply, failed_with, has_fd, dgram_of}
use pdn_libax.Interpose.Session.{Session, Env, on_net, fd_of, ensure_client, ensure_dgram}
use pdn_libax.Interpose.Session.Calls.{
  bind, bound, store_local, listen, listen_calls, listened, listen_reached,
}
use pdn_libax.Interpose.Session.Errnos.{
  Tells, errno_Tells, returned-Tells, honest, replied-Tells, ensure_dgram-TellsTried, sendto-Tells,
}
use pdn_libax.Interpose.Session.Transfer.{sendto}

module _ (to_vec : Value → Bytes) (during : ℕ → Conn Pumps → Conn Pumps) (env : Env) (real : Reply)
    (tells : Tells real) where
  listen_calls-Honest :
      (local : Bytes) (c : Conn Pumps) → Honest (listen_calls to_vec during env real local c).0
  unfolding errno_after
  listen_calls-Honest local c =
      let then_listen = λ (h : ℕ). Client.listen to_vec during h >> pure h in
      bind-Honest (Client.socket to_vec during)
        (λ h. Client.bind to_vec during h local none >> then_listen h) c
        (honest to_vec during (Client.socket to_vec during c).0
          (errno_after_nonzero to_vec during socket_op c))
        λ h c1.
          bind-Honest (Client.bind to_vec during h local none) (λ u. then_listen h) c1
            (honest to_vec during (Client.bind to_vec during h local none c1).0
              (errno_after_nonzero to_vec during (bind_op h local none) c1))
            λ u c2.
              bind-Honest (Client.listen to_vec during h) (λ u. pure h) c2
                (honest to_vec during (Client.listen to_vec during h c2).0
                  (errno_after_nonzero to_vec during (listen_op h) c2))
                λ u c3. tt

  listened-Tells :
      (fd : ℕ) (r : RhpResult ℕ × Session)
      → Honest r.0
      → Tells (listened to_vec during env real fd r).0
  listened-Tells fd (given h, s) t = returned-Tells 0
  listened-Tells fd (failed e, s) t = errno_Tells (to_errno e) t

  listen_reached-Tells :
      (fd : ℕ) (local : Bytes) (r : Bool × Session)
      → Tells (listen_reached to_vec during env real fd local r).0
  listen_reached-Tells fd local (false, s) = errno_Tells econnrefused (λ e. absurd (omega arith))
  listen_reached-Tells fd local (true, s) =
      listened-Tells fd (on_net (listen_calls to_vec during env real local) s)
        (listen_calls-Honest local s.net)

  listen-Tells : (fd : ℕ) (s : Session) → Tells (listen to_vec during env real fd s).0
  unfolding listen
  listen-Tells fd s = elim (Option-cases (fd_of fd s)) [
    | inl absent ↦ rw (listen, absent) tells
    | inr (f, found) ↦ elim (Option-cases f.local) [
      | inl unbound ↦ rw (listen, found, unbound) (errno_Tells einval (λ e. absurd (omega arith)))
      | inr (local, has) ↦
          rw (listen, found, has)
            (listen_reached-Tells fd local (ensure_client to_vec during env s))
    ]
  ]

  bound-Tells : (fd : ℕ) (s : Session) → Tells (bound to_vec during env real fd s).0
  bound-Tells fd s = elim (Bool-cases (dgram_of (fd_of fd s))) [
    | inl dgram ↦ rw dgram (
        replied-Tells (ensure_dgram to_vec during env fd s)
          (ensure_dgram-TellsTried to_vec during env fd s))
    | inr stream ↦ rw stream (returned-Tells 0)
  ]

  bind-Tells :
      (fd : ℕ) (addr : Option Sockaddr) (len : ℕ) (s : Session)
      → Tells (bind to_vec during env real fd addr len s).0
  unfolding bind
  bind-Tells fd addr len s = elim (Bool-cases (has_fd (fd_of fd s))) [
    | inl ours ↦ rw (bind, ours) (bound-Tells fd (store_local fd (read_call addr len) s))
    | inr other ↦ rw (bind, other) tells
  ]

  -- Whatever the node answers and whether or not it can be reached, a bind, a listen and a sendto (of
  -- which write and send are cases) that fail leave an errno other than 0, on streams and on datagram
  -- descriptors, if libc leaves no errno 0 for a descriptor that is not AF_AX25.
  pub calls-Tells :
      (fd : ℕ) (addr : Option Sockaddr) (len : ℕ) (reads : List Bytes)
      (dest : Option (Option Bytes)) (bytes : Bytes) (s : Session)
      → ((bind to_vec during env real fd addr len s).0 ≢ failed_with 0)
        × ((listen to_vec during env real fd s).0 ≢ failed_with 0)
        × ((sendto to_vec during env real reads fd dest bytes s).0 ≢ failed_with 0)
  calls-Tells fd addr len reads dest bytes s = (
    bind-Tells fd addr len s,
    listen-Tells fd s,
    sendto-Tells to_vec during env real tells reads fd dest bytes s,
  )
