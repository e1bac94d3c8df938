-- ===== src/Interpose/Session/Ordered.antt =====
-- `write` on a stream, and the pump for bytes that bypassed the interposer, over the RHP client:
-- `ax25_send` of crates/ax25-interpose/src/lib.rs with `OutboundPump` and `outbound_loop` of state.rs.
-- `reads` is what `recv` gives on our end of the pair, call by call, until it gives nothing.
pub mod Joined
pub mod Turns
mod Tests
use pdn_libax.Prelude.{
  ℕ, Bool, true, false, List, [], ◌∷◌, Option, none, some, if◌then◌else◌, length, is_empty, Bytes,
  Table, lookup, insert,
}
use pdn_libax.Prelude.Errno.{eio, enotconn}
use pdn_libax.Rhp.Frame.{Value}
use pdn_libax.Rhp.Client.{RhpResult, given, failed, Conn, to_errno}
use pdn_libax.Rhp.Client
use pdn_libax.Interpose.EventSink.{Pumps}
use pdn_libax.Interpose.Sockets.{Reply, returned, failed_with}
use pdn_libax.Interpose.Session.{Session, Env, on_pumps, on_net, fd_of, handle_of, ensure_client}

-- Nothing is pending on our end any more.
abbrev pub end_emptied : ℕ → Session → Session
end_emptied inner =
    on_pumps
      λ p. record p { outbound = record p.outbound { pipes = insert inner [] p.outbound.pipes } }

abbrev pub entries_of : Session → Table ℕ
entries_of s = s.net.core.sink.outbound.entries

module _ (to_vec : Value → Bytes) (during : ℕ → Conn Pumps → Conn Pumps) where
  -- The results of these sends are dropped.
  unfoldable pub drain_locked : ℕ → ℕ → List Bytes → Session → Session
  drain_locked h inner [] s = end_emptied inner s
  drain_locked h inner (bytes ∷ reads) s =
      drain_locked h inner reads (on_net (Client.send to_vec during h bytes) s).1

  abbrev pub flush_entry : ℕ → Option ℕ → List Bytes → Session → Session
  flush_entry h none reads s = s
  flush_entry h (some inner) reads s = drain_locked h inner reads s

  unfoldable pub flush : ℕ → List Bytes → Session → Session
  unfolding drain_locked
  flush h reads s = flush_entry h (lookup h (entries_of s)) reads s

  unfoldable pub send_ordered : ℕ → List Bytes → Bytes → Session → RhpResult (Unit {0}) × Session
  unfolding flush
  send_ordered h reads bytes s = on_net (Client.send to_vec during h bytes) (flush h reads s)

  -- The snapshot of the entries beside what `poll` says of each: `none` for an end without POLLIN and
  -- POLLHUP, else what `recv` then gives there.
  unfoldable pub flush_ready : List (Option (List Bytes)) → Table ℕ → Session → Session
  unfolding flush
  flush_ready [] m s = s
  flush_ready (ready ∷ rest) [] s = s
  flush_ready (none ∷ rest) (e ∷ m) s = flush_ready rest m s
  flush_ready (some reads ∷ rest) ((h, inner) ∷ m) s = flush_ready rest m (flush h reads s)

  module _ (env : Env) where
    abbrev pub turn_reached : List (Option (List Bytes)) → Table ℕ → Bool × Session → Session
    turn_reached ready m (false, s) = s
    turn_reached ready m (true, s) = flush_ready ready m s

    -- One turn of `outbound_loop`, which parks while there are no entries. `polled` is `none` if
    -- `poll` gives no events.
    unfoldable pub outbound_turn : Option (List (Option (List Bytes))) → Session → Session
    unfolding flush_ready ensure_client
    outbound_turn none s = s
    outbound_turn (some ready) s =
        if is_empty (entries_of s)
        then s
        else turn_reached ready (entries_of s) (ensure_client to_vec during env s)

    abbrev pub sent_reply : ℕ → RhpResult (Unit {0}) × Session → Reply × Session
    sent_reply n (given u, s) = (returned n, s)
    sent_reply n (failed e, s) = (failed_with (to_errno e), s)

    abbrev pub send_reached : ℕ → List Bytes → Bytes → Bool × Session → Reply × Session
    send_reached h reads bytes (false, s) = (failed_with eio, s)
    send_reached h reads bytes (true, s) = sent_reply (length bytes) (send_ordered h reads bytes s)

    unfoldable pub ax25_send : ℕ → List Bytes → Bytes → Session → Reply × Session
    unfolding ensure_client send_ordered
    ax25_send fd reads bytes s = elim (handle_of (fd_of fd s)) [
      | none ↦ (failed_with enotconn, s)
      | some h ↦ send_reached h reads bytes (ensure_client to_vec during env s)
    ]
