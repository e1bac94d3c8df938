-- ===== src/Interpose/Session/Transfer/Datagrams.antt =====
-- UI datagrams through `recvfrom` and `sendto` of crates/ax25-interpose/src/lib.rs.
use pdn_libax.Prelude.{
  ℕ, ◌+◌, ◌%◌, ◌++◌, is_empty, i64_mod, ◌≡◌, ◌≤◌, refl, ap, ◌∙◌, ◌==◌, ==_refl, take, lookup-adjust,
  map_some, AreBytes, true, false, Bool, [], ◌∷◌, List, Option, some, arith, Bytes, Table, lookup,
  length,
}
use pdn_libax.Rhp.Frame.{Value}
use pdn_libax.Rhp.Frame
use pdn_libax.Rhp.Client.{Conn}
use pdn_libax.Callsign.Entry.{IsBase, canonical}
use pdn_libax.Rhp.Client
use pdn_libax.Rhp.Client.{given, next_id}
use pdn_libax.Rhp.Client.Sending.{Obliging, simple_answered}
use pdn_libax.Rhp.Requests.{send_to_req}
use pdn_libax.Rhp.Wire.{max_frame, to_wire_string, from_wire_string}
use pdn_libax.Rhp.Wire.Framing.{framed, from-to_wire_string}
use pdn_libax.Interpose.DgramPump.{Line, Datagram, got, take_front, recv_entry, recv_one}
use pdn_libax.Interpose.EventSink.{Pumps}
use pdn_libax.Interpose.Sockaddr.{sockaddr_size, read_call}
use pdn_libax.Interpose.Sockaddr.Writing.{OutAddr, sockaddr_at}
use pdn_libax.Interpose.Sockaddr.ReadBack.{write_call-read}
use pdn_libax.Interpose.Sockets.{FdState, Reply, returned}
use pdn_libax.Interpose.Sockets.Payload
use pdn_libax.Interpose.Sockets.Payload.{
  ready, recv_turn, app_payload, source_text, wire_payload, send_wire, source_call, sends, outgoing,
}
use pdn_libax.Interpose.Session.{Session, Env, ensure_dgram, ensure_client}
use pdn_libax.Interpose.Session.Transfer.{
  received, dgram_loop, recvfrom, on_dgrams, sendto, ax25_dgram_send,
}

recv_one-first :
    (h : ℕ) (m : Table Line) (l : Line) (dg : Datagram) (rest : List Datagram)
    → lookup h m ≡ some l
    → l.entry.queue ≡ dg ∷ rest
    → (recv_one h m).0 ≡ got dg
unfolding recv_one recv_entry
recv_one-first h m l dg rest found queue = rw (recv_one, found, recv_entry, queue) refl

-- The turn of a handle with a datagram gives the first of its queue.
recv_turn-first :
    (h : ℕ) (pidincl nonblock : Bool) (len : ℕ) (m : Table Line) (l : Line) (dg : Datagram)
    (rest : List Datagram)
    → lookup h m ≡ some l
    → l.entry.queue ≡ dg ∷ rest
    → recv_turn h pidincl nonblock len m ≡ (
      some (Payload.given (app_payload pidincl len dg.payload) (source_text dg.source)),
      (recv_one h m).1,
    )
unfolding recv_turn
recv_turn-first h pidincl nonblock len m l dg rest found queue =
    rw (recv_turn, recv_one-first h m l dg rest found queue) refl

dgram_loop-first :
    (pad : Bytes) (out : OutAddr) (h : ℕ) (pidincl nonblock : Bool) (len : ℕ)
    (turns : List (Conn Pumps → Conn Pumps)) (s : Session) (l : Line) (dg : Datagram)
    (rest : List Datagram)
    → lookup h s.net.core.sink.dgrams ≡ some l
    → l.entry.queue ≡ dg ∷ rest
    → dgram_loop pad out h pidincl nonblock len turns s
      ≡ received pad out
          (Payload.given (app_payload pidincl len dg.payload) (source_text dg.source))
          (on_dgrams (recv_one h s.net.core.sink.dgrams).1 s)
unfolding dgram_loop
dgram_loop-first pad out h pidincl nonblock len [] s l dg rest found queue =
    rw (recv_turn-first h pidincl nonblock len s.net.core.sink.dgrams l dg rest found queue)
dgram_loop-first pad out h pidincl nonblock len (turn ∷ turns) s l dg rest found queue =
    rw (recv_turn-first h pidincl nonblock len s.net.core.sink.dgrams l dg rest found queue)

-- What the application is to get of a payload: all of it with AX25_PIDINCL, and otherwise the octets
-- behind the PID. A payload without any octet has no PID.
abbrev pub for_app : Bool → Bytes → Bytes
for_app true payload = payload
for_app false [] = []
for_app false (pid ∷ info) = info

app_payload_lem :
    (pidincl : Bool) (len : ℕ) (payload : Bytes)
    → app_payload pidincl len payload ≡ take len (for_app pidincl payload)
unfolding app_payload
app_payload_lem true len payload = refl
app_payload_lem false len [] = refl
app_payload_lem false len (pid ∷ info) = refl

-- The queue of a handle has become this one, and the entries of the other handles are as they were.
abbrev pub Popped : ℕ → List Datagram → Table Line → Table Line → Type 0
Popped h rest m m' =
    ((l : Line) × (lookup h m' ≡ some l) × (l.entry.queue ≡ rest))
    × ((k : ℕ) → (h == k) ≡ false → lookup k m' ≡ lookup k m)

take_front-queue : (rest : List Datagram) (l : Line) → (take_front rest l).entry.queue ≡ rest
take_front-queue rest l = ground arith

recv_one-Popped :
    (h : ℕ) (m : Table Line) (l : Line) (dg : Datagram) (rest : List Datagram)
    → lookup h m ≡ some l
    → l.entry.queue ≡ dg ∷ rest
    → Popped h rest m (recv_one h m).1
unfolding recv_one recv_entry
recv_one-Popped h m l dg rest found queue =
    rw (recv_one, found)
      (
        (
          (recv_entry l).1,
          lookup-adjust h h (λ v. (recv_entry v).1) m ∙ rw (==_refl h, found) refl,
          rw queue (take_front-queue rest l),
        ),
        λ k other. lookup-adjust h k (λ v. (recv_entry v).1) m ∙ rw other refl,
      )

module _ (to_vec : Value → Bytes) (during : ℕ → Conn Pumps → Conn Pumps) (env : Env) where
  ensure_dgram_ready :
      (fd h : ℕ) (f : FdState) (s : Session)
      → lookup fd s.fds ≡ some f
      → f.handle ≡ some h
      → ensure_dgram to_vec during env fd s ≡ (ready h, s)
  unfolding ensure_dgram
  ensure_dgram_ready fd h f s found has = rw (ensure_dgram, found, has)

  -- `recvfrom` on a datagram descriptor whose queue is not empty does not wait. It gives the first datagram:
  -- the payload with AX25_PIDINCL, and otherwise what stands behind its first octet, the PID, cut to the
  -- room there is, with the length of that as the result. The application reads the sender's canonical
  -- callsign from the source address. Behind the call the rest of the queue waits for the handle, and the
  -- other handles and the table of descriptors are as they were.
  pub recvfrom-first :
      (pad : Bytes) (nonblock : Bool) (len : ℕ) (turns : List (Conn Pumps → Conn Pumps)) (fd h : ℕ)
      (f : FdState) (memory : Bytes) (avail : ℕ) (taken : Reply × Bytes) (s : Session) (l : Line)
      (dg : Datagram) (rest : List Datagram) (base : Bytes) (ssid : ℕ)
      → length pad ≡ 3
      → lookup fd s.fds ≡ some f
      → f.dgram ≡ true
      → f.handle ≡ some h
      → lookup h s.net.core.sink.dgrams ≡ some l
      → l.entry.queue ≡ dg ∷ rest
      → IsBase base
      → ssid ≤ 15
      → dg.source ≡ some (canonical base ssid)
      → sockaddr_size ≤ avail
      → let r =
          recvfrom to_vec during env pad nonblock len turns fd (some (memory, avail)) taken s in
        (r.bytes ≡ take len (for_app f.pidincl dg.payload))
        × (r.reply ≡ some (returned (length r.bytes)))
        × (r.after.fds ≡ s.fds)
        × Popped h rest s.net.core.sink.dgrams r.after.net.core.sink.dgrams
        × (m : Bytes) × (r.source ≡ some (m, sockaddr_size))
        × (read_call (some (sockaddr_at m)) sockaddr_size ≡ some (canonical base ssid))
  unfolding recvfrom
  recvfrom-first pad nonblock len turns fd h f memory avail taken s l dg rest base ssid p found kind
        has line queue b small source roomy =
      let (m, wrote, call, none_left) =
        write_call-read base ssid b small pad memory avail p roomy in
      rw
        (
          recvfrom,
          found,
          kind,
          ensure_dgram_ready fd h f s found has,
          found,
          dgram_loop-first pad (some (memory, avail)) h f.pidincl nonblock len turns s l dg rest
              line queue,
          source,
        )
        (
          app_payload_lem f.pidincl len dg.payload,
          refl,
          refl,
          recv_one-Popped h s.net.core.sink.dgrams l dg rest line queue,
          m,
          wrote,
          call,
        )

-- The payload that is to be sent for the application's bytes: with AX25_PIDINCL they start with the PID, and
-- otherwise the PID "no layer 3" goes in front of them.
abbrev pub on_air : Bool → Bytes → Bytes
on_air true app = app
on_air false app = 240 ∷ app

wire_payload_lem : (pidincl : Bool) (app : Bytes) → wire_payload pidincl app ≡ on_air pidincl app
unfolding wire_payload
wire_payload_lem true app = refl
wire_payload_lem false app = refl

on_air-AreBytes : (pidincl : Bool) (app : Bytes) → AreBytes app → AreBytes (on_air pidincl app)
on_air-AreBytes true app bytes = bytes
on_air-AreBytes false app bytes = (omega arith, bytes)

-- What the node takes from the body of a `sendto`: the handle, the destination, the source and the payload.
abbrev pub node_takes_datagram : Value → Option ℕ × Option Bytes × Option Bytes × Option Bytes
node_takes_datagram f =
    (Frame.handle f, Frame.remote f, Frame.local f, map_some from_wire_string (Frame.data_str f))

send_to_req-node :
    (id h : ℕ) (remote local wire : Bytes)
    → AreBytes wire
    → node_takes_datagram (send_to_req id h remote local (to_wire_string wire))
      ≡ (some h, some remote, some local, some wire)
unfolding send_to_req Frame.handle Frame.remote Frame.local Frame.data_str
send_to_req-node id h remote local wire bytes = rw (from-to_wire_string wire bytes) refl

send_wire-some :
    (remote local wire : Bytes)
    → is_empty wire ≡ false
    → send_wire remote local wire ≡ sends remote local wire
send_wire-some remote local [] h = absurd (ground arith)
send_wire-some remote local (b ∷ wire) h = refl

outgoing_bound :
    (src_call : Option Bytes) (remote local app : Bytes) (f : FdState)
    → f.local ≡ some local
    → is_empty (wire_payload f.pidincl app) ≡ false
    → outgoing (some (some remote)) src_call app f ≡ sends remote local (wire_payload f.pidincl app)
unfolding outgoing
outgoing_bound src_call remote local app f bound some_wire =
    rw (outgoing, bound, send_wire-some remote local (wire_payload f.pidincl app) some_wire) refl

module _ (to_vec : Value → Bytes) (during : ℕ → Conn Pumps → Conn Pumps) (env : Env) where
  live_client :
      (s : Session)
      → s.cached ≡ true
      → s.net.core.closed ≡ false
      → ensure_client to_vec during env s ≡ (true, s)
  unfolding ensure_client
  live_client s cached alive = rw (ensure_client, cached, alive)

  -- `sendto` on a datagram descriptor with a handle and a local callsign, to a destination that could be
  -- read, over a client whose node answers without an error: if there is something to send and the request
  -- fits a frame and the node's parser reads it back, all bytes are reported as sent, and exactly one frame
  -- is written. What the node takes from its body are the descriptor's handle, the destination, the local
  -- callsign as the source, and as payload the bytes, behind the octet 0xF0 unless AX25_PIDINCL is set.
  pub sendto-written :
      (parse : Bytes → Option Value) (real : Reply) (reads : List Bytes) (fd h : ℕ) (f : FdState)
      (remote local app : Bytes) (s : Session)
      → Obliging during
      → lookup fd s.fds ≡ some f
      → f.dgram ≡ true
      → f.handle ≡ some h
      → f.local ≡ some local
      → s.cached ≡ true
      → s.net.core.closed ≡ false
      → AreBytes app
      → is_empty (on_air f.pidincl app) ≡ false
      → let request =
          send_to_req
            ((1 + s.net.last_id) % i64_mod)
            h
            remote
            local
            (to_wire_string (on_air f.pidincl app)) in
        length (to_vec request) ≤ max_frame
        → parse (to_vec request) ≡ some request
        → let (r, s') = sendto to_vec during env real reads fd (some (some remote)) app s in
          (r ≡ returned (length app))
          × (body : Bytes) × (s'.net.written ≡ s.net.written ++ framed body)
          × (v : Value) × (parse body ≡ some v)
          × (node_takes_datagram v ≡ (some h, some remote, some local, some (on_air f.pidincl app)))
  unfolding sendto ax25_dgram_send outgoing Client.sendto
  sendto-written parse real reads fd h f remote local app s obliging found kind has bound cached
        alive bytes some_wire fits parsed =
      let id = (1 + s.net.last_id) % i64_mod in
      let wire = on_air f.pidincl app in
      let request = send_to_req id h remote local (to_wire_string wire) in
      let (success, written) =
        simple_answered to_vec during id request (record s.net { last_id = id }) obliging fits in
      let same : wire_payload f.pidincl app ≡ wire = wire_payload_lem f.pidincl app in
      rw
        (
          sendto,
          found,
          kind,
          ax25_dgram_send,
          ensure_dgram_ready to_vec during env fd h f s found has,
          found,
          outgoing_bound env.src_call remote local app f bound
              (ap (λ b. is_empty b) same ∙ some_wire),
          same,
          live_client s cached alive,
          Client.sendto,
          success,
        )
        (
          refl,
          to_vec request,
          written,
          request,
          parsed,
          send_to_req-node id h remote local wire (on_air-AreBytes f.pidincl app bytes),
        )
