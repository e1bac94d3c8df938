-- ===== src/Interpose/Session/Transfer/Tests.antt =====
-- Instances of the theorems on UI datagrams in crates/ax25-interpose/src/lib.rs, on a beacon's descriptor.
use pdn_libax.Prelude.{
  ℕ, ◌≡◌, refl, true, false, [], ◌∷◌, ◌++◌, none, some, arith, Bytes, lookup, codes, length,
  replicate, decimal, Option, take, drop,
}
use pdn_libax.Rhp.Frame.{unwrap_or, Value, obj, unsigned, member, end}
use pdn_libax.Rhp.Frame
use pdn_libax.Rhp.Client.{Conn, check_ok}
use pdn_libax.Rhp.Client.Sending.{Obliging}
use pdn_libax.Rhp.Requests.{send_to_req}
use pdn_libax.Rhp.Wire.{to_wire_string}
use pdn_libax.Rhp.Wire.Framing.{framed}
use pdn_libax.Interpose.DgramPump.{Line, Datagram, new_line}
use pdn_libax.Interpose.EventSink.{Pumps}
use pdn_libax.Interpose.Sockaddr.{sockaddr_size, read_call}
use pdn_libax.Interpose.Sockaddr.Writing.{sockaddr_at}
use pdn_libax.Interpose.Sockets.{FdState, returned, new_fd}
use pdn_libax.Interpose.Session.{Session, Env}
use pdn_libax.Interpose.Session.Transfer.{recvfrom, sendto}
use pdn_libax.Interpose.Session.Transfer.Datagrams.{
  Popped, node_takes_datagram, recvfrom-first, sendto-written,
}

abbrev heard : Datagram
heard = record { source = some (codes "G0ABC-1"); payload = 0xF0 ∷ codes "hello" }

abbrev line : Line
line = record {
  entry = record (new_line 10 11).entry { queue = heard ∷ []; signaled = true };
  unread = 1;
}

abbrev beacon : FdState
beacon = record (new_fd 10 11 true) { handle = some 42; local = some (codes "GB7RDG-2") }

abbrev session : Session
session = record {
  fds = (10, beacon) ∷ [];
  cached = true;
  net = record {
    core = record {
      pending = [];
      replies = [];
      conns = [];
      accepts = [];
      closed = false;
      sink = record {
        recv = record { handles = []; early = []; log = [] };
        dgrams = (42, line) ∷ [];
        outbound = record { entries = []; gates = []; pipes = []; wire = [] };
      };
    };
    last_id = 0;
    written = [];
  };
}

abbrev to_vec_test : Value → Bytes
to_vec_test v = codes "{}"

abbrev answers : ℕ → Conn Pumps → Conn Pumps
answers id c = record c {
  core = record c.core { replies = (id, obj (member (codes "errCode") (unsigned 0) end)) ∷ [] };
}

abbrev env : Env
env = record { opens = true; credentials = none; src_call = none }

obliging : Obliging answers
unfolding check_ok Frame.errcode Frame.errtext
obliging id c waits = (refl, obj (member (codes "errCode") (unsigned 0) end), ground arith, refl)

recvfrom-first_example :
    let r =
      recvfrom to_vec_test answers env
        (0 ∷ 0 ∷ 0 ∷ [])
        true
        128
        []
        10
        (some (replicate 16 0, 16))
        (returned 9, [])
        session in
    (r.bytes ≡ codes "hello")
    × (r.reply ≡ some (returned (length r.bytes)))
    × (r.after.fds ≡ session.fds)
    × Popped 42 [] ((42, line) ∷ []) r.after.net.core.sink.dgrams
    × (m : Bytes) × (r.source ≡ some (m, sockaddr_size))
    × (read_call (some (sockaddr_at m)) sockaddr_size ≡ some (codes "G0ABC-1"))
unfolding lookup decimal
recvfrom-first_example =
    recvfrom-first to_vec_test answers env (0 ∷ 0 ∷ 0 ∷ []) true 128 [] 10 42 beacon
      (replicate 16 0) 16 (returned 9, []) session line heard [] (codes "G0ABC") 1 refl refl refl
      refl refl refl (omega arith, (refl, (refl, (refl, (refl, (refl, tt)))))) (omega arith) refl
      (omega arith)

-- A serializer that keeps the fields of a `sendto`, and its parser.
abbrev keep_fields : Value → Bytes
unfolding Frame.id Frame.handle Frame.remote Frame.local Frame.data_str
keep_fields v =
    let remote = unwrap_or (Frame.remote v) [] in
    let local = unwrap_or (Frame.local v) [] in
    unwrap_or (Frame.id v) 0
    ∷ unwrap_or (Frame.handle v) 0
    ∷ length remote
    ∷ length local
    ∷ (remote ++ local ++ unwrap_or (Frame.data_str v) [])

abbrev parse_fields : Bytes → Option Value
unfolding send_to_req
parse_fields (id ∷ handle ∷ n ∷ k ∷ bytes) =
    some (send_to_req id handle (take n bytes) (take k (drop n bytes)) (drop k (drop n bytes)))
parse_fields _ = none

sendto-written_example :
    let (r, s) =
      sendto keep_fields answers env
        (returned 9)
        []
        10
        (some (some (codes "BEACON")))
        (codes "de GB7RDG-2")
        session in
    (r ≡ returned 11)
    × (body : Bytes) × (s.net.written ≡ [] ++ framed body)
    × (v : Value) × (parse_fields body ≡ some v)
    × (node_takes_datagram v ≡ (
      some 42,
      some (codes "BEACON"),
      some (codes "GB7RDG-2"),
      some (240 ∷ codes "de GB7RDG-2"),
    ))
unfolding lookup keep_fields parse_fields send_to_req Frame.id Frame.handle Frame.remote Frame.local
    Frame.data_str to_wire_string
sendto-written_example =
    sendto-written keep_fields answers env parse_fields (returned 9) [] 10 42 beacon
      (codes "BEACON") (codes "GB7RDG-2") (codes "de GB7RDG-2") session obliging refl refl refl refl
      refl refl (ground arith) refl (omega arith) refl
