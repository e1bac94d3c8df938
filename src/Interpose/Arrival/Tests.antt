-- ===== src/Interpose/Arrival/Tests.antt =====
-- A stream of a push, a reply, an undecodable body and a push, up to the application: an instance on
-- crates/rhpv2/src/client.rs and crates/ax25-interpose/src/state.rs.
use pdn_libax.Prelude.{
  ℕ, ◌≡◌, refl, subst, true, false, List, [], ◌∷◌, ◌++◌, Option, none, some, arith, if◌then◌else◌,
  Bytes, codes, bytes_eq, lookup, replicate, length, All, adjust, map_values, ◌≤◌,
}
use pdn_libax.Rhp.Wire.{End, from_wire_string}
use pdn_libax.Rhp.Wire.Framing.{all_framed}
use pdn_libax.Rhp.Frame.{Value, obj, str, unsigned, member, end}
use pdn_libax.Rhp.Frame
use pdn_libax.Rhp.Reader.{
  Client, Sink, shut_down, reader_loop, take_frame, deliver, dispatch_push, recv_push,
}
use pdn_libax.Rhp.Reader.Loop.{reader_loop-framed, take_frames}
use pdn_libax.Interpose.RecvPump.{
  PendingRecv, Answer, Act, shut, room, new_entry, push, push_live, nb_write, shutdown_all,
  flusher_loop,
}
use pdn_libax.Interpose.RecvPump.Backlog.{delivered}
use pdn_libax.Interpose.RecvPump.Own.{own}
use pdn_libax.Interpose.RecvPump.Eof.{shuts}
use pdn_libax.Interpose.EventSink.{Pumps, interpose_sink, on_disconnect}
use pdn_libax.Interpose.Arrival.Delivered.{reader_loop-delivered}
use pdn_libax.Interpose.Arrival.{carried, all_carried, IsPush}
use pdn_libax.Interpose.Arrival.Frames.{reader_loop-Live}

abbrev recv_frame : Value
recv_frame = obj (
    member (codes "type") (str (codes "recv"))
      (member (codes "handle") (unsigned 42) (member (codes "data") (str (codes "hi")) end)))

abbrev reply_frame : Value
reply_frame = obj (
    member (codes "type") (str (codes "sendReply"))
      (member (codes "id") (unsigned 3) (member (codes "errCode") (unsigned 0) end)))

abbrev parse_test : Bytes → Option Value
parse_test body =
    if bytes_eq body (codes "R")
    then some recv_frame
    else if bytes_eq body (codes "A")
    then some reply_frame
    else none

abbrev bodies : List Bytes
bodies = codes "R" ∷ codes "A" ∷ codes "junk" ∷ codes "R" ∷ []

-- The socketpair takes one byte of each push, and the rest is buffered.
abbrev answer : ℕ → Bytes → Pumps → Answer
answer h bytes s = room 1

abbrev client : Client Pumps
client = record {
  pending = 3 ∷ [];
  replies = [];
  conns = [];
  accepts = [];
  closed = false;
  sink = record {
    recv = record { handles = (42, new_entry 7 []) ∷ []; early = []; log = [] };
    dgrams = [];
    outbound = record { entries = []; gates = []; pipes = []; wire = [] };
  };
}

parsed-IsPush :
    (body : Bytes) (g : Value)
    → parse_test body ≡ some g
    → (bytes_eq (Frame.typ g) (codes "recv") ≡ true → Frame.id g ≡ none)
    → IsPush parse_test body
parsed-IsPush body g e pushes f found =
    let same : g ≡ f = cc (e, found) in
    subst (λ v. bytes_eq (Frame.typ v) (codes "recv") ≡ true → Frame.id v ≡ none) same pushes

reply-IsPush : IsPush parse_test (codes "A")
unfolding Frame.typ Frame.get
reply-IsPush = parsed-IsPush (codes "A") reply_frame refl (λ e. absurd (cc e))

recv-IsPush : IsPush parse_test (codes "R")
unfolding Frame.id Frame.get
recv-IsPush = parsed-IsPush (codes "R") recv_frame refl (λ e. refl)

reader_loop-Live_example :
    (c' : Client Pumps) × (reader_loop
        (interpose_sink answer (λ s. true))
        parse_test
        9
        (record { unread = all_framed bodies; end = End.closed })
        client
      ≡ some c')
    × (e : PendingRecv) × (lookup 42 c'.sink.recv.handles ≡ some e)
    × (delivered 42 c'.sink.recv.log ++ e.buf ≡ [] ++ all_carried parse_test 42 bodies)
    × (e.eof ≡ true)
unfolding lookup
reader_loop-Live_example =
    reader_loop-Live answer (λ s. true) 42 parse_test bodies 9 [] client End.closed
      (omega arith, (omega arith, (omega arith, (omega arith, tt)))) (omega arith)
      (λ bytes s. (1, refl))
      (recv-IsPush, (reply-IsPush, (λ f e. absurd (cc e), (recv-IsPush, tt))))
      ((refl, tt), (new_entry 7 [], refl, refl))

carried_both : all_carried parse_test 42 bodies ≡ codes "hihi"
unfolding all_carried carried Frame.typ Frame.is_dgram_recv Frame.handle Frame.data_str
    from_wire_string
carried_both = refl

abbrev sink_test : Sink Pumps
sink_test = interpose_sink answer (λ s. true)

abbrev ended : Client Pumps
ended = shut_down sink_test (take_frames sink_test parse_test bodies client)

abbrev byte_rounds : List (ℕ → List Answer)
byte_rounds = replicate 4 (λ h. room 1 ∷ [])

short_backlogs : All (λ (e : ℕ × PendingRecv). length e.1.buf ≤ 3) ended.sink.recv.handles
unfolding shut_down take_frames take_frame deliver dispatch_push recv_push push push_live nb_write
    shutdown_all on_disconnect lookup from_wire_string Frame.id Frame.typ Frame.handle
    Frame.data_str Frame.is_dgram_recv adjust map_values
short_backlogs = (omega arith, tt)

reader_loop-delivered_example :
    let p = flusher_loop byte_rounds ended.sink.recv in
    (e : PendingRecv) × (lookup 42 p.handles ≡ some e)
    × (sends : List Act) × (own 42 p.log ≡ sends ++ shut 42 e.inner_fd ∷ [])
    × (shuts sends ≡ 0)
    × (delivered 42 sends ≡ [] ++ all_carried parse_test 42 bodies)
unfolding lookup
reader_loop-delivered_example =
    reader_loop-delivered answer (λ s. true) 42 parse_test bodies 9 [] client ended End.closed
      byte_rounds 3 (omega arith, (omega arith, (omega arith, (omega arith, tt)))) (omega arith)
      (λ bytes s. (1, refl))
      (recv-IsPush, (reply-IsPush, (λ f e. absurd (cc e), (recv-IsPush, tt))))
      ((refl, tt), (new_entry 7 [], refl, refl)) (refl, refl)
      (reader_loop-framed sink_test parse_test bodies 9 client End.closed
        (omega arith, (omega arith, (omega arith, (omega arith, tt)))) (omega arith))
      short_backlogs (omega arith) ((λ h. tt), ((λ h. tt), ((λ h. tt), ((λ h. tt), tt))))
      (tt, (tt, (tt, (tt, tt))))
