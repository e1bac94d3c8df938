-- ===== src/Rhp/Reader/Tests.antt =====
-- Instances of the theorems on the reader thread of crates/rhpv2/src/client.rs, with a parser that
-- knows two frame bodies and the buffering sink.
use pdn_libax.Prelude.{
  ℕ, ◌≡◌, ◌↔◌, refl, some, none, true, false, [], ◌∷◌, codes, arith, Bytes, bytes_eq, Option, Table,
  lookup, if◌then◌else◌, insert, map_values,
}
use pdn_libax.Rhp.Wire.{Stream, End, read_frame, from_wire_string}
use pdn_libax.Rhp.Wire.Framing.{all_framed}
use pdn_libax.Rhp.Frame.{Value, obj, str, unsigned, member, end}
use pdn_libax.Rhp.Frame
use pdn_libax.Rhp.Registry.{ConnPhase, pending, result, fail_all_pending}
use pdn_libax.Rhp.Reader.{Client, deliver, dispatch_push, shut_down, take_frame, reader_loop}
use pdn_libax.Rhp.Reader.Loop.{reader_total, reader_loop-leaves}
use pdn_libax.Rhp.Buffering.{HandleBuf, on_recv, buffering_sink}

abbrev recv_frame : Value
recv_frame = obj (
    member (codes "type") (str (codes "recv"))
      (member (codes "handle") (unsigned 42) (member (codes "data") (str (codes "hi")) end)))

abbrev reply_frame : Value
reply_frame = obj (
    member (codes "type") (str (codes "sendReply"))
      (member (codes "id") (unsigned 3) (member (codes "errCode") (unsigned 0) end)))

abbrev parse_test : Bytes → Option Value
parse_test body =
    if bytes_eq body (codes "R")
    then some recv_frame
    else if bytes_eq body (codes "A")
    then some reply_frame
    else none

abbrev client : Client (Table HandleBuf)
client = record {
  pending = 3 ∷ [];
  replies = [];
  conns = (42, pending) ∷ [];
  accepts = [];
  closed = false;
  sink = [];
}

abbrev spoken : Stream
spoken = record {
  unread = all_framed (codes "A" ∷ codes "junk" ∷ codes "R" ∷ []);
  end = End.closed;
}

reader_total_example :
    (c : Client (Table HandleBuf)) × (reader_loop buffering_sink parse_test 20 spoken client
      ≡ some (shut_down buffering_sink c))
reader_total_example = reader_total buffering_sink parse_test 20 spoken client (omega arith)

abbrev left : Client (Table HandleBuf)
left = record {
  pending = [];
  replies = (3, reply_frame) ∷ [];
  conns = (42, ConnPhase.failed 104) ∷ [];
  accepts = [];
  closed = true;
  sink = (42, record { bytes = codes "hi"; eof = false }) ∷ [];
}

spoken_read : reader_loop buffering_sink parse_test 20 spoken client ≡ some left
unfolding reader_loop read_frame deliver dispatch_push shut_down lookup insert take_frame
    fail_all_pending Frame.id Frame.typ map_values Frame.handle Frame.is_dgram_recv on_recv
    Frame.data_str from_wire_string
spoken_read = refl

reader_loop-leaves_example :
    (left.closed ≡ true)
    × (left.pending ≡ [])
    × ((k : ℕ) → (result k left.conns ≡ none) ↔ (lookup k left.conns ≡ none))
reader_loop-leaves_example =
    reader_loop-leaves buffering_sink parse_test 20 spoken client left (omega arith) spoken_read
