-- ===== src/Rhp/Client/Tests.antt =====
-- Instances of the theorems on the requests of crates/rhpv2/src/client.rs, with a serializer that keeps
-- the id and the data of a `send` request, and the buffering sink.
use pdn_libax.Prelude.{
  ℕ, ◌≡◌, refl, true, false, List, [], ◌∷◌, ◌++◌, Option, none, some, arith, Bytes, codes, Table,
  map_id, ◌<◌,
}
use pdn_libax.Rhp.Wire.{to_wire_string}
use pdn_libax.Rhp.Wire.Framing.{framed}
use pdn_libax.Rhp.Frame.{Value, obj, str, unsigned, member, end, unwrap_or}
use pdn_libax.Rhp.Frame
use pdn_libax.Rhp.Requests.{send_req}
use pdn_libax.Rhp.Reader.{has_id}
use pdn_libax.Rhp.Buffering.{HandleBuf, buffering_sink}
use pdn_libax.Rhp.Client.{given, Conn, check_ok, next_id, request}
use pdn_libax.Rhp.Client.Replies.{reader_acts, first_reply, outcome, request-first_reply}
use pdn_libax.Rhp.Client.Ids.{Act, begins, hears, finishes, acts, next_id-unused}
use pdn_libax.Rhp.Client.Sending.{Serializes, Obliging}

abbrev fresh : Conn (Table HandleBuf)
fresh = record {
  core = record { pending = []; replies = []; conns = []; accepts = []; closed = false; sink = [] };
  last_id = 4;
  written = [];
}

abbrev recv_push : Value
recv_push = obj (
    member (codes "type") (str (codes "recv"))
      (member (codes "handle") (unsigned 42) (member (codes "data") (str (codes "hi")) end)))

abbrev ok_reply : Value
ok_reply = obj (
    member (codes "type") (str (codes "sendReply"))
      (member (codes "id") (unsigned 5) (member (codes "errCode") (unsigned 0) end)))

request-first_reply_example :
    let frames = recv_push ∷ ok_reply ∷ [] in
    let (r, c) = request (reader_acts buffering_sink frames true) 5 (codes "{}") fresh in
    (r ≡ outcome (first_reply 5 frames) true)
    × (c.written ≡ [] ++ framed (codes "{}"))
    × (has_id 5 c.core.pending ≡ false)
request-first_reply_example =
    request-first_reply buffering_sink (recv_push ∷ ok_reply ∷ []) true 5 (codes "{}") fresh
      (omega arith)

first_reply_found : first_reply 5 (recv_push ∷ ok_reply ∷ []) ≡ some ok_reply
unfolding first_reply Frame.id
first_reply_found = refl

abbrev keep_data : Value → Bytes
unfolding Frame.id Frame.data_str
keep_data v = unwrap_or (Frame.id v) 0 ∷ unwrap_or (Frame.data_str v) []

abbrev read_data : Bytes → Option Value
unfolding send_req
read_data [] = none
read_data (id ∷ s) = some (send_req id 42 s)

abbrev answered : ℕ → Conn (Table HandleBuf) → Conn (Table HandleBuf)
answered id c = record c { core = record c.core { replies = (id, ok_reply) ∷ [] } }

serializes : Serializes keep_data read_data 42
unfolding keep_data read_data send_req Frame.id Frame.data_str to_wire_string
serializes id s bound bytes short =
    (rw (map_id (λ b. b) (λ b. b < 256) s (λ b small. refl) bytes) (omega arith), refl)

obliging : Obliging answered
unfolding check_ok Frame.errcode Frame.errtext
obliging id c waits = (refl, ok_reply, ground arith, refl)

abbrev busy : List Act
busy = begins ∷ hears ok_reply ∷ begins ∷ finishes 1 ∷ []

next_id-unused_example :
    let (r, c') = next_id (acts buffering_sink busy (record fresh { last_id = 0 })) in
    (id : ℕ) × (r ≡ given id) × (0 < id) × (has_id id c'.core.pending ≡ false)
next_id-unused_example =
    next_id-unused buffering_sink busy (record fresh { last_id = 0 }) refl refl (omega arith)
