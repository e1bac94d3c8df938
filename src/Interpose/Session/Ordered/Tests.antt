-- ===== src/Interpose/Session/Ordered/Tests.antt =====
-- Instances on the stream calls and the outbound pump of crates/ax25-interpose/src/lib.rs and
-- crates/ax25-interpose/src/state.rs, with a serializer that keeps the id, the handle and the data.
use pdn_libax.Prelude.{
  ℕ, ◌<◌, ◌≤◌, ◌≡◌, refl, true, false, List, [], ◌∷◌, ◌++◌, map, Option, none, some, arith, ◌==◌,
  if◌then◌else◌, Bytes, codes, length, All, map_id, lookup,
}
use pdn_libax.Rhp.Wire.{max_frame, to_wire_string}
use pdn_libax.Rhp.Wire.Framing.{all_framed}
use pdn_libax.Rhp.Frame.{Value, obj, unsigned, member, end, unwrap_or}
use pdn_libax.Rhp.Frame
use pdn_libax.Rhp.Requests.{send_req, max_send_chunk}
use pdn_libax.Rhp.Client.{Conn, check_ok}
use pdn_libax.Rhp.Client.Sending.{Serializes, Obliging, node_takes}
use pdn_libax.Interpose.EventSink.{Pumps}
use pdn_libax.Interpose.Sockets.{FdState, new_fd, returned}
use pdn_libax.Interpose.Session.{Session, Env}
use pdn_libax.Interpose.Session.Ordered.{entries_of, ax25_send, outbound_turn}
use pdn_libax.Interpose.Session.Ordered.Joined.{taken, delivered_as, Forwards, ax25_send-joined}
use pdn_libax.Interpose.Session.Ordered.Turns.{all_reads, outbound_turn-Forwards}

abbrev keep_data : Value → Bytes
unfolding Frame.id Frame.handle Frame.data_str
keep_data v =
    unwrap_or (Frame.id v) 0 ∷ unwrap_or (Frame.handle v) 0 ∷ unwrap_or (Frame.data_str v) []

abbrev read_data : Bytes → Option Value
unfolding send_req
read_data [] = none
read_data (id ∷ []) = none
read_data (id ∷ h ∷ s) = some (send_req id h s)

abbrev answered : ℕ → Conn Pumps → Conn Pumps
answered id c = record c {
  core = record c.core { replies = (id, obj (member (codes "errCode") (unsigned 0) end)) ∷ [] };
}

serializes : (h : ℕ) → Serializes keep_data read_data h
unfolding keep_data read_data send_req Frame.id Frame.handle Frame.data_str to_wire_string
serializes h id s bound bytes short =
    (rw (map_id (λ b. b) (λ b. b < 256) s (λ b small. refl) bytes) (omega arith), refl)

obliging : Obliging answered
unfolding check_ok Frame.errcode Frame.errtext
obliging id c waits = (refl, obj (member (codes "errCode") (unsigned 0) end), ground arith, refl)

abbrev stream : ℕ → ℕ → FdState
stream h inner = record (new_fd 10 inner false) { handle = some h }

abbrev session : Session
session = record {
  fds = (10, stream 42 11) ∷ (12, stream 43 13) ∷ [];
  cached = true;
  net = record {
    core = record {
      pending = [];
      replies = [];
      conns = [];
      accepts = [];
      closed = false;
      sink = record {
        recv = record { handles = []; early = []; log = [] };
        dgrams = [];
        outbound = record { entries = (42, 11) ∷ (43, 13) ∷ []; gates = []; pipes = []; wire = [] };
      };
    };
    last_id = 0;
    written = [];
  };
}

abbrev env : Env
env = record { opens = true; credentials = none; src_call = none }

ax25_send-joined_example :
    let (reply, s') =
      ax25_send keep_data answered env 10 (codes "ban" ∷ codes "ner" ∷ []) (codes "CQ") session in
    (reply ≡ returned 2)
    × (bodies : List Bytes) × (s'.net.written ≡ [] ++ all_framed bodies)
    × (All (λ (body : Bytes). length body ≤ max_frame) bodies)
    × (parts : List (ℕ × Bytes)) × (map (node_takes read_data) bodies ≡ map delivered_as parts)
    × (All (λ (p : ℕ × Bytes). length p.1 ≤ max_send_chunk) parts)
    × ((k : ℕ) → taken k parts ≡ (if 42 == k then codes "bannerCQ" else []))
unfolding lookup
ax25_send-joined_example =
    ax25_send-joined keep_data answered read_data serializes obliging env 10 42 11
      (codes "ban" ∷ codes "ner" ∷ []) (codes "CQ") session refl refl refl refl
      (omega arith, (omega arith, tt)) (omega arith)

outbound_turn-Forwards_example :
    Forwards keep_data answered read_data
      (all_reads (none ∷ some (codes "banner" ∷ []) ∷ []) (entries_of session))
      []
      (outbound_turn keep_data answered env
        (some (none ∷ some (codes "banner" ∷ []) ∷ []))
        session).net.written
outbound_turn-Forwards_example =
    outbound_turn-Forwards keep_data answered read_data (λ m id c e. e) serializes obliging env
      (none ∷ some (codes "banner" ∷ []) ∷ []) session refl refl (tt, ((omega arith, tt), tt))
