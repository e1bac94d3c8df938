-- ===== src/Interpose/Arrival.antt =====
-- What the node writes on the RHP stream, up to the socketpair of the application: `reader_loop` of
-- crates/rhpv2/src/client.rs over `InterposeSink` and `RecvPump` of crates/ax25-interpose/src/state.rs.
pub mod Pushes
pub mod Frames
pub mod Signals
pub mod Delivered
mod Tests
use pdn_libax.Prelude.{
  ℕ, ◌≡◌, ◌<◌, ◌≤◌, ◌⊎◌, refl, sym, ◌∙◌, ap, subst, inl, inr, Bool, true, false, List, [], ◌∷◌,
  ◌++◌, append-nil, append_assoc, Option, none, some, arith, ◌==◌, ==_iff, if◌then◌else◌, length,
  Bytes, codes, bytes_eq, All, Bool-cases, Option-cases, lookup, lookup-map_values,
}
use pdn_libax.Rhp.Wire.{Stream, End, from_wire_string, max_frame}
use pdn_libax.Rhp.Wire.Framing.{all_framed}
use pdn_libax.Rhp.Frame.{Value}
use pdn_libax.Rhp.Frame
use pdn_libax.Rhp.Reader.{
  Client, Sink, recv_push, accept_push, status_push, close_push, dispatch_push, deliver, shut_down,
  take_frame, reader_loop, has_id,
}
use pdn_libax.Rhp.Reader.Loop.{reader_loop-framed, take_frames, deliver_waiting, deliver_unknown}
use pdn_libax.Interpose.RecvPump.{
  PendingRecv, Answer, room, gone, Pump, push, mark_eof, shutdown_all,
}
use pdn_libax.Interpose.RecvPump.Calls.{receives, marks, shuts_down, Live, Spares}
use pdn_libax.Interpose.RecvPump.Backlog.{delivered}
use pdn_libax.Interpose.RecvPump.Delivery.{step-Live}
use pdn_libax.Interpose.EventSink.{Pumps, interpose_sink, on_status, on_close, on_disconnect}

-- The bytes of a frame's `data` string.
abbrev pub data_of : Option Bytes → Bytes
data_of none = []
data_of (some s) = from_wire_string s

abbrev pub is_for : ℕ → Option ℕ → Bool
is_for h none = false
is_for h (some k) = k == h

-- The stream bytes that the node sends to a handle by this frame: it is a `recv` push for the handle
-- that names neither a port nor a remote station.
unfoldable pub carried : ℕ → Value → Bytes
carried h f =
    if bytes_eq (Frame.typ f) (codes "recv")
    then if Frame.is_dgram_recv f
      then []
      else if is_for h (Frame.handle f)
      then data_of (Frame.data_str f)
      else []
    else []

abbrev pub carried_by : ℕ → Option Value → Bytes
unfolding carried
carried_by h none = []
carried_by h (some f) = carried h f

module _ (parse : Bytes → Option Value) where
  -- The same for the bodies of frames, in order.
  unfoldable pub all_carried : ℕ → List Bytes → Bytes
  unfolding carried
  all_carried h [] = []
  all_carried h (body ∷ bodies) = carried_by h (parse body) ++ all_carried h bodies

  -- A push has no id: only replies have one.
  abbrev pub IsPush : Bytes → Type 0
  IsPush body =
      (f : Value)
      → parse body ≡ some f
      → bytes_eq (Frame.typ f) (codes "recv") ≡ true
      → Frame.id f ≡ none

-- The application keeps its end of the handle's socketpair open.
abbrev pub StaysOpen : ℕ → (ℕ → Bytes → Pumps → Answer) → Type 0
StaysOpen h answer = (bytes : Bytes) (s : Pumps) → (n : ℕ) × (answer h bytes s ≡ room n)
