-- ===== src/Interpose/Arrival/Signals.antt =====
-- The frames of the node, up to the receive pump: `reader_loop` of crates/rhpv2/src/client.rs makes no
-- shutdown on a socket of crates/ax25-interpose/src/state.rs, which is left to the flusher thread.
use pdn_libax.Prelude.{
  ℕ, ◌≡◌, sym, subst, inl, inr, Bool, List, [], ◌∷◌, Bytes, Bool-cases, Option-cases, codes,
  bytes_eq, Option,
}
use pdn_libax.Rhp.Frame.{Value}
use pdn_libax.Rhp.Frame
use pdn_libax.Rhp.Reader.{Client, Sink, recv_push, dispatch_push, deliver, take_frame, has_id}
use pdn_libax.Rhp.Reader.Loop.{take_frames, deliver_waiting, deliver_unknown}
use pdn_libax.Interpose.RecvPump.{Answer}
use pdn_libax.Interpose.RecvPump.Ends.{Unsignalled, push-Unsignalled, mark_eof-Unsignalled}
use pdn_libax.Interpose.EventSink.{Pumps, interpose_sink}
use pdn_libax.Interpose.Arrival.{data_of}
use pdn_libax.Interpose.Arrival.Pushes.{Leaves, recv_push-recv, dispatch_push-Leaves}

module _ (answer : ℕ → Bytes → Pumps → Answer) (sends : Pumps → Bool) (h : ℕ) where
  abbrev sink : Sink Pumps
  sink = interpose_sink answer sends

  recv_push-Unsignalled :
      (f : Value) (c : Client Pumps)
      → Unsignalled h c.sink.recv
      → Unsignalled h (recv_push sink f c).sink.recv
  recv_push-Unsignalled f c fresh = elim (recv_push-recv answer sends h f c) [
    | inl (same, nothing) ↦ subst (Unsignalled h) (sym same) fresh
    | inr (k, pushed, bytes) ↦
        let bytes' = data_of (Frame.data_str f) in
        subst (Unsignalled h) (sym pushed)
          (push-Unsignalled h k bytes' (answer k bytes' c.sink) c.sink.recv fresh)
  ]

  Leaves-Unsignalled :
      (c c' : Client Pumps)
      → Leaves answer sends h c c'
      → Unsignalled h c.sink.recv
      → Unsignalled h c'.sink.recv
  Leaves-Unsignalled c c' (inl same) fresh = subst (Unsignalled h) (sym same) fresh
  Leaves-Unsignalled c c' (inr (k, marked)) fresh =
      subst (Unsignalled h) (sym marked) (mark_eof-Unsignalled h k c.sink.recv fresh)

  dispatch_push-Unsignalled :
      (f : Value) (c : Client Pumps)
      → Unsignalled h c.sink.recv
      → Unsignalled h (dispatch_push sink f c).sink.recv
  dispatch_push-Unsignalled f c fresh = elim (Bool-cases (bytes_eq (Frame.typ f) (codes "recv"))) [
    | inl is_recv ↦ unfold dispatch_push in rw is_recv (recv_push-Unsignalled f c fresh)
    | inr other ↦
        Leaves-Unsignalled c (dispatch_push sink f c)
          (dispatch_push-Leaves answer sends h f c other) fresh
  ]

  deliver-Unsignalled :
      (f : Value) (c : Client Pumps)
      → Unsignalled h c.sink.recv
      → Unsignalled h (deliver sink f c).sink.recv
  deliver-Unsignalled f c fresh = elim (Option-cases (Frame.id f)) [
    | inl e ↦
        let same : deliver sink f c ≡ dispatch_push sink f c = unfold deliver in rw (deliver, e) in
        rw same (dispatch_push-Unsignalled f c fresh)
    | inr (id, e) ↦ elim (Bool-cases (has_id id c.pending)) [
      | inl waits ↦ rw (deliver_waiting sink f id c e waits) fresh
      | inr unknown ↦
          rw (deliver_unknown sink f id c e unknown) (dispatch_push-Unsignalled f c fresh)
    ]
  ]

  pub take_frames-Unsignalled :
      (parse : Bytes → Option Value) (bodies : List Bytes) (c : Client Pumps)
      → Unsignalled h c.sink.recv
      → Unsignalled h (take_frames sink parse bodies c).sink.recv
  unfolding take_frames take_frame
  take_frames-Unsignalled parse [] c fresh = fresh
  take_frames-Unsignalled parse (body ∷ bodies) c fresh =
      take_frames-Unsignalled parse bodies (take_frame sink parse body c)
        (elim (Option-cases (parse body)) [
          | inl e ↦ rw (take_frame, e) fresh
          | inr (f, e) ↦ rw (take_frame, e) (deliver-Unsignalled f c fresh)
        ])
