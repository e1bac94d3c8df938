-- ===== src/Interpose/Arrival/Frames.antt =====
-- All frames of a stream, up to the receive pump: `reader_loop` of crates/rhpv2/src/client.rs over
-- `InterposeSink` and `RecvPump` of crates/ax25-interpose/src/state.rs.
use pdn_libax.Prelude.{
  ℕ, ◌≡◌, ◌<◌, ◌≤◌, refl, subst, inl, inr, Bool, true, List, [], ◌∷◌, ◌++◌, append-nil,
  append_assoc, Option, some, length, Bytes, All, Option-cases, lookup, lookup-map_values,
}
use pdn_libax.Rhp.Wire.{End, max_frame}
use pdn_libax.Rhp.Wire.Framing.{all_framed}
use pdn_libax.Rhp.Frame.{Value}
use pdn_libax.Rhp.Reader.{Client, Sink, deliver, shut_down, take_frame, reader_loop}
use pdn_libax.Rhp.Reader.Loop.{reader_loop-framed, take_frames}
use pdn_libax.Interpose.RecvPump.{PendingRecv, Answer, shutdown_all}
use pdn_libax.Interpose.RecvPump.Calls.{Live}
use pdn_libax.Interpose.RecvPump.Backlog.{delivered}
use pdn_libax.Interpose.EventSink.{Pumps, interpose_sink, on_disconnect}
use pdn_libax.Interpose.Arrival.{carried_by, all_carried, IsPush, StaysOpen}
use pdn_libax.Interpose.Arrival.Pushes.{deliver-Live, unchanged_Live}

module _ (answer : ℕ → Bytes → Pumps → Answer) (sends : Pumps → Bool) (h : ℕ) where
  abbrev pub sink : Sink Pumps
  sink = interpose_sink answer sends

  module _ (parse : Bytes → Option Value) where
    take_frame-Live :
        (body bs : Bytes) (c : Client Pumps)
        → StaysOpen h answer
        → IsPush parse body
        → Live h bs c.sink.recv
        → Live h (bs ++ carried_by h (parse body)) (take_frame sink parse body c).sink.recv
    unfolding carried_by
    take_frame-Live body bs c stays pushes live = elim (Option-cases (parse body)) [
      | inl e ↦
          let same : take_frame sink parse body c ≡ c = unfold take_frame in rw (take_frame, e) in
          rw (same, e) (unchanged_Live answer sends h bs c.sink.recv live)
      | inr (f, e) ↦
          let same : take_frame sink parse body c ≡ deliver sink f c =
            unfold take_frame in rw (take_frame, e) in
          rw (same, e) (deliver-Live answer sends h f bs c stays (pushes f e) live)
    ]

    pub take_frames-Live :
        (bodies : List Bytes) (bs : Bytes) (c : Client Pumps)
        → StaysOpen h answer
        → All (IsPush parse) bodies
        → Live h bs c.sink.recv
        → Live h (bs ++ all_carried parse h bodies) (take_frames sink parse bodies c).sink.recv
    unfolding all_carried take_frames
    take_frames-Live [] bs c stays all live = rw (append-nil bs) live
    take_frames-Live (body ∷ bodies) bs c stays all live =
        subst (λ xs. Live h xs (take_frames sink parse (body ∷ bodies) c).sink.recv)
          (append_assoc bs (carried_by h (parse body)) (all_carried parse h bodies))
          (take_frames-Live bodies (bs ++ carried_by h (parse body)) (take_frame sink parse body c)
            stays all.1 (take_frame-Live body bs c stays all.0 live))

    -- If the node writes these frames and nothing else before the stream ends, the reader thread ends.
    -- For a registered handle whose application keeps its end open, what was delivered to the
    -- application, followed by the backlog, is then what it was before, followed by the data of all
    -- `recv` frames for the handle in their order: other frames, frames for other handles and
    -- undecodable bodies in between do not matter. The handle is marked for end of file. A `recv`
    -- frame is taken to have no id, as a push has none.
    pub reader_loop-Live :
        (bodies : List Bytes) (fuel : ℕ) (bs : Bytes) (c : Client Pumps) (end : End)
        → All (λ b. length b ≤ max_frame) bodies
        → length bodies < fuel
        → StaysOpen h answer
        → All (IsPush parse) bodies
        → Live h bs c.sink.recv
        → (c' : Client Pumps) × (reader_loop sink parse fuel
              (record { unread = all_framed bodies; end = end })
              c
            ≡ some c')
          × (e : PendingRecv) × (lookup h c'.sink.recv.handles ≡ some e)
          × (delivered h c'.sink.recv.log ++ e.buf ≡ bs ++ all_carried parse h bodies)
          × (e.eof ≡ true)
    reader_loop-Live bodies fuel bs c end short enough stays all live =
        let last = take_frames sink parse bodies c in
        let (u, (e, found, sum)) = take_frames-Live bodies bs c stays all live in
        (
          shut_down sink last,
          reader_loop-framed sink parse bodies fuel c end short enough,
          record e { eof = true },
          unfold shut_down on_disconnect shutdown_all in
              rw (lookup-map_values (λ v. record v { eof = true }) h last.sink.recv.handles, found),
          unfold shut_down on_disconnect shutdown_all in sum,
          refl,
        )
