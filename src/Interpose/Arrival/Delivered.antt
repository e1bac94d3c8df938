-- ===== src/Interpose/Arrival/Delivered.antt =====
-- What the application has been given when the reader thread of crates/rhpv2/src/client.rs has ended and
-- the flusher thread of crates/ax25-interpose/src/state.rs has come to rest.
use pdn_libax.Prelude.{
  ℕ, ◌≡◌, ◌≤◌, ◌<◌, ◌⊎◌, refl, sym, ◌∙◌, ap, subst, inl, inr, Bool, true, false, List, [], ◌∷◌,
  ◌++◌, append-nil, Option, some, arith, length, Bytes, Table, lookup, All, Unique, Bool-cases,
  map_values-Unique, lookup-map_values,
}
use pdn_libax.Rhp.Wire.{End, max_frame}
use pdn_libax.Rhp.Wire.Framing.{all_framed}
use pdn_libax.Rhp.Frame.{Value}
use pdn_libax.Rhp.Reader.{Client, shut_down, reader_loop}
use pdn_libax.Rhp.Reader.Loop.{reader_loop-framed, take_frames}
use pdn_libax.Interpose.RecvPump.{
  PendingRecv, Answer, Act, shut, Pump, drain_entry, drain_pass, entry_has_work, any_work, has_work,
  flusher_turn, flusher_loop, shutdown_all,
}
use pdn_libax.Interpose.RecvPump.Backlog.{delivered, delivered-append, NoneGone}
use pdn_libax.Interpose.RecvPump.Eof.{shuts}
use pdn_libax.Interpose.RecvPump.Own.{own, delivered-own}
use pdn_libax.Interpose.RecvPump.Ends.{
  signalled, Unsignalled, Signalled, drain_pass-ends, shutdown_all-Unsignalled,
}
use pdn_libax.Interpose.Arrival.Signals.{take_frames-Unsignalled}
use pdn_libax.Interpose.RecvPump.Calls.{Live, drains}
use pdn_libax.Interpose.RecvPump.Delivery.{step-Live}
use pdn_libax.Interpose.RecvPump.Flusher.{Responds, flusher_loop-parks}
use pdn_libax.Interpose.RecvPump.Handles.{drain_table-seen, drained}
use pdn_libax.Interpose.EventSink.{Pumps, interpose_sink, on_disconnect}
use pdn_libax.Interpose.Arrival.{IsPush, StaysOpen, all_carried}
use pdn_libax.Interpose.Arrival.Frames.{take_frames-Live}

-- A registered handle that is marked for end of file, with what was given to it and its backlog. Its socket
-- was not shut down, or was so behind everything that was to be sent.
Ending : ℕ → Bytes → Pump → Type 0
Ending h bs p =
    Unique p.handles
    × ((e : PendingRecv) × (lookup h p.handles ≡ some e)
        × (delivered h p.log ++ e.buf ≡ bs)
        × (e.eof ≡ true)
        × (Unsignalled h p ⊎ Signalled h e p))

drain_entry-eof :
    (answers : List Answer) (h : ℕ) (e e' : PendingRecv)
    → (drain_entry answers h e).0 ≡ some e'
    → e'.eof ≡ e.eof
unfolding drain_entry
drain_entry-eof answers h e e' kept = ground arith

drain_pass-Ending :
    (answers : ℕ → List Answer) (h : ℕ) (bs : Bytes) (p : Pump)
    → NoneGone (answers h)
    → Ending h bs p
    → Ending h bs (drain_pass answers p).0
unfolding Ending drain_pass
drain_pass-Ending answers h bs p alive (u, (e, found, sum, ending, state)) =
    let (u', (e', found', sum')) = step-Live h bs (drains answers) p alive (u, (e, found, sum)) in
    let left : (drain_entry (answers h) h e).0 ≡ some e' =
      ap (λ o. (drained (answers h) h o).0) (sym found)
      ∙ sym (ap (λ x. x.0) (drain_table-seen answers h p.handles u))
      ∙ found' in
    let state' : Unsignalled h (drain_pass answers p).0 ⊎ Signalled h e' (drain_pass answers p).0 =
      elim (drain_pass-ends answers h p e e' u found left state) [
        | inl (still, silent) ↦ inl (silent, ap signalled found' ∙ still)
        | inr done ↦ inr done
      ] in
    (
      u',
      (e', found', sum' ∙ append-nil bs, drain_entry-eof (answers h) h e e' left ∙ ending, state'),
    )

flusher_loop-Ending :
    (rounds : List (ℕ → List Answer)) (h : ℕ) (bs : Bytes) (p : Pump)
    → All (λ answers. NoneGone (answers h)) rounds
    → Ending h bs p
    → Ending h bs (flusher_loop rounds p)
unfolding flusher_loop
flusher_loop-Ending [] h bs p alive ending = ending
flusher_loop-Ending (answers ∷ rounds) h bs p alive ending =
    flusher_loop-Ending rounds h bs (flusher_turn answers p).0 alive.1
      (elim (Bool-cases (has_work p)) [
        | inl works ↦
            unfold flusher_turn in rw works (drain_pass-Ending answers h bs p alive.0 ending)
        | inr parked ↦ unfold flusher_turn in rw parked ending
      ])

any_work-entry :
    (h : ℕ) (m : Table PendingRecv) (e : PendingRecv)
    → any_work m ≡ false
    → lookup h m ≡ some e
    → entry_has_work e ≡ false
unfolding any_work lookup
any_work-entry h [] e rests found = absurd (cc found)
any_work-entry h ((k, w) ∷ m) e rests found = ground (arith, any_work-entry h m e)

-- Nothing is left to do for an entry that is marked: its backlog is empty and the end was signalled.
rests_done :
    (e : PendingRecv) → e.eof ≡ true → entry_has_work e ≡ false → (e.buf ≡ []) × (e.eof_done ≡ true)
rests_done e ending rests = ground arith

ended_acts :
    (h : ℕ) (e : PendingRecv) (p : Pump)
    → lookup h p.handles ≡ some e
    → e.eof_done ≡ true
    → Unsignalled h p ⊎ Signalled h e p
    → (sends : List Act) × (own h p.log ≡ sends ++ shut h e.inner_fd ∷ []) × (shuts sends ≡ 0)
ended_acts h e p found done (inl (none_yet, fresh)) =
    absurd (cc (ap signalled (sym found) ∙ fresh, done))
ended_acts h e p found done (inr (empty, marked, sends, ordered, silent)) = (sends, ordered, silent)

sends_carry :
    (h : ℕ) (e : PendingRecv) (p : Pump) (sends : List Act)
    → own h p.log ≡ sends ++ shut h e.inner_fd ∷ []
    → delivered h sends ≡ delivered h p.log
sends_carry h e p sends ordered =
    sym (append-nil (delivered h sends))
    ∙ sym (delivered-append h sends (shut h e.inner_fd ∷ []))
    ∙ ap (delivered h) (sym ordered)
    ∙ delivered-own h p.log

module _ (answer : ℕ → Bytes → Pumps → Answer) (sends : Pumps → Bool) (h : ℕ)
    (parse : Bytes → Option Value) where
  -- What the reader thread leaves.
  reader_ended-Ending :
      (bodies : List Bytes) (bs : Bytes) (c : Client Pumps)
      → StaysOpen h answer
      → All (IsPush parse) bodies
      → Live h bs c.sink.recv
      → Unsignalled h c.sink.recv
      → Ending h
          (bs ++ all_carried parse h bodies)
          (shut_down
            (interpose_sink answer sends)
            (take_frames (interpose_sink answer sends) parse bodies c)).sink.recv
  unfolding Ending shut_down on_disconnect shutdown_all
  reader_ended-Ending bodies bs c stays pushes live fresh =
      let last = take_frames (interpose_sink answer sends) parse bodies c in
      let (u, (e, found, sum)) =
        take_frames-Live answer sends h parse bodies bs c stays pushes live in
      (
        map_values-Unique (λ v. record v { eof = true }) last.sink.recv.handles u,
        (
          record e { eof = true },
          rw (lookup-map_values (λ v. record v { eof = true }) h last.sink.recv.handles, found),
          sum,
          refl,
          inl (
              shutdown_all-Unsignalled h last.sink.recv
                (take_frames-Unsignalled answer sends h parse bodies c fresh)),
        ),
      )

  -- From the node to the application: the node writes these frames, the stream ends and so does the
  -- reader thread, and then the flusher thread has at least one round more than the longest backlog has
  -- bytes. If the handle is registered, its socket was not shut down before, and its application keeps its
  -- end open and, like the others, makes room whenever it is waited for, then what was done to the
  -- handle's socket are sends, and then, as the last act and the only one of its kind, the shutdown that
  -- the application reads as end of file, on the descriptor that the pump holds. The sends carry what
  -- there was before and the data of all `recv` frames for the handle, complete and in order. A `recv`
  -- frame is taken to have no id, as a push has none.
  pub reader_loop-delivered :
      (bodies : List Bytes) (fuel : ℕ) (bs : Bytes) (c c' : Client Pumps) (end : End)
      (rounds : List (ℕ → List Answer)) (n : ℕ)
      → All (λ b. length b ≤ max_frame) bodies
      → length bodies < fuel
      → StaysOpen h answer
      → All (IsPush parse) bodies
      → Live h bs c.sink.recv
      → Unsignalled h c.sink.recv
      → reader_loop
          (interpose_sink answer sends)
          parse
          fuel
          (record { unread = all_framed bodies; end = end })
          c
        ≡ some c'
      → All (λ (e : ℕ × PendingRecv). length e.1.buf ≤ n) c'.sink.recv.handles
      → n < length rounds
      → All (λ answers. (k : ℕ) → Responds (answers k)) rounds
      → All (λ answers. NoneGone (answers h)) rounds
      → let p = flusher_loop rounds c'.sink.recv in
        (e : PendingRecv) × (lookup h p.handles ≡ some e)
        × (sends : List Act) × (own h p.log ≡ sends ++ shut h e.inner_fd ∷ [])
        × (shuts sends ≡ 0)
        × (delivered h sends ≡ bs ++ all_carried parse h bodies)
  unfolding Ending has_work
  reader_loop-delivered bodies fuel bs c c' end rounds n short enough stays pushes live fresh ends
        fits more responds alive =
      let sink = interpose_sink answer sends in
      let last = shut_down sink (take_frames sink parse bodies c) in
      let same : last ≡ c' =
        cc (reader_loop-framed sink parse bodies fuel c end short enough, ends) in
      let bytes = bs ++ all_carried parse h bodies in
      let marked =
        subst (λ d. Ending h bytes d.sink.recv) same
          (reader_ended-Ending bodies bs c stays pushes live fresh) in
      let p = flusher_loop rounds c'.sink.recv in
      let (u, (e, found, sum, eof, state)) =
        flusher_loop-Ending rounds h bytes c'.sink.recv alive marked in
      let rests = flusher_loop-parks rounds n c'.sink.recv fits responds more in
      let (empty, done) = rests_done e eof (any_work-entry h p.handles e rests found) in
      let (acts, ordered, silent) = ended_acts h e p found done state in
      (
        e,
        found,
        acts,
        ordered,
        silent,
        sends_carry h e p acts ordered
            ∙ sym (append-nil (delivered h p.log))
            ∙ ap (λ b. delivered h p.log ++ b) (sym empty)
            ∙ sum,
      )
