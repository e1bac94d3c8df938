-- ===== src/Interpose/Arrival/Pushes.antt =====
-- One frame of the node, up to the receive pump: `dispatch_push` of crates/rhpv2/src/client.rs over
-- `InterposeSink` of crates/ax25-interpose/src/state.rs.
use pdn_libax.Prelude.{
  ℕ, ◌≡◌, ◌⊎◌, refl, sym, ◌∙◌, ap, subst, inl, inr, Bool, true, false, [], ◌++◌, append-nil, none,
  arith, ◌==◌, ==_iff, if◌then◌else◌, Bytes, codes, bytes_eq, Bool-cases, Option-cases,
}
use pdn_libax.Rhp.Frame.{Value}
use pdn_libax.Rhp.Frame
use pdn_libax.Rhp.Reader.{
  Client, Sink, recv_push, accept_push, status_push, close_push, dispatch_push, deliver, has_id,
}
use pdn_libax.Rhp.Reader.Loop.{deliver_waiting, deliver_unknown}
use pdn_libax.Interpose.RecvPump.{Answer, room, gone, Pump, push, mark_eof}
use pdn_libax.Interpose.RecvPump.Calls.{receives, marks, Live, Spares}
use pdn_libax.Interpose.RecvPump.Delivery.{step-Live}
use pdn_libax.Interpose.EventSink.{Pumps, interpose_sink, on_status, on_close}
use pdn_libax.Interpose.Arrival.{data_of, is_for, carried, StaysOpen}

module _ (answer : ℕ → Bytes → Pumps → Answer) (sends : Pumps → Bool) (h : ℕ) where
  abbrev pub sink : Sink Pumps
  sink = interpose_sink answer sends

  receives-Spares :
      (k : ℕ) (bytes : Bytes) (s : Pumps)
      → StaysOpen h answer
      → Spares h (receives k bytes (answer k bytes s))
  receives-Spares k bytes s stays = elim (Bool-cases (k == h)) [
    | inl same ↦
        let (n, e) = stays bytes s in
        subst (λ a. Spares h (receives k bytes a))
          (sym (ap (λ i. answer i bytes s) ((==_iff k h).0 same) ∙ e)) tt
    | inr other ↦ by_answer (answer k bytes s) other
  ]
    where
      by_answer : (a : Answer) → (k == h) ≡ false → Spares h (receives k bytes a)
      by_answer (room n) other = tt
      by_answer gone other = other

  -- One call of the pump, by the sink.
  pushed_Live :
      (k : ℕ) (bytes bs : Bytes) (s : Pumps)
      → StaysOpen h answer
      → Live h bs s.recv
      → Live h (bs ++ (if k == h then bytes else [])) (push k bytes (answer k bytes s) s.recv)
  pushed_Live k bytes bs s stays live =
      subst (λ (xs : Bytes). Live h (bs ++ xs) (push k bytes (answer k bytes s) s.recv))
        (by_key (k == h))
        (step-Live h bs (receives k bytes (answer k bytes s)) s.recv
          (receives-Spares k bytes s stays) live)
    where
      by_key : (b : Bool) → (if b then bytes ++ [] else []) ≡ (if b then bytes else [])
      by_key true = append-nil bytes
      by_key false = refl

  pub unchanged_Live : (bs : Bytes) (p : Pump) → Live h bs p → Live h (bs ++ []) p
  unchanged_Live bs p live = rw (append-nil bs) live

  -- What a `recv` frame carries to the handle.
  abbrev stream_data : Value → Bytes
  stream_data f =
      if Frame.is_dgram_recv f
      then []
      else if is_for h (Frame.handle f)
      then data_of (Frame.data_str f)
      else []

  if_same : (b : Bool) → (if◌then◌else◌ {A = Bytes} b [] []) ≡ []
  if_same true = refl
  if_same false = refl

  pub recv_push-recv :
      (f : Value) (c : Client Pumps)
      → (((recv_push sink f c).sink.recv ≡ c.sink.recv) × (stream_data f ≡ []))
        ⊎ ((k : ℕ) × ((recv_push sink f c).sink.recv
              ≡ push k
                  (data_of (Frame.data_str f))
                  (answer k (data_of (Frame.data_str f)) c.sink)
                  c.sink.recv)
            × (stream_data f ≡ (if k == h then data_of (Frame.data_str f) else [])))
  unfolding recv_push
  recv_push-recv f c = elim (Option-cases (Frame.handle f)) [
    | inl e ↦ inl (rw (recv_push, e), rw e (if_same (Frame.is_dgram_recv f)))
    | inr (k, e) ↦ elim (Bool-cases (Frame.is_dgram_recv f)) [
      | inl d ↦ inl (rw (recv_push, e, d), rw d)
      | inr d ↦ inr (k, rw (recv_push, e, d), rw (d, e))
    ]
  ]

  recv_push-Live :
      (f : Value) (bs : Bytes) (c : Client Pumps)
      → StaysOpen h answer
      → Live h bs c.sink.recv
      → Live h (bs ++ stream_data f) (recv_push sink f c).sink.recv
  recv_push-Live f bs c stays live = elim (recv_push-recv f c) [
    | inl (same, nothing) ↦ rw (same, nothing) (unchanged_Live bs c.sink.recv live)
    | inr (k, pushed, bytes) ↦
        rw (pushed, bytes) (pushed_Live k (data_of (Frame.data_str f)) bs c.sink stays live)
  ]

  accept_push-recv : (f : Value) (c : Client Pumps) → (accept_push sink f c).sink.recv ≡ c.sink.recv
  unfolding accept_push
  accept_push-recv f c = ground arith

  status_push-recv : (f : Value) (c : Client Pumps) → (status_push sink f c).sink.recv ≡ c.sink.recv
  unfolding status_push on_status
  status_push-recv f c = ground arith

  abbrev pub Leaves : Client Pumps → Client Pumps → Type 0
  Leaves c c' = (c'.sink.recv ≡ c.sink.recv) ⊎ ((k : ℕ) × (c'.sink.recv ≡ mark_eof k c.sink.recv))

  close_push-Leaves : (f : Value) (c : Client Pumps) → Leaves c (close_push sink f c)
  unfolding close_push on_close
  close_push-Leaves f c = elim (Option-cases (Frame.handle f)) [
    | inl e ↦ inl (rw (close_push, e))
    | inr (k, e) ↦ inr (k, rw (close_push, e))
  ]

  -- The frames that are no `recv` leave the pump or mark a handle.
  pub dispatch_push-Leaves :
      (f : Value) (c : Client Pumps)
      → bytes_eq (Frame.typ f) (codes "recv") ≡ false
      → Leaves c (dispatch_push sink f c)
  unfolding dispatch_push
  dispatch_push-Leaves f c other = elim (Bool-cases (bytes_eq (Frame.typ f) (codes "accept"))) [
    | inl a ↦ inl (rw (other, a) (accept_push-recv f c))
    | inr a ↦ elim (Bool-cases (bytes_eq (Frame.typ f) (codes "status"))) [
      | inl b ↦ inl (rw (other, a, b) (status_push-recv f c))
      | inr b ↦ elim (Bool-cases (bytes_eq (Frame.typ f) (codes "close"))) [
        | inl d ↦ rw (other, a, b, d) (close_push-Leaves f c)
        | inr d ↦ inl (rw (other, a, b, d) refl)
      ]
    ]
  ]

  Leaves-Live :
      (bs : Bytes) (c c' : Client Pumps)
      → Leaves c c'
      → Live h bs c.sink.recv
      → Live h bs c'.sink.recv
  Leaves-Live bs c c' (inl same) live = subst (Live h bs) (sym same) live
  Leaves-Live bs c c' (inr (k, marked)) live = subst (Live h bs) (sym marked) (
      subst (λ xs. Live h xs (mark_eof k c.sink.recv)) (append-nil bs)
        (step-Live h bs (marks k) c.sink.recv tt live))

  dispatch_push-Live :
      (f : Value) (bs : Bytes) (c : Client Pumps)
      → StaysOpen h answer
      → Live h bs c.sink.recv
      → Live h (bs ++ carried h f) (dispatch_push sink f c).sink.recv
  dispatch_push-Live f bs c stays live = elim (Bool-cases (bytes_eq (Frame.typ f) (codes "recv"))) [
    | inl is_recv ↦ unfold dispatch_push carried in rw is_recv (recv_push-Live f bs c stays live)
    | inr other ↦
        let nothing : carried h f ≡ [] = unfold carried in rw other in
        rw (nothing, append-nil bs)
          (Leaves-Live bs c (dispatch_push sink f c) (dispatch_push-Leaves f c other) live)
  ]

  -- A frame is a reply if it has the id of a request that waits.
  pub deliver-Live :
      (f : Value) (bs : Bytes) (c : Client Pumps)
      → StaysOpen h answer
      → (bytes_eq (Frame.typ f) (codes "recv") ≡ true → Frame.id f ≡ none)
      → Live h bs c.sink.recv
      → Live h (bs ++ carried h f) (deliver sink f c).sink.recv
  deliver-Live f bs c stays pushes live = elim (Option-cases (Frame.id f)) [
    | inl e ↦
        let same : deliver sink f c ≡ dispatch_push sink f c = unfold deliver in rw (deliver, e) in
        rw same (dispatch_push-Live f bs c stays live)
    | inr (id, e) ↦ elim (Bool-cases (has_id id c.pending)) [
      | inl waits ↦ elim (Bool-cases (bytes_eq (Frame.typ f) (codes "recv"))) [
        | inl is_recv ↦ absurd (cc (e, pushes is_recv))
        | inr other ↦
            let nothing : carried h f ≡ [] = unfold carried in rw other in
            rw (deliver_waiting sink f id c e waits, nothing, append-nil bs) live
      ]
      | inr unknown ↦
          rw (deliver_unknown sink f id c e unknown) (dispatch_push-Live f bs c stays live)
    ]
  ]
