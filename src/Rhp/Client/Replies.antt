-- ===== src/Rhp/Client/Replies.antt =====
-- `RhpClient::request` of crates/rhpv2/src/client.rs against the reader thread: what the reader delivers
-- while the request waits is a list of frames, and perhaps the end of the stream behind them.
use pdn_libax.Prelude.{
  ℕ, ◌≤◌, ◌≡◌, ◌≢◌, ◌⊎◌, inl, inr, refl, ap, ◌∙◌, Bool, true, false, List, [], ◌∷◌, ◌++◌, Option,
  none, some, ◌==◌, Option-cases, Bool-cases, if◌then◌else◌, arith, Bytes, length,
}
use pdn_libax.Rhp.Wire.{max_frame}
use pdn_libax.Rhp.Wire.Framing.{framed, write_frame_fits}
use pdn_libax.Rhp.Frame.{Value}
use pdn_libax.Rhp.Frame
use pdn_libax.Rhp.Reader.{Sink, Client, has_id, drop_id, dispatch_push, deliver, shut_down}
use pdn_libax.Rhp.Reader.Loop.{
  has_id-drop_id, dispatch_push-replies, deliver_waiting, deliver_unknown,
}
use pdn_libax.Rhp.Client.{
  RhpResult, given, failed, broken_pipe, timeout, Conn, reply_for, awaited, open_channel,
  drop_replies, request,
}

-- The first frame with the id.
unfoldable pub first_reply : ℕ → List Value → Option Value
first_reply id [] = none
first_reply id (f ∷ fs) = elim (Frame.id f) [
  | none ↦ first_reply id fs
  | some i ↦ if i == id then some f else first_reply id fs
]

first_reply_cases :
    (id : ℕ) (f : Value) (fs : List Value)
    → ((Frame.id f ≡ some id) × (first_reply id (f ∷ fs) ≡ some f))
      ⊎ ((Frame.id f ≢ some id) × (first_reply id (f ∷ fs) ≡ first_reply id fs))
unfolding first_reply
first_reply_cases id f fs = elim (Option-cases (Frame.id f)) [
  | inl e ↦ inr (λ same. absurd (ground arith), rw (e, first_reply))
  | inr (i, e) ↦ elim (Bool-cases (i == id)) [
    | inl same ↦ inl (ground arith, rw (e, first_reply, same))
    | inr apart ↦ inr (λ same. absurd (ground arith), rw (e, first_reply, apart))
  ]
]

-- What the caller of a request sees.
abbrev pub outcome : Option Value → Bool → RhpResult Value
outcome (some f) ended = given f
outcome none true = failed broken_pipe
outcome none false = failed timeout

reply_for-drop_replies : (id : ℕ) (rs : List (ℕ × Value)) → reply_for id (drop_replies id rs) ≡ none
reply_for-drop_replies id [] = refl
reply_for-drop_replies id (e ∷ rs) = ground (arith, reply_for-drop_replies id rs)

reply_for-append_some :
    (id : ℕ) (rs : List (ℕ × Value)) (e : ℕ × Value) (f : Value)
    → reply_for id rs ≡ some f
    → reply_for id (rs ++ e ∷ []) ≡ some f
reply_for-append_some id [] e f h = absurd (ground arith)
reply_for-append_some id (x ∷ rs) e f h = ground (arith, reply_for-append_some id rs e f)

reply_for-append_none :
    (id : ℕ) (rs : List (ℕ × Value)) (e : ℕ × Value)
    → reply_for id rs ≡ none
    → reply_for id (rs ++ e ∷ []) ≡ (if e.0 == id then some e.1 else none)
reply_for-append_none id [] e h = refl
reply_for-append_none id (x ∷ rs) e h = ground (arith, reply_for-append_none id rs e)

has_id-drop_other : (id i : ℕ) (ids : List ℕ) → i ≢ id → has_id id (drop_id i ids) ≡ has_id id ids
has_id-drop_other id i [] h = refl
has_id-drop_other id i (j ∷ ids) h = ground (arith, has_id-drop_other id i ids h)

module _ {S : Type 0} where
  -- The request waits, and nothing has been sent to it.
  abbrev pub Waits : ℕ → Client S → Type 0
  Waits id c = (reply_for id c.replies ≡ none) × (has_id id c.pending ≡ true)

  pub open_channel-Waits : (id : ℕ) (c : Conn S) → Waits id (open_channel id c).core
  open_channel-Waits id c = (reply_for-drop_replies id c.core.replies, ground arith)

module _ {S : Type 0} (on : Sink S) where
  unfoldable pub delivered : List Value → Client S → Client S
  delivered [] c = c
  delivered (f ∷ fs) c = delivered fs (deliver on f c)

  -- The reader delivers the frames, and behind the last one it ends or goes on.
  abbrev pub reader_acts : List Value → Bool → ℕ → Conn S → Conn S
  reader_acts fs ended id c = record c {
    core = if ended then shut_down on (delivered fs c.core) else delivered fs c.core;
  }

  deliver_push :
      (f : Value) (c : Client S) → Frame.id f ≡ none → deliver on f c ≡ dispatch_push on f c
  unfolding deliver
  deliver_push f c e = rw (e, deliver)

  -- A frame is a push, or the reply of a request that waits.
  deliver_cases :
      (f : Value) (c : Client S)
      → (deliver on f c ≡ dispatch_push on f c)
        ⊎ ((i : ℕ) × (Frame.id f ≡ some i)
            × (deliver on f c
                ≡ record c { pending = drop_id i c.pending; replies = c.replies ++ (i, f) ∷ [] }))
  deliver_cases f c = elim (Option-cases (Frame.id f)) [
    | inl e ↦ inl (deliver_push f c e)
    | inr (i, e) ↦ elim (Bool-cases (has_id i c.pending)) [
      | inl w ↦ inr (i, e, deliver_waiting on f i c e w)
      | inr w ↦ inl (deliver_unknown on f i c e w)
    ]
  ]

  deliver-answered :
      (f g : Value) (id : ℕ) (c : Client S)
      → reply_for id c.replies ≡ some g
      → reply_for id (deliver on f c).replies ≡ some g
  deliver-answered f g id c h = elim (deliver_cases f c) [
    | inl push ↦ rw (push, (dispatch_push-replies on f c).0) h
    | inr (i, e, reply) ↦ rw reply (reply_for-append_some id c.replies (i, f) g h)
  ]

  deliver-Waits :
      (f : Value) (id : ℕ) (c : Client S)
      → Frame.id f ≢ some id
      → Waits id c
      → Waits id (deliver on f c)
  deliver-Waits f id c other w = elim (deliver_cases f c) [
    | inl push ↦ rw (push, (dispatch_push-replies on f c).0, (dispatch_push-replies on f c).1) w
    | inr (i, e, reply) ↦
        let apart : i ≢ id = λ same. other (e ∙ ap some same) in
        rw reply (
          ground (arith, reply_for-append_none id c.replies (i, f) w.0),
          has_id-drop_other id i c.pending apart ∙ w.1,
        )
  ]

  deliver-answers :
      (f : Value) (id : ℕ) (c : Client S)
      → Frame.id f ≡ some id
      → Waits id c
      → reply_for id (deliver on f c).replies ≡ some f
  deliver-answers f id c e w =
      rw (deliver_waiting on f id c e w.1)
        (ground (arith, reply_for-append_none id c.replies (id, f) w.0))

  delivered-answered :
      (fs : List Value) (g : Value) (id : ℕ) (c : Client S)
      → reply_for id c.replies ≡ some g
      → reply_for id (delivered fs c).replies ≡ some g
  unfolding delivered
  delivered-answered [] g id c h = h
  delivered-answered (f ∷ fs) g id c h =
      delivered-answered fs g id (deliver on f c) (deliver-answered f g id c h)

  abbrev Settled : Option Value → ℕ → Client S → Type 0
  Settled none id c = Waits id c
  Settled (some g) id c = reply_for id c.replies ≡ some g

  delivered-Settled :
      (fs : List Value) (id : ℕ) (c : Client S)
      → Waits id c
      → Settled (first_reply id fs) id (delivered fs c)
  unfolding delivered first_reply
  delivered-Settled [] id c w = w
  delivered-Settled (f ∷ fs) id c w = elim (first_reply_cases id f fs) [
    | inl (e, here) ↦
        rw here (delivered-answered fs f id (deliver on f c) (deliver-answers f id c e w))
    | inr (other, later) ↦
        rw later (delivered-Settled fs id (deliver on f c) (deliver-Waits f id c other w))
  ]

  Settled-outcome :
      (o : Option Value) (ended : Bool) (id : ℕ) (c : Client S)
      → Settled o id c
      → let last = if ended then shut_down on c else c in
        awaited (reply_for id last.replies) (has_id id last.pending) ≡ outcome o ended
  unfolding shut_down
  Settled-outcome none true id c h = rw h.0
  Settled-outcome none false id c h = rw (h.0, h.1)
  Settled-outcome (some g) true id c h = rw h
  Settled-outcome (some g) false id c h = rw h

  module _ (fs : List Value) (ended : Bool) where
    -- A request of at most 65535 bytes is written as one frame, and its caller gets the first frame with
    -- its id that the reader delivers. If there is none, the caller gets a broken pipe if the reader
    -- ended, and a time-out if not. Afterwards the id does not wait any more.
    pub request-first_reply :
        (id : ℕ) (bytes : Bytes) (c : Conn S)
        → length bytes ≤ max_frame
        → let (r, c') = request (reader_acts fs ended) id bytes c in
          (r ≡ outcome (first_reply id fs) ended)
          × (c'.written ≡ c.written ++ framed bytes)
          × (has_id id c'.core.pending ≡ false)
    unfolding request
    request-first_reply id bytes c h =
        let c' = open_channel id c in
        let last = delivered fs c'.core in
        rw (request, write_frame_fits c.written bytes h)
          (
            Settled-outcome (first_reply id fs) ended id last
                (delivered-Settled fs id c'.core (open_channel-Waits id c)),
            refl,
            has_id-drop_id id (if ended then shut_down on last else last).pending,
          )
