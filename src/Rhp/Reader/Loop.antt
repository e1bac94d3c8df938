-- ===== src/Rhp/Reader/Loop.antt =====
-- The reader thread of crates/rhpv2/src/client.rs: its loop as a whole, and its replies.
use pdn_libax.Prelude.{
  ℕ, zero, suc, ◌+◌, ◌≤◌, ◌<◌, ◌≡◌, ◌↔◌, refl, ap, true, false, List, [], ◌∷◌, ◌++◌, Option, none,
  some, arith, Bytes, length, length-drop, All, Table, lookup, subst,
}
use pdn_libax.Prelude.Errno.{econnreset}
use pdn_libax.Rhp.Wire.{
  Stream, End, IoResult, ok, err, read_frame, read_exact, read_body, read_prefixed, from_be_bytes,
  invalid_input, unexpected_eof, failed, max_frame,
}
use pdn_libax.Rhp.Wire.Framing.{all_framed, read_frame-framed}
use pdn_libax.Rhp.Frame.{Value}
use pdn_libax.Rhp.Frame
use pdn_libax.Rhp.Registry.{ConnPhase, result}
use pdn_libax.Rhp.Registry.Connects.{fail_all_pending-settled}
use pdn_libax.Rhp.Reader.{
  Sink, Client, has_id, drop_id, dispatch_push, deliver, shut_down, take_frame, reader_loop,
}

read_exact-shrinks :
    (n : ℕ) (s s' : Stream) (b : Bytes)
    → read_exact n s ≡ (ok b, s')
    → length s'.unread + n ≡ length s.unread
unfolding read_exact
read_exact-shrinks n s s' b e = ground (arith, length-drop n s.unread)

read_body-shrinks :
    (n : ℕ) (s s' : Stream) (r : IoResult Bytes × Stream) (body : Bytes)
    → read_exact n s ≡ r
    → read_body r ≡ (ok (some body), s')
    → length s'.unread ≤ length s.unread
read_body-shrinks n s s' (ok b, s1) body e h =
    let same : s1 ≡ s' = ground arith in
    omega (arith, read_exact-shrinks n s s1 b e, ap (λ (t : Stream). length t.unread) same)
read_body-shrinks n s s' (err x, s1) body e h = absurd (ground arith)

read_prefixed-shrinks :
    (s s' : Stream) (r : IoResult Bytes × Stream) (body : Bytes)
    → read_exact 2 s ≡ r
    → read_prefixed r ≡ (ok (some body), s')
    → length s'.unread + 2 ≤ length s.unread
read_prefixed-shrinks s s' (ok b, s1) body e h = omega (
  arith,
  read_exact-shrinks 2 s s1 b e,
  read_body-shrinks (from_be_bytes b) s1 s' (read_exact (from_be_bytes b) s1) body refl h,
)
read_prefixed-shrinks s s' (err unexpected_eof, s1) body e h = absurd (ground arith)
read_prefixed-shrinks s s' (err invalid_input, s1) body e h = absurd (ground arith)
read_prefixed-shrinks s s' (err failed, s1) body e h = absurd (ground arith)

-- Every frame that is read takes its two length bytes at least.
read_frame-shrinks :
    (s s' : Stream) (body : Bytes)
    → read_frame s ≡ (ok (some body), s')
    → length s'.unread + 2 ≤ length s.unread
unfolding read_frame
read_frame-shrinks s s' body e = read_prefixed-shrinks s s' (read_exact 2 s) body refl e

pub has_id-drop_id : (id : ℕ) (ids : List ℕ) → has_id id (drop_id id ids) ≡ false
has_id-drop_id id [] = refl
has_id-drop_id id (i ∷ ids) = ground (arith, has_id-drop_id id ids)

module _ {S : Type 0} (on : Sink S) (parse : Bytes → Option Value) where
  abbrev Ends : ℕ → Stream → Client S → Type 0
  Ends fuel s c = (c' : Client S) × (reader_loop on parse fuel s c ≡ some (shut_down on c'))

  Ends-turn :
      (fuel : ℕ) (s : Stream) (c : Client S) (r : IoResult (Option Bytes) × Stream)
      → read_frame s ≡ r
      → ((body : Bytes) (s' : Stream)
          → r ≡ (ok (some body), s')
          → Ends fuel s' (take_frame on parse body c))
      → Ends (suc fuel) s c
  unfolding reader_loop
  Ends-turn fuel s c (ok none, s') e more = (c, rw e)
  Ends-turn fuel s c (ok (some body), s') e more = rw e (more body s' refl)
  Ends-turn fuel s c (err x, s') e more = (c, rw e)

  -- The reader thread ends on every stream: one turn for each byte, and one more, is fuel enough. What
  -- it leaves is what `shut_down` makes of some state of the client.
  pub reader_total : (fuel : ℕ) (s : Stream) (c : Client S) → length s.unread < fuel → Ends fuel s c
  reader_total zero s c h = absurd (omega arith)
  reader_total (suc fuel) s c h = Ends-turn fuel s c (read_frame s) refl λ body s' e.
      reader_total fuel s' (take_frame on parse body c)
        (omega (arith, read_frame-shrinks s s' body e))

  -- The frames taken one by one, in order.
  unfoldable pub take_frames : List Bytes → Client S → Client S
  take_frames [] c = c
  take_frames (body ∷ bodies) c = take_frames bodies (take_frame on parse body c)

  reader_loop-last :
      (fuel : ℕ) (c : Client S) (end : End)
      → reader_loop on parse (suc fuel) (record { unread = []; end = end }) c
        ≡ some (shut_down on c)
  unfolding reader_loop read_frame
  reader_loop-last fuel c End.closed = refl
  reader_loop-last fuel c End.broken = refl

  -- If the peer wrote these frame bodies and nothing else before the stream ended, for good or by an
  -- error, the reader takes each of them once, in order, and then shuts the client down.
  pub reader_loop-framed :
      (bodies : List Bytes) (fuel : ℕ) (c : Client S) (end : End)
      → All (λ b. length b ≤ max_frame) bodies
      → length bodies < fuel
      → reader_loop on parse fuel (record { unread = all_framed bodies; end = end }) c
        ≡ some (shut_down on (take_frames bodies c))
  unfolding take_frames reader_loop
  reader_loop-framed bodies zero c end all h = absurd (omega arith)
  reader_loop-framed [] (suc fuel) c end all h = reader_loop-last fuel c end
  reader_loop-framed (b ∷ bodies) (suc fuel) c end all h =
      rw (read_frame-framed b (all_framed bodies) end all.0)
        (reader_loop-framed bodies fuel (take_frame on parse b c) end all.1 (omega arith))

  -- When the reader has ended, the client is closed, no request waits for a reply, and no connect is
  -- left pending: a handle has no result only if it is not tracked.
  pub reader_loop-leaves :
      (fuel : ℕ) (s : Stream) (c c' : Client S)
      → length s.unread < fuel
      → reader_loop on parse fuel s c ≡ some c'
      → (c'.closed ≡ true)
        × (c'.pending ≡ [])
        × ((k : ℕ) → (result k c'.conns ≡ none) ↔ (lookup k c'.conns ≡ none))
  unfolding shut_down
  reader_loop-leaves fuel s c c' h e =
      let (last, ended) = reader_total fuel s c h in
      let same : shut_down on last ≡ c' = ground (arith, e, ended) in
      (
        ground arith,
        ground arith,
        λ k.
            subst (λ (m : Table ConnPhase). (result k m ≡ none) ↔ (lookup k m ≡ none))
              (ap (λ (x : Client S). x.conns) same)
              (fail_all_pending-settled econnreset k last.conns),
      )

module _ {S : Type 0} (on : Sink S) where
  pub dispatch_push-replies :
      (f : Value) (c : Client S)
      → ((dispatch_push on f c).replies ≡ c.replies) × ((dispatch_push on f c).pending ≡ c.pending)
  unfolding dispatch_push
  dispatch_push-replies f c = ground arith

  pub deliver_waiting :
      (f : Value) (id : ℕ) (c : Client S)
      → Frame.id f ≡ some id
      → has_id id c.pending ≡ true
      → deliver on f c
        ≡ record c { pending = drop_id id c.pending; replies = c.replies ++ (id, f) ∷ [] }
  unfolding deliver
  deliver_waiting f id c e h = rw (e, deliver, h)

  pub deliver_unknown :
      (f : Value) (id : ℕ) (c : Client S)
      → Frame.id f ≡ some id
      → has_id id c.pending ≡ false
      → deliver on f c ≡ dispatch_push on f c
  unfolding deliver
  deliver_unknown f id c e h = rw (e, deliver, h)

  -- A request that waits gets the first frame with its id, and only that one: it does not wait any
  -- more, and a second frame with the id is a push.
  pub deliver-reply :
      (f g : Value) (id : ℕ) (c : Client S)
      → Frame.id f ≡ some id
      → Frame.id g ≡ some id
      → has_id id c.pending ≡ true
      → ((deliver on f c).replies ≡ c.replies ++ (id, f) ∷ [])
        × (has_id id (deliver on f c).pending ≡ false)
        × (deliver on g (deliver on f c) ≡ dispatch_push on g (deliver on f c))
  deliver-reply f g id c ef eg h =
      let gone = has_id-drop_id id c.pending in
      let first = deliver_waiting f id c ef h in
      let answered : has_id id (deliver on f c).pending ≡ false = rw first gone in
      (rw first, answered, deliver_unknown g id (deliver on f c) eg answered)
