-- ===== src/Interpose/Session/Ordered/Joined.antt =====
-- What the node takes from the frames that the stream calls write: `ax25_send` of
-- crates/ax25-interpose/src/lib.rs and `OutboundPump` of state.rs over `RhpClient::send` of
-- crates/rhpv2/src/client.rs.
use pdn_libax.Prelude.{
  ℕ, ◌≡◌, ◌≤◌, refl, sym, ◌∙◌, inl, inr, Bool, true, false, List, [], ◌∷◌, ◌++◌, map, map-append,
  append_assoc, append-nil, Option, some, arith, ◌==◌, if◌then◌else◌, length, Bytes, lookup, All,
  All-append, AreBytes, Bool-cases,
}
use pdn_libax.Rhp.Wire.{max_frame}
use pdn_libax.Rhp.Wire.Framing.{all_framed}
use pdn_libax.Rhp.Frame.{Value}
use pdn_libax.Rhp.Requests.{max_send_chunk}
use pdn_libax.Rhp.Client.{given, Conn}
use pdn_libax.Rhp.Client
use pdn_libax.Rhp.Client.Chunks.{joined}
use pdn_libax.Rhp.Client.Sending.{node_takes, Serializes, Obliging, send-joined, all_framed-append}
use pdn_libax.Interpose.EventSink.{Pumps}
use pdn_libax.Interpose.Sockets.{returned}
use pdn_libax.Interpose.Session.{Session, Env, on_net, fd_of, handle_of, ensure_client}
use pdn_libax.Interpose.Session.Ordered.{
  entries_of, drain_locked, flush, send_ordered, ax25_send, sent_reply,
}

-- The bytes of the pieces that are for a handle, in order.
unfoldable pub taken : ℕ → List (ℕ × Bytes) → Bytes
taken h [] = []
taken h (p ∷ ps) = if p.0 == h then p.1 ++ taken h ps else taken h ps

taken-append : (h : ℕ) (ps qs : List (ℕ × Bytes)) → taken h (ps ++ qs) ≡ taken h ps ++ taken h qs
unfolding taken
taken-append h [] qs = refl
taken-append h (p ∷ ps) qs =
    ground (arith, taken-append h ps qs, append_assoc p.1 (taken h ps) (taken h qs))

-- All pieces are for one handle.
pub pieces : ℕ → List Bytes → List (ℕ × Bytes)
pieces h reads = map (λ part. (h, part)) reads

taken-pieces :
    (k h : ℕ) (parts : List Bytes)
    → taken k (pieces h parts) ≡ (if h == k then joined parts else [])
unfolding taken pieces
taken-pieces k h [] = ground arith
taken-pieces k h (part ∷ parts) = elim (Bool-cases (h == k)) [
  | inl same ↦ rw (taken-pieces k h parts, same)
  | inr other ↦ rw (taken-pieces k h parts, other)
]

taken_one : (k h : ℕ) (bytes : Bytes) → taken k ((h, bytes) ∷ []) ≡ (if h == k then bytes else [])
unfolding taken
taken_one k h bytes = rw (append-nil bytes)

if-append :
    (b : Bool) (xs ys : Bytes)
    → (if◌then◌else◌ {A = Bytes} b xs []) ++ (if◌then◌else◌ {A = Bytes} b ys [])
      ≡ (if◌then◌else◌ {A = Bytes} b (xs ++ ys) [])
if-append true xs ys = refl
if-append false xs ys = refl

-- All pieces are for this handle: what bypassed the interposer, and then the bytes of a call.
taken_ordered :
    (k h : ℕ) (reads : List Bytes) (bytes : Bytes)
    → taken k (pieces h reads ++ (h, bytes) ∷ []) ≡ (if h == k then joined reads ++ bytes else [])
taken_ordered k h reads bytes = rw (
  taken-append k (pieces h reads) ((h, bytes) ∷ []),
  taken-pieces k h reads,
  taken_one k h bytes,
  if-append (h == k) (joined reads) bytes,
)

-- What the node takes from a body, when it is a piece for a handle.
abbrev pub delivered_as : ℕ × Bytes → Option ℕ × Option Bytes
delivered_as p = (some p.0, some p.1)

delivered_as-pieces :
    (h : ℕ) (parts : List Bytes)
    → map delivered_as (pieces h parts) ≡ map (λ part. (some h, some part)) parts
unfolding pieces
delivered_as-pieces h [] = refl
delivered_as-pieces h (part ∷ parts) = rw (delivered_as-pieces h parts)

short-pieces :
    (h : ℕ) (parts : List Bytes)
    → All (λ (part : Bytes). length part ≤ max_send_chunk) parts
    → All (λ (p : ℕ × Bytes). length p.1 ≤ max_send_chunk) (pieces h parts)
unfolding pieces
short-pieces h [] all = tt
short-pieces h (part ∷ parts) all = (all.0, short-pieces h parts all.1)

module _ (to_vec : Value → Bytes) (during : ℕ → Conn Pumps → Conn Pumps)
    (parse : Bytes → Option Value) where
  -- The bytes written in between are whole frames, none too long, which the node takes as payloads of at
  -- most 8100 bytes; for each handle these are together its pieces.
  abbrev pub Forwards : List (ℕ × Bytes) → Bytes → Bytes → Type 0
  Forwards ps before after =
      (bodies : List Bytes) × (after ≡ before ++ all_framed bodies)
      × (All (λ (body : Bytes). length body ≤ max_frame) bodies)
      × (parts : List (ℕ × Bytes)) × (map (node_takes parse) bodies ≡ map delivered_as parts)
      × (All (λ (p : ℕ × Bytes). length p.1 ≤ max_send_chunk) parts)
      × ((k : ℕ) → taken k parts ≡ taken k ps)

  pub nothing-Forwards : (w : Bytes) → Forwards [] w w
  nothing-Forwards w = ([], rw (append-nil w), tt, [], refl, tt, λ k. refl)

  pub Forwards-append :
      (ps qs : List (ℕ × Bytes)) (u v w : Bytes)
      → Forwards ps u v
      → Forwards qs v w
      → Forwards (ps ++ qs) u w
  Forwards-append ps qs u v w (xs, ex, fx, us, tx, sx, kx) (ys, ey, fy, bs, ty, sy, ky) = (
    xs ++ ys,
    rw (ey, ex, all_framed-append xs ys, append_assoc u (all_framed xs) (all_framed ys)),
    All-append _ xs ys fx fy,
    us ++ bs,
    rw (map-append (node_takes parse) xs ys, map-append delivered_as us bs, tx, ty),
    All-append _ us bs sx sy,
    λ k. rw (taken-append k us bs, taken-append k ps qs, kx k, ky k),
  )

  module _ (serializes : (h : ℕ) → Serializes to_vec parse h) (obliging : Obliging during) where
    send-Forwards :
        (h : ℕ) (bytes : Bytes) (s : Session)
        → AreBytes bytes
        → let (r, s') = on_net (Client.send to_vec during h bytes) s in
          (r ≡ given tt) × Forwards ((h, bytes) ∷ []) s.net.written s'.net.written
    send-Forwards h bytes s all =
        let (success, bodies, written, fits, parts, takes, short, whole) =
          send-joined to_vec during parse h bytes s.net (serializes h) obliging all in
        (
          success,
          (
            bodies,
            written,
            fits,
            pieces h parts,
            takes ∙ sym (delivered_as-pieces h parts),
            short-pieces h parts short,
            λ k. taken-pieces k h parts ∙ rw (taken_one k h bytes, whole),
          ),
        )

    drain_locked-Forwards :
        (h inner : ℕ) (reads : List Bytes) (s : Session)
        → All AreBytes reads
        → Forwards
            (pieces h reads)
            s.net.written
            (drain_locked to_vec during h inner reads s).net.written
    unfolding drain_locked pieces
    drain_locked-Forwards h inner [] s all = nothing-Forwards s.net.written
    drain_locked-Forwards h inner (bytes ∷ reads) s all =
        let s' = (on_net (Client.send to_vec during h bytes) s).1 in
        Forwards-append ((h, bytes) ∷ []) (pieces h reads) s.net.written s'.net.written
          (drain_locked to_vec during h inner reads s').net.written
          (send-Forwards h bytes s all.0).1 (drain_locked-Forwards h inner reads s' all.1)

    pub flush-Forwards :
        (h inner : ℕ) (reads : List Bytes) (s : Session)
        → lookup h (entries_of s) ≡ some inner
        → All AreBytes reads
        → Forwards (pieces h reads) s.net.written (flush to_vec during h reads s).net.written
    unfolding flush
    flush-Forwards h inner reads s found all = rw found (drain_locked-Forwards h inner reads s all)

    -- `write` and `send` on a stream whose handle is registered with the pump, over a client that is up: if
    -- the node answers each request without an error and its parser reads a `send` request back, the call
    -- reports all bytes as sent. It writes whole frames, none too long, which the node takes as payloads
    -- of at most 8100 bytes. For the handle these are together the bytes that bypassed the interposer,
    -- followed by the bytes of the call, and there are none for another handle.
    pub ax25_send-joined :
        (env : Env) (fd h inner : ℕ) (reads : List Bytes) (bytes : Bytes) (s : Session)
        → handle_of (fd_of fd s) ≡ some h
        → s.cached ≡ true
        → s.net.core.closed ≡ false
        → lookup h (entries_of s) ≡ some inner
        → All AreBytes reads
        → AreBytes bytes
        → let (reply, s') = ax25_send to_vec during env fd reads bytes s in
          (reply ≡ returned (length bytes))
          × (bodies : List Bytes) × (s'.net.written ≡ s.net.written ++ all_framed bodies)
          × (All (λ (body : Bytes). length body ≤ max_frame) bodies)
          × (parts : List (ℕ × Bytes)) × (map (node_takes parse) bodies ≡ map delivered_as parts)
          × (All (λ (p : ℕ × Bytes). length p.1 ≤ max_send_chunk) parts)
          × ((k : ℕ) → taken k parts ≡ (if h == k then joined reads ++ bytes else []))
    unfolding ax25_send ensure_client send_ordered
    ax25_send-joined env fd h inner reads bytes s has cached alive found all_reads all =
        let s' = flush to_vec during h reads s in
        let (success, sent) = send-Forwards h bytes s' all in
        let (bodies, written, fits, parts, takes, short, same) =
          Forwards-append (pieces h reads) ((h, bytes) ∷ []) s.net.written s'.net.written
            (on_net (Client.send to_vec during h bytes) s').1.net.written
            (flush-Forwards h inner reads s found all_reads) sent in
        let up : ensure_client to_vec during env s ≡ (true, s) =
          rw (ensure_client, cached, alive) in
        let call : ax25_send to_vec during env fd reads bytes s
            ≡ sent_reply to_vec during env (length bytes)
                (send_ordered to_vec during h reads bytes s) =
          rw (ax25_send, has, up) in
        rw (call, success)
          (
            refl,
            bodies,
            written,
            fits,
            parts,
            takes,
            short,
            λ k. same k ∙ taken_ordered k h reads bytes,
          )
