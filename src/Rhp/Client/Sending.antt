-- ===== src/Rhp/Client/Sending.antt =====
-- `RhpClient::send` of crates/rhpv2/src/client.rs up to the node: the frames that it writes, and the
-- payloads that the node decodes from them.
use pdn_libax.Prelude.{
  ℕ, ◌+◌, ◌%◌, ◌≤◌, ◌<◌, ◌≡◌, refl, ◌∙◌, List, [], ◌∷◌, ◌++◌, map, map-append, append_assoc,
  append-nil, Option, none, some, arith, Bytes, length, All, AreBytes, All-append, i64_mod,
}
use pdn_libax.Rhp.Wire.{max_frame, to_wire_string, from_wire_string}
use pdn_libax.Rhp.Wire.Framing.{framed, all_framed, write_frame_fits, from-to_wire_string}
use pdn_libax.Rhp.Frame.{Value}
use pdn_libax.Rhp.Frame
use pdn_libax.Rhp.Requests.{send_req, max_send_chunk}
use pdn_libax.Rhp.Client.{
  RhpResult, given, Conn, reply_for, check_ok, open_channel, chunks, request, simple, ◌>>◌,
  send_chunk, send_each, send,
}
use pdn_libax.Rhp.Client.Chunks.{joined, chunks-sizes, chunks-AreBytes, payloads, joined-payloads}
use pdn_libax.Rhp.Client.Replies.{Waits, open_channel-Waits}

-- What the node takes from the body of a `send`: the handle and the payload.
unfoldable pub node_takes : (Bytes → Option Value) → Bytes → Option ℕ × Option Bytes
node_takes parse body = elim (parse body) [
  | none ↦ (none, none)
  | some f ↦
      (Frame.handle f, elim (Frame.data_str f) [ none ↦ none | some s ↦ some (from_wire_string s) ])
]

-- A `send` request is at most a frame long, and the node's parser reads it back.
abbrev pub Serializes : (Value → Bytes) → (Bytes → Option Value) → ℕ → Type 0
Serializes to_vec parse handle =
    (id : ℕ) (s : Bytes)
    → id < i64_mod
    → AreBytes s
    → length s ≤ max_send_chunk
    → let body = to_vec (send_req id handle (to_wire_string s)) in
      (length body ≤ max_frame) × (parse body ≡ some (send_req id handle (to_wire_string s)))

-- While a request waits, nobody else writes, and the node answers it with a frame that is no error.
abbrev pub Obliging : {S : Type 0} → (ℕ → Conn S → Conn S) → Type 0
Obliging {S} during =
    (id : ℕ) (c : Conn S)
    → Waits id c.core
    → ((during id c).written ≡ c.written)
      × (f : Value) × (reply_for id (during id c).core.replies ≡ some f)
      × (check_ok f ≡ given tt)

send_req-handle : (id handle : ℕ) (s : Bytes) → Frame.handle (send_req id handle s) ≡ some handle
unfolding Frame.handle send_req
send_req-handle id handle s = refl

send_req-data_str : (id handle : ℕ) (s : Bytes) → Frame.data_str (send_req id handle s) ≡ some s
unfolding Frame.data_str send_req
send_req-data_str id handle s = refl

node_takes_send :
    (parse : Bytes → Option Value) (body : Bytes) (id handle : ℕ) (s : Bytes)
    → AreBytes s
    → parse body ≡ some (send_req id handle (to_wire_string s))
    → node_takes parse body ≡ (some handle, some s)
unfolding node_takes
node_takes_send parse body id handle s bytes e = rw (
  node_takes,
  e,
  send_req-handle id handle (to_wire_string s),
  send_req-data_str id handle (to_wire_string s),
  from-to_wire_string s bytes,
)

pub all_framed-append :
    (ss ts : List Bytes) → all_framed (ss ++ ts) ≡ all_framed ss ++ all_framed ts
all_framed-append [] ts = refl
all_framed-append (s ∷ ss) ts =
    rw (all_framed-append ss ts, append_assoc (framed s) (all_framed ss) (all_framed ts))

short_enough :
    (ss : List Bytes)
    → All (λ (s : Bytes). (0 < length s) × (length s ≤ max_send_chunk)) ss
    → All (λ (s : Bytes). length s ≤ max_send_chunk) ss
short_enough [] all = tt
short_enough (s ∷ ss) all = (all.0.1, short_enough ss all.1)

payloads_short :
    (s : Bytes) → All (λ (part : Bytes). length part ≤ max_send_chunk) (payloads max_send_chunk s)
payloads_short [] = (omega arith, tt)
payloads_short (b ∷ s) =
    short_enough (chunks (length (b ∷ s)) max_send_chunk (b ∷ s))
      (chunks-sizes (length (b ∷ s)) max_send_chunk (b ∷ s) (omega arith))

module _ {S : Type 0} (to_vec : Value → Bytes) (during : ℕ → Conn S → Conn S) where
  pub simple_answered :
      (id : ℕ) (v : Value) (c : Conn S)
      → Obliging during
      → length (to_vec v) ≤ max_frame
      → ((simple to_vec during id v c).0 ≡ given tt)
        × ((simple to_vec during id v c).1.written ≡ c.written ++ framed (to_vec v))
  unfolding request
  simple_answered id v c obliging fits =
      let (kept, f, answered, fine) =
        obliging id (record (open_channel id c) { written = c.written ++ framed (to_vec v) })
          (open_channel-Waits id c) in
      rw (request, write_frame_fits c.written (to_vec v) fits, answered) (fine, kept)

  module _ (parse : Bytes → Option Value) (handle : ℕ) where
    -- The call succeeds, and what it writes are frames that the node takes as these payloads.
    abbrev Arrive : List Bytes → Conn S → RhpResult (Unit {0}) × Conn S → Type 0
    Arrive ss c r =
        (r.0 ≡ given tt)
        × (bodies : List Bytes) × (r.1.written ≡ c.written ++ all_framed bodies)
        × (All (λ (body : Bytes). length body ≤ max_frame) bodies)
        × (map (node_takes parse) bodies ≡ map (λ s. (some handle, some s)) ss)

    send_chunk-Arrive :
        (s : Bytes) (c : Conn S)
        → Serializes to_vec parse handle
        → Obliging during
        → AreBytes s
        → length s ≤ max_send_chunk
        → Arrive (s ∷ []) c (send_chunk to_vec during handle s c)
    unfolding send_chunk
    send_chunk-Arrive s c serializes obliging bytes short =
        let id = (1 + c.last_id) % i64_mod in
        let v = send_req id handle (to_wire_string s) in
        let (fits, parsed) = serializes id s (omega arith) bytes short in
        let (success, written) = simple_answered id v (record c { last_id = id }) obliging fits in
        (
          success,
          to_vec v ∷ [],
          written ∙ rw (append-nil (framed (to_vec v))),
          (fits, tt),
          rw (node_takes_send parse (to_vec v) id handle s bytes parsed),
        )

    send_each-Arrive :
        (ss : List Bytes) (c : Conn S)
        → Serializes to_vec parse handle
        → Obliging during
        → All AreBytes ss
        → All (λ (s : Bytes). length s ≤ max_send_chunk) ss
        → Arrive ss c (send_each to_vec during handle ss c)
    unfolding send_each
    send_each-Arrive [] c serializes obliging bytes short =
        (refl, [], rw (append-nil c.written), tt, refl)
    send_each-Arrive (s ∷ ss) c serializes obliging bytes short =
        let (success, first, written, fits, taken) =
          send_chunk-Arrive s c serializes obliging bytes.0 short.0 in
        let c' = (send_chunk to_vec during handle s c).1 in
        let (success', rest, written', fits', taken') =
          send_each-Arrive ss c' serializes obliging bytes.1 short.1 in
        (
          rw (◌>>◌, success) success',
          first ++ rest,
          rw (
            ◌>>◌,
            success,
            written',
            written,
            all_framed-append first rest,
            append_assoc c.written (all_framed first) (all_framed rest),
          ),
          All-append _ first rest fits fits',
          rw (map-append (node_takes parse) first rest, taken, taken'),
        )

    send-Arrive :
        (s : Bytes) (c : Conn S)
        → Serializes to_vec parse handle
        → Obliging during
        → AreBytes s
        → Arrive (payloads max_send_chunk s) c (send to_vec during handle s c)
    unfolding send
    send-Arrive [] c serializes obliging bytes =
        send_chunk-Arrive [] c serializes obliging tt (omega arith)
    send-Arrive (b ∷ s) c serializes obliging bytes =
        send_each-Arrive (chunks (length (b ∷ s)) max_send_chunk (b ∷ s)) c serializes obliging
          (chunks-AreBytes (length (b ∷ s)) max_send_chunk (b ∷ s) bytes) (payloads_short (b ∷ s))

    -- If the node answers each request without an error and its parser reads a `send` request back, a
    -- `send` of any bytes succeeds. It writes whole frames, none of them too long, and what the node
    -- takes from their bodies are payloads for this handle of at most 8100 bytes each, which are together
    -- the bytes.
    pub send-joined :
        (s : Bytes) (c : Conn S)
        → Serializes to_vec parse handle
        → Obliging during
        → AreBytes s
        → let (r, c') = send to_vec during handle s c in
          (r ≡ given tt)
          × (bodies : List Bytes) × (c'.written ≡ c.written ++ all_framed bodies)
          × (All (λ (body : Bytes). length body ≤ max_frame) bodies)
          × (parts : List Bytes) × (map (node_takes parse) bodies
              ≡ map (λ part. (some handle, some part)) parts)
          × (All (λ (part : Bytes). length part ≤ max_send_chunk) parts)
          × (joined parts ≡ s)
    send-joined s c serializes obliging bytes =
        let (success, bodies, written, fits, taken) = send-Arrive s c serializes obliging bytes in
        (
          success,
          bodies,
          written,
          fits,
          payloads max_send_chunk s,
          taken,
          payloads_short s,
          joined-payloads max_send_chunk s (omega arith),
        )
