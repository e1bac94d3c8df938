-- ===== src/Rhp/Wire/Framing.antt =====
-- Frames written by `write_frame` of crates/rhpv2/src/framing.rs and read back by `read_frame`.
use pdn_libax.Prelude.{
  ℕ, zero, suc, ◌+◌, ◌*◌, ◌/◌, ◌%◌, ◌≤◌, ◌<◌, ◌≡◌, ◌↔◌, ◌≢◌, refl, List, [], ◌∷◌, ◌++◌,
  append_assoc, map, Option, none, some, arith, leb, ◌^◌, append-nil, true, length, length-append,
  take-length-append, drop-length-append, All, Bytes, AreBytes,
}
use pdn_libax.Rhp.Wire.{
  Stream, End, IoResult, ok, err, invalid_input, read_exact, read_body, write_frame, read_frame,
  be_bytes, max_frame, to_wire_string, from_wire_string, errcode_to_errno,
}

-- The bytes of one frame.
abbrev pub framed : Bytes → Bytes
framed payload = be_bytes (length payload) ++ payload

read_exact-append :
    (s rest : Bytes) (end : End)
    → read_exact (length s) (record { unread = s ++ rest; end = end })
      ≡ (ok s, record { unread = rest; end = end })
unfolding read_exact
read_exact-append s rest end =
    let fits : leb (length s) (length (s ++ rest)) ≡ true = ground (arith, length-append s rest) in
    rw (fits, take-length-append s rest, drop-length-append s rest)

read_exact_two :
    (a b : ℕ) (s : Bytes) (end : End)
    → read_exact 2 (record { unread = a ∷ b ∷ s; end = end })
      ≡ (ok (a ∷ b ∷ []), record { unread = s; end = end })
read_exact_two a b s end = read_exact-append (a ∷ b ∷ []) s end

-- A frame in front of any bytes is read back whole, and the bytes behind it are left.
pub read_frame-framed :
    (payload rest : Bytes) (end : End)
    → length payload ≤ max_frame
    → read_frame (record { unread = framed payload ++ rest; end = end })
      ≡ (ok (some payload), record { unread = rest; end = end })
unfolding read_frame
read_frame-framed payload rest end h =
    let size : length payload % 2 ^ 16 / 256 * 256 + length payload % 256 ≡ length payload =
      omega arith in
    rw (
      read_exact_two (length payload % 2 ^ 16 / 256) (length payload % 256) (payload ++ rest) end,
      size,
      read_exact-append payload rest end,
    )

-- Writes one frame for each payload, and stops at the first error.
unfoldable pub write_frames : Bytes → List Bytes → IoResult Bytes
write_frames w [] = ok w
write_frames w (p ∷ ps) = elim (write_frame w p) [ ok w' ↦ write_frames w' ps | err e ↦ err e ]

abbrev read_on :
    IoResult (Option Bytes) × Stream
    → (Stream → List (Option Bytes) × Stream)
    → List (Option Bytes) × Stream
read_on (ok r, s) more = (r ∷ (more s).0, (more s).1)
read_on (err e, s) more = ([], s)

-- Reads `n` frames, and stops at the first error.
unfoldable pub read_frames : ℕ → Stream → List (Option Bytes) × Stream
read_frames zero s = ([], s)
read_frames (suc n) s = read_on (read_frame s) (λ s'. read_frames n s')

abbrev pub all_framed : List Bytes → Bytes
all_framed [] = []
all_framed (p ∷ ps) = framed p ++ all_framed ps

pub write_frame_fits : (w p : Bytes) → length p ≤ max_frame → write_frame w p ≡ ok (w ++ framed p)
unfolding write_frame
write_frame_fits w p h = ground arith

write_frames-framed :
    (w : Bytes) (ps : List Bytes)
    → All (λ p. length p ≤ max_frame) ps
    → write_frames w ps ≡ ok (w ++ all_framed ps)
unfolding write_frames
write_frames-framed w [] all = rw (append-nil w)
write_frames-framed w (p ∷ ps) all = rw (
  write_frame_fits w p all.0,
  write_frames,
  write_frames-framed (w ++ framed p) ps all.1,
  append_assoc w (framed p) (all_framed ps),
)

read_frames-framed :
    (ps : List Bytes) (rest : Bytes) (end : End)
    → All (λ p. length p ≤ max_frame) ps
    → read_frames (length ps) (record { unread = all_framed ps ++ rest; end = end })
      ≡ (map some ps, record { unread = rest; end = end })
unfolding read_frames
read_frames-framed [] rest end all = refl
read_frames-framed (p ∷ ps) rest end all = rw (
  append_assoc (framed p) (all_framed ps) rest,
  read_frame-framed p (all_framed ps ++ rest) end all.0,
  read_frames-framed ps rest end all.1,
)

-- Any payloads of at most 65535 bytes are written without an error, and the bytes that were written,
-- with anything behind them, are read back as the same payloads in the same order.
pub read-write :
    (ps : List Bytes) (rest : Bytes) (end : End)
    → All (λ p. length p ≤ max_frame) ps
    → (w : Bytes) × (write_frames [] ps ≡ ok w)
      × (read_frames (length ps) (record { unread = w ++ rest; end = end })
          ≡ (map some ps, record { unread = rest; end = end }))
read-write ps rest end all =
    (all_framed ps, write_frames-framed [] ps all, read_frames-framed ps rest end all)

-- `write_frame` fails exactly on a payload of more than 65535 bytes, and then nothing is written.
pub write_frame-oversize :
    (w payload : Bytes) → (write_frame w payload ≡ err invalid_input) ↔ (max_frame < length payload)
unfolding write_frame
write_frame-oversize w payload = (λ e. ground arith, λ h. ground arith)

body_ne_none :
    (n : ℕ) (rest : Bytes) (s : Stream)
    → read_body (read_exact n (record { unread = rest; end = End.closed })) ≢ (ok none, s)
unfolding read_exact
body_ne_none n rest s e = ground arith

-- At the end of the stream, `read_frame` reports a clean end exactly if fewer than two bytes are left,
-- so a single stray byte of a length prefix counts as clean.
pub read_frame-closed :
    (unread : Bytes) (s : Stream)
    → (read_frame (record { unread = unread; end = End.closed }) ≡ (ok none, s))
      ↔ ((length unread < 2) × (s ≡ record { unread = []; end = End.closed }))
unfolding read_frame
read_frame-closed [] s = (λ e. ground arith, λ h. ground arith)
read_frame-closed (a ∷ []) s = (λ e. ground arith, λ h. ground arith)
read_frame-closed (a ∷ b ∷ rest) s = (
  λ e. absurd (body_ne_none (a * 256 + b) rest s (rw read_exact_two at e)),
  λ h. absurd (omega arith),
)

-- Decoding an encoded payload gives it back, for all byte values.
pub from-to_wire_string : (s : Bytes) → AreBytes s → from_wire_string (to_wire_string s) ≡ s
unfolding from_wire_string to_wire_string
from-to_wire_string [] all = refl
from-to_wire_string (b ∷ s) all = ground (arith, from-to_wire_string s all.1)

-- Only the error code 0 is mapped to the errno 0: a failure is never reported as a success.
pub errcode_to_errno-zero : (code : ℕ) → (errcode_to_errno code ≡ 0) ↔ (code ≡ 0)
unfolding errcode_to_errno
errcode_to_errno-zero code = (λ e. ground arith, λ e. ground arith)
