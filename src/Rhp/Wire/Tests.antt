-- ===== src/Rhp/Wire/Tests.antt =====
-- Tests of the wire, after those of crates/rhpv2/src, and instances of its theorems.
use pdn_libax.Prelude.{◌≡◌, refl, map, some, none, [], ◌∷◌, ◌++◌, codes, arith, Bytes, length}
use pdn_libax.Prelude.Errno.{eio}
use pdn_libax.Rhp.Wire.{End, ok, write_frame, read_frame, errcode_to_errno}
use pdn_libax.Rhp.Wire.Framing.{read-write, write_frames, read_frames}

length_prefix : write_frame [] (codes "ping") ≡ ok (0 ∷ 4 ∷ codes "ping")
unfolding write_frame
length_prefix = refl

stray_byte :
    read_frame (record { unread = 7 ∷ []; end = End.closed })
    ≡ (ok none, record { unread = []; end = End.closed })
unfolding read_frame
stray_byte = refl

unknown_code : errcode_to_errno 9999 ≡ eio
unfolding errcode_to_errno
unknown_code = refl

read-write_example :
    (w : Bytes) × (write_frames [] (codes "ab" ∷ [] ∷ codes "c" ∷ []) ≡ ok w)
    × (read_frames
          (length (codes "ab" ∷ [] ∷ codes "c" ∷ []))
          (record { unread = w ++ codes "tail"; end = End.broken })
        ≡ (
          map some (codes "ab" ∷ [] ∷ codes "c" ∷ []),
          record { unread = codes "tail"; end = End.broken },
        ))
read-write_example =
    read-write (codes "ab" ∷ [] ∷ codes "c" ∷ []) (codes "tail") End.broken (omega arith)
