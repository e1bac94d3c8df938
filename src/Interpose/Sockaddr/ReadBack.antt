-- ===== src/Interpose/Sockaddr/ReadBack.antt =====
-- The socket addresses that `write_call` and `write_sockname` of crates/ax25-interpose/src/addr.rs leave
-- in the application's memory, read with `read_call` and `read_digipeaters`.
use pdn_libax.Prelude.{
  ℕ, zero, suc, ◌≤◌, ◌≡◌, refl, sym, ap, ◌∙◌, [], ◌∷◌, ◌++◌, append_assoc, none, some, arith,
  length, take, drop, length-append, length-take, length-drop, take_all, min, replicate, is_empty,
  false, Bytes,
}
use pdn_libax.Callsign.{Address}
use pdn_libax.Callsign.Memory.{address_bytes, address_at, drop_exact, address_at-bytes}
use pdn_libax.Callsign.Entry.{IsBase, canonical}
use pdn_libax.Interpose.Sockaddr.{
  encode, fill_call, split_once, decode, sockaddr_size, read_call, read_digipeaters, max_digis,
  encode-encode_entry,
}
use pdn_libax.Interpose.Sockaddr.Writing.{
  full_size, sockaddr_bytes, sockname_bytes, OutAddr, copy_out, write_call, write_sockname,
  addresses_at, int_at, sockaddr_at,
}

length-fill_call : (slots : ℕ) (s : Bytes) → length (fill_call slots s) ≡ slots
unfolding fill_call
length-fill_call zero s = refl
length-fill_call (suc slots) [] = ap suc (length-fill_call slots [])
length-fill_call (suc slots) (c ∷ s) = ap suc (length-fill_call slots s)

length-encode : (call : Bytes) → length (encode call).call ≡ 6
unfolding encode
length-encode call = length-fill_call 6 (split_once call).0

-- What a whole image shows: the address that begins it, and what lies behind the padding.
sockaddr_at-image :
    (a : Address) (pad rest more : Bytes)
    → length a.call ≡ 6
    → length pad ≡ 3
    → sockaddr_at (3 ∷ 0 ∷ ((address_bytes a ++ (pad ++ rest)) ++ more)) ≡ record {
      call = a;
      ndigis = int_at (rest ++ more);
      digis = addresses_at max_digis (drop 4 (rest ++ more));
    }
unfolding sockaddr_at
sockaddr_at-image a pad rest more h p =
    let size : length (address_bytes a ++ pad) ≡ 10 =
      omega (arith, length-append (address_bytes a) pad, length-append a.call (a.ssid ∷ [])) in
    let behind : drop 10 (address_bytes a ++ (pad ++ (rest ++ more))) ≡ rest ++ more =
      ap (drop 10) (sym (append_assoc (address_bytes a) pad (rest ++ more)))
      ∙ drop_exact 10 (address_bytes a ++ pad) (rest ++ more) size in
    rw (
      append_assoc (address_bytes a) (pad ++ rest) more,
      append_assoc pad rest more,
      sockaddr_at,
      address_at-bytes a (pad ++ (rest ++ more)) h,
      behind,
    )

length-sockaddr_bytes :
    (pad call : Bytes) → length pad ≡ 3 → length (sockaddr_bytes pad call) ≡ sockaddr_size
unfolding sockaddr_bytes
length-sockaddr_bytes pad call p =
    let a = encode call in
    omega (
      arith,
      length-encode call,
      length-append (address_bytes a) (pad ++ 0 ∷ 0 ∷ 0 ∷ 0 ∷ []),
      length-append a.call (a.ssid ∷ []),
      length-append pad (0 ∷ 0 ∷ 0 ∷ 0 ∷ []),
    )

length-sockname_bytes : (call : Bytes) → length (sockname_bytes call) ≡ full_size
unfolding sockname_bytes
length-sockname_bytes call =
    let a = encode call in
    let digi = address_bytes a ++ replicate 49 0 in
    omega (
      arith,
      length-encode call,
      length-append (address_bytes a) (0 ∷ 0 ∷ 0 ∷ 1 ∷ 0 ∷ 0 ∷ 0 ∷ digi),
      length-append a.call (a.ssid ∷ []),
      length-append (address_bytes a) (replicate 49 0),
    )

copied_whole :
    (image memory : Bytes) (avail size : ℕ)
    → length image ≡ size
    → size ≤ avail
    → copy_out image size (some (memory, avail))
      ≡ some (image ++ drop (min avail size) memory, size)
copied_whole image memory avail size h roomy = rw (take_all (min avail size) image (omega arith))

module _ (base : Bytes) (ssid : ℕ) (b : IsBase base) (small : ssid ≤ 15) where
  decode_back : decode (encode (canonical base ssid)) ≡ canonical base ssid
  decode_back = (encode-encode_entry base ssid b small).1

  -- The memory after `write_sockname` with room for a `full_sockaddr_ax25`: `*len` is its size, and the
  -- callsign, which is canonical and not empty, is read both from the address and as its only digipeater.
  pub write_sockname-read :
      (memory : Bytes) (avail : ℕ)
      → is_empty (canonical base ssid) ≡ false
      → full_size ≤ avail
      → (m : Bytes) × (write_sockname (canonical base ssid) (some (memory, avail))
          ≡ some (m, full_size))
        × (read_call (some (sockaddr_at m)) full_size ≡ some (canonical base ssid))
        × (read_digipeaters (some (sockaddr_at m)) full_size ≡ canonical base ssid ∷ [])
  unfolding write_sockname sockname_bytes read_call read_digipeaters
  write_sockname-read memory avail named roomy =
      let call = canonical base ssid in
      let a = encode call in
      let more = drop (min avail full_size) memory in
      let digi = address_bytes a ++ replicate 49 0 in
      let shown =
        sockaddr_at-image a (0 ∷ 0 ∷ 0 ∷ []) (1 ∷ 0 ∷ 0 ∷ 0 ∷ digi) more (length-encode call)
          refl in
      let first : address_at (digi ++ more) ≡ a =
        rw (append_assoc (address_bytes a) (replicate 49 0) more)
          (address_at-bytes a (replicate 49 0 ++ more) (length-encode call)) in
      (
        sockname_bytes call ++ more,
        copied_whole (sockname_bytes call) memory avail full_size (length-sockname_bytes call)
            roomy,
        rw (shown, decode_back),
        rw (shown, first, decode_back, named),
      )

  -- The memory after `write_call` with room for a `sockaddr_ax25`: `*len` is its size, and the canonical
  -- callsign is read from the address, and no digipeater.
  pub write_call-read :
      (pad memory : Bytes) (avail : ℕ)
      → length pad ≡ 3
      → sockaddr_size ≤ avail
      → (m : Bytes) × (write_call pad (canonical base ssid) (some (memory, avail))
          ≡ some (m, sockaddr_size))
        × (read_call (some (sockaddr_at m)) sockaddr_size ≡ some (canonical base ssid))
        × (read_digipeaters (some (sockaddr_at m)) sockaddr_size ≡ [])
  unfolding write_call sockaddr_bytes read_call read_digipeaters
  write_call-read pad memory avail p roomy =
      let call = canonical base ssid in
      let more = drop (min avail sockaddr_size) memory in
      let shown =
        sockaddr_at-image (encode call) pad (0 ∷ 0 ∷ 0 ∷ 0 ∷ []) more (length-encode call) p in
      (
        sockaddr_bytes pad call ++ more,
        copied_whole (sockaddr_bytes pad call) memory avail sockaddr_size
            (length-sockaddr_bytes pad call p) roomy,
        rw (shown, decode_back),
        rw shown,
      )

drop-copied :
    (n avail : ℕ) (image memory : Bytes)
    → n ≤ avail
    → n ≤ length image
    → n ≤ length memory
    → drop avail (take n image ++ drop n memory) ≡ drop avail memory
drop-copied zero avail image memory h i m = refl
drop-copied (suc n) zero image memory h i m = absurd (omega arith)
drop-copied (suc n) (suc avail) [] memory h i m = absurd (omega arith)
drop-copied (suc n) (suc avail) (x ∷ image) [] h i m = absurd (omega arith)
drop-copied (suc n) (suc avail) (x ∷ image) (y ∷ memory) h i m =
    drop-copied n avail image memory (omega arith) (omega arith) (omega arith)

-- What was written stays inside: the memory keeps its length, and the bytes behind `avail` are kept.
abbrev pub Inside : Bytes → ℕ → OutAddr → Type 0
Inside memory avail none = Unit
Inside memory avail (some (m, size)) =
    (length m ≡ length memory) × (drop avail m ≡ drop avail memory)

copied-Inside :
    (image memory : Bytes) (avail size : ℕ)
    → avail ≤ length memory
    → length image ≡ size
    → Inside memory avail (copy_out image size (some (memory, avail)))
copied-Inside image memory avail size h same = (
  omega (
    arith,
    length-append (take (min avail size) image) (drop (min avail size) memory),
    length-take (min avail size) image,
    length-drop (min avail size) memory,
  ),
  drop-copied (min avail size) avail image memory (omega arith) (omega arith) (omega arith),
)

-- Neither writer touches a byte behind the `*len` that the application gave, whatever the callsign.
pub write-Inside :
    (call pad memory : Bytes) (avail : ℕ)
    → length pad ≡ 3
    → avail ≤ length memory
    → Inside memory avail (write_call pad call (some (memory, avail)))
      × Inside memory avail (write_sockname call (some (memory, avail)))
unfolding write_call write_sockname
write-Inside call pad memory avail p h = (
  copied-Inside (sockaddr_bytes pad call) memory avail sockaddr_size h
      (length-sockaddr_bytes pad call p),
  copied-Inside (sockname_bytes call) memory avail full_size h (length-sockname_bytes call),
)
