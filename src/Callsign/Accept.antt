-- ===== src/Callsign/Accept.antt =====
-- What `encode_entry` of crates/libax25/src/addr.rs accepts, and what its results look like.
use pdn_libax.Prelude.{
  ℕ, zero, suc, ◌-◌, ◌*◌, ◌%◌, ◌<◌, ◌≤◌, ◌≡◌, refl, ap, inl, inr, true, [], ◌∷◌, ◌++◌, Option, some,
  none, Option-cases, Bool-cases, arith, length, length-append, replicate, All, All-append, Bytes,
  is_alnum, to_upper, Outcome, done, panic, ◌==◌,
}
use pdn_libax.Callsign.{
  Address, read_call, read_ssid, in_range, scan_int, seal_outcome, encode_entry, decode_entry,
  validate_call, validate_entry,
}
use pdn_libax.Callsign.Entry.{
  is_base_char, IsBase, shifted, entry, encode_canonical, decode_entry-entry,
}

abbrev Reads : ℕ → Bytes → Type 0
Reads slots call =
    (base : Bytes) × (length base ≤ slots)
    × All (λ c. is_base_char c ≡ true) base
    × (call ≡ shifted base)

Reads-cons :
    (slots : ℕ) (c : ℕ) (call : Bytes)
    → is_alnum (to_upper c) ≡ true
    → Reads slots call
    → Reads (suc slots) ((to_upper c * 2 % 256) ∷ call)
Reads-cons slots c call h (base, short, all, e) =
    (to_upper c ∷ base, omega arith, (ground arith, all), ap (◌∷◌ (to_upper c * 2 % 256)) e)

-- What the callsign loop has read is a shifted base.
read_call-Reads :
    (slots : ℕ) (s : Bytes) (call rest : Bytes)
    → read_call slots s ≡ some (call, rest)
    → Reads slots call
unfolding read_call
read_call-Reads zero s call rest e = ([], omega arith, tt, ground arith)
read_call-Reads (suc slots) [] call rest e = ([], omega arith, tt, ground arith)
read_call-Reads (suc slots) (b ∷ s) call rest e = elim (Bool-cases (to_upper b == b'-')) [
  | inl dash ↦ ([], omega arith, tt, ground arith)
  | inr other ↦ elim (Bool-cases (is_alnum (to_upper b))) [
    | inr symbol ↦ absurd (ground arith)
    | inl good ↦ elim (Option-cases (read_call slots s)) [
      | inl e' ↦ absurd (ground arith)
      | inr ((call', rest'), e') ↦
          let same : call ≡ (to_upper b * 2 % 256) ∷ call' = ground arith in
          rw same (Reads-cons slots b call' good (read_call-Reads slots s call' rest' e'))
    ]
  ]
]

in_range-le : (v : Option ℕ) (ssid : ℕ) → in_range v ≡ some ssid → ssid ≤ 15
in_range-le none ssid e = absurd (ground arith)
in_range-le (some v) ssid e = ground arith

read_ssid-le : (s : Bytes) (ssid : ℕ) → read_ssid s ≡ done (some ssid) → ssid ≤ 15
unfolding read_ssid
read_ssid-le [] ssid e = ground arith
read_ssid-le (c ∷ s) ssid e = ground (arith, in_range-le (scan_int s) ssid)

-- An accepted text yields the entry of some base and some SSID up to 15.
abbrev pub IsEntry : Address → Type 0
IsEntry a = (base : Bytes) × (ssid : ℕ) × IsBase base × (ssid ≤ 15) × (a ≡ entry base ssid)

seal_outcome-IsEntry :
    (call : Bytes) (r : Outcome (Option ℕ)) (a : Address)
    → Reads 6 call
    → ((ssid : ℕ) → r ≡ done (some ssid) → ssid ≤ 15)
    → seal_outcome call r ≡ done (some a)
    → IsEntry a
seal_outcome-IsEntry call panic a w small e = cc
seal_outcome-IsEntry call (done none) a w small e = absurd (ground arith)
seal_outcome-IsEntry call (done (some ssid)) a (base, short, all, e') small e =
    let bound : ssid ≤ 15 = small ssid refl in (base, ssid, (short, all), bound, ground arith)

pub encode_entry-IsEntry : (s : Bytes) (a : Address) → encode_entry s ≡ done (some a) → IsEntry a
unfolding encode_entry
encode_entry-IsEntry s a e = elim (Option-cases (read_call 6 s)) [
  | inl e' ↦ absurd (ground arith)
  | inr ((call, rest), e') ↦
      seal_outcome-IsEntry call (read_ssid rest) a (read_call-Reads 6 s call rest e')
        (read_ssid-le rest) (rw (e', encode_entry) at e)
]

-- Decoding an accepted entry gives a text that encodes to the same entry, whatever text it came from.
pub encode-decode :
    (s : Bytes) (a : Address)
    → encode_entry s ≡ done (some a)
    → encode_entry (decode_entry a) ≡ done (some a)
encode-decode s a e =
    let (base, ssid, b, h, same) = encode_entry-IsEntry s a e in
    rw (same, decode_entry-entry base ssid b h) (encode_canonical base ssid b h)

validate_call-spaces : (n : ℕ) → validate_call (replicate n 0x40) ≡ true
unfolding validate_call
validate_call-spaces zero = refl
validate_call-spaces (suc n) = validate_call-spaces n

validate_call-shifted :
    (base pad : Bytes)
    → All (λ c. is_base_char c ≡ true) base
    → validate_call pad ≡ true
    → validate_call (shifted base ++ pad) ≡ true
unfolding validate_call
validate_call-shifted [] pad all h = h
validate_call-shifted (c ∷ base) pad all h = ground (arith, validate_call-shifted base pad all.1 h)

-- Whatever `encode_entry` accepts, `validate_entry` accepts the result.
pub validate-encode :
    (s : Bytes) (a : Address) → encode_entry s ≡ done (some a) → validate_entry a ≡ true
unfolding validate_entry
validate-encode s a e =
    let (base, ssid, b, h, same) = encode_entry-IsEntry s a e in
    rw (ap (λ (x : Address). x.call) same) (
      validate_call-shifted base (replicate (6 - length (shifted base)) 0x40) b.1
        (validate_call-spaces (6 - length (shifted base))))

-- Six call bytes and an SSID byte whose low bits are clear.
pub record IsWire (a : Address) : Type 0 where
  pub six : length a.call ≡ 6
  pub clear : All (λ b. (b < 256) × (b % 2 ≡ 0)) a.call
  pub ssid_small : a.ssid ≤ 30
  pub ssid_clear : a.ssid % 2 ≡ 0

clear-spaces : (n : ℕ) → All (λ b. (b < 256) × (b % 2 ≡ 0)) (replicate n 0x40)
clear-spaces zero = tt
clear-spaces (suc n) = (omega arith, clear-spaces n)

clear-shifted : (base : Bytes) → All (λ b. (b < 256) × (b % 2 ≡ 0)) (shifted base)
clear-shifted [] = tt
clear-shifted (c ∷ base) = (omega arith, clear-shifted base)

pub length-shifted : (base : Bytes) → length (shifted base) ≡ length base
length-shifted [] = refl
length-shifted (c ∷ base) = ap suc (length-shifted base)

length-spaces : (n : ℕ) → length {A = ℕ} (replicate n 0x40) ≡ n
length-spaces zero = refl
length-spaces (suc n) = ap suc (length-spaces n)

IsEntry-IsWire : (a : Address) → IsEntry a → IsWire a
IsEntry-IsWire a (base, ssid, (short, all), h, same) = rw same (record {
  six = omega (
    arith,
    length-append (shifted base) (replicate (6 - length (shifted base)) 0x40),
    length-spaces (6 - length (shifted base)),
    length-shifted base,
  );
  clear =
      All-append _ (shifted base) (replicate (6 - length (shifted base)) 0x40) (clear-shifted base)
        (clear-spaces (6 - length (shifted base)));
  ssid_small = omega arith;
  ssid_clear = omega arith;
})

-- Every accepted callsign has exactly six call bytes, each below 256 with its low bit clear, and an
-- SSID byte of at most 30 with its low bit clear.
pub encode_entry-IsWire : (s : Bytes) (a : Address) → encode_entry s ≡ done (some a) → IsWire a
encode_entry-IsWire s a e = IsEntry-IsWire a (encode_entry-IsEntry s a e)
