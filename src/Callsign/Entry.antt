-- ===== src/Callsign/Entry.antt =====
-- Canonical callsigns: the text of a base and an SSID, and the 7-byte entry that stands for it.
use pdn_libax.Prelude.{
  ℕ, zero, suc, ◌-◌, ◌*◌, ◌%◌, ◌≤◌, ◌≡◌, refl, Bool, true, ◌||◌, [], ◌∷◌, ◌++◌, map, append-nil,
  some, arith, ◌==◌, if◌then◌else◌, length, replicate, All, Bytes, is_upper, is_digit, decimal,
  done,
}
use pdn_libax.Callsign.{
  Address, read_call, pad_call, read_ssid, decode_call, decode_ssid, encode_entry, decode_entry,
}

-- The characters that a callsign is made of once it is in upper case.
abbrev pub is_base_char : ℕ → Bool
is_base_char c = is_upper c || is_digit c

abbrev pub IsBase : Bytes → Type 0
IsBase base = (length base ≤ 6) × All (λ c. is_base_char c ≡ true) base

abbrev pub ssid_suffix : ℕ → Bytes
ssid_suffix ssid = if ssid == 0 then [] else b'-' ∷ decimal ssid

-- The canonical text of a callsign: an SSID of 0 is not written.
abbrev pub canonical : Bytes → ℕ → Bytes
canonical base ssid = base ++ ssid_suffix ssid

abbrev pub shifted : Bytes → Bytes
shifted = map (λ c. c * 2 % 256)

abbrev pub entry : Bytes → ℕ → Address
entry base ssid = record { call = pad_call (shifted base); ssid = ssid * 2 }

-- A text at which the callsign loop stops.
abbrev pub stops : Bytes → Bool
stops [] = true
stops (c ∷ s) = c == b'-'

pub read_call-stops :
    (slots : ℕ) (rest : Bytes) → stops rest ≡ true → read_call slots rest ≡ some ([], rest)
unfolding read_call
read_call-stops zero rest h = refl
read_call-stops (suc slots) [] h = refl
read_call-stops (suc slots) (c ∷ rest) h = ground arith

pub read_call-append :
    (slots : ℕ) (base rest : Bytes)
    → length base ≤ slots
    → All (λ c. is_base_char c ≡ true) base
    → stops rest ≡ true
    → read_call slots (base ++ rest) ≡ some (shifted base, rest)
unfolding read_call
read_call-append slots [] rest h all st = read_call-stops slots rest st
read_call-append zero (c ∷ base) rest h all st = absurd (omega arith)
read_call-append (suc slots) (c ∷ base) rest h all st =
    ground (arith, read_call-append slots base rest (omega arith) all.1 st)

pub stops-suffix : (ssid : ℕ) → stops (ssid_suffix ssid) ≡ true
stops-suffix ssid = ground arith

pub read_ssid-suffix : (ssid : ℕ) → ssid ≤ 15 → read_ssid (ssid_suffix ssid) ≡ done (some ssid)
unfolding read_ssid decimal
read_ssid-suffix ssid h = ground arith

pub encode_canonical :
    (base : Bytes) (ssid : ℕ)
    → IsBase base
    → ssid ≤ 15
    → encode_entry (canonical base ssid) ≡ done (some (entry base ssid))
unfolding encode_entry
encode_canonical base ssid b h =
    rw
      (
        read_call-append 6 base (ssid_suffix ssid) b.0 b.1 (stops-suffix ssid),
        encode_entry,
        read_ssid-suffix ssid h,
      )
      (ground arith)

pub decode_call-spaces : (n : ℕ) → decode_call (replicate n 0x40) ≡ []
unfolding decode_call
decode_call-spaces zero = refl
decode_call-spaces (suc n) = decode_call-spaces n

pub decode_call-shifted :
    (base pad : Bytes)
    → All (λ c. is_base_char c ≡ true) base
    → decode_call (shifted base ++ pad) ≡ base ++ decode_call pad
unfolding decode_call
decode_call-shifted [] pad all = refl
decode_call-shifted (c ∷ base) pad all = ground (arith, decode_call-shifted base pad all.1)

pub decode_ssid-double : (ssid : ℕ) → ssid ≤ 15 → decode_ssid (ssid * 2) ≡ ssid_suffix ssid
unfolding decode_ssid decimal
decode_ssid-double ssid h = ground arith

pub decode_entry-entry :
    (base : Bytes) (ssid : ℕ)
    → IsBase base
    → ssid ≤ 15
    → decode_entry (entry base ssid) ≡ canonical base ssid
unfolding decode_entry
decode_entry-entry base ssid b h = rw (
  decode_call-shifted base (replicate (6 - length (shifted base)) 0x40) b.1,
  decode_call-spaces (6 - length (shifted base)),
  decode_ssid-double ssid h,
  append-nil base,
)
