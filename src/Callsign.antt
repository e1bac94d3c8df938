-- ===== src/Callsign.antt =====
-- crates/libax25/src/addr.rs, the pure core: a callsign ("M0LTE-1") and its 7-byte shifted form.
-- A `&str` is the list of its bytes. `[u8; 7]` is an `Address`: the six shifted characters
-- `call[0..6]` and the SSID byte `call[6]`. Arithmetic on `i64` wraps, as in the release profile.
pub mod Scan
pub mod Entry
pub mod RoundTrip
pub mod Accept
pub mod Compare
pub mod Panics
pub mod Path
pub mod Slots
pub mod Memory
pub mod Wrappers
mod Tests
use pdn_libax.Prelude.{
  ℕ, zero, suc, ◌+◌, ◌-◌, ◌*◌, ◌/◌, ◌%◌, ◌^◌, Bool, true, false, ◌||◌, ◌&&◌, not, List, [], ◌∷◌,
  ◌++◌, Option, none, some, ltb, leb, ◌==◌, if◌then◌else◌, length, replicate, Bytes, is_upper,
  is_digit, is_alnum, to_upper, i32_mod, i64_mod, decimal, Outcome, done, panic,
}

pub record Address : Type 0 where
  pub call : Bytes
  pub ssid : ℕ

-- The two loops of `encode_entry` over the callsign: read at most `slots` characters up to a dash,
-- each shifted left by one; `none` is an invalid symbol. The result has the unread text too.
unfoldable pub read_call : ℕ → Bytes → Option (Bytes × Bytes)
read_call zero s = some ([], s)
read_call (suc slots) [] = some ([], [])
read_call (suc slots) (b ∷ s) =
    let c = to_upper b in
    let rest = read_call slots s in
    if c == b'-'
    then some ([], b ∷ s)
    else if is_alnum c
    then elim rest [ none ↦ none | some (call, unread) ↦ some ((c * 2 % 256) ∷ call, unread) ]
    else none

-- `' ' << 1` in the positions that are left.
abbrev pub pad_call : Bytes → Bytes
pad_call call = call ++ replicate (6 - length call) (b' ' * 2 % 256)

unfoldable pub skip_blanks : Bytes → Bytes
skip_blanks [] = []
skip_blanks (c ∷ s) = if c == b' ' || c == b'\t' then skip_blanks s else c ∷ s

-- `val * 10 + digit` over the leading digits, in `i64`.
unfoldable pub scan_digits : ℕ → Bytes → ℕ
scan_digits val [] = val
scan_digits val (c ∷ s) =
    if is_digit c then scan_digits ((val * 10 + (c - b'0')) % i64_mod) s else val

-- The digits after the sign. The result is the bit pattern of the `i32`.
unfoldable pub scan_number : Bool → Bytes → Option ℕ
unfolding scan_digits
scan_number neg [] = none
scan_number neg (c ∷ s) =
    let val = scan_digits 0 (c ∷ s) % i32_mod in
    if is_digit c then some (if neg then (i32_mod - val) % i32_mod else val) else none

unfoldable pub scan_signed : Bytes → Option ℕ
unfolding scan_number
scan_signed [] = none
scan_signed (c ∷ s) =
    if c == b'+' || c == b'-' then scan_number (c == b'-') s else scan_number false (c ∷ s)

unfoldable pub scan_int : Bytes → Option ℕ
unfolding skip_blanks scan_signed
scan_int s = scan_signed (skip_blanks s)

-- Slicing a `&str` panics inside a character: at a UTF-8 continuation byte.
abbrev pub is_char_boundary : Bytes → Bool
is_char_boundary [] = true
is_char_boundary (b ∷ s) = ltb b 0x80 || leb 0xC0 b

-- `(0..=15).contains(&v)`, on the bit pattern.
abbrev pub in_range : Option ℕ → Option ℕ
in_range none = none
in_range (some v) = if leb v 15 then some v else none

-- The optional SSID: one byte is skipped, whatever it is.
unfoldable pub read_ssid : Bytes → Outcome (Option ℕ)
unfolding scan_int
read_ssid [] = done (some 0)
read_ssid (c ∷ s) = if is_char_boundary s then done (in_range (scan_int s)) else panic

-- `b & 0x1E`: bits 1 to 4.
abbrev pub ssid_bits : ℕ → ℕ
ssid_bits b = b / 2 % 16 * 2

abbrev pub seal : Bytes → Option ℕ → Option Address
seal call none = none
seal call (some ssid) = some (record { call = pad_call call; ssid = ssid_bits ((ssid + b'0') * 2) })

abbrev pub seal_outcome : Bytes → Outcome (Option ℕ) → Outcome (Option Address)
seal_outcome call (done r) = done (seal call r)
seal_outcome call panic = panic

unfoldable pub encode_entry : Bytes → Outcome (Option Address)
unfolding read_call read_ssid
encode_entry name = elim (read_call 6 name) [
  | none ↦ done none
  | some (call, rest) ↦ seal_outcome call (read_ssid rest)
]

-- `(b >> 1) & 0x7F`
abbrev pub unshift : ℕ → ℕ
unshift b = b / 2 % 128

unfoldable pub decode_call : Bytes → Bytes
decode_call [] = []
decode_call (b ∷ s) = if unshift b == b' ' then decode_call s else unshift b ∷ decode_call s

-- Nonzero SSID bits are printed behind a dash.
unfoldable pub decode_ssid : ℕ → Bytes
unfolding decimal
decode_ssid b = if ssid_bits b == 0 then [] else b'-' ∷ decimal (b / 2 % 16)

unfoldable pub decode_entry : Address → Bytes
unfolding decode_call decode_ssid
decode_entry a = decode_call a.call ++ decode_ssid a.ssid

-- `(a[i] & 0xFE) != (b[i] & 0xFE)` for some `i`
unfoldable pub calls_differ : Bytes → Bytes → Bool
calls_differ [] t = false
calls_differ (a ∷ s) [] = false
calls_differ (a ∷ s) (b ∷ t) = not (a / 2 * 2 == b / 2 * 2) || calls_differ s t

unfoldable pub cmp_entry : Address → Address → ℕ
unfolding calls_differ
cmp_entry a b =
    if calls_differ a.call b.call then 1 else if ssid_bits a.ssid == ssid_bits b.ssid then 0 else 2

abbrev pub is_call_char : ℕ → Bool
is_call_char c = is_upper c || is_digit c || c == b' '

unfoldable pub validate_call : Bytes → Bool
validate_call [] = true
validate_call (b ∷ s) = is_call_char (unshift b) && validate_call s

unfoldable pub validate_entry : Address → Bool
unfolding validate_call
validate_entry a = validate_call a.call

abbrev pub null_ax25_address : Address
null_ax25_address = record { call = 0x40 ∷ 0x40 ∷ 0x40 ∷ 0x40 ∷ 0x40 ∷ 0x40 ∷ []; ssid = 0x00 }
