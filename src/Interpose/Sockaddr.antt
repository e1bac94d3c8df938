-- ===== src/Interpose/Sockaddr.antt =====
-- crates/ax25-interpose/src/addr.rs: the callsigns in the socket addresses of the application. A
-- `sockaddr` is the fields of a `full_sockaddr_ax25`; how much of it is there is the length beside it.
-- `[c_char; 7]` is the `Address` of the callsign codec.
pub mod Writing
pub mod ReadBack
mod Tests
use pdn_libax.Prelude.{
  ℕ, zero, suc, ◌+◌, ◌-◌, ◌*◌, ◌/◌, ◌%◌, ◌^◌, ◌≤◌, ◌≡◌, refl, sym, ap, ◌∙◌, true, List, [], ◌∷◌,
  ◌++◌, append-nil, Option, none, some, arith, ltb, leb, ◌==◌, if◌then◌else◌, length, replicate,
  take, min, is_empty, All, Bytes, to_upper, decimal, done,
}
use pdn_libax.Callsign.{Address, encode_entry, decode_entry}
use pdn_libax.Callsign.Entry.{
  is_base_char, IsBase, shifted, entry, ssid_suffix, canonical, encode_canonical,
  decode_entry-entry,
}
use pdn_libax.Axports.{digits_value}

-- The same code as `decode_entry` of libax25.
abbrev pub decode : Address → Bytes
decode = decode_entry

-- `split_once('-')`
unfoldable pub split_once : Bytes → Bytes × Option Bytes
split_once [] = ([], none)
split_once (c ∷ s) =
    let (base, ssid) = split_once s in if c == b'-' then ([], some s) else (c ∷ base, ssid)

abbrev pub below_256 : Option ℕ → ℕ
below_256 none = 0
below_256 (some v) = if ltb v 256 then v else 0

-- The digits of `parse::<u8>().unwrap_or(0)`; an empty text is no number.
abbrev pub u8_digits : Bytes → ℕ
unfolding digits_value
u8_digits [] = 0
u8_digits (c ∷ s) = below_256 (digits_value 0 (c ∷ s))

unfoldable pub parse_u8 : Bytes → ℕ
unfolding u8_digits
parse_u8 [] = 0
parse_u8 (c ∷ s) = if c == b'+' then u8_digits s else u8_digits (c ∷ s)

abbrev pub ssid_of : Option Bytes → ℕ
unfolding parse_u8
ssid_of none = 0
ssid_of (some s) = parse_u8 s % 16

-- Six characters, with blanks behind a short base.
unfoldable pub fill_call : ℕ → Bytes → Bytes
fill_call zero s = []
fill_call (suc slots) [] = (b' ' * 2 % 256) ∷ fill_call slots []
fill_call (suc slots) (c ∷ s) = (to_upper c * 2 % 256) ∷ fill_call slots s

unfoldable pub encode : Bytes → Address
unfolding split_once ssid_of fill_call
encode call =
    let (base, ssid) = split_once call in
    record { call = fill_call 6 base; ssid = ssid_of ssid * 2 % 256 / 2 % 16 * 2 }

-- `struct full_sockaddr_ax25`; the count is the bit pattern of a `c_int`.
pub record Sockaddr : Type 0 where
  pub call : Address
  pub ndigis : ℕ
  pub digis : List Address

abbrev pub max_digis : ℕ
max_digis = 8

abbrev pub sockaddr_size : ℕ
sockaddr_size = 16

unfoldable pub read_call : Option Sockaddr → ℕ → Option Bytes
read_call none len = none
read_call (some sa) len = if ltb len (2 + 7) then none else some (decode sa.call)

abbrev pub keep_text : Bytes → List Bytes → List Bytes
keep_text s out = if is_empty s then out else s ∷ out

abbrev pub texts : List Address → List Bytes
texts [] = []
texts (a ∷ digis) = keep_text (decode a) (texts digis)

-- `ndigis.max(0)`
abbrev pub positive_part : ℕ → ℕ
positive_part n = if leb (2 ^ 31) n then 0 else n

abbrev pub digi_count : Sockaddr → ℕ → ℕ
digi_count sa len = min (min (positive_part sa.ndigis) ((len - sockaddr_size) / 7)) max_digis

unfoldable pub read_digipeaters : Option Sockaddr → ℕ → List Bytes
read_digipeaters none len = []
read_digipeaters (some sa) len =
    if ltb len sockaddr_size then [] else texts (take (digi_count sa len) sa.digis)

split_once-base :
    (base rest : Bytes)
    → All (λ c. is_base_char c ≡ true) base
    → split_once (base ++ rest) ≡ (base ++ (split_once rest).0, (split_once rest).1)
unfolding split_once
split_once-base [] rest all = refl
split_once-base (c ∷ base) rest all = ground (arith, split_once-base base rest all.1)

fill_call-blank : (slots : ℕ) → fill_call slots [] ≡ replicate slots 0x40
unfolding fill_call
fill_call-blank zero = refl
fill_call-blank (suc slots) = ap (◌∷◌ 0x40) (fill_call-blank slots)

fill_call-base :
    (slots : ℕ) (base : Bytes)
    → length base ≤ slots
    → All (λ c. is_base_char c ≡ true) base
    → fill_call slots base ≡ shifted base ++ replicate (slots - length (shifted base)) 0x40
unfolding fill_call
fill_call-base slots [] h all = fill_call-blank slots ∙ ap (λ n. replicate n 0x40) same
  where
    same : slots ≡ slots - 0
    same = omega arith
fill_call-base zero (c ∷ base) h all = absurd (omega arith)
fill_call-base (suc slots) (c ∷ base) h all =
    ground (arith, fill_call-base slots base (omega arith) all.1)

ssid_of-suffix :
    (ssid : ℕ)
    → ssid ≤ 15
    → ((split_once (ssid_suffix ssid)).0 ≡ [])
      × (ssid_of (split_once (ssid_suffix ssid)).1 * 2 % 256 / 2 % 16 * 2 ≡ ssid * 2)
unfolding split_once ssid_of decimal parse_u8 digits_value
ssid_of-suffix ssid h = ground arith

-- On a canonical callsign the codec of the interposer and that of libax25 give the same entry, and it
-- decodes to the callsign.
pub encode-encode_entry :
    (base : Bytes) (ssid : ℕ)
    → IsBase base
    → ssid ≤ 15
    → (encode_entry (canonical base ssid) ≡ done (some (encode (canonical base ssid))))
      × (decode (encode (canonical base ssid)) ≡ canonical base ssid)
unfolding encode
encode-encode_entry base ssid b h = (
  encode_canonical base ssid b h ∙ ap (λ a. done (some a)) (sym same),
  ap decode same ∙ decode_entry-entry base ssid b h,
)
  where
    same : encode (canonical base ssid) ≡ entry base ssid
    same =
        rw
          (
            encode,
            split_once-base base (ssid_suffix ssid) b.1,
            (ssid_of-suffix ssid h).0,
            (ssid_of-suffix ssid h).1,
            append-nil base,
            fill_call-base 6 base b.0 b.1,
          )
          refl
