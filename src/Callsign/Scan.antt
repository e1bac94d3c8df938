-- ===== src/Callsign/Scan.antt =====
-- What the SSID scanner makes of a string of digits: `scan_int` of crates/libax25/src/addr.rs.
use pdn_libax.Prelude.{
  ℕ, ◌+◌, ◌-◌, ◌*◌, ◌%◌, ◌≡◌, ◌≢◌, refl, true, [], ◌∷◌, ◌++◌, some, arith, All, Bytes, is_digit,
  i32_mod, i64_mod, done, none, leb, if◌then◌else◌,
}
use pdn_libax.Callsign.{scan_digits, scan_int, read_ssid, encode_entry}
use pdn_libax.Callsign.Entry.{IsBase, entry, read_call-append}

abbrev pub AreDigits : Bytes → Type 0
AreDigits = All (λ c. is_digit c ≡ true)

-- What the digits of a text add to the number in front of them, as a number without a bound.
abbrev pub value : ℕ → Bytes → ℕ
value front [] = front
value front (digit ∷ s) = value (front * 10 + (digit - b'0')) s

scan_digits-value :
    (s : Bytes) (val n : ℕ)
    → AreDigits s
    → val % i32_mod ≡ n % i32_mod
    → scan_digits val s % i32_mod ≡ value n s % i32_mod
unfolding scan_digits
scan_digits-value [] val n all h = h
scan_digits-value (c ∷ s) val n all h = ground (
  arith,
  scan_digits-value s ((val * 10 + (c - b'0')) % i64_mod) (n * 10 + (c - b'0')) all.1 (omega arith),
)

-- A string of digits is read as its value modulo 2^32: `val as i32` drops the high bits.
pub scan_int-digits : (s : Bytes) → s ≢ [] → AreDigits s → scan_int s ≡ some (value 0 s % i32_mod)
unfolding scan_int
scan_int-digits [] h all = absurd (h refl)
scan_int-digits (c ∷ s) h all = ground (arith, scan_digits-value (c ∷ s) 0 0 all refl)

-- After a callsign and a dash, a string of digits is accepted exactly when its value modulo 2^32 is
-- at most 15, and that remainder is the SSID of the entry.
pub encode-digits :
    (base s : Bytes)
    → IsBase base
    → s ≢ []
    → AreDigits s
    → encode_entry (base ++ b'-' ∷ s)
      ≡ done
          (if leb (value 0 s % i32_mod) 15 then some (entry base (value 0 s % i32_mod)) else none)
unfolding encode_entry read_ssid
encode-digits base [] b h all = absurd (h refl)
encode-digits base (c ∷ s) b h all =
    rw (read_call-append 6 base (b'-' ∷ c ∷ s) b.0 b.1 refl, encode_entry)
      (ground (arith, scan_int-digits (c ∷ s) h all))
