-- ===== src/Rose.antt =====
-- crates/libax25/src/stubs.rs: the ROSE addresses, ten decimal digits in five packed BCD bytes. A null
-- pointer is `none`, a C result of -1 is `none`, and `is_utf8` is the check of `CStr::to_str`.
mod Tests
use pdn_libax.Prelude.{
  ℕ, zero, suc, ◌+◌, ◌-◌, ◌*◌, ◌/◌, ◌%◌, ◌≤◌, ◌<◌, ◌≡◌, ◌↔◌, refl, ap, ◌∙◌, Bool, true, false, ◌&&◌,
  not, List, [], ◌∷◌, ◌++◌, Option, none, some, arith, if◌then◌else◌, ◌==◌, ltb, leb, length,
  length-append, drop, All, Bytes, is_digit, bytes_eq,
}
use pdn_libax.Callsign.Memory.{c_string, c_string-append}

unfoldable pub all_digits : Bytes → Bool
all_digits [] = true
all_digits (c ∷ s) = is_digit c && all_digits s

-- `(hi << 4) | lo`: a digit has no bit above the third, so that the halves do not overlap.
unfoldable pub pack : Bytes → Bytes
pack [] = []
pack (hi ∷ []) = []
pack (hi ∷ lo ∷ s) = ((hi - b'0') * 16 % 256 + (lo - b'0')) ∷ pack s

-- `b'0'.wrapping_add` of each half
unfoldable pub unpack : Bytes → Bytes
unpack [] = []
unpack (b ∷ s) = ((b'0' + b / 16 % 16) % 256) ∷ ((b'0' + b % 16) % 256) ∷ unpack s

-- The 12 bytes that `rose_ntoa` returns, before and after.
unfoldable pub rose_ntoa : Option Bytes → Bytes → Bytes
unfolding unpack
rose_ntoa none buf = 0 ∷ drop 1 buf
rose_ntoa (some a) buf = unpack a ++ 0 ∷ drop 11 buf

unfoldable pub bytes_differ : Bytes → Bytes → Bool
bytes_differ [] t = false
bytes_differ (a ∷ s) [] = false
bytes_differ (a ∷ s) (b ∷ t) = if a == b then bytes_differ s t else true

unfoldable pub rose_cmp : Option Bytes → Option Bytes → ℕ
unfolding bytes_differ
rose_cmp none b = 1
rose_cmp (some a) none = 1
rose_cmp (some a) (some b) = if bytes_differ a b then 1 else 0

module _ (is_utf8 : Bytes → Bool) where
  abbrev pub packed : Bytes → Bytes → Option ℕ × Option Bytes
  unfolding all_digits pack
  packed s buf =
      if is_utf8 s && length s == 10 && all_digits s
      then (some 0, some (pack s ++ drop 5 buf))
      else (none, some buf)

  unfoldable pub rose_aton : Option Bytes → Option Bytes → Option ℕ × Option Bytes
  unfolding packed
  rose_aton none buf = (none, buf)
  rose_aton (some addr) none = (none, none)
  rose_aton (some addr) (some buf) = packed (c_string addr) buf

unpack-pack : (n : ℕ) (s : Bytes) → length s ≡ n * 2 → all_digits s ≡ true → unpack (pack s) ≡ s
unfolding all_digits pack unpack
unpack-pack n [] h d = refl
unpack-pack n (hi ∷ []) h d = absurd (omega (arith, h))
unpack-pack zero (hi ∷ lo ∷ s) h d = absurd (omega (arith, h))
unpack-pack (suc n) (hi ∷ lo ∷ s) h d = ground (arith, unpack-pack n s (omega (arith, h)))

digits-visible : (s : Bytes) → all_digits s ≡ true → All (λ c. 0 < c) s
unfolding all_digits
digits-visible [] d = tt
digits-visible (c ∷ s) d = ground (arith, digits-visible s)

length-pack : (n : ℕ) (s : Bytes) → length s ≡ n * 2 → length (pack s) ≡ n
unfolding pack
length-pack n [] h = omega (arith, h)
length-pack n (hi ∷ []) h = absurd (omega (arith, h))
length-pack zero (hi ∷ lo ∷ s) h = absurd (omega (arith, h))
length-pack (suc n) (hi ∷ lo ∷ s) h = ap suc (length-pack n s (omega (arith, h)))

-- Ten digits as a C string that counts as UTF-8, with anything behind the NUL, are accepted by
-- `rose_aton`: it stores five bytes and leaves those behind them, and `rose_ntoa` prints what was stored
-- as the same digits, whatever was in its buffer.
pub rose_ntoa-aton :
    (is_utf8 : Bytes → Bool) (s behind buf out : Bytes)
    → is_utf8 s ≡ true
    → length s ≡ 10
    → all_digits s ≡ true
    → (stored : Bytes) × (rose_aton is_utf8 (some (s ++ 0 ∷ behind)) (some buf)
        ≡ (some 0, some (stored ++ drop 5 buf)))
      × (length stored ≡ 5)
      × (c_string (rose_ntoa (some stored) out) ≡ s)
unfolding rose_aton rose_ntoa
rose_ntoa-aton is_utf8 s behind buf out utf8 ten d =
    let visible = digits-visible s d in
    (
      pack s,
      rw (rose_aton, c_string-append s behind visible, utf8, ten, d) refl,
      length-pack 5 s ten,
      rw (unpack-pack 5 s ten d) (c_string-append s (drop 11 out) visible),
    )

bytes_differ_iff : (a b : Bytes) → length a ≡ length b → (bytes_differ a b ≡ false) ↔ (a ≡ b)
unfolding bytes_differ
bytes_differ_iff [] [] h = (λ e. refl, λ e. refl)
bytes_differ_iff [] (y ∷ b) h = absurd (omega (arith, h))
bytes_differ_iff (x ∷ a) [] h = absurd (omega (arith, h))
bytes_differ_iff (x ∷ a) (y ∷ b) h =
    let rest = bytes_differ_iff a b (omega (arith, h)) in
    (λ e. ground (arith, rest), λ e. ground (arith, rest))

-- On two addresses, `rose_cmp` returns 0 exactly if they are equal.
pub rose_cmp_iff : (a b : Bytes) → length a ≡ length b → (rose_cmp (some a) (some b) ≡ 0) ↔ (a ≡ b)
unfolding rose_cmp
rose_cmp_iff a b h =
    let differ = bytes_differ_iff a b h in
    (λ e. ground (arith, differ), λ e. ground (arith, differ))
