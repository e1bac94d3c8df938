-- ===== src/Callsign/Memory.antt =====
-- An `ax25_address` (crates/libax25/src/addr.rs) in memory: seven bytes, the SSID behind the callsign.
use pdn_libax.Prelude.{
  ℕ, zero, suc, ◌<◌, All, arith, ap, ◌≡◌, refl, subst, [], ◌∷◌, ◌++◌, append_assoc, length, take,
  drop, take-length-append, drop-length-append, Bytes,
}
use pdn_libax.Callsign.{Address}

abbrev pub address_bytes : Address → Bytes
address_bytes a = a.call ++ a.ssid ∷ []

abbrev pub byte_at : Bytes → ℕ
byte_at [] = 0
byte_at (b ∷ m) = b

abbrev pub address_at : Bytes → Address
address_at m = record { call = take 6 m; ssid = byte_at (drop 6 m) }

pub take_exact : (n : ℕ) (s rest : Bytes) → length s ≡ n → take n (s ++ rest) ≡ s
take_exact n s rest h = subst (λ k. take k (s ++ rest) ≡ s) h (take-length-append s rest)

pub drop_exact : (n : ℕ) (s rest : Bytes) → length s ≡ n → drop n (s ++ rest) ≡ rest
drop_exact n s rest h = subst (λ k. drop k (s ++ rest) ≡ rest) h (drop-length-append s rest)

pub address_at-bytes :
    (a : Address) (rest : Bytes) → length a.call ≡ 6 → address_at (address_bytes a ++ rest) ≡ a
address_at-bytes a rest h = rw (
  append_assoc a.call (a.ssid ∷ []) rest,
  take_exact 6 a.call (a.ssid ∷ rest) h,
  drop_exact 6 a.call (a.ssid ∷ rest) h,
)

-- `CStr::from_ptr`: the bytes in front of the NUL.
abbrev pub c_string : Bytes → Bytes
c_string [] = []
c_string (zero ∷ m) = []
c_string (suc c ∷ m) = suc c ∷ c_string m

pub c_string-append : (s m : Bytes) → All (λ c. 0 < c) s → c_string (s ++ 0 ∷ m) ≡ s
c_string-append [] m all = refl
c_string-append (zero ∷ s) m all = absurd (omega (arith, all.0))
c_string-append (suc c ∷ s) m all = ap (◌∷◌ (suc c)) (c_string-append s m all.1)
