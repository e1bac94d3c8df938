-- ===== src/Callsign/Wrappers.antt =====
-- crates/libax25/src/addr.rs: the C functions over the callsign codec. Memory behind a pointer is a list of
-- bytes, and `none` a null pointer. A C result of -1 is `none`. `is_utf8` is the check of `CStr::to_str`.
use pdn_libax.Prelude.{
  ℕ, zero, suc, ◌-◌, replicate, ◌≤◌, ◌<◌, ◌≡◌, refl, ap, Bool, true, List, [], ◌∷◌, ◌++◌, Option,
  none, some, arith, if◌then◌else◌, length, length-append, take, drop, take_all, min, All,
  All-append, Bytes, to_upper, to_lower, Outcome, done, panic, decimal, codes,
}
use pdn_libax.Callsign.{Address, encode_entry, decode_entry, cmp_entry, validate_entry}
use pdn_libax.Callsign.Entry.{
  is_base_char, IsBase, canonical, ssid_suffix, entry, shifted, encode_canonical,
  decode_entry-entry,
}
use pdn_libax.Callsign.Accept.{length-shifted}
use pdn_libax.Callsign.Memory.{
  address_bytes, address_at, address_at-bytes, drop_exact, c_string, c_string-append,
}
use pdn_libax.Callsign.Path.{FullSockaddr, fill_sax}

abbrev pub entry_stored : Bytes → Outcome (Option Address) → Outcome (Option ℕ × Option Bytes)
entry_stored buf panic = panic
entry_stored buf (done none) = done (none, some buf)
entry_stored buf (done (some a)) = done (some 0, some (address_bytes a ++ drop 7 buf))

-- The 16 bytes that `ax25_ntoa` returns, before and after: at most 15 of the text, and a NUL.
unfoldable pub ax25_ntoa : Option Address → Bytes → Bytes
ax25_ntoa none buf = 0 ∷ drop 1 buf
ax25_ntoa (some a) buf =
    let text = decode_entry a in let n = min (length text) 15 in take n text ++ 0 ∷ drop (suc n) buf

unfoldable pub ax25_cmp : Option Address → Option Address → ℕ
ax25_cmp none b = 1
ax25_cmp (some a) none = 1
ax25_cmp (some a) (some b) = cmp_entry a b

unfoldable pub ax25_validate : Option Bytes → ℕ
ax25_validate none = 0
ax25_validate (some raw) = if validate_entry (address_at raw) then 1 else 0

-- The loops over a C string, in place: what lies behind the NUL is left.
unfoldable pub strupr : Bytes → Bytes
strupr [] = []
strupr (zero ∷ m) = zero ∷ m
strupr (suc c ∷ m) = to_upper (suc c) ∷ strupr m

unfoldable pub strlwr : Bytes → Bytes
strlwr [] = []
strlwr (zero ∷ m) = zero ∷ m
strlwr (suc c ∷ m) = to_lower (suc c) ∷ strlwr m

base-visible : (base : Bytes) → All (λ c. is_base_char c ≡ true) base → All (λ c. 0 < c) base
base-visible [] all = tt
base-visible (c ∷ base) all = (ground arith, base-visible base all.1)

suffix-visible :
    (ssid : ℕ) → ssid ≤ 15 → All (λ c. 0 < c) (ssid_suffix ssid) × (length (ssid_suffix ssid) ≤ 3)
unfolding decimal
suffix-visible ssid small = ground arith

length-replicate : (n c : ℕ) → length (replicate n c) ≡ n
length-replicate zero c = refl
length-replicate (suc n) c = ap suc (length-replicate n c)

length-entry : (base : Bytes) (ssid : ℕ) → length base ≤ 6 → length (entry base ssid).call ≡ 6
length-entry base ssid short =
    let size = length-shifted base in
    omega (
      arith,
      size,
      length-append (shifted base) (replicate (6 - length (shifted base)) 0x40),
      length-replicate (6 - length (shifted base)) 0x40,
    )

module _ (is_utf8 : Bytes → Bool) where
  -- The result and the seven bytes at `buf`.
  unfoldable pub ax25_aton_entry : Option Bytes → Option Bytes → Outcome (Option ℕ × Option Bytes)
  ax25_aton_entry none buf = done (none, buf)
  ax25_aton_entry (some name) none = done (none, none)
  ax25_aton_entry (some name) (some buf) =
      if is_utf8 (c_string name)
      then entry_stored buf (encode_entry (c_string name))
      else done (none, some buf)

  -- The arguments up to the null pointer, or none if one is no UTF-8.
  unfoldable pub arguments : List (Option Bytes) → Option (List Bytes)
  arguments [] = some []
  arguments (none ∷ rest) = some []
  arguments (some p ∷ rest) =
      let more = arguments rest in
      if is_utf8 (c_string p)
      then elim more [ none ↦ none | some tokens ↦ some (c_string p ∷ tokens) ]
      else none

  -- The pointers are not null: otherwise the result is -1 at once.
  unfoldable pub ax25_aton_arglist :
      List (Option Bytes) → FullSockaddr → Outcome (FullSockaddr × Option ℕ)
  unfolding arguments fill_sax
  ax25_aton_arglist call sax = elim (arguments call) [
    | none ↦ done (sax, none)
    | some tokens ↦ fill_sax tokens sax
  ]

  -- A canonical callsign as a C string, with anything behind its NUL, is accepted by `ax25_aton_entry`, if
  -- it counts as UTF-8, and `ax25_ntoa` gives the same C string for the bytes that were stored.
  pub ntoa-aton_entry :
      (base : Bytes) (ssid : ℕ) (behind buf out : Bytes)
      → IsBase base
      → ssid ≤ 15
      → is_utf8 (canonical base ssid) ≡ true
      → (stored : Bytes) × (ax25_aton_entry (some (canonical base ssid ++ 0 ∷ behind)) (some buf)
          ≡ done (some 0, some stored))
        × (drop 7 stored ≡ drop 7 buf)
        × (c_string (ax25_ntoa (some (address_at stored)) out) ≡ canonical base ssid)
  unfolding ax25_aton_entry ax25_ntoa
  ntoa-aton_entry base ssid behind buf out b small utf8 =
      let call = canonical base ssid in
      let a = entry base ssid in
      let (shown, brief) = suffix-visible ssid small in
      let visible = All-append _ base (ssid_suffix ssid) (base-visible base b.1) shown in
      let whole : length call ≤ min (length call) 15 =
        omega (arith, length-append base (ssid_suffix ssid), b.0, brief) in
      let name : c_string (call ++ 0 ∷ behind) ≡ call = c_string-append call behind visible in
      let size = length-entry base ssid b.0 in
      (
        address_bytes a ++ drop 7 buf,
        rw (ax25_aton_entry, name, utf8, encode_canonical base ssid b small),
        drop_exact 7 (address_bytes a) (drop 7 buf)
            (omega (arith, size, length-append a.call (a.ssid ∷ []))),
        rw
            (
              address_at-bytes a (drop 7 buf) size,
              decode_entry-entry base ssid b small,
              take_all (min (length call) 15) call whole,
            )
            (c_string-append call _ visible),
      )

-- The exported text, with its NUL byte.
abbrev pub libax25_version : Bytes
libax25_version = codes "pdn-libax25 0.1.0" ++ 0 ∷ []
