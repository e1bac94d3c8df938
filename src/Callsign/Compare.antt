-- ===== src/Callsign/Compare.antt =====
-- `cmp_entry` of crates/libax25/src/addr.rs on accepted callsigns.
use pdn_libax.Prelude.{
  ◌%◌, ◌<◌, ◌≡◌, ◌≢◌, ◌↔◌, refl, ap, false, [], ◌∷◌, some, arith, length, All, Bytes, done,
}
use pdn_libax.Callsign.{Address, encode_entry, decode_entry, calls_differ, cmp_entry}
use pdn_libax.Callsign.Accept.{IsWire, encode_entry-IsWire, encode-decode}

calls_differ_refl : (s : Bytes) → calls_differ s s ≡ false
unfolding calls_differ
calls_differ_refl [] = refl
calls_differ_refl (b ∷ s) = ground (arith, calls_differ_refl s)

calls_differ_sound :
    (s t : Bytes)
    → length s ≡ length t
    → All (λ b. (b < 256) × (b % 2 ≡ 0)) s
    → All (λ b. (b < 256) × (b % 2 ≡ 0)) t
    → calls_differ s t ≡ false
    → s ≡ t
unfolding calls_differ
calls_differ_sound [] [] n p q h = refl
calls_differ_sound [] (b ∷ t) n p q h = absurd (omega arith)
calls_differ_sound (a ∷ s) [] n p q h = absurd (omega arith)
calls_differ_sound (a ∷ s) (b ∷ t) n p q h =
    ground (arith, calls_differ_sound s t (omega arith) p.1 q.1)

cmp-same : (a b : Address) → a ≡ b → cmp_entry a b ≡ 0
unfolding cmp_entry
cmp-same a b e = rw e (ground (arith, calls_differ_refl b.call))

cmp-zero : (a b : Address) → IsWire a → IsWire b → cmp_entry a b ≡ 0 → a ≡ b
unfolding cmp_entry
cmp-zero a b p q h = ground (arith, calls_differ_sound a.call b.call (omega arith) p.clear q.clear)

cmp-two :
    (a b : Address)
    → IsWire a
    → IsWire b
    → (cmp_entry a b ≡ 2) ↔ ((a.call ≡ b.call) × (a.ssid ≢ b.ssid))
unfolding cmp_entry
cmp-two a b p q = (
  λ h. ground (arith, calls_differ_sound a.call b.call (omega arith) p.clear q.clear),
  λ (same, other). rw same (ground (arith, calls_differ_refl b.call)),
)

-- Accepted callsigns that print the same text are the same.
decode_entry-injective :
    (s t : Bytes) (a b : Address)
    → encode_entry s ≡ done (some a)
    → encode_entry t ≡ done (some b)
    → decode_entry a ≡ decode_entry b
    → a ≡ b
decode_entry-injective s t a b p q h =
    cc (encode-decode s a p, encode-decode t b q, ap encode_entry h)

-- For two accepted callsigns, `cmp_entry` reports 0 exactly when both print the same text, and 2
-- exactly when their calls are equal and their SSIDs differ.
pub cmp-encode :
    (s t : Bytes) (a b : Address)
    → encode_entry s ≡ done (some a)
    → encode_entry t ≡ done (some b)
    → ((cmp_entry a b ≡ 0) ↔ (decode_entry a ≡ decode_entry b))
      × ((cmp_entry a b ≡ 2) ↔ ((a.call ≡ b.call) × (a.ssid ≢ b.ssid)))
cmp-encode s t a b p q =
    let v = encode_entry-IsWire s a p in
    let w = encode_entry-IsWire t b q in
    (
      (
        λ h. ap decode_entry (cmp-zero a b v w h),
        λ h. cmp-same a b (decode_entry-injective s t a b p q h),
      ),
      cmp-two a b v w,
    )
