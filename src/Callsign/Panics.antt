-- ===== src/Callsign/Panics.antt =====
-- Where `encode_entry` of crates/libax25/src/addr.rs panics: the slice behind the skipped byte.
use pdn_libax.Prelude.{
  ℕ, zero, suc, ◌*◌, ◌%◌, ◌<◌, ◌≡◌, ◌≢◌, refl, false, true, [], ◌∷◌, ◌++◌, map, some, arith, length,
  All, Bytes, is_alnum, to_upper, panic, inl, inr, Option-cases, Bool-cases, subst, ◌==◌,
}
use pdn_libax.Callsign.{read_call, read_ssid, seal_outcome, is_char_boundary, encode_entry}

read_call-full :
    (call rest : Bytes)
    → All (λ c. is_alnum c ≡ true) call
    → read_call (length call) (call ++ rest) ≡ some (map (λ c. to_upper c * 2 % 256) call, rest)
unfolding read_call
read_call-full [] rest all = refl
read_call-full (c ∷ call) rest all = ground (arith, read_call-full call rest all.1)

-- Six letters or digits, any seventh byte, and then a byte inside a UTF-8 character: every such name
-- panics, instead of being refused.
pub encode_panics :
    (call rest : Bytes) (c : ℕ)
    → length call ≡ 6
    → All (λ c. is_alnum c ≡ true) call
    → is_char_boundary rest ≡ false
    → encode_entry (call ++ c ∷ rest) ≡ panic
unfolding encode_entry read_ssid
encode_panics call rest c six all inside =
    rw
      (
        subst
            (λ n.
              read_call n (call ++ c ∷ rest)
              ≡ some (map (λ c. to_upper c * 2 % 256) call, c ∷ rest))
            six (read_call-full call (c ∷ rest) all),
        encode_entry,
      )
      (ground arith)

read_call-All :
    (P : ℕ → Type 0) (slots : ℕ) (s call rest : Bytes)
    → All P s
    → read_call slots s ≡ some (call, rest)
    → All P rest
unfolding read_call
read_call-All P zero s call rest all e = subst (All P) (ground arith) all
read_call-All P (suc slots) [] call rest all e = let same : rest ≡ [] = ground arith in rw same tt
read_call-All P (suc slots) (c ∷ s) call rest all e = elim (Bool-cases (to_upper c == b'-')) [
  | inl dash ↦ let same : c ∷ s ≡ rest = ground arith in subst (All P) same all
  | inr other ↦ elim (Option-cases (read_call slots s)) [
    | inl e' ↦ absurd (ground arith)
    | inr ((call', rest'), e') ↦
        let same : rest' ≡ rest = ground arith in
        subst (All P) same (read_call-All P slots s call' rest' all.1 e')
  ]
]

seal-ne-panic :
    (call rest : Bytes) → All (λ c. c < 0x80) rest → seal_outcome call (read_ssid rest) ≢ panic
unfolding read_ssid
seal-ne-panic call [] all e = cc
seal-ne-panic call (c ∷ []) all e = cc
seal-ne-panic call (c ∷ d ∷ rest) all e = ground arith

-- No name of plain ASCII panics.
pub encode-ascii : (s : Bytes) → All (λ c. c < 0x80) s → encode_entry s ≢ panic
unfolding encode_entry
encode-ascii s all e = elim (Option-cases (read_call 6 s)) [
  | inl e' ↦ ground arith
  | inr ((call, rest), e') ↦
      seal-ne-panic call rest (read_call-All _ 6 s call rest all e') (rw (e', encode_entry) at e)
]
