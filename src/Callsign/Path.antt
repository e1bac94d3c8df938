-- ===== src/Callsign/Path.antt =====
-- crates/libax25/src/addr.rs: `fill_sax` behind `ax25_aton` and `ax25_aton_arglist`, which place a
-- callsign and its digipeaters in a `full_sockaddr_ax25`. What was there is state: a call that fails
-- half way leaves the entries that it has written.
use pdn_libax.Prelude.{
  ℕ, zero, suc, ◌+◌, ◌-◌, ◌≤◌, ◌≡◌, refl, Bool, true, false, ◌||◌, ◌&&◌, List, [], ◌∷◌, ◌++◌, map,
  Option, some, none, arith, leb, ltb, ◌==◌, if◌then◌else◌, length, set, drop, is_empty, All, Bytes,
  codes, bytes_eq, to_lower, Outcome, done, panic, split_whitespace,
}
use pdn_libax.Callsign.{Address, encode_entry}

pub record FullSockaddr : Type 0 where
  pub family : ℕ
  pub call : Address
  pub ndigis : ℕ
  pub digipeater : List Address

abbrev pub af_ax25 : ℕ
af_ax25 = 3

abbrev pub ax25_max_digis : ℕ
ax25_max_digis = 8

-- `size_of::<FullSockaddrAx25>()`: 16 bytes of `SockaddrAx25` and 8 addresses of 7.
abbrev pub full_sockaddr_size : ℕ
full_sockaddr_size = 72

abbrev pub is_via : Bytes → Bool
is_via tok = bytes_eq (map to_lower tok) (codes "v") || bytes_eq (map to_lower tok) (codes "via")

-- The write of one round: the callsign first, then the digipeaters.
abbrev pub write_entry : ℕ → Address → FullSockaddr → FullSockaddr
write_entry zero e sax = record sax { call = e }
write_entry (suc di) e sax = record sax { digipeater = set sax.digipeater di e }

-- The loop, after `n` placements: the new `n`, or `none` where it returns -1.
unfoldable pub place : ℕ → List Bytes → FullSockaddr → Outcome (FullSockaddr × Option ℕ)
place n [] sax = done (sax, some n)
place n (tok ∷ tokens) sax =
    let skipped = place n tokens sax in
    let entered : Outcome (FullSockaddr × Option ℕ) = elim (encode_entry tok) [
      | panic ↦ panic
      | done none ↦ done (sax, none)
      | done (some e) ↦
          let sax' = write_entry n e sax in
          let more = place (suc n) tokens sax' in
          if n == 0
          then more
          else if leb ax25_max_digis (n - 1)
          then done (sax, some n)
          else if ltb ax25_max_digis (suc n)
          then done (sax', some (suc n))
          else more
    ] in
    if n == 1 && is_via tok then skipped else entered

abbrev pub finish : Outcome (FullSockaddr × Option ℕ) → Outcome (FullSockaddr × Option ℕ)
finish panic = panic
finish (done (sax, none)) = done (sax, none)
finish (done (sax, some n)) =
    done (record sax { ndigis = n - 1; family = af_ax25 }, some full_sockaddr_size)

-- The result is the C return value, with `none` for -1.
unfoldable pub fill_sax : List Bytes → FullSockaddr → Outcome (FullSockaddr × Option ℕ)
unfolding place
fill_sax tokens sax = finish (place 0 (if is_empty tokens then [] ∷ [] else tokens) sax)

-- The pointer is not null and the text is UTF-8: the other cases return -1 at once.
unfoldable pub ax25_aton : Bytes → FullSockaddr → Outcome (FullSockaddr × Option ℕ)
unfolding fill_sax split_whitespace
ax25_aton call sax = fill_sax (split_whitespace call) sax

-- `es` are the entries of the tokens, in order.
abbrev pub Encodes : List Bytes → List Address → Type 0
Encodes [] [] = Unit
Encodes [] (e ∷ es) = ⊥
Encodes (t ∷ ts) [] = ⊥
Encodes (t ∷ ts) (e ∷ es) = (encode_entry t ≡ done (some e)) × Encodes ts es

abbrev pub starts_with_via : List Bytes → Bool
starts_with_via [] = false
starts_with_via (t ∷ ts) = is_via t

put_all : ℕ → List Address → List Address → List Address
put_all i [] ds = ds
put_all i (e ∷ es) ds = put_all (suc i) es (set ds i e)

put_all-cons :
    (i : ℕ) (es : List Address) (d : Address) (ds : List Address)
    → put_all (suc i) es (d ∷ ds) ≡ d ∷ put_all i es ds
unfolding put_all
put_all-cons i [] d ds = refl
put_all-cons i (e ∷ es) d ds = put_all-cons (suc i) es d (set ds i e)

put_all-zero :
    (es ds : List Address) → length es ≤ length ds → put_all 0 es ds ≡ es ++ drop (length es) ds
unfolding put_all
put_all-zero [] ds h = refl
put_all-zero (e ∷ es) [] h = absurd (omega arith)
put_all-zero (e ∷ es) (d ∷ ds) h = rw (put_all-cons 0 es e ds, put_all-zero es ds (omega arith))

not_separator : (n : ℕ) (t : Bytes) → (n ≡ 0 → is_via t ≡ false) → (suc n == 1 && is_via t) ≡ false
not_separator zero t v = v refl
not_separator (suc n) t v = ground arith

-- One round that enters a digipeater and goes on.
place_step :
    (n : ℕ) (t : Bytes) (toks : List Bytes) (e : Address) (sax : FullSockaddr)
    → encode_entry t ≡ done (some e)
    → (suc n == 1 && is_via t) ≡ false
    → suc n ≤ 7
    → place (suc n) (t ∷ toks) sax
      ≡ place (suc (suc n)) toks (record sax { digipeater = set sax.digipeater n e })
unfolding place
place_step n t toks e sax p v h = rw (p, place, v) (ground arith)

place_last :
    (n : ℕ) (t : Bytes) (e : Address) (sax : FullSockaddr)
    → encode_entry t ≡ done (some e)
    → (suc n == 1 && is_via t) ≡ false
    → suc n ≤ 8
    → place (suc n) (t ∷ []) sax
      ≡ done (record sax { digipeater = set sax.digipeater n e }, some (suc (suc n)))
unfolding place
place_last n t e sax p v h = rw (p, place, v) (ground arith)

place-Encodes :
    (n : ℕ) (toks : List Bytes) (es : List Address) (sax : FullSockaddr)
    → Encodes toks es
    → suc n + length es ≤ 9
    → (n ≡ 0 → starts_with_via toks ≡ false)
    → place (suc n) toks sax
      ≡ done (record sax { digipeater = put_all n es sax.digipeater }, some (suc n + length es))
unfolding put_all
place-Encodes n [] [] sax enc h v = unfold place in ground arith
place-Encodes n [] (e ∷ es) sax enc h v = absurd enc
place-Encodes n (t ∷ toks) [] sax enc h v = absurd enc
place-Encodes n (t ∷ []) (e ∷ []) sax enc h v =
    rw (place_last n t e sax enc.0 (not_separator n t v) (omega arith)) (ground arith)
place-Encodes n (t ∷ []) (e ∷ e' ∷ es) sax enc h v = absurd enc.1
place-Encodes n (t ∷ t' ∷ toks) (e ∷ []) sax enc h v = absurd enc.1
place-Encodes n (t ∷ t' ∷ toks) (e ∷ e' ∷ es) sax enc h v =
    rw
      (
        place_step n t (t' ∷ toks) e sax enc.0 (not_separator n t v) (omega arith),
        place-Encodes (suc n) (t' ∷ toks) (e' ∷ es)
            (record sax { digipeater = set sax.digipeater n e }) enc.1 (omega arith)
            (λ z. absurd (omega arith)),
      )
      (ground arith)

place-vias :
    (vias toks : List Bytes) (sax : FullSockaddr)
    → All (λ t. is_via t ≡ true) vias
    → place 1 (vias ++ toks) sax ≡ place 1 toks sax
unfolding place
place-vias [] toks sax all = refl
place-vias (t ∷ vias) toks sax all = rw all.0 (place-vias vias toks sax all.1)

-- A callsign, any number of "V" or "VIA" separators, and up to eight digipeaters, the first of which
-- is not itself such a word: the callsign is written, the entries of the digipeaters replace the first
-- slots in order and leave the others, `ndigis` counts them, and the size of the structure is returned.
pub fill_sax-path :
    (call : Bytes) (e : Address) (vias toks : List Bytes) (es : List Address) (sax : FullSockaddr)
    → encode_entry call ≡ done (some e)
    → All (λ t. is_via t ≡ true) vias
    → Encodes toks es
    → starts_with_via toks ≡ false
    → length es ≤ 8
    → length sax.digipeater ≡ 8
    → fill_sax (call ∷ vias ++ toks) sax
      ≡ done (
        record {
          family = af_ax25;
          call = e;
          ndigis = length es;
          digipeater = es ++ drop (length es) sax.digipeater;
        },
        some full_sockaddr_size,
      )
unfolding fill_sax
fill_sax-path call e vias toks es sax p all enc v h eight =
    rw
      (
        p,
        place,
        place-vias vias toks (record sax { call = e }) all,
        place-Encodes 0 toks es (record sax { call = e }) enc (omega arith) (λ z. v),
        put_all-zero es sax.digipeater (omega arith),
      )
      (ground arith)
