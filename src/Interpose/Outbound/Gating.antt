-- ===== src/Interpose/Outbound/Gating.antt =====
-- The calls on the connect gates and the outbound pump of crates/ax25-interpose/src/state.rs, and what
-- they keep of where gate filler may be.
use pdn_libax.Prelude.{
  ℕ, ◌≡◌, ◌≢◌, refl, sym, ap, ◌∙◌, ◌⊎◌, inl, inr, Bool, true, false, ◌&&◌, List, [], ◌∷◌, ◌++◌, map,
  Option, none, some, arith, ◌==◌, ==_iff, ==_refl, if◌then◌else◌, All, All-append, Bytes, Table,
  lookup, insert, remove, lookup-insert, lookup-remove, Bool-cases, Option-cases, subst,
}
use pdn_libax.Interpose.Outbound.{
  Piece, filler, written, Outbound, pieces_of, pipe, or_insert, register, arm_connect_gate,
  resolve_gate, resolve_connect_gate, drain_locked, flush_entry, flush, send_ordered, destroy,
  bypass,
}

abbrev pub is_written : Piece → Bool
is_written filler = false
is_written (written bytes) = true

abbrev pub clean : List Piece → Bool
clean [] = true
clean (p ∷ ps) = is_written p && clean ps

pub data Call : Type 0 where
  registers : ℕ → ℕ → Call
  arms : ℕ → ℕ → ℕ → Call
  resolves : ℕ → Call
  flushes : ℕ → Call
  sends : ℕ → Bytes → Call
  destroys : ℕ → ℕ → Call
  bypasses : ℕ → Bytes → Call

abbrev pub step : Call → Outbound → Outbound
step (registers h fd) s = register h fd s
step (arms h fd fill) s = arm_connect_gate h fd fill s
step (resolves h) s = resolve_connect_gate h s
step (flushes h) s = flush h s
step (sends h bytes) s = send_ordered h bytes s
step (destroys h fd) s = destroy h fd s
step (bypasses fd bytes) s = bypass fd bytes s

abbrev pub Absent : ℕ → Table ℕ → Type 0
Absent fd m = (h : ℕ) → lookup h m ≢ some fd

-- Calls that keep filler apart: an end is registered only while no gate holds it, a gate is armed only for a
-- handle that has none and on an end that is not registered, and a handle with a gate is destroyed with
-- the gate's own end. `connect` does not check that the end is not registered: a second `connect` on a
-- connected descriptor arms a gate that is not allowed here.
abbrev pub Allowed : Call → Outbound → Type 0
Allowed (registers h fd) s = Absent fd s.gates
Allowed (arms h fd fill) s = (lookup h s.gates ≡ none) × Absent fd s.entries
Allowed (resolves h) s = Unit
Allowed (flushes h) s = Unit
Allowed (sends h bytes) s = Unit
Allowed (destroys h fd) s = (lookup h s.gates ≡ none) ⊎ (lookup h s.gates ≡ some fd)
Allowed (bypasses fd bytes) s = Unit

-- A pair with filler has its gate, no registered pair has filler, and none was sent.
abbrev pub IsGated : Outbound → Type 0
IsGated s =
    ((fd : ℕ) → clean (pipe fd s) ≡ false → (h : ℕ) × (lookup h s.gates ≡ some fd))
    × ((h fd : ℕ) → lookup h s.entries ≡ some fd → clean (pipe fd s) ≡ true)
    × All (λ e. is_written e.1 ≡ true) s.wire

pub pipe-insert :
    (fd k : ℕ) (ps : List Piece) (s : Outbound)
    → pieces_of (lookup k (insert fd ps s.pipes)) ≡ (if fd == k then ps else pipe k s)
pipe-insert fd k ps s = elim (Bool-cases (fd == k)) [
  | inl same ↦ rw (lookup-insert fd k ps s.pipes, same) refl
  | inr other ↦ rw (lookup-insert fd k ps s.pipes, other) refl
]

pub clean-append : (ps qs : List Piece) → clean (ps ++ qs) ≡ (clean ps && clean qs)
clean-append [] qs = refl
clean-append (p ∷ ps) qs = ground (arith, clean-append ps qs)

pub or_insert-lookup :
    (h fd k v : ℕ) (m : Table ℕ)
    → lookup k (or_insert h fd (lookup h m) m) ≡ some v
    → (lookup k m ≡ some v) ⊎ (v ≡ fd)
or_insert-lookup h fd k v m found = elim (Option-cases (lookup h m)) [
  | inl absent ↦ elim (Bool-cases (h == k)) [
    | inl same ↦
        inr
          (sym (some_eq fd v (sym (rw (lookup-insert h k fd m, same) refl) ∙ (rw absent at found))))
    | inr other ↦ inl (sym (rw (lookup-insert h k fd m, other) refl) ∙ (rw absent at found))
  ]
  | inr (w, there) ↦ inl (rw there at found)
]
  where
    some_eq : (a b : ℕ) → some a ≡ some b → a ≡ b
    some_eq a b e = cc e

pub clean-wire :
    (h : ℕ) (ps : List Piece)
    → clean ps ≡ true
    → All {A = ℕ × Piece} (λ e. is_written e.1 ≡ true) (map (λ p. (h, p)) ps)
clean-wire h [] c = tt
clean-wire h (filler ∷ ps) c = absurd (cc c)
clean-wire h (written bytes ∷ ps) c = (refl, clean-wire h ps c)

pub register-IsGated :
    (h fd : ℕ) (s : Outbound) → clean (pipe fd s) ≡ true → IsGated s → IsGated (register h fd s)
unfolding register
register-IsGated h fd s c (gated, kept, sent) = (
  gated,
  (λ k v found. elim (or_insert-lookup h fd k v s.entries found) [
    | inl old ↦ kept k v old
    | inr new ↦ subst (λ x. clean (pipe x s) ≡ true) (sym new) c
  ]),
  sent,
)

pub clean-refilled :
    (fd k : ℕ) (ps : List Piece) (s : Outbound)
    → clean (pieces_of (lookup k (insert fd ps s.pipes)))
      ≡ (if fd == k then clean ps else clean (pipe k s))
clean-refilled fd k ps s =
    rw (pipe-insert fd k ps s)
      (elim (Bool-cases (fd == k)) [ inl same ↦ rw same refl | inr other ↦ rw other refl ])

pub clean_or :
    (fd k : ℕ) (ps : List Piece) (s : Outbound)
    → clean ps ≡ true
    → clean (pipe k s) ≡ true
    → clean (pieces_of (lookup k (insert fd ps s.pipes))) ≡ true
clean_or fd k ps s c old = ground (arith, clean-refilled fd k ps s, c, old)

pub unclean_and :
    (fd k : ℕ) (ps : List Piece) (s : Outbound)
    → clean ps ≡ true
    → clean (pieces_of (lookup k (insert fd ps s.pipes))) ≡ false
    → (clean (pipe k s) ≡ false) × ((fd == k) ≡ false)
unclean_and fd k ps s c new = ground (arith, clean-refilled fd k ps s, c, new)

pub drained-IsGated :
    (h fd : ℕ) (s : Outbound)
    → lookup h s.entries ≡ some fd
    → IsGated s
    → IsGated (drain_locked h fd s)
unfolding drain_locked
drained-IsGated h fd s found (gated, kept, sent) = (
  (λ k new. gated k (unclean_and fd k [] s refl new).0),
  (λ j k there. clean_or fd k [] s refl (kept j k there)),
  All-append (λ e. is_written e.1 ≡ true) s.wire (map (λ p. (h, p)) (pipe fd s)) sent
      (clean-wire h (pipe fd s) (kept h fd found)),
)

pub flush-IsGated : (h : ℕ) (s : Outbound) → IsGated s → IsGated (flush h s)
unfolding flush
flush-IsGated h s ok = by_entry (lookup h s.entries) refl
  where
    by_entry : (o : Option ℕ) → lookup h s.entries ≡ o → IsGated (flush_entry h o s)
    by_entry none found = ok
    by_entry (some fd) found = drained-IsGated h fd s found ok

pub send_ordered-IsGated :
    (h : ℕ) (bytes : Bytes) (s : Outbound) → IsGated s → IsGated (send_ordered h bytes s)
unfolding send_ordered
send_ordered-IsGated h bytes s ok =
    let (gated, kept, sent) = flush-IsGated h s ok in
    (
      gated,
      kept,
      All-append (λ e. is_written e.1 ≡ true) (flush h s).wire ((h, written bytes) ∷ []) sent
          (refl, tt),
    )

pub clean_same :
    (fd : ℕ) (s : Outbound) → clean (pieces_of (lookup fd (insert fd [] s.pipes))) ≡ true
clean_same fd s = rw (pipe-insert fd fd [] s, ==_refl fd) refl

pub resolved-IsGated :
    (h fd : ℕ) (s : Outbound)
    → lookup h s.gates ≡ some fd
    → IsGated s
    → IsGated (record s { gates = remove h s.gates; pipes = insert fd [] s.pipes })
resolved-IsGated h fd s found (gated, kept, sent) = (
  (λ k new. still k (unclean_and fd k [] s refl new)),
  (λ j k there. clean_or fd k [] s refl (kept j k there)),
  sent,
)
  where
    clash : (k j : ℕ) → (fd == k) ≡ false → (h == j) ≡ true → lookup j s.gates ≡ some k → ⊥
    clash k j other same gate =
        let eqj = (==_iff h j).0 same in
        absurd (cc (sym (==_refl fd), other, sym found ∙ ap (λ i. lookup i s.gates) eqj ∙ gate))

    still :
        (k : ℕ)
        → (clean (pipe k s) ≡ false) × ((fd == k) ≡ false)
        → (j : ℕ) × (lookup j (remove h s.gates) ≡ some k)
    still k (dirty, other) =
        let (j, gate) = gated k dirty in
        (
          j,
          elim (Bool-cases (h == j)) [
            | inl same ↦ absurd (clash k j other same gate)
            | inr apart ↦ rw (lookup-remove h j s.gates, apart) gate
          ],
        )

pub resolve-IsGated : (h : ℕ) (s : Outbound) → IsGated s → IsGated (resolve_connect_gate h s)
unfolding resolve_connect_gate
resolve-IsGated h s ok = by_gate (lookup h s.gates) refl
  where
    by_gate : (o : Option ℕ) → lookup h s.gates ≡ o → IsGated (resolve_gate h o s)
    by_gate none found = ok
    by_gate (some fd) found =
        register-IsGated h fd (record s { gates = remove h s.gates; pipes = insert fd [] s.pipes })
          (clean_same fd s) (resolved-IsGated h fd s found ok)
