-- ===== src/Interpose/Outbound/Filler.antt =====
-- Gate filler and the requests to the node, over sequences of calls on the connect gates and the
-- outbound pump of crates/ax25-interpose/src/state.rs.
use pdn_libax.Prelude.{
  ℕ, ◌≡◌, refl, sym, ap, ◌∙◌, ◌⊎◌, inl, inr, Bool, true, false, ◌&&◌, List, [], ◌∷◌, ◌++◌, map,
  none, some, arith, ◌==◌, ==_iff, ==_refl, All, Bytes, lookup, insert, remove, lookup-insert,
  lookup-remove, replicate, Bool-cases,
}
use pdn_libax.Interpose.Outbound.{
  filler, written, Outbound, pieces_of, pipe, arm_connect_gate, flush, destroy, bypass,
}
use pdn_libax.Interpose.Outbound.Gating.{
  Call, is_written, registers, arms, resolves, flushes, sends, destroys, bypasses, clean, step,
  Absent, Allowed, IsGated, pipe-insert, clean-append, register-IsGated, flush-IsGated,
  send_ordered-IsGated, resolve-IsGated,
}

arm-IsGated :
    (h fd fill : ℕ) (s : Outbound)
    → lookup h s.gates ≡ none
    → Absent fd s.entries
    → IsGated s
    → IsGated (arm_connect_gate h fd fill s)
unfolding arm_connect_gate
arm-IsGated h fd fill s new_handle unregistered (gated, kept, sent) = (
  (λ k dirty. elim (Bool-cases (fd == k)) [
    | inl same ↦ (h, rw (lookup-insert h h fd s.gates, ==_refl h) (ap some ((==_iff fd k).0 same)))
    | inr other ↦ old k (gated k (sym (untouched k other) ∙ dirty))
  ]),
  (λ j k there. elim (Bool-cases (fd == k)) [
    | inl same ↦ absurd (unregistered j (there ∙ ap some (sym ((==_iff fd k).0 same))))
    | inr other ↦ untouched k other ∙ kept j k there
  ]),
  sent,
)
  where
    untouched :
        (k : ℕ)
        → (fd == k) ≡ false
        → clean (pieces_of (lookup k (insert fd (pipe fd s ++ replicate fill filler) s.pipes)))
          ≡ clean (pipe k s)
    untouched k other = rw (pipe-insert fd k (pipe fd s ++ replicate fill filler) s, other) refl

    old :
        (k : ℕ)
        → ((j : ℕ) × (lookup j s.gates ≡ some k))
        → (j : ℕ) × (lookup j (insert h fd s.gates) ≡ some k)
    old k (j, gate) = (
      j,
      elim (Bool-cases (h == j)) [
        | inl same ↦
            absurd (cc (sym new_handle ∙ ap (λ i. lookup i s.gates) ((==_iff h j).0 same) ∙ gate))
        | inr apart ↦ rw (lookup-insert h j fd s.gates, apart) gate
      ],
    )

bypass-IsGated : (fd : ℕ) (bytes : Bytes) (s : Outbound) → IsGated s → IsGated (bypass fd bytes s)
unfolding bypass
bypass-IsGated fd bytes s (gated, kept, sent) =
    ((λ k dirty. gated k (sym (same k) ∙ dirty)), (λ j k there. same k ∙ kept j k there), sent)
  where
    and_true : (b : Bool) → (b && true) ≡ b
    and_true b = ground arith

    same :
        (k : ℕ)
        → clean (pieces_of (lookup k (insert fd (pipe fd s ++ written bytes ∷ []) s.pipes)))
          ≡ clean (pipe k s)
    same k = elim (Bool-cases (fd == k)) [
      | inl eq ↦
          rw
            (
              pipe-insert fd k (pipe fd s ++ written bytes ∷ []) s,
              eq,
              clean-append (pipe fd s) (written bytes ∷ []),
            )
            (and_true (clean (pipe fd s)) ∙ ap (λ i. clean (pipe i s)) ((==_iff fd k).0 eq))
      | inr other ↦ rw (pipe-insert fd k (pipe fd s ++ written bytes ∷ []) s, other) refl
    ]

destroy-IsGated :
    (h fd : ℕ) (s : Outbound)
    → (lookup h s.gates ≡ none) ⊎ (lookup h s.gates ≡ some fd)
    → IsGated s
    → IsGated (destroy h fd s)
unfolding destroy
destroy-IsGated h fd s own (gated, kept, sent) = (
  (λ k dirty. elim (Bool-cases (fd == k)) [
    | inl same ↦ absurd (cc (sym (emptied k same) ∙ dirty))
    | inr other ↦ still k other (gated k (sym (untouched k other) ∙ dirty)) own
  ]),
  (λ j k there. elim (Bool-cases (fd == k)) [
    | inl same ↦ emptied k same
    | inr other ↦ untouched k other ∙ kept j k (was j k there)
  ]),
  sent,
)
  where
    emptied : (k : ℕ) → (fd == k) ≡ true → clean (pieces_of (lookup k (remove fd s.pipes))) ≡ true
    emptied k same = rw (lookup-remove fd k s.pipes, same) refl

    untouched :
        (k : ℕ)
        → (fd == k) ≡ false
        → clean (pieces_of (lookup k (remove fd s.pipes))) ≡ clean (pipe k s)
    untouched k other = rw (lookup-remove fd k s.pipes, other) refl

    was : (j k : ℕ) → lookup j (remove h s.entries) ≡ some k → lookup j s.entries ≡ some k
    was j k there = ground (arith, lookup-remove h j s.entries, there)

    foreign :
        (j k : ℕ)
        → (fd == k) ≡ false
        → (h == j) ≡ true
        → lookup j s.gates ≡ some k
        → ¬ ((lookup h s.gates ≡ none) ⊎ (lookup h s.gates ≡ some fd))
    foreign j k other same gate (inl free) =
        cc (sym free ∙ ap (λ i. lookup i s.gates) ((==_iff h j).0 same) ∙ gate)
    foreign j k other same gate (inr held) = cc (
      sym (==_refl fd),
      other,
      sym held ∙ ap (λ i. lookup i s.gates) ((==_iff h j).0 same) ∙ gate,
    )

    still :
        (k : ℕ)
        → (fd == k) ≡ false
        → ((j : ℕ) × (lookup j s.gates ≡ some k))
        → (lookup h s.gates ≡ none) ⊎ (lookup h s.gates ≡ some fd)
        → (j : ℕ) × (lookup j (remove h s.gates) ≡ some k)
    still k other (j, gate) own = (
      j,
      elim (Bool-cases (h == j)) [
        | inl same ↦ absurd (foreign j k other same gate own)
        | inr apart ↦ rw (lookup-remove h j s.gates, apart) gate
      ],
    )

step-IsGated : (c : Call) (s : Outbound) → Allowed c s → IsGated s → IsGated (step c s)
step-IsGated (registers h fd) s free ok =
    register-IsGated h fd s (ungated (Bool-cases (clean (pipe fd s)))) ok
  where
    ungated : (clean (pipe fd s) ≡ true) ⊎ (clean (pipe fd s) ≡ false) → clean (pipe fd s) ≡ true
    ungated (inl c) = c
    ungated (inr dirty) = absurd (free (ok.0 fd dirty).0 (ok.0 fd dirty).1)
step-IsGated (arms h fd fill) s (new_handle, unregistered) ok =
    arm-IsGated h fd fill s new_handle unregistered ok
step-IsGated (resolves h) s allowed ok = resolve-IsGated h s ok
step-IsGated (flushes h) s allowed ok = flush-IsGated h s ok
step-IsGated (sends h bytes) s allowed ok = send_ordered-IsGated h bytes s ok
step-IsGated (destroys h fd) s own ok = destroy-IsGated h fd s own ok
step-IsGated (bypasses fd bytes) s allowed ok = bypass-IsGated fd bytes s ok

abbrev pub run : List Call → Outbound → Outbound
run [] s = s
run (c ∷ cs) s = run cs (step c s)

abbrev pub AllAllowed : List Call → Outbound → Type 0
AllAllowed [] s = Unit
AllAllowed (c ∷ cs) s = Allowed c s × AllAllowed cs (step c s)

abbrev pub unused : Outbound
unused = record { entries = []; gates = []; pipes = []; wire = [] }

-- In any sequence of calls from the start in which an end is registered only while no gate holds it, a
-- gate is armed only for a handle that has none and on an end that is not registered, and a handle with a
-- gate is destroyed with the gate's own end, every request that was sent to the node carries bytes that the
-- application wrote, and no registered pair holds filler.
pub run-written :
    (cs : List Call)
    → AllAllowed cs unused
    → All (λ e. is_written e.1 ≡ true) (run cs unused).wire
      × ((h fd : ℕ)
          → lookup h (run cs unused).entries ≡ some fd
          → clean (pipe fd (run cs unused)) ≡ true)
run-written cs allowed = let (gated, kept, sent) = go cs unused allowed start in (sent, kept)
  where
    go : (cs : List Call) (s : Outbound) → AllAllowed cs s → IsGated s → IsGated (run cs s)
    go [] s allowed ok = ok
    go (c ∷ cs) s allowed ok = go cs (step c s) allowed.1 (step-IsGated c s allowed.0 ok)

    start : IsGated unused
    start =
        unfold lookup in ((λ fd dirty. absurd (cc dirty)), (λ h fd there. absurd (cc there)), tt)

-- If a gate is armed on an end that is registered for a handle, the pump's next flush of that handle
-- sends the filler to the node behind what lay in the pair.
pub flush-arm_connect_gate :
    (g h fd fill : ℕ) (s : Outbound)
    → lookup g s.entries ≡ some fd
    → (flush g (arm_connect_gate h fd fill s)).wire
      ≡ s.wire ++ map (λ p. (g, p)) (pipe fd s ++ replicate fill filler)
unfolding flush arm_connect_gate
flush-arm_connect_gate g h fd fill s found =
    rw (found, pipe-insert fd fd (pipe fd s ++ replicate fill filler) s, ==_refl fd) refl
