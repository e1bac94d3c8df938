-- ===== src/Interpose/Outbound/Tests.antt =====
-- The theorems on the outbound pump at a non-blocking connect.
use pdn_libax.Prelude.{ℕ, ◌≡◌, refl, true, List, [], ◌∷◌, some, All, lookup}
use pdn_libax.Interpose.Outbound.{filler, Outbound, pipe, arm_connect_gate, flush}
use pdn_libax.Interpose.Outbound.Gating.{
  is_written, clean, Call, arms, resolves, flushes, sends, bypasses,
}
use pdn_libax.Interpose.Outbound.Filler.{run, unused, run-written, flush-arm_connect_gate}

abbrev calls : List Call
calls = arms 7 31 2 ∷ flushes 7 ∷ resolves 7 ∷ bypasses 31 (1 ∷ 2 ∷ []) ∷ sends 7 (3 ∷ []) ∷ []

run-written_example :
    All (λ e. is_written e.1 ≡ true) (run calls unused).wire
    × ((h fd : ℕ)
        → lookup h (run calls unused).entries ≡ some fd
        → clean (pipe fd (run calls unused)) ≡ true)
unfolding lookup
run-written_example = run-written calls ((refl, (λ h e. cc e)), (tt, (tt, (tt, (tt, tt)))))

abbrev established : Outbound
established = record { entries = (6, 31) ∷ []; gates = []; pipes = []; wire = [] }

flush-arm_connect_gate_example :
    (flush 6 (arm_connect_gate 7 31 2 established)).wire ≡ (6, filler) ∷ (6, filler) ∷ []
unfolding lookup
flush-arm_connect_gate_example = flush-arm_connect_gate 6 7 31 2 established refl
