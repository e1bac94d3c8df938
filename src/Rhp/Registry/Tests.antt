-- ===== src/Rhp/Registry/Tests.antt =====
-- Instances of the theorems on the registries of crates/rhpv2/src/client.rs.
use pdn_libax.Prelude.{
  arith, ◌≡◌, refl, some, none, [], ◌∷◌, List, lookup, insert, adjust, map_values,
}
use pdn_libax.Rhp.Registry.{connected, down, result, set_pending, mark_failed}
use pdn_libax.Rhp.Registry.Connects.{Event, arms, opens, closes, loses, asks, run, early_close_lost}
use pdn_libax.Rhp.Registry.Verdict.{run-verdict}

abbrev history : List Event
history = arms 7 ∷ arms 8 ∷ closes 8 111 ∷ opens 7 ∷ closes 7 111 ∷ loses 104 ∷ asks 8 ∷ []

abbrev troubled : List Event
troubled = closes 8 111 ∷ arms 8 ∷ loses 104 ∷ opens 7 ∷ asks 7 ∷ []

run-verdict_example : result 8 (run troubled (set_pending 8 [])) ≡ some (down 111)
unfolding lookup
run-verdict_example = run-verdict 8 troubled [] refl (ground arith)

history_ends : run history [] ≡ (7, connected) ∷ (8, connected) ∷ []
unfolding run lookup insert adjust map_values
history_ends = refl

early_close_lost_example :
    (result 7 (set_pending 7 (mark_failed 7 111 [])) ≡ none)
    × (result 7 (mark_failed 7 111 (set_pending 7 [])) ≡ some (down 111))
unfolding lookup
early_close_lost_example = early_close_lost 7 111 [] refl
