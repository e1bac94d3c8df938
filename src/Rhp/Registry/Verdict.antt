-- ===== src/Rhp/Registry/Verdict.antt =====
-- What a caller that waits for a connect finds in the connect registry of crates/rhpv2/src/client.rs.
use pdn_libax.Prelude.{
  ℕ, ◌≡◌, ◌≢◌, refl, ap, inl, inr, Bool, true, false, ◌||◌, List, [], ◌∷◌, Option, none, some,
  arith, ◌==◌, ==_iff, All, if◌then◌else◌, Table, lookup, Bool-cases,
}
use pdn_libax.Rhp.Registry.{
  ConnPhase, pending, connected, failed, Link, up, down, set_pending, result, outcome,
}
use pdn_libax.Rhp.Registry.Connects.{
  Event, arms, opens, closes, loses, asks, leaves, run, phase_run, lookup-set_pending, lookup-run,
  phase_connected,
}

-- What a connect reports for a handle: it is up as soon as one status push says so, and otherwise it has the
-- errno of the first close push for the handle or loss of the transport.
abbrev pub opened : ℕ → List Event → Bool
opened k [] = false
opened k (opens h ∷ es) = h == k || opened k es
opened k (e ∷ es) = opened k es

abbrev pub first_loss : ℕ → List Event → Option ℕ
first_loss k [] = none
first_loss k (closes h errno ∷ es) = if h == k then some errno else first_loss k es
first_loss k (loses errno ∷ es) = some errno
first_loss k (e ∷ es) = first_loss k es

abbrev pub reported : Bool → Option ℕ → Option Link
reported true lost = some up
reported false none = none
reported false (some errno) = some (down errno)

abbrev pub verdict : ℕ → List Event → Option Link
verdict k es = reported (opened k es) (first_loss k es)

-- Neither reads the error of the handle nor closes it.
abbrev pub Waits : ℕ → Event → Type 0
Waits k e = (e ≢ asks k) × (e ≢ leaves k)

if_same : {A : Type 0} (b : Bool) (x : A) → (if b then x else x) ≡ x
if_same true x = refl
if_same false x = refl

other_handle : (k h : ℕ) (f : ℕ → Event) → f h ≢ f k → (h == k) ≡ false
other_handle k h f differ = elim (Bool-cases (h == k)) [
  | inl same ↦ absurd (differ (ap f ((==_iff h k).0 same)))
  | inr other ↦ other
]

run_up :
    (k : ℕ) (es : List Event) → All (Waits k) es → phase_run k es (some connected) ≡ some connected
run_up k es w = phase_connected k es (some connected) (never_left es w) refl
  where
    never_left : (es : List Event) → All (Waits k) es → All (λ e. e ≢ leaves k) es
    never_left [] w = tt
    never_left (e ∷ es) w = (w.0.1, never_left es w.1)

run_failed :
    (k errno : ℕ) (es : List Event)
    → All (Waits k) es
    → outcome (phase_run k es (some (failed errno))) ≡ reported (opened k es) (some errno)
run_failed k errno [] w = refl
run_failed k errno (arms h ∷ es) w =
    rw (if_same {A = Option ConnPhase} (h == k) (some (failed errno))) (run_failed k errno es w.1)
run_failed k errno (opens h ∷ es) w = elim (Bool-cases (h == k)) [
  | inl same ↦ rw (same, run_up k es w.1) refl
  | inr other ↦ rw other (run_failed k errno es w.1)
]
run_failed k errno (closes h later ∷ es) w =
    rw (if_same {A = Option ConnPhase} (h == k) (some (failed errno))) (run_failed k errno es w.1)
run_failed k errno (loses later ∷ es) w = run_failed k errno es w.1
run_failed k errno (asks h ∷ es) w = rw (other_handle k h asks w.0.0) (run_failed k errno es w.1)
run_failed k errno (leaves h ∷ es) w =
    rw (other_handle k h leaves w.0.1) (run_failed k errno es w.1)

run_pending :
    (k : ℕ) (es : List Event)
    → All (Waits k) es
    → outcome (phase_run k es (some pending)) ≡ verdict k es
run_pending k [] w = refl
run_pending k (arms h ∷ es) w =
    rw (if_same {A = Option ConnPhase} (h == k) (some pending)) (run_pending k es w.1)
run_pending k (opens h ∷ es) w = elim (Bool-cases (h == k)) [
  | inl same ↦ rw (same, run_up k es w.1) refl
  | inr other ↦ rw other (run_pending k es w.1)
]
run_pending k (closes h errno ∷ es) w = elim (Bool-cases (h == k)) [
  | inl same ↦ rw same (run_failed k errno es w.1)
  | inr other ↦ rw other (run_pending k es w.1)
]
run_pending k (loses errno ∷ es) w = run_failed k errno es w.1
run_pending k (asks h ∷ es) w = rw (other_handle k h asks w.0.0) (run_pending k es w.1)
run_pending k (leaves h ∷ es) w = rw (other_handle k h leaves w.0.1) (run_pending k es w.1)

-- What a waiting connect finds: from the moment that an untracked handle is set pending, whatever happens to
-- any handles, as long as the application neither reads the error of this one nor closes it, the
-- result is that the link is up if one status push for the handle came, also behind a failure, and
-- otherwise the errno of the first close push for the handle or first loss of the transport, and none
-- if nothing of that came.
pub run-verdict :
    (k : ℕ) (es : List Event) (m : Table ConnPhase)
    → lookup k m ≡ none
    → All (Waits k) es
    → result k (run es (set_pending k m)) ≡ verdict k es
unfolding result
run-verdict k es m absent waits =
    let armed_now : lookup k (set_pending k m) ≡ some pending =
      ground (arith, lookup-set_pending k k m) in
    rw (lookup-run k es (set_pending k m), armed_now) (run_pending k es waits)
