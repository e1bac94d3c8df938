-- ===== src/Rhp/Registry/Connects.antt =====
-- The connect registry of crates/rhpv2/src/client.rs against a state machine for each handle.
use pdn_libax.Prelude.{
  ℕ, ◌≡◌, ◌≢◌, refl, ap, ◌∙◌, ◌↔◌, inl, inr, List, [], ◌∷◌, Option, none, some, arith, ◌==◌, ==_iff,
  All, if◌then◌else◌, Table, lookup, lookup-insert, lookup-remove, lookup-adjust, lookup-map_values,
  map_some, Bool-cases,
}
use pdn_libax.Rhp.Registry.{
  ConnPhase, pending, connected, failed, up, down, set_pending, mark_connected, mark_failed,
  fail_all_pending, fail_pending, result, outcome, take_error, forget,
}

-- What happens to the registry: `open_connect` arms a handle, the reader thread reports a link that is
-- up, a close with its errno, or the loss of the transport, the application reads the error or closes.
pub data Event : Type 0 where
  arms opens : ℕ → Event
  closes : ℕ → ℕ → Event
  loses : ℕ → Event
  asks leaves : ℕ → Event

unfoldable pub step : Event → Table ConnPhase → Table ConnPhase
unfolding set_pending mark_connected mark_failed fail_all_pending take_error forget
step (arms h) m = set_pending h m
step (opens h) m = mark_connected h m
step (closes h errno) m = mark_failed h errno m
step (loses errno) m = fail_all_pending errno m
step (asks h) m = (take_error h m).1
step (leaves h) m = forget h m

unfoldable pub run : List Event → Table ConnPhase → Table ConnPhase
unfolding step
run [] m = m
run (e ∷ es) m = run es (step e m)

-- The phase of one handle after an event, `none` where the handle is not tracked.
abbrev armed : Option ConnPhase → Option ConnPhase
armed none = some pending
armed (some p) = some p

abbrev cleared : ConnPhase → ConnPhase
cleared pending = pending
cleared connected = connected
cleared (failed e) = if e == 0 then failed e else connected

-- What a close push or the loss of the transport does to a handle: only a connect that is still waiting
-- is refused.
abbrev refused : ℕ → ConnPhase → ConnPhase
refused errno pending = failed errno
refused errno connected = connected
refused errno (failed first) = failed first

refused_lem :
    (errno : ℕ) (p : Option ConnPhase)
    → map_some (fail_pending errno) p ≡ map_some (refused errno) p
refused_lem errno none = refl
refused_lem errno (some pending) = refl
refused_lem errno (some connected) = refl
refused_lem errno (some (failed e)) = refl

abbrev pub phase_step : ℕ → Event → Option ConnPhase → Option ConnPhase
phase_step k (arms h) p = if h == k then armed p else p
phase_step k (opens h) p = if h == k then some connected else p
phase_step k (closes h errno) p = if h == k then map_some (refused errno) p else p
phase_step k (loses errno) p = map_some (refused errno) p
phase_step k (asks h) p = if h == k then map_some cleared p else p
phase_step k (leaves h) p = if h == k then none else p

abbrev pub phase_run : ℕ → List Event → Option ConnPhase → Option ConnPhase
phase_run k [] p = p
phase_run k (e ∷ es) p = phase_run k es (phase_step k e p)

pub lookup-set_pending :
    (h k : ℕ) (m : Table ConnPhase)
    → lookup k (set_pending h m) ≡ (if h == k then armed (lookup k m) else lookup k m)
unfolding set_pending
lookup-set_pending h k m = ground (arith, lookup-insert h k pending m)

lookup-take_error :
    (h k : ℕ) (m : Table ConnPhase)
    → lookup k (take_error h m).1 ≡ (if h == k then map_some cleared (lookup k m) else lookup k m)
unfolding take_error
lookup-take_error h k m = ground (arith, lookup-adjust h k (λ (p : ConnPhase). connected) m)

lookup-step :
    (k : ℕ) (e : Event) (m : Table ConnPhase) → lookup k (step e m) ≡ phase_step k e (lookup k m)
unfolding step
lookup-step k (arms h) m = lookup-set_pending h k m
lookup-step k (opens h) m = lookup-insert h k connected m
lookup-step k (closes h errno) m =
    rw (← refused_lem errno (lookup k m)) (lookup-adjust h k (fail_pending errno) m)
lookup-step k (loses errno) m =
    lookup-map_values (fail_pending errno) k m ∙ refused_lem errno (lookup k m)
lookup-step k (asks h) m = lookup-take_error h k m
lookup-step k (leaves h) m = lookup-remove h k m

-- The registry refines the machine of each handle: after any events, the phase that it holds for a
-- handle is the one that the handle's own machine reaches, whatever happened to other handles.
pub lookup-run :
    (k : ℕ) (es : List Event) (m : Table ConnPhase)
    → lookup k (run es m) ≡ phase_run k es (lookup k m)
unfolding run
lookup-run k [] m = refl
lookup-run k (e ∷ es) m = lookup-run k es (step e m) ∙ ap (phase_run k es) (lookup-step k e m)

outcome_up : (p : Option ConnPhase) → outcome p ≡ some up → p ≡ some connected
outcome_up none h = cc
outcome_up (some pending) h = cc
outcome_up (some connected) h = refl
outcome_up (some (failed e)) h = absurd (ground arith)

outcome_down :
    (errno : ℕ) (p : Option ConnPhase) → outcome p ≡ some (down errno) → p ≡ some (failed errno)
outcome_down errno none h = cc
outcome_down errno (some pending) h = cc
outcome_down errno (some connected) h = absurd (ground arith)
outcome_down errno (some (failed e)) h = ground arith

phase_step_connected :
    (k : ℕ) (e : Event) → e ≢ leaves k → phase_step k e (some connected) ≡ some connected
phase_step_connected k (leaves h) stays = elim (Bool-cases (h == k)) [
  | inl same ↦ absurd (stays (ap leaves ((==_iff h k).0 same)))
  | inr other ↦ rw other
]
phase_step_connected k _ stays = ground arith

pub phase_connected :
    (k : ℕ) (es : List Event) (p : Option ConnPhase)
    → All (λ e. e ≢ leaves k) es
    → p ≡ some connected
    → phase_run k es p ≡ some connected
phase_connected k [] p stays h = h
phase_connected k (e ∷ es) p stays h =
    phase_connected k es (phase_step k e p) stays.1
      (ap (phase_step k e) h ∙ phase_step_connected k e stays.0)

-- A connected handle stays connected through any events but its own close: neither a late close push,
-- nor the loss of the transport, nor reading the error takes it back.
pub run-connected :
    (k : ℕ) (es : List Event) (m : Table ConnPhase)
    → All (λ e. e ≢ leaves k) es
    → result k m ≡ some up
    → result k (run es m) ≡ some up
unfolding result
run-connected k es m stays h =
    rw (lookup-run k es m, phase_connected k es (lookup k m) stays (outcome_up (lookup k m) h))

-- Reading the error clears it: of two reads in a row, the first gives the errno and the second 0.
pub take_error_twice :
    (h errno : ℕ) (m : Table ConnPhase)
    → result h m ≡ some (down errno)
    → ((take_error h m).0 ≡ errno) × ((take_error h (take_error h m).1).0 ≡ 0)
unfolding take_error result
take_error_twice h errno m e =
    ground
      (arith, outcome_down errno (lookup h m) e, lookup-adjust h h (λ (p : ConnPhase). connected) m)

-- A close push that comes before its handle is armed is lost: the connect that follows stays pending,
-- while a close push that comes behind it fails the connect with its errno.
pub early_close_lost :
    (h errno : ℕ) (m : Table ConnPhase)
    → lookup h m ≡ none
    → (result h (set_pending h (mark_failed h errno m)) ≡ none)
      × (result h (mark_failed h errno (set_pending h m)) ≡ some (down errno))
unfolding result mark_failed
early_close_lost h errno m e = (
  ground (
    arith,
    lookup-set_pending h h (mark_failed h errno m),
    lookup-adjust h h (fail_pending errno) m,
  ),
  ground
      (arith, lookup-set_pending h h m, lookup-adjust h h (fail_pending errno) (set_pending h m)),
)

-- A status push that comes before its handle is armed is not lost.
pub early_status_kept :
    (h : ℕ) (m : Table ConnPhase) → result h (set_pending h (mark_connected h m)) ≡ some up
unfolding result mark_connected
early_status_kept h m =
    ground (arith, lookup-set_pending h h (mark_connected h m), lookup-insert h h connected m)

-- Once the transport is lost, no handle is left pending: every tracked handle has a result.
pub fail_all_pending-result :
    (errno k : ℕ) (m : Table ConnPhase)
    → (result k (fail_all_pending errno m) ≡ none) ↔ (lookup k m ≡ none)
unfolding result fail_all_pending
fail_all_pending-result errno k m = (
  λ h. ground (arith, lookup-map_values (fail_pending errno) k m),
  λ h. ground (arith, lookup-map_values (fail_pending errno) k m),
)

pub fail_all_pending-settled :
    (errno k : ℕ) (m : Table ConnPhase)
    → (result k (fail_all_pending errno m) ≡ none) ↔ (lookup k (fail_all_pending errno m) ≡ none)
unfolding result fail_all_pending
fail_all_pending-settled errno k m = (
  λ h. ground (arith, lookup-map_values (fail_pending errno) k m),
  λ h. ground (arith, lookup-map_values (fail_pending errno) k m),
)
