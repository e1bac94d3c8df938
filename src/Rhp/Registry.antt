-- ===== src/Rhp/Registry.antt =====
-- crates/rhpv2/src/client.rs: `ConnRegistry` and `AcceptRegistry`, the two tables that callers wait on
-- and the reader thread fills. Each method runs under the table's lock, so it is a function on it.
pub mod Connects
pub mod Verdict
pub mod Accepts
mod Tests
use pdn_libax.Prelude.{
  ℕ, Bool, true, false, List, [], ◌∷◌, ◌++◌, Option, none, some, ◌==◌, if◌then◌else◌, Bytes, Table,
  lookup, insert, remove, map_values, adjust,
}
use pdn_libax.Prelude.Errno.{etimedout, econnreset}

pub data ConnPhase : Type 0 where
  pending connected : ConnPhase
  failed : ℕ → ConnPhase

-- `Result<(), i32>`
pub data Link : Type 0 where
  up : Link
  down : ℕ → Link

-- `entry(handle).or_insert(Pending)`
unfoldable pub set_pending : ℕ → Table ConnPhase → Table ConnPhase
set_pending handle m = elim (lookup handle m) [ none ↦ insert handle pending m | some p ↦ m ]

unfoldable pub mark_connected : ℕ → Table ConnPhase → Table ConnPhase
mark_connected handle m = insert handle connected m

abbrev pub fail_pending : ℕ → ConnPhase → ConnPhase
fail_pending errno pending = failed errno
fail_pending errno connected = connected
fail_pending errno (failed e) = failed e

unfoldable pub mark_failed : ℕ → ℕ → Table ConnPhase → Table ConnPhase
mark_failed handle errno m = adjust handle (fail_pending errno) m

unfoldable pub fail_all_pending : ℕ → Table ConnPhase → Table ConnPhase
fail_all_pending errno m = map_values (fail_pending errno) m

abbrev pub outcome : Option ConnPhase → Option Link
outcome (some connected) = some up
outcome (some (failed e)) = some (down e)
outcome (some pending) = none
outcome none = none

unfoldable pub result : ℕ → Table ConnPhase → Option Link
result handle m = outcome (lookup handle m)

abbrev pub error_of : Option ConnPhase → ℕ
error_of (some (failed e)) = e
error_of (some pending) = 0
error_of (some connected) = 0
error_of none = 0

-- The errno, and the table with the error cleared.
unfoldable pub take_error : ℕ → Table ConnPhase → ℕ × Table ConnPhase
take_error handle m =
    let e = error_of (lookup handle m) in
    (e, if e == 0 then m else adjust handle (λ _. connected) m)

unfoldable pub forget : ℕ → Table ConnPhase → Table ConnPhase
forget handle m = remove handle m

-- One turn of the loop of `wait_connected`: what it returns if it does not go on waiting. `expired`
-- says that the wait before this turn timed out.
unfoldable pub wait_turn : ℕ → Bool → Bool → Table ConnPhase → Option Link
unfolding result
wait_turn handle closed expired m = elim (result handle m) [
  | some r ↦ some r
  | none ↦
      if expired then some (down etimedout) else if closed then some (down econnreset) else none
]

pub record AcceptInfo : Type 0 where
  pub child_handle : ℕ
  pub remote : Option Bytes
  pub local : Option Bytes

abbrev pub queue_of : Option (List AcceptInfo) → List AcceptInfo
queue_of none = []
queue_of (some q) = q

-- `entry(listener).or_default().push_back(info)`
unfoldable pub push_accept : ℕ → AcceptInfo → Table (List AcceptInfo) → Table (List AcceptInfo)
push_accept listener info m = insert listener (queue_of (lookup listener m) ++ info ∷ []) m

abbrev pop_queue :
    ℕ → Table (List AcceptInfo) → List AcceptInfo → Option AcceptInfo × Table (List AcceptInfo)
pop_queue listener m [] = (none, m)
pop_queue listener m (info ∷ q) = (some info, adjust listener (λ _. q) m)

unfoldable pub try_accept :
    ℕ → Table (List AcceptInfo) → Option AcceptInfo × Table (List AcceptInfo)
try_accept listener m = pop_queue listener m (queue_of (lookup listener m))

unfoldable pub forget_accepts : ℕ → Table (List AcceptInfo) → Table (List AcceptInfo)
forget_accepts listener m = remove listener m
