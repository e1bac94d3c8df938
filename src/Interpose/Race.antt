-- ===== src/Interpose/Race.antt =====
-- A non-blocking `connect` of crates/ax25-interpose/src/lib.rs against the reader thread: the steps of both
-- on the connect registry and the gates. Each step holds a lock.
pub mod Released
use pdn_libax.Prelude.{
  ℕ, ◌≡◌, refl, sym, ap, ◌∙◌, Bool, true, false, List, [], ◌∷◌, Option, none, some, if◌then◌else◌,
  arith, ◌==◌, ==_refl, Table, lookup, lookup-adjust, lookup-insert,
}
use pdn_libax.Rhp.Frame.{is_some}
use pdn_libax.Rhp.Registry.{
  ConnPhase, connected, failed, pending, mark_connected, mark_failed, result, Link,
}
use pdn_libax.Interpose.Outbound.{Outbound, arm_connect_gate, resolve_connect_gate}

-- `seen` is what `connect` has read from `connect_result`.
pub record Gated : Type 0 where
  pub conns : Table ConnPhase
  pub outbound : Outbound
  pub seen : Bool

-- The link comes up, or fails with an errno.
pub data Resolution : Type 0 where
  comes_up : Resolution
  fails : ℕ → Resolution

-- `arms`, `looks` and `releases` are `connect`'s, `marks` and `resolves` the reader's.
pub data Move : Type 0 where
  arms looks releases : Move
  marks : Resolution → Move
  resolves : Move

abbrev pub mark : ℕ → Resolution → Table ConnPhase → Table ConnPhase
mark handle comes_up m = mark_connected handle m
mark handle (fails e) m = mark_failed handle e m

module _ (handle fd fill : ℕ) where
  unfoldable pub step : Move → Gated → Gated
  step arms s = record s { outbound = arm_connect_gate handle fd fill s.outbound }
  step looks s = record s { seen = is_some (result handle s.conns) }
  step releases s =
      if s.seen then record s { outbound = resolve_connect_gate handle s.outbound } else s
  step (marks r) s = record s { conns = mark handle r s.conns }
  step resolves s = record s { outbound = resolve_connect_gate handle s.outbound }

  unfoldable pub steps : List Move → Gated → Gated
  unfolding step
  steps [] s = s
  steps (m ∷ ms) s = steps ms (step m s)
