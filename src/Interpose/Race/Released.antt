-- ===== src/Interpose/Race/Released.antt =====
-- Every order of a non-blocking `connect` (crates/ax25-interpose/src/lib.rs) and the reader thread that
-- resolves it (`on_status`, `on_close` in state.rs).
use pdn_libax.Prelude.{
  ℕ, ◌≡◌, ◌≢◌, refl, ap, ◌∙◌, Bool, true, false, List, [], ◌∷◌, Option, none, some, arith, ==_refl,
  Table, lookup, lookup-adjust, lookup-insert, lookup-remove, All, Bool-cases, map_some, ◌⊎◌, inl,
  inr, ◌++◌,
}
use pdn_libax.Rhp.Frame.{is_some}
use pdn_libax.Rhp.Registry.{
  ConnPhase, connected, failed, pending, mark_connected, mark_failed, result, fail_pending, outcome,
}
use pdn_libax.Interpose.Outbound.{
  Outbound, pipe, pieces_of, arm_connect_gate, resolve_connect_gate, register,
}
use pdn_libax.Interpose.Race.{
  Gated, Resolution, comes_up, fails, Move, arms, looks, releases, marks, resolves, mark, step,
  steps,
}

-- Two lists of steps in one order, each in its own order.
pub data Merge {ℓ} {A : Type ℓ} : List A → List A → List A → Type ℓ where
  done : Merge [] [] []
  left : {x : A} {xs ys zs : List A} → Merge xs ys zs → Merge (x ∷ xs) ys (x ∷ zs)
  right : {y : A} {xs ys zs : List A} → Merge xs ys zs → Merge xs (y ∷ ys) (y ∷ zs)

abbrev pub connect_moves : List Move
connect_moves = arms ∷ looks ∷ releases ∷ []

abbrev pub reader_moves : Resolution → List Move
reader_moves r = marks r ∷ resolves ∷ []

abbrev is_arms : Move → Bool
is_arms arms = true
is_arms _ = false

failed_some :
    (e : ℕ) (o : Option ConnPhase)
    → o ≢ none
    → is_some (outcome (map_some (fail_pending e) o)) ≡ true
failed_some e none known = absurd (known refl)
failed_some e (some pending) known = refl
failed_some e (some connected) known = refl
failed_some e (some (failed x)) known = refl

mark-result :
    (h : ℕ) (r : Resolution) (m : Table ConnPhase)
    → lookup h m ≢ none
    → is_some (result h (mark h r m)) ≡ true
unfolding result mark_connected mark_failed
mark-result h comes_up m known = rw (lookup-insert h h connected m, ==_refl h) refl
mark-result h (fails e) m known =
    rw (lookup-adjust h h (fail_pending e) m, ==_refl h) (failed_some e (lookup h m) known)

module _ (handle fd fill : ℕ) where
  -- The application's end is not gated, and nothing lies in its direction of the pair.
  abbrev pub Open : Outbound → Type 0
  Open o = (lookup handle o.gates ≡ none) × (pipe fd o ≡ [])

  abbrev Known : Outbound → Type 0
  Known o = (lookup handle o.gates ≡ some fd) ⊎ Open o

  resolve-Open : (o : Outbound) → Known o → Open (resolve_connect_gate handle o)
  unfolding resolve_connect_gate register
  resolve-Open o (inl armed) = rw armed (
    lookup-remove handle handle o.gates ∙ rw (==_refl handle) refl,
    ap pieces_of (lookup-insert fd fd [] o.pipes) ∙ rw (==_refl fd) refl,
  )
  resolve-Open o (inr (gone, empty)) = rw gone (gone, empty)

  arm-Known : (o : Outbound) → Known (arm_connect_gate handle fd fill o)
  unfolding arm_connect_gate
  arm-Known o = inl (lookup-insert handle handle fd o.gates ∙ rw (==_refl handle) refl)

  step-Open :
      (m : Move) (s : Gated)
      → is_arms m ≡ false
      → Open s.outbound
      → Open (step handle fd fill m s).outbound
  unfolding step
  step-Open arms s h free = absurd (ground arith)
  step-Open looks s h free = free
  step-Open releases s h free = elim (Bool-cases s.seen) [
    | inl taken ↦ rw taken (resolve-Open s.outbound (inr free))
    | inr skipped ↦ rw skipped free
  ]
  step-Open (marks r) s h free = free
  step-Open resolves s h free = resolve-Open s.outbound (inr free)

  step-Known :
      (m : Move) (s : Gated)
      → is_arms m ≡ false
      → Known s.outbound
      → Known (step handle fd fill m s).outbound
  unfolding step
  step-Known arms s h known = absurd (ground arith)
  step-Known looks s h known = known
  step-Known releases s h known = elim (Bool-cases s.seen) [
    | inl taken ↦ rw taken (inr (resolve-Open s.outbound known))
    | inr skipped ↦ rw skipped known
  ]
  step-Known (marks r) s h known = known
  step-Known resolves s h known = inr (resolve-Open s.outbound known)

  Unarmed-Open :
      (ms : List Move) (s : Gated)
      → All (λ m. is_arms m ≡ false) ms
      → Open s.outbound
      → Open (steps handle fd fill ms s).outbound
  unfolding steps
  Unarmed-Open [] s u free = free
  Unarmed-Open (m ∷ ms) s u free =
      Unarmed-Open ms (step handle fd fill m s) u.1 (step-Open m s u.0 free)

  resolved_later :
      (before after : List Move) (s : Gated)
      → All (λ m. is_arms m ≡ false) before
      → All (λ m. is_arms m ≡ false) after
      → Known s.outbound
      → Open (steps handle fd fill (before ++ resolves ∷ after) s).outbound
  unfolding steps step
  resolved_later [] after s b a known =
      Unarmed-Open after (step handle fd fill resolves s) a (resolve-Open s.outbound known)
  resolved_later (m ∷ before) after s b a known =
      resolved_later before after (step handle fd fill m s) b.1 a (step-Known m s b.0 known)

  later :
      (before after : List Move) (s : Gated)
      → All (λ m. is_arms m ≡ false) before
      → All (λ m. is_arms m ≡ false) after
      → Open
          (steps handle fd fill (before ++ resolves ∷ after) (step handle fd fill arms s)).outbound
  unfolding step
  later before after s b a =
      resolved_later before after (step handle fd fill arms s) b a (arm-Known s.outbound)

  -- In every order of the steps of a non-blocking `connect` with those of the reader that resolves it,
  -- if the handle is tracked when they begin, the gate is gone at the end and its filler is drained: the
  -- application's end is writable.
  pub connect_released :
      (r : Resolution) (moves : List Move) (s : Gated)
      → Merge connect_moves (reader_moves r) moves
      → lookup handle s.conns ≢ none
      → Open (steps handle fd fill moves s).outbound
  unfolding steps step
  connect_released r moves s (right (right (left (left (left done))))) tracked =
      rw (mark-result handle r s.conns tracked) (resolve-Open _ (arm-Known _))
  connect_released r moves s (right (left (right (left (left done))))) tracked =
      later [] (looks ∷ releases ∷ []) (step handle fd fill (marks r) s) tt (refl, (refl, tt))
  connect_released r moves s (right (left (left (right (left done))))) tracked =
      later (looks ∷ []) (releases ∷ []) (step handle fd fill (marks r) s) (refl, tt) (refl, tt)
  connect_released r moves s (right (left (left (left (right done))))) tracked =
      later (looks ∷ releases ∷ []) [] (step handle fd fill (marks r) s) (refl, (refl, tt)) tt
  connect_released r moves s (left (right (right (left (left done))))) tracked =
      later (marks r ∷ []) (looks ∷ releases ∷ []) s (refl, tt) (refl, (refl, tt))
  connect_released r moves s (left (right (left (right (left done))))) tracked =
      later (marks r ∷ looks ∷ []) (releases ∷ []) s (refl, (refl, tt)) (refl, tt)
  connect_released r moves s (left (right (left (left (right done))))) tracked =
      later (marks r ∷ looks ∷ releases ∷ []) [] s (refl, (refl, (refl, tt))) tt
  connect_released r moves s (left (left (right (right (left done))))) tracked =
      later (looks ∷ marks r ∷ []) (releases ∷ []) s (refl, (refl, tt)) (refl, tt)
  connect_released r moves s (left (left (right (left (right done))))) tracked =
      later (looks ∷ marks r ∷ releases ∷ []) [] s (refl, (refl, (refl, tt))) tt
  connect_released r moves s (left (left (left (right (right done))))) tracked =
      later (looks ∷ releases ∷ marks r ∷ []) [] s (refl, (refl, (refl, tt))) tt
