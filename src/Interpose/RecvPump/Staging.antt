-- ===== src/Interpose/RecvPump/Staging.antt =====
-- The receive pump of crates/ax25-interpose/src/state.rs from before a handle is registered: the bytes
-- that come early are staged (`PumpState.early`) and handed over by `register`.
use pdn_libax.Prelude.{
  ℕ, ◌-◌, ◌≤◌, ◌≡◌, refl, sym, ap, ◌∙◌, inl, inr, true, List, [], ◌∷◌, ◌++◌, append_assoc,
  append-nil, none, some, arith, subst, ◌==◌, ==_refl, ==_iff, length, length-append, take,
  take_all, All, Bytes, Table, lookup, adjust, lookup-insert, lookup-remove, lookup-adjust,
  lookup-map_values, Unique, insert-Unique, remove-Unique, adjust-Unique, map_values-Unique,
  Bool-cases,
}
use pdn_libax.Interpose.RecvPump.{
  PendingRecv, Answer, Pump, early_stage_cap, staged, new_entry, register, unregister, stage, push,
  mark_eof, shutdown_all, drain_table, drain_pass,
}
use pdn_libax.Interpose.RecvPump.Backlog.{delivered, delivered-append}
use pdn_libax.Interpose.RecvPump.Drain.{drain_table-absent, drain_table-Unique}
use pdn_libax.Interpose.RecvPump.Calls.{
  Event, receives, registers, unregisters, marks, drains, shuts_down, step, run, received, Spares,
  Live, Early, push_end, push-Unique, Agree, push-others,
}
use pdn_libax.Interpose.RecvPump.Delivery.{run-Live, received-append}

stage-Early :
    (h : ℕ) (bytes bs : Bytes) (p : Pump)
    → length (bs ++ bytes) ≤ early_stage_cap
    → Early h bs p
    → Early h (bs ++ bytes) (stage h bytes p)
unfolding stage
stage-Early h bytes bs p room' (u, absent, held, nothing) = (
  u,
  absent,
  rw
      (
        lookup-insert h h
            (staged (lookup h p.early)
              ++ take (early_stage_cap - length (staged (lookup h p.early))) bytes)
            p.early,
        ==_refl h,
        held,
        take_all (early_stage_cap - length bs) bytes fits,
      )
      refl,
  nothing,
)
  where
    fits : length bytes ≤ early_stage_cap - length bs
    fits = omega (arith, room', length-append bs bytes)

Agree-Early :
    (h : ℕ) (bs : Bytes) (p q : Pump) → Agree h q p → Unique q.handles → Early h bs p → Early h bs q
Agree-Early h bs p q (same, early, log) uq (u, absent, held, nothing) =
    (uq, same ∙ absent, ap staged early ∙ held, log ∙ nothing)

push-Early :
    (h : ℕ) (bytes bs : Bytes) (a : Answer) (p : Pump)
    → length (bs ++ bytes) ≤ early_stage_cap
    → Early h bs p
    → Early h (bs ++ bytes) (push h bytes a p)
push-Early h bytes bs a p room' early = elim (push_end h bytes a p) [
  | inl (none_came, same) ↦
      subst (λ q. Early h (bs ++ bytes) q) (sym same)
        (subst (λ xs. Early h xs p) (sym (ap (λ xs. bs ++ xs) none_came ∙ append-nil bs)) early)
  | inr (inl (absent, staged')) ↦
      subst (λ q. Early h (bs ++ bytes) q) (sym staged') (stage-Early h bytes bs p room' early)
  | inr (inr (e, found, rest)) ↦ absurd (cc (found, early.1))
]

adjust-absent :
    (k h : ℕ) (m : Table PendingRecv)
    → lookup h m ≡ none
    → lookup h (adjust k (λ v. record v { eof = true }) m) ≡ none
adjust-absent k h m absent = elim (Bool-cases (k == h)) [
  | inl same ↦ rw (lookup-adjust k h (λ v. record v { eof = true }) m, same, absent) refl
  | inr other ↦ rw (lookup-adjust k h (λ v. record v { eof = true }) m, other) absent
]

step-Early :
    (h : ℕ) (bs : Bytes) (c : Event) (p : Pump)
    → Spares h c
    → length (bs ++ received h (c ∷ [])) ≤ early_stage_cap
    → Early h bs p
    → Early h (bs ++ received h (c ∷ [])) (step c p)
unfolding register unregister mark_eof drain_pass shutdown_all
step-Early h bs (receives k bytes a) p ok room' early = elim (Bool-cases (k == h)) [
  | inl same ↦
      rw (same, append-nil bytes)
        (subst (λ i. Early h (bs ++ bytes) (push i bytes a p)) (sym ((==_iff k h).0 same))
          (push-Early h bytes bs a p
            (subst (λ xs. length (bs ++ xs) ≤ early_stage_cap) (came same) room') early))
  | inr other ↦
      rw (other, append-nil bs)
        (Agree-Early h bs p (push k bytes a p) (push-others k h bytes a p other)
          (push-Unique k bytes a p early.0) early)
]
  where
    came : (k == h) ≡ true → received h (receives k bytes a ∷ []) ≡ bytes
    came same = rw same (append-nil bytes)
step-Early h bs (registers k fd) p other room' (u, absent, held, nothing) =
    let e = (new_entry fd (staged (lookup k p.early))) in
    rw (append-nil bs) (
      insert-Unique k e p.handles u,
      rw (lookup-insert k h e p.handles, other) absent,
      rw (lookup-remove k h p.early, other) held,
      nothing,
    )
step-Early h bs (unregisters k) p other room' (u, absent, held, nothing) = rw (append-nil bs) (
  remove-Unique k p.handles u,
  rw (lookup-remove k h p.handles, other) absent,
  rw (lookup-remove k h p.early, other) held,
  nothing,
)
step-Early h bs (marks k) p ok room' (u, absent, held, nothing) = rw (append-nil bs) (
  adjust-Unique k (λ v. record v { eof = true }) p.handles u,
  adjust-absent k h p.handles absent,
  held,
  nothing,
)
step-Early h bs (drains answers) p ok room' (u, absent, held, nothing) =
    let (absent', quiet) = drain_table-absent answers h p.handles absent in
    rw (append-nil bs) (
      drain_table-Unique answers p.handles u,
      absent',
      held,
      rw (delivered-append h p.log (drain_table answers p.handles).1, nothing) quiet,
    )
step-Early h bs shuts_down p ok room' (u, absent, held, nothing) = rw (append-nil bs) (
  map_values-Unique (λ v. record v { eof = true }) p.handles u,
  rw (lookup-map_values (λ v. record v { eof = true }) h p.handles, absent) refl,
  held,
  nothing,
)

run-Early :
    (h : ℕ) (bs : Bytes) (es : List Event) (p : Pump)
    → All (Spares h) es
    → length (bs ++ received h es) ≤ early_stage_cap
    → Early h bs p
    → Early h (bs ++ received h es) (run es p)
run-Early h bs [] p ok room' early = rw (append-nil bs) early
run-Early h bs (c ∷ es) p ok room' early =
    let split =
      append_assoc bs (received h (c ∷ [])) (received h es)
      ∙ ap (λ xs. bs ++ xs) (sym (received-append h (c ∷ []) es)) in
    subst (λ xs. Early h xs (run es (step c p))) split
      (run-Early h (bs ++ received h (c ∷ [])) es (step c p) ok.1
        (subst (λ xs. length xs ≤ early_stage_cap) (sym split) room')
        (step-Early h bs c p ok.0 (front split) early))
  where
    front :
        (bs ++ received h (c ∷ [])) ++ received h es ≡ bs ++ received h (c ∷ es)
        → length (bs ++ received h (c ∷ [])) ≤ early_stage_cap
    front split =
        omega
          (arith, room', ap length split, length-append (bs ++ received h (c ∷ [])) (received h es))

run-append : (xs ys : List Event) (p : Pump) → run (xs ++ ys) p ≡ run ys (run xs p)
run-append [] ys p = refl
run-append (c ∷ xs) ys p = run-append xs ys (step c p)

register-Live : (h fd : ℕ) (bs : Bytes) (p : Pump) → Early h bs p → Live h bs (register h fd p)
unfolding register
register-Live h fd bs p (u, absent, held, nothing) =
    let e = (new_entry fd (staged (lookup h p.early))) in
    (
      insert-Unique h e p.handles u,
      (e, rw (lookup-insert h h e p.handles, ==_refl h) refl, rw nothing held),
    )

-- From a pump that has nothing for a handle: calls before its `register`, then its `register`, then
-- more calls, none of which registers or forgets it again or finds its application gone. With at
-- most 256 KiB received before, what was sent to the socket and what is still buffered together are
-- all bytes received for the handle, each once and in order.
pub never_lose :
    (h fd : ℕ) (before after : List Event) (p : Pump)
    → Early h [] p
    → All (Spares h) before
    → length (received h before) ≤ early_stage_cap
    → All (Spares h) after
    → (e : PendingRecv) × (lookup h (run (before ++ registers h fd ∷ after) p).handles ≡ some e)
      × (delivered h (run (before ++ registers h fd ∷ after) p).log ++ e.buf
          ≡ received h before ++ received h after)
never_lose h fd before after p early ok_before room' ok_after =
    subst
      (λ q.
        (e : PendingRecv) × (lookup h q.handles ≡ some e)
        × (delivered h q.log ++ e.buf ≡ received h before ++ received h after))
      (sym (run-append before (registers h fd ∷ after) p))
      (run-Live h (received h before) after (register h fd (run before p)) ok_after (
        register-Live h fd (received h before) (run before p)
          (run-Early h [] before p ok_before room' early))).1
