-- ===== src/Interpose/RecvPump/Delivery.antt =====
-- The receive pump of crates/ax25-interpose/src/state.rs over sequences of calls, for a handle
-- that is registered.
use pdn_libax.Prelude.{
  ℕ, zero, suc, ◌≤◌, ◌≡◌, refl, sym, ap, ◌∙◌, inl, inr, true, false, List, [], ◌∷◌, ◌++◌,
  append_assoc, append-nil, Option, none, some, arith, ltb, subst, ◌==◌, ==_refl, ==_iff, length,
  take, drop, take-append-drop, take_all, min, All, Bytes, lookup, lookup-insert, lookup-remove,
  lookup-adjust, lookup-map_values, Unique, insert-Unique, remove-Unique, adjust-Unique,
  map_values-Unique, Bool-cases,
}
use pdn_libax.Interpose.RecvPump.{
  PendingRecv, room, gone, Act, sent, Pump, wrote, nb_write, staged, new_entry, register,
  unregister, buffered, push_written, push, mark_eof, shutdown_all, drain_table, drain_pass,
}
use pdn_libax.Interpose.RecvPump.Backlog.{delivered, delivered-append, send_room-suc}
use pdn_libax.Interpose.RecvPump.Drain.{drain_table-present, drain_table-Unique}
use pdn_libax.Interpose.RecvPump.Calls.{
  Event, receives, registers, unregisters, marks, drains, shuts_down, step, run, received, Spares,
  Live, push_end, push-Unique, Agree, push-others,
}

abbrev buf_of : Option PendingRecv → Bytes
buf_of none = []
buf_of (some e) = e.buf

Live-sum :
    (h : ℕ) (bs : Bytes) (p : Pump) (e : PendingRecv)
    → Live h bs p
    → lookup h p.handles ≡ some e
    → delivered h p.log ++ e.buf ≡ bs
Live-sum h bs p e (u, (e', found', sum)) found =
    ap (λ o. delivered h p.log ++ buf_of o) (sym found ∙ found') ∙ sum

buffered-Live :
    (h : ℕ) (bytes bs : Bytes) (p : Pump) → Live h bs p → Live h (bs ++ bytes) (buffered h bytes p)
buffered-Live h bytes bs p (u, (e, found, sum)) = (
  adjust-Unique h (λ v. record v { buf = v.buf ++ bytes }) p.handles u,
  (
    record e { buf = e.buf ++ bytes },
    rw (lookup-adjust h h (λ v. record v { buf = v.buf ++ bytes }) p.handles, ==_refl h, found)
        refl,
    sym (append_assoc (delivered h p.log) e.buf bytes) ∙ ap (λ xs. xs ++ bytes) sum,
  ),
)

sent-Live :
    (h fd : ℕ) (bytes bs : Bytes) (p : Pump) (e : PendingRecv)
    → lookup h p.handles ≡ some e
    → e.buf ≡ []
    → Live h bs p
    → Live h (bs ++ bytes) (record p { log = p.log ++ sent h fd bytes ∷ [] })
sent-Live h fd bytes bs p e found empty live = (
  live.0,
  (
    e,
    found,
    cc (
      Live-sum h bs p e live found,
      sent_lem h fd bytes p.log,
      empty,
      append-nil (delivered h p.log),
      append-nil (delivered h (p.log ++ sent h fd bytes ∷ [])),
    ),
  ),
)
  where
    sent_lem :
        (h fd : ℕ) (bytes : Bytes) (log : List Act)
        → delivered h (log ++ sent h fd bytes ∷ []) ≡ delivered h log ++ bytes
    sent_lem h fd bytes log =
        rw (delivered-append h log (sent h fd bytes ∷ []), ==_refl h, append-nil bytes) refl

written-Live :
    (h : ℕ) (bytes bs : Bytes) (n : ℕ) (p : Pump) (e : PendingRecv)
    → lookup h p.handles ≡ some e
    → e.buf ≡ []
    → Live h bs p
    → Live h (bs ++ bytes) (push_written h e.inner_fd bytes (wrote n) p)
written-Live h bytes bs n p e found empty live =
    let now = sent-Live h e.inner_fd (take n bytes) bs p e found empty live in
    elim (Bool-cases (ltb n (length bytes))) [
      | inl more ↦ rw more (
          subst
            (λ xs. Live h xs (
              buffered h (drop n bytes)
                (record p { log = p.log ++ sent h e.inner_fd (take n bytes) ∷ [] })))
            (append_assoc bs (take n bytes) (drop n bytes)
              ∙ ap (λ xs. bs ++ xs) (take-append-drop n bytes))
            (buffered-Live h (drop n bytes) (bs ++ take n bytes)
              (record p { log = p.log ++ sent h e.inner_fd (take n bytes) ∷ [] }) now))
      | inr all ↦ rw all (
          subst
            (λ xs.
              Live h (bs ++ xs) (record p { log = p.log ++ sent h e.inner_fd (take n bytes) ∷ [] }))
            (take_all n bytes (enough all)) now)
    ]
  where
    enough : ltb n (length bytes) ≡ false → length bytes ≤ n
    enough all = ground arith

room-Live :
    (h : ℕ) (bytes bs : Bytes) (n : ℕ) (p : Pump) (e : PendingRecv)
    → lookup h p.handles ≡ some e
    → e.buf ≡ []
    → Live h bs p
    → Live h (bs ++ bytes) (push_written h e.inner_fd bytes (nb_write (room n) bytes) p)
unfolding nb_write
room-Live h [] bs n p e found empty live = written-Live h [] bs 0 p e found empty live
room-Live h (b ∷ bytes) bs zero p e found empty live = buffered-Live h (b ∷ bytes) bs p live
room-Live h (b ∷ bytes) bs (suc n) p e found empty live =
    subst (λ w. Live h (bs ++ b ∷ bytes) (push_written h e.inner_fd (b ∷ bytes) w p))
      (sym (send_room-suc n (b ∷ bytes)))
      (written-Live h (b ∷ bytes) bs (min (suc n) (length (b ∷ bytes))) p e found empty live)

push-Live :
    (h : ℕ) (bytes bs : Bytes) (n : ℕ) (p : Pump)
    → Live h bs p
    → Live h (bs ++ bytes) (push h bytes (room n) p)
push-Live h bytes bs n p live = elim (push_end h bytes (room n) p) [
  | inl (none_came, same) ↦
      subst (λ q. Live h (bs ++ bytes) q) (sym same)
        (subst (λ xs. Live h xs p) (sym (ap (λ xs. bs ++ xs) none_came ∙ append-nil bs)) live)
  | inr (inl (absent, staged')) ↦ absurd (cc (absent, live.1.1))
  | inr (inr (e, found, inl (empty, written))) ↦
      subst (λ q. Live h (bs ++ bytes) q) (sym written)
        (room-Live h bytes bs n p e found empty live)
  | inr (inr (e, found, inr kept)) ↦
      subst (λ q. Live h (bs ++ bytes) q) (sym kept) (buffered-Live h bytes bs p live)
]

Agree-Live :
    (h : ℕ) (bs : Bytes) (p q : Pump) → Agree h q p → Unique q.handles → Live h bs p → Live h bs q
Agree-Live h bs p q (same, early, log) uq (u, (e, found, sum)) =
    (uq, (e, same ∙ found, ap (λ xs. xs ++ e.buf) log ∙ sum))

-- Every call that spares a registered handle.
pub step-Live :
    (h : ℕ) (bs : Bytes) (c : Event) (p : Pump)
    → Spares h c
    → Live h bs p
    → Live h (bs ++ received h (c ∷ [])) (step c p)
unfolding register unregister mark_eof drain_pass shutdown_all
step-Live h bs (receives k bytes (room n)) p ok live = elim (Bool-cases (k == h)) [
  | inl same ↦
      rw (same, append-nil bytes)
        (subst (λ i. Live h (bs ++ bytes) (push i bytes (room n) p)) (sym ((==_iff k h).0 same))
          (push-Live h bytes bs n p live))
  | inr other ↦
      rw (other, append-nil bs)
        (Agree-Live h bs p (push k bytes (room n) p) (push-others k h bytes (room n) p other)
          (push-Unique k bytes (room n) p live.0) live)
]
step-Live h bs (receives k bytes gone) p other live =
    rw (other, append-nil bs)
      (Agree-Live h bs p (push k bytes gone p) (push-others k h bytes gone p other)
        (push-Unique k bytes gone p live.0) live)
step-Live h bs (registers k fd) p other (u, (e, found, sum)) = rw (append-nil bs) (
  insert-Unique k (new_entry fd (staged (lookup k p.early))) p.handles u,
  (
    e,
    rw (lookup-insert k h (new_entry fd (staged (lookup k p.early))) p.handles, other) found,
    sum,
  ),
)
step-Live h bs (unregisters k) p other (u, (e, found, sum)) =
    rw (append-nil bs)
      (remove-Unique k p.handles u, (e, rw (lookup-remove k h p.handles, other) found, sum))
step-Live h bs (marks k) p ok (u, (e, found, sum)) =
    let uk = adjust-Unique k (λ v. record v { eof = true }) p.handles u in
    let adjusted = lookup-adjust k h (λ v. record v { eof = true }) p.handles in
    rw (append-nil bs) (elim (Bool-cases (k == h)) [
      | inl same ↦ (uk, (record e { eof = true }, rw (adjusted, same, found) refl, sum))
      | inr other ↦ (uk, (e, rw (adjusted, other) found, sum))
    ])
step-Live h bs (drains answers) p ok (u, (e, found, sum)) =
    let (e', found', kept) = drain_table-present answers h p.handles e u found ok in
    let acts = (drain_table answers p.handles).1 in
    rw (append-nil bs) (
      drain_table-Unique answers p.handles u,
      (
        e',
        found',
        rw
            (
              delivered-append h p.log acts,
              append_assoc (delivered h p.log) (delivered h acts) e'.buf,
              kept,
            )
            sum,
      ),
    )
step-Live h bs shuts_down p ok (u, (e, found, sum)) = rw (append-nil bs) (
  map_values-Unique (λ v. record v { eof = true }) p.handles u,
  (
    record e { eof = true },
    rw (lookup-map_values (λ v. record v { eof = true }) h p.handles, found) refl,
    sum,
  ),
)

pub received-append :
    (h : ℕ) (xs ys : List Event) → received h (xs ++ ys) ≡ received h xs ++ received h ys
received-append h [] ys = refl
received-append h (receives k bytes a ∷ xs) ys =
    ground (arith, received-append h xs ys, append_assoc bytes (received h xs) (received h ys))
received-append h (registers k fd ∷ xs) ys = received-append h xs ys
received-append h (unregisters k ∷ xs) ys = received-append h xs ys
received-append h (marks k ∷ xs) ys = received-append h xs ys
received-append h (drains answers ∷ xs) ys = received-append h xs ys
received-append h (shuts_down ∷ xs) ys = received-append h xs ys

pub run-Live :
    (h : ℕ) (bs : Bytes) (es : List Event) (p : Pump)
    → All (Spares h) es
    → Live h bs p
    → Live h (bs ++ received h es) (run es p)
run-Live h bs [] p ok live = rw (append-nil bs) live
run-Live h bs (c ∷ es) p ok live =
    subst (λ xs. Live h xs (run es (step c p)))
      (append_assoc bs (received h (c ∷ [])) (received h es)
        ∙ ap (λ xs. bs ++ xs) (sym (received-append h (c ∷ []) es)))
      (run-Live h (bs ++ received h (c ∷ [])) es (step c p) ok.1 (step-Live h bs c p ok.0 live))
