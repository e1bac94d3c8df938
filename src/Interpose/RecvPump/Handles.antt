-- ===== src/Interpose/RecvPump/Handles.antt =====
-- `RecvPump` of crates/ax25-interpose/src/state.rs as one machine for each handle: what a call does to
-- one handle, from what the pump holds for that handle alone.
use pdn_libax.Prelude.{
  ℕ, ◌-◌, ◌≡◌, refl, sym, ◌∙◌, ap, subst, inl, inr, true, List, [], ◌∷◌, ◌++◌, append-nil, Option,
  none, some, ltb, ◌==◌, ==_iff, ==_refl, if◌then◌else◌, length, take, drop, is_empty, Bytes, Table,
  lookup, map_some, lookup-insert, lookup-remove, lookup-adjust, Unique, Bool-cases, Option-cases,
}
use pdn_libax.Interpose.RecvPump.{
  PendingRecv, Answer, Act, sent, Pump, WriteOutcome, wrote, would_block, fatal, early_stage_cap,
  nb_write, staged, new_entry, stage, buffered, push_written, push_live, push, drain_entry,
  keep_entry, drain_table,
}
use pdn_libax.Interpose.RecvPump.Backlog.{delivered, delivered-append, drain_entry-others}
use pdn_libax.Interpose.RecvPump.Calls.{
  Event, receives, registers, unregisters, marks, drains, shuts_down,
}
use pdn_libax.Interpose.RecvPump.Drain.{drain_table-absent, lookup-keep_entry, delivered-keep_entry}

-- The entry of a handle, its staged bytes, and what its socket has been given.
abbrev pub View : Type 0
View = Option PendingRecv × Option Bytes × Bytes

unfoldable pub seen : ℕ → Pump → View
seen h p = (lookup h p.handles, lookup h p.early, delivered h p.log)

abbrev pub view_buffered : Bytes → View → View
view_buffered bytes (entry, early, given) =
    (map_some (λ e. record e { buf = e.buf ++ bytes }) entry, early, given)

abbrev pub view_written : Bytes → WriteOutcome → View → View
view_written bytes (wrote n) (entry, early, given) =
    let v : View = (entry, early, given ++ take n bytes) in
    if ltb n (length bytes) then view_buffered (drop n bytes) v else v
view_written bytes would_block v = view_buffered bytes v
view_written bytes fatal (entry, early, given) = (none, early, given)

abbrev pub view_live : Bytes → Answer → PendingRecv → View → View
view_live bytes answer e v =
    if is_empty e.buf then view_written bytes (nb_write answer bytes) v else view_buffered bytes v

abbrev pub view_push : Bytes → Answer → View → View
view_push [] answer v = v
view_push (b ∷ bytes) answer (none, early, given) =
    let q = staged early in (none, some (q ++ take (early_stage_cap - length q) (b ∷ bytes)), given)
view_push (b ∷ bytes) answer (some e, early, given) =
    view_live (b ∷ bytes) answer e (some e, early, given)

abbrev pub view_drain : List Answer → ℕ → View → View
view_drain answers h (none, early, given) = (none, early, given)
view_drain answers h (some e, early, given) =
    let (left, acts) = drain_entry answers h e in (left, early, given ++ delivered h acts)

abbrev pub view_eof : View → View
view_eof (entry, early, given) = (map_some (λ e. record e { eof = true }) entry, early, given)

-- A call, for one handle: a call for another handle does nothing to it.
abbrev pub view_step : ℕ → Event → View → View
view_step h (receives k bytes answer) v = if k == h then view_push bytes answer v else v
view_step h (registers k fd) v = if k == h then (some (new_entry fd (staged v.1)), none, v.2) else v
view_step h (unregisters k) v = if k == h then (none, none, v.2) else v
view_step h (marks k) v = if k == h then view_eof v else v
view_step h (drains answers) v = view_drain (answers h) h v
view_step h shuts_down v = view_eof v

buffered-seen :
    (h : ℕ) (bytes : Bytes) (p : Pump)
    → seen h (buffered h bytes p) ≡ view_buffered bytes (seen h p)
unfolding seen
buffered-seen h bytes p =
    rw (lookup-adjust h h (λ e. record e { buf = e.buf ++ bytes }) p.handles, ==_refl h)

sent-seen :
    (h fd : ℕ) (bytes : Bytes) (p : Pump)
    → seen h (record p { log = p.log ++ sent h fd bytes ∷ [] })
      ≡ (lookup h p.handles, lookup h p.early, delivered h p.log ++ bytes)
unfolding seen
sent-seen h fd bytes p =
    rw (delivered-append h p.log (sent h fd bytes ∷ []), ==_refl h, append-nil bytes)

push_written-seen :
    (h fd : ℕ) (bytes : Bytes) (w : WriteOutcome) (p : Pump)
    → seen h (push_written h fd bytes w p) ≡ view_written bytes w (seen h p)
unfolding seen
push_written-seen h fd bytes (wrote n) p = elim (Bool-cases (ltb n (length bytes))) [
  | inl more ↦ rw more (
      buffered-seen h (drop n bytes) (record p { log = p.log ++ sent h fd (take n bytes) ∷ [] })
      ∙ ap (view_buffered (drop n bytes)) (sent-seen h fd (take n bytes) p))
  | inr all ↦ rw all (sent-seen h fd (take n bytes) p)
]
push_written-seen h fd bytes would_block p = buffered-seen h bytes p
push_written-seen h fd bytes fatal p = rw (lookup-remove h h p.handles, ==_refl h)

push_live-seen :
    (h : ℕ) (bytes : Bytes) (answer : Answer) (e : PendingRecv) (p : Pump)
    → seen h (push_live h bytes answer e p) ≡ view_live bytes answer e (seen h p)
unfolding push_live
push_live-seen h bytes answer e p = elim (Bool-cases (is_empty e.buf)) [
  | inl empty ↦
      rw (push_live, empty) (push_written-seen h e.inner_fd bytes (nb_write answer bytes) p)
  | inr more ↦ rw (push_live, more) (buffered-seen h bytes p)
]

stage-seen :
    (h : ℕ) (bytes : Bytes) (p : Pump)
    → let q = staged (lookup h p.early) in
      seen h (stage h bytes p)
      ≡ (lookup h p.handles, some (q ++ take (early_stage_cap - length q) bytes), delivered h p.log)
unfolding seen stage
stage-seen h bytes p =
    let q = staged (lookup h p.early) in
    rw (lookup-insert h h (q ++ take (early_stage_cap - length q) bytes) p.early, ==_refl h)

pub push-seen :
    (h : ℕ) (bytes : Bytes) (answer : Answer) (p : Pump)
    → seen h (push h bytes answer p) ≡ view_push bytes answer (seen h p)
unfolding seen push
push-seen h [] answer p = refl
push-seen h (b ∷ bytes) answer p = elim (Option-cases (lookup h p.handles)) [
  | inl absent ↦
      let q = staged (lookup h p.early) in
      let given = delivered h p.log in
      let staging : push h (b ∷ bytes) answer p ≡ stage h (b ∷ bytes) p = rw (push, absent) in
      let v : seen h p ≡ (none, lookup h p.early, delivered h p.log) = rw absent in
      ap (seen h) staging
      ∙ stage-seen h (b ∷ bytes) p
      ∙ ap (λ o. (o, some (q ++ take (early_stage_cap - length q) (b ∷ bytes)), given)) absent
      ∙ ap (view_push (b ∷ bytes) answer) (sym v)
  | inr (e, found) ↦
      let live : push h (b ∷ bytes) answer p ≡ push_live h (b ∷ bytes) answer e p =
        rw (push, found) in
      let v : seen h p ≡ (some e, lookup h p.early, delivered h p.log) = rw found in
      ap (seen h) live
      ∙ push_live-seen h (b ∷ bytes) answer e p
      ∙ ap (view_live (b ∷ bytes) answer e) v
      ∙ ap (view_push (b ∷ bytes) answer) (sym v)
]

abbrev pub drained : List Answer → ℕ → Option PendingRecv → Option PendingRecv × Bytes
drained answers h none = (none, [])
drained answers h (some e) = let (left, acts) = drain_entry answers h e in (left, delivered h acts)

abbrev pub table_seen : ℕ → Table PendingRecv × List Act → Option PendingRecv × Bytes
table_seen h t = (lookup h t.0, delivered h t.1)

keep_entry-same :
    (h : ℕ) (o : Option PendingRecv × List Act) (t : Table PendingRecv × List Act)
    → lookup h t.0 ≡ none
    → delivered h t.1 ≡ []
    → table_seen h (keep_entry h o t) ≡ (o.0, delivered h o.1)
unfolding lookup
keep_entry-same h (none, acts) t absent nothing =
    rw (absent, delivered-append h acts t.1, nothing, append-nil (delivered h acts))
keep_entry-same h (some e, acts) t absent nothing =
    rw (==_refl h, delivered-append h acts t.1, nothing, append-nil (delivered h acts))

-- A pass over the table does to a handle what `drain_entry` does to its entry.
pub drain_table-seen :
    (answers : ℕ → List Answer) (h : ℕ) (m : Table PendingRecv)
    → Unique m
    → table_seen h (drain_table answers m) ≡ drained (answers h) h (lookup h m)
unfolding drain_table lookup
drain_table-seen answers h [] u = refl
drain_table-seen answers h ((k, e) ∷ m) u = elim (Bool-cases (k == h)) [
  | inl same ↦
      subst
        (λ i.
          table_seen h (keep_entry i (drain_entry (answers i) i e) (drain_table answers m))
          ≡ drained (answers h) h (if i == h then some e else lookup h m))
        (sym ((==_iff k h).0 same))
        (drain_table-head h (subst (λ i. lookup i m ≡ none) ((==_iff k h).0 same) u.0))
  | inr other ↦
      let o = drain_entry (answers k) k e in
      rw
        (
          lookup-keep_entry k h o (drain_table answers m) other,
          delivered-keep_entry k h o (drain_table answers m),
          drain_entry-others (answers k) k h e other,
          other,
        )
        (drain_table-seen answers h m u.1)
]
  where
    drain_table-head :
        (i : ℕ)
        → lookup i m ≡ none
        → table_seen i (keep_entry i (drain_entry (answers i) i e) (drain_table answers m))
          ≡ drained (answers i) i (if i == i then some e else lookup i m)
    drain_table-head i fresh =
        let (absent, nothing) = drain_table-absent answers i m fresh in
        rw (==_refl i)
          (keep_entry-same i (drain_entry (answers i) i e) (drain_table answers m) absent nothing)
