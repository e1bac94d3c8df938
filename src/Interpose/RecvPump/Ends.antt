-- ===== src/Interpose/RecvPump/Ends.antt =====
-- The end of file of crates/ax25-interpose/src/state.rs in the order of what is done to a handle's socket: up
-- to the end of file that the flusher signals.
use pdn_libax.Prelude.{
  ℕ, ◌+◌, ◌≡◌, refl, sym, ap, ◌∙◌, inl, inr, ◌⊎◌, Bool, true, false, List, [], ◌∷◌, ◌++◌,
  append-nil, append_assoc, Option, none, some, arith, ltb, subst, ◌==◌, if◌then◌else◌, length,
  take, drop, Bytes, Table, lookup, lookup-remove, lookup-adjust, lookup-map_values, adjust,
  map_some, is_empty, not, ◌&&◌, Unique, Bool-cases,
}
use pdn_libax.Interpose.RecvPump.{
  PendingRecv, Answer, Act, sent, shut, Pump, WriteOutcome, wrote, would_block, fatal, nb_write,
  stage, buffered, push_written, push, mark_eof, shutdown_all, drain_buf, drain_entry, drain_table,
  drain_pass,
}
use pdn_libax.Interpose.RecvPump.Own.{own, own-append, acts_on, drain_table-own}
use pdn_libax.Interpose.RecvPump.Calls.{push_end}
use pdn_libax.Interpose.RecvPump.Eof.{
  shuts, shuts-append, drain_buf-shuts, is_empty_lem, and_true, drain_entry_done,
}

abbrev pub signalled : Option PendingRecv → Bool
signalled none = false
signalled (some e) = e.eof_done

-- End of file has not been signalled for the handle, and no shutdown was made.
abbrev pub Unsignalled : ℕ → Pump → Type 0
Unsignalled h p = (shuts (own h p.log) ≡ 0) × (signalled (lookup h p.handles) ≡ false)

adjust-signalled :
    (h k : ℕ) (f : PendingRecv → PendingRecv) (m : Table PendingRecv)
    → ((e : PendingRecv) → (f e).eof_done ≡ e.eof_done)
    → signalled (lookup h (adjust k f m)) ≡ signalled (lookup h m)
adjust-signalled h k f m keeps =
    ap signalled (lookup-adjust k h f m) ∙ by_entry (k == h) (lookup h m)
  where
    by_entry :
        (b : Bool) (o : Option PendingRecv)
        → signalled (if b then map_some f o else o) ≡ signalled o
    by_entry false o = refl
    by_entry true none = refl
    by_entry true (some e) = keeps e

own-sent :
    (h k fd : ℕ) (bytes : Bytes) (log : List Act)
    → shuts (own h (log ++ sent k fd bytes ∷ [])) ≡ shuts (own h log)
own-sent h k fd bytes log =
    rw
      (
        own-append h log (sent k fd bytes ∷ []),
        shuts-append (own h log) (own h (sent k fd bytes ∷ [])),
      )
      (elim (Bool-cases (k == h)) [
        | inl same ↦ rw same (omega arith)
        | inr other ↦ rw other (omega arith)
      ])

buffered-Unsignalled :
    (h k : ℕ) (bytes : Bytes) (p : Pump) → Unsignalled h p → Unsignalled h (buffered k bytes p)
buffered-Unsignalled h k bytes p (none_yet, fresh) = (
  none_yet,
  adjust-signalled h k (λ e. record e { buf = e.buf ++ bytes }) p.handles (λ e. refl) ∙ fresh,
)

push_written-Unsignalled :
    (h k fd : ℕ) (bytes : Bytes) (w : WriteOutcome) (p : Pump)
    → Unsignalled h p
    → Unsignalled h (push_written k fd bytes w p)
push_written-Unsignalled h k fd bytes (wrote n) p (none_yet, fresh) =
    let p' = record p { log = p.log ++ sent k fd (take n bytes) ∷ [] } in
    let now : Unsignalled h p' = (own-sent h k fd (take n bytes) p.log ∙ none_yet, fresh) in
    elim (Bool-cases (ltb n (length bytes))) [
      | inl more ↦ rw more (buffered-Unsignalled h k (drop n bytes) p' now)
      | inr all ↦ rw all now
    ]
push_written-Unsignalled h k fd bytes would_block p u = buffered-Unsignalled h k bytes p u
push_written-Unsignalled h k fd bytes fatal p (none_yet, fresh) =
    (none_yet, ap signalled (lookup-remove k h p.handles) ∙ by_key (k == h))
  where
    by_key : (b : Bool) → signalled (if b then none else lookup h p.handles) ≡ false
    by_key true = refl
    by_key false = fresh

pub push-Unsignalled :
    (h k : ℕ) (bytes : Bytes) (a : Answer) (p : Pump)
    → Unsignalled h p
    → Unsignalled h (push k bytes a p)
unfolding stage
push-Unsignalled h k bytes a p u = elim (push_end k bytes a p) [
  | inl (none_came, same) ↦ subst (Unsignalled h) (sym same) u
  | inr (inl (absent, staged')) ↦ subst (Unsignalled h) (sym staged') u
  | inr (inr (e, found, inl (empty, written))) ↦
      subst (Unsignalled h) (sym written)
        (push_written-Unsignalled h k e.inner_fd bytes (nb_write a bytes) p u)
  | inr (inr (e, found, inr kept)) ↦
      subst (Unsignalled h) (sym kept) (buffered-Unsignalled h k bytes p u)
]

-- Everything that was done to the handle's socket are sends, and then the only shutdown, of the entry's own
-- descriptor; nothing is left to send, and the end is marked as signalled.
abbrev pub Signalled : ℕ → PendingRecv → Pump → Type 0
Signalled h e p =
    (e.buf ≡ [])
    × (e.eof_done ≡ true)
    × (sends : List Act) × (own h p.log ≡ sends ++ shut h e.inner_fd ∷ [])
    × (shuts sends ≡ 0)

pub own-drain_pass :
    (answers : ℕ → List Answer) (h : ℕ) (p : Pump) (e : PendingRecv)
    → Unique p.handles
    → lookup h p.handles ≡ some e
    → own h (drain_pass answers p).0.log ≡ own h p.log ++ (drain_entry (answers h) h e).1
unfolding drain_pass
own-drain_pass answers h p e u found =
    own-append h p.log (drain_table answers p.handles).1
    ∙ ap (λ acts. own h p.log ++ acts)
        (drain_table-own answers h p.handles u ∙ ap (acts_on (answers h) h) found)

-- A pass over an entry whose end was not signalled signals it behind the last send, or leaves it
-- unsignalled.
abbrev Ends : ℕ → PendingRecv → List Act → Type 0
Ends h e acts =
    ((e.eof_done ≡ false) × (shuts acts ≡ 0))
    ⊎ ((e.buf ≡ [])
        × (e.eof_done ≡ true)
        × (sends : List Act) × (acts ≡ sends ++ shut h e.inner_fd ∷ [])
        × (shuts sends ≡ 0))

some_same : (e e' : PendingRecv) → some e ≡ some e' → e ≡ e'
some_same e e' same = cc same

drain_entry-Ends :
    (answers : List Answer) (h : ℕ) (e e' : PendingRecv)
    → (drain_entry answers h e).0 ≡ some e'
    → e.eof_done ≡ false
    → Ends h e' (drain_entry answers h e).1
unfolding drain_entry
drain_entry-Ends answers h e e' kept fresh =
    let d = drain_buf answers h e.inner_fd e.buf in
    let none_yet = drain_buf-shuts answers h e.inner_fd e.buf in
    elim (Bool-cases d.dead) [
      | inl dead ↦ absurd (ground (arith, kept))
      | inr alive ↦ elim (Bool-cases (is_empty d.left && e.eof && not e.eof_done)) [
        | inl ends ↦
            let o : drain_entry answers h e ≡ (
              some (record e { buf = d.left; eof_done = true }),
              d.acts ++ shut h e.inner_fd ∷ [],
            ) =
              rw (drain_entry, alive, ends) refl in
            let (empty, eof, was) = and_true (is_empty d.left) e.eof e.eof_done ends in
            by_result (record e { buf = d.left; eof_done = true })
              (d.acts ++ shut h e.inner_fd ∷ []) o
              (inr (is_empty_lem d.left empty, refl, d.acts, refl, none_yet))
        | inr goes_on ↦
            let o : drain_entry answers h e ≡ (some (record e { buf = d.left }), d.acts) =
              rw (drain_entry, alive, goes_on) refl in
            by_result (record e { buf = d.left }) d.acts o (inl (fresh, none_yet))
      ]
    ]
  where
    by_result :
        (v : PendingRecv) (acts : List Act)
        → drain_entry answers h e ≡ (some v, acts)
        → Ends h v acts
        → Ends h e' (drain_entry answers h e).1
    by_result v acts o ends =
        subst (λ x. Ends h e' x.1) (sym o)
          (subst (λ x. Ends h x acts) (some_same v e' (sym (ap (λ x. x.0) o) ∙ kept)) ends)

zero_sum : {a b : ℕ} → a ≡ 0 → b ≡ 0 → a + b ≡ 0
zero_sum a b = omega (arith, a, b)

pub drain_pass-ends :
    (answers : ℕ → List Answer) (h : ℕ) (p : Pump) (e e' : PendingRecv)
    → Unique p.handles
    → lookup h p.handles ≡ some e
    → (drain_entry (answers h) h e).0 ≡ some e'
    → Unsignalled h p ⊎ Signalled h e p
    → ((e'.eof_done ≡ false) × (shuts (own h (drain_pass answers p).0.log) ≡ 0))
      ⊎ Signalled h e' (drain_pass answers p).0
drain_pass-ends answers h p e e' u found kept (inl (none_yet, fresh)) =
    let log = own-drain_pass answers h p e u found in
    elim (drain_entry-Ends (answers h) h e e' kept (ap signalled (sym found) ∙ fresh)) [
      | inl (still, silent) ↦ inl (
        still,
        ap shuts log
            ∙ shuts-append (own h p.log) (drain_entry (answers h) h e).1
            ∙ zero_sum none_yet silent,
      )
      | inr (empty, marked, sends, acts, silent) ↦ inr (
        empty,
        marked,
        own h p.log ++ sends,
        rw (log, acts) (sym (append_assoc (own h p.log) sends (shut h e'.inner_fd ∷ []))),
        shuts-append (own h p.log) sends ∙ zero_sum none_yet silent,
      )
    ]
drain_pass-ends answers h p e e' u found kept (inr (empty, marked, sends, acts, silent)) =
    let log = own-drain_pass answers h p e u found in
    let quiet = drain_entry_done (answers h) h e empty marked in
    let same : e ≡ e' = some_same e e' (sym (ap (λ o. o.0) quiet) ∙ kept) in
    inr (
      subst (λ v. Signalled h v (drain_pass answers p).0) same
        (
          empty,
          marked,
          sends,
          log ∙ ap (λ o. own h p.log ++ o.1) quiet ∙ append-nil (own h p.log) ∙ acts,
          silent,
        ))

pub mark_eof-Unsignalled : (h k : ℕ) (p : Pump) → Unsignalled h p → Unsignalled h (mark_eof k p)
unfolding mark_eof
mark_eof-Unsignalled h k p (none_yet, fresh) =
    (none_yet, adjust-signalled h k (λ e. record e { eof = true }) p.handles (λ e. refl) ∙ fresh)

pub shutdown_all-Unsignalled : (h : ℕ) (p : Pump) → Unsignalled h p → Unsignalled h (shutdown_all p)
unfolding shutdown_all
shutdown_all-Unsignalled h p (none_yet, fresh) = (
  none_yet,
  ap signalled (lookup-map_values (λ e. record e { eof = true }) h p.handles)
      ∙ by_entry (lookup h p.handles)
      ∙ fresh,
)
  where
    by_entry :
        (o : Option PendingRecv)
        → signalled (map_some (λ e. record e { eof = true }) o) ≡ signalled o
    by_entry none = refl
    by_entry (some e) = refl
