-- ===== src/Interpose/RecvPump/Calls.antt =====
-- Sequences of calls of the receive pump of crates/ax25-interpose/src/state.rs, and what one push may
-- change.
use pdn_libax.Prelude.{
  ℕ, ◌-◌, ◌≡◌, refl, sym, inl, inr, true, false, List, [], ◌∷◌, ◌++◌, append-nil, none, some, ltb,
  ◌⊎◌, subst, ◌==◌, if◌then◌else◌, length, take, drop, is_empty, Bytes, lookup, lookup-insert,
  lookup-remove, lookup-adjust, Unique, remove-Unique, adjust-Unique, Bool-cases, Option-cases,
}
use pdn_libax.Interpose.RecvPump.{
  PendingRecv, Answer, room, gone, Act, sent, Pump, WriteOutcome, wrote, would_block, fatal,
  early_stage_cap, nb_write, staged, register, unregister, stage, buffered, push_written, push_live,
  push, mark_eof, shutdown_all, drain_pass,
}
use pdn_libax.Interpose.RecvPump.Backlog.{delivered, delivered-append, NoneGone}

-- A call of the pump, by the reader thread, the flusher thread or the application's threads.
pub data Event : Type 0 where
  receives : ℕ → Bytes → Answer → Event
  registers : ℕ → ℕ → Event
  unregisters marks : ℕ → Event
  drains : (ℕ → List Answer) → Event
  shuts_down : Event

abbrev pub step : Event → Pump → Pump
step (receives handle bytes answer) p = push handle bytes answer p
step (registers handle fd) p = register handle fd p
step (unregisters handle) p = unregister handle p
step (marks handle) p = mark_eof handle p
step (drains answers) p = (drain_pass answers p).0
step shuts_down p = shutdown_all p

abbrev pub run : List Event → Pump → Pump
run [] p = p
run (e ∷ es) p = run es (step e p)

-- What the node sent to a handle.
abbrev pub received : ℕ → List Event → Bytes
received h [] = []
received h (receives k bytes answer ∷ es) = if k == h then bytes ++ received h es else received h es
received h (registers k fd ∷ es) = received h es
received h (unregisters k ∷ es) = received h es
received h (marks k ∷ es) = received h es
received h (drains answers ∷ es) = received h es
received h (shuts_down ∷ es) = received h es

-- A call that neither registers nor forgets the handle, nor is told that its application is gone.
abbrev pub Spares : ℕ → Event → Type 0
Spares h (receives k bytes (room n)) = Unit
Spares h (receives k bytes gone) = (k == h) ≡ false
Spares h (registers k fd) = (k == h) ≡ false
Spares h (unregisters k) = (k == h) ≡ false
Spares h (marks k) = Unit
Spares h (drains answers) = NoneGone (answers h)
Spares h shuts_down = Unit

-- A handle that is registered, and for which the pump has received some bytes so far.
abbrev pub Live : ℕ → Bytes → Pump → Type 0
Live h bs p =
    Unique p.handles
    × ((e : PendingRecv) × (lookup h p.handles ≡ some e) × (delivered h p.log ++ e.buf ≡ bs))

-- A handle that is not registered yet.
abbrev pub Early : ℕ → Bytes → Pump → Type 0
Early h bs p =
    Unique p.handles
    × (lookup h p.handles ≡ none)
    × (staged (lookup h p.early) ≡ bs)
    × (delivered h p.log ≡ [])

push_written-Unique :
    (k fd : ℕ) (bytes : Bytes) (w : WriteOutcome) (p : Pump)
    → Unique p.handles
    → Unique (push_written k fd bytes w p).handles
push_written-Unique k fd bytes (wrote n) p u = elim (Bool-cases (ltb n (length bytes))) [
  | inl more ↦ rw more (adjust-Unique k (λ e. record e { buf = e.buf ++ drop n bytes }) p.handles u)
  | inr all ↦ rw all u
]
push_written-Unique k fd bytes would_block p u =
    adjust-Unique k (λ e. record e { buf = e.buf ++ bytes }) p.handles u
push_written-Unique k fd bytes fatal p u = remove-Unique k p.handles u

-- The four ways a push ends.
abbrev pub PushEnd : ℕ → Bytes → Answer → Pump → Type 0
PushEnd k bytes a p =
    ((bytes ≡ []) × (push k bytes a p ≡ p))
    ⊎ ((lookup k p.handles ≡ none) × (push k bytes a p ≡ stage k bytes p))
    ⊎ ((e : PendingRecv) × (lookup k p.handles ≡ some e)
        × (((e.buf ≡ [])
              × (push k bytes a p ≡ push_written k e.inner_fd bytes (nb_write a bytes) p))
            ⊎ (push k bytes a p ≡ buffered k bytes p)))

is_empty_lem : (bytes : Bytes) → is_empty bytes ≡ true → bytes ≡ []
is_empty_lem [] e = refl
is_empty_lem (b ∷ bytes) e = cc e

pub push_end : (k : ℕ) (bytes : Bytes) (a : Answer) (p : Pump) → PushEnd k bytes a p
unfolding push push_live
push_end k [] a p = inl (refl, refl)
push_end k (b ∷ bytes) a p = elim (Option-cases (lookup k p.handles)) [
  | inl absent ↦ inr (inl (absent, rw (push, absent) refl))
  | inr (e, found) ↦ inr (
      inr (
        e,
        found,
        elim (Bool-cases (is_empty e.buf)) [
          | inl empty ↦ inl (is_empty_lem e.buf empty, rw (push, found, push_live, empty) refl)
          | inr more ↦ inr (rw (push, found, push_live, more) refl)
        ],
      ))
]

pub push-Unique :
    (k : ℕ) (bytes : Bytes) (a : Answer) (p : Pump)
    → Unique p.handles
    → Unique (push k bytes a p).handles
unfolding stage
push-Unique k bytes a p u = elim (push_end k bytes a p) [
  | inl (none_came, same) ↦ to same u
  | inr (inl (absent, staged')) ↦ to staged' u
  | inr (inr (e, found, inl (empty, written))) ↦
      to written (push_written-Unique k e.inner_fd bytes (nb_write a bytes) p u)
  | inr (inr (e, found, inr kept)) ↦
      to kept (adjust-Unique k (λ v. record v { buf = v.buf ++ bytes }) p.handles u)
]
  where
    to : {q r : Pump} → q ≡ r → Unique r.handles → Unique q.handles
    to eq = subst (λ v. Unique v.handles) (sym eq)

-- Nothing changed for a handle.
abbrev pub Agree : ℕ → Pump → Pump → Type 0
Agree h q p =
    (lookup h q.handles ≡ lookup h p.handles)
    × (lookup h q.early ≡ lookup h p.early)
    × (delivered h q.log ≡ delivered h p.log)

buffered-others :
    (k h : ℕ) (bytes : Bytes) (p : Pump) → (k == h) ≡ false → Agree h (buffered k bytes p) p
buffered-others k h bytes p ne =
    (rw (lookup-adjust k h (λ e. record e { buf = e.buf ++ bytes }) p.handles, ne) refl, refl, refl)

sent-others :
    (k h fd : ℕ) (bytes : Bytes) (log : List Act)
    → (k == h) ≡ false
    → delivered h (log ++ sent k fd bytes ∷ []) ≡ delivered h log
sent-others k h fd bytes log ne =
    rw (delivered-append h log (sent k fd bytes ∷ []), ne) (append-nil (delivered h log))

push_written-others :
    (k h fd : ℕ) (bytes : Bytes) (w : WriteOutcome) (p : Pump)
    → (k == h) ≡ false
    → Agree h (push_written k fd bytes w p) p
push_written-others k h fd bytes (wrote n) p ne = elim (Bool-cases (ltb n (length bytes))) [
  | inl more ↦ rw more (
    rw (lookup-adjust k h (λ e. record e { buf = e.buf ++ drop n bytes }) p.handles, ne) refl,
    refl,
    sent-others k h fd (take n bytes) p.log ne,
  )
  | inr all ↦ rw all (refl, refl, sent-others k h fd (take n bytes) p.log ne)
]
push_written-others k h fd bytes would_block p ne = buffered-others k h bytes p ne
push_written-others k h fd bytes fatal p ne =
    (rw (lookup-remove k h p.handles, ne) refl, refl, refl)

pub push-others :
    (k h : ℕ) (bytes : Bytes) (a : Answer) (p : Pump)
    → (k == h) ≡ false
    → Agree h (push k bytes a p) p
unfolding stage
push-others k h bytes a p ne = elim (push_end k bytes a p) [
  | inl (none_came, same) ↦ to same (refl, refl, refl)
  | inr (inl (absent, staged')) ↦ to staged' (
    refl,
    rw
        (
          lookup-insert k h
              (staged (lookup k p.early)
                ++ take (early_stage_cap - length (staged (lookup k p.early))) bytes)
              p.early,
          ne,
        )
        refl,
    refl,
  )
  | inr (inr (e, found, inl (empty, written))) ↦
      to written (push_written-others k h e.inner_fd bytes (nb_write a bytes) p ne)
  | inr (inr (e, found, inr kept)) ↦ to kept (buffered-others k h bytes p ne)
]
  where
    to : {q r : Pump} → q ≡ r → Agree h r p → Agree h q p
    to eq = subst (λ v. Agree h v p) (sym eq)
