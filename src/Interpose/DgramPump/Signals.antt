-- ===== src/Interpose/DgramPump/Signals.antt =====
-- The readiness byte of `DgramPump` (crates/ax25-interpose/src/state.rs): when it is in the socketpair.
use pdn_libax.Prelude.{
  ℕ, suc, ◌-◌, ◌≤◌, ◌≡◌, refl, ap, inl, inr, Bool, true, false, List, [], ◌∷◌, ◌++◌, arith, ltb,
  length, length-append, All, Table, lookup, insert, adjust-All, remove-All, map_values-All,
  Bool-cases, Option-cases,
}
use pdn_libax.Interpose.DgramPump.{
  Datagram, Line, dgram_queue_cap, register, unregister, raise, push_entry, push, take_front,
  recv_queue, recv_entry, got, eof, recv_one, shutdown_entry, shutdown_all,
}

abbrev pub one_if : Bool → ℕ
one_if true = 1
one_if false = 0

-- One byte is in the pair exactly if the entry says so, one is there while datagrams are queued, and the
-- queue is within its cap.
abbrev pub IsReady : Line → Type 0
IsReady l =
    (l.unread ≡ one_if l.entry.signaled)
    × (l.entry.signaled ≡ false → l.entry.queue ≡ [])
    × (length l.entry.queue ≤ dgram_queue_cap)

-- What the program does to the table.
pub data Use : Type 0 where
  registers : ℕ → ℕ → ℕ → Use
  unregisters : ℕ → Use
  pushes : ℕ → Datagram → Use
  takes : ℕ → Use
  shuts : Use

abbrev pub step : Use → Table Line → Table Line
step (registers handle app_fd inner_fd) m = register handle app_fd inner_fd m
step (unregisters handle) m = unregister handle m
step (pushes handle dg) m = push true handle dg m
step (takes handle) m = (recv_one handle m).1
step shuts m = shutdown_all true m

abbrev pub run : List Use → Table Line → Table Line
run [] m = m
run (u ∷ us) m = run us (step u m)

push_entry-IsReady : (dg : Datagram) (l : Line) → IsReady l → IsReady (push_entry true dg l)
unfolding push_entry raise
push_entry-IsReady dg l (one, idle, cap) =
    elim (Bool-cases (ltb (length l.entry.queue) dgram_queue_cap)) [
      | inl fits ↦ elim (Bool-cases l.entry.signaled) [
        | inl up ↦ rw (fits, up) ((rw up at one), (λ down. absurd (cc down)), longer fits)
        | inr down ↦ rw (fits, down) (ap suc (rw down at one), (λ e. absurd (cc e)), longer fits)
      ]
      | inr full ↦ rw full (one, idle, cap)
    ]
  where
    longer :
        ltb (length l.entry.queue) dgram_queue_cap ≡ true
        → length (l.entry.queue ++ dg ∷ []) ≤ dgram_queue_cap
    longer fits = ground (arith, fits, length-append l.entry.queue (dg ∷ []))

take_front-IsReady :
    (dg : Datagram) (rest : List Datagram) (l : Line)
    → l.entry.queue ≡ dg ∷ rest
    → IsReady l
    → IsReady (take_front rest l)
take_front-IsReady dg rest l eq (one, idle, cap) = elim (Bool-cases l.entry.signaled) [
  | inl up ↦ rest_cases rest shorter up
  | inr down ↦ absurd (cc (eq, idle down))
]
  where
    shorter : length rest ≤ dgram_queue_cap
    shorter = omega (arith, cap, ap length eq)

    rest_cases :
        (rest : List Datagram)
        → length rest ≤ dgram_queue_cap
        → l.entry.signaled ≡ true
        → IsReady (take_front rest l)
    rest_cases [] short up = rw up (ap (λ n. n - 1) (rw up at one), (λ e. refl), short)
    rest_cases (d ∷ rest) short up = (one, (λ down. absurd (cc (up, down))), short)

shutdown_entry-IsReady : (l : Line) → IsReady l → IsReady (shutdown_entry true l)
unfolding shutdown_entry raise
shutdown_entry-IsReady l (one, idle, cap) = elim (Bool-cases l.entry.signaled) [
  | inl up ↦ rw up ((rw up at one), (λ e. absurd (cc e)), cap)
  | inr down ↦ rw down (ap suc (rw down at one), (λ e. absurd (cc e)), cap)
]

recv_entry-IsReady : (l : Line) → IsReady l → IsReady (recv_entry l).1
unfolding recv_entry
recv_entry-IsReady l ready = by_queue l.entry.queue refl
  where
    by_queue : (q : List Datagram) → l.entry.queue ≡ q → IsReady (recv_queue q l).1
    by_queue [] eq = ready
    by_queue (dg ∷ rest) eq = take_front-IsReady dg rest l eq ready

abbrev pub AllReady : Table Line → Type 0
AllReady = All (λ e. IsReady e.1)

step-AllReady : (u : Use) (m : Table Line) → AllReady m → AllReady (step u m)
unfolding register unregister push recv_one shutdown_all insert
step-AllReady (registers h app_fd inner_fd) m all =
    ((refl, (λ e. refl), omega arith), remove-All IsReady h m all)
step-AllReady (unregisters h) m all = remove-All IsReady h m all
step-AllReady (pushes h dg) m all =
    adjust-All IsReady h (push_entry true dg) m (push_entry-IsReady dg) all
step-AllReady (takes h) m all = elim (Option-cases (lookup h m)) [
  | inl absent ↦ rw (step, recv_one, absent) all
  | inr (l, found) ↦
      rw (step, recv_one, found)
        (adjust-All IsReady h (λ v. (recv_entry v).1) m recv_entry-IsReady all)
]
step-AllReady shuts m all =
    map_values-All IsReady (shutdown_entry true) m shutdown_entry-IsReady all

-- After any calls on an empty table, with every send of a signal byte taken: each socketpair holds one
-- unread byte if the entry is marked as signalled and none if not, an entry that is not marked has an
-- empty queue, and no queue is over its cap.
pub run-AllReady : (us : List Use) → AllReady (run us [])
run-AllReady us = go us [] tt
  where
    go : (us : List Use) (m : Table Line) → AllReady m → AllReady (run us m)
    go [] m all = all
    go (u ∷ us) m all = go us (step u m) (step-AllReady u m all)

-- The transport is gone while one datagram is queued and signalled: taking it gives the datagram and
-- also takes the byte, so that nothing in the pair tells of the end of file behind it, while the next
-- take would report it.
pub shutdown_entry-recv_entry :
    (dg : Datagram) (l : Line)
    → l.entry.queue ≡ dg ∷ []
    → l.entry.signaled ≡ true
    → IsReady l
    → let taken = recv_entry (shutdown_entry true l) in
      (taken.0 ≡ got dg) × (taken.1.unread ≡ 0) × ((recv_entry taken.1).0 ≡ eof)
unfolding recv_entry shutdown_entry raise
shutdown_entry-recv_entry dg l queued up (one, idle, cap) =
    rw (up, queued) (refl, ap (λ n. n - 1) (rw up at one), refl)
