-- ===== src/Interpose/RecvPump/Flusher.antt =====
-- `flusher_loop` of crates/ax25-interpose/src/state.rs: when it parks and when it waits for room.
use pdn_libax.Prelude.{
  ℕ, zero, suc, ◌≡◌, ◌≤◌, ◌<◌, ◌-◌, refl, ◌∙◌, ap, subst, inl, inr, true, false, not, List, [], ◌∷◌,
  Option, none, some, arith, if◌then◌else◌, length, drop, length-append, length-drop, min, is_empty,
  Bytes, Table, All, Bool-cases,
}
use pdn_libax.Interpose.RecvPump.{
  PendingRecv, Answer, room, gone, Act, Pump, drain_buf, drain_entry, keep_entry, drain_table,
  blocked_fds, drain_pass, entry_has_work, any_work, has_work, flusher_turn, flusher_loop,
}
use pdn_libax.Interpose.RecvPump.Backlog.{send_room-suc, delivered, drain_buf-sum}

-- Behind a pass an entry has work exactly if it has a backlog.
drain_entry-work :
    (answers : List Answer) (h : ℕ) (e e' : PendingRecv)
    → (drain_entry answers h e).0 ≡ some e'
    → entry_has_work e' ≡ not (is_empty e'.buf)
unfolding drain_entry
drain_entry-work answers h e e' kept = ground arith

drain_entry-left :
    (answers : List Answer) (h : ℕ) (e e' : PendingRecv)
    → (drain_entry answers h e).0 ≡ some e'
    → e'.buf ≡ (drain_buf answers h e.inner_fd e.buf).left
unfolding drain_entry
drain_entry-left answers h e e' kept = ground arith

keep_entry-work :
    (k : ℕ) (o : Option PendingRecv × List Act) (t : Table PendingRecv × List Act)
    → ((e' : PendingRecv) → o.0 ≡ some e' → entry_has_work e' ≡ not (is_empty e'.buf))
    → any_work t.0 ≡ not (is_empty (blocked_fds t.0))
    → any_work (keep_entry k o t).0 ≡ not (is_empty (blocked_fds (keep_entry k o t).0))
unfolding any_work blocked_fds
keep_entry-work k (none, acts) t work rest = rest
keep_entry-work k (some e', acts) t work rest = ground (arith, work e' refl, rest)

drain_table-work :
    (answers : ℕ → List Answer) (m : Table PendingRecv)
    → any_work (drain_table answers m).0 ≡ not (is_empty (blocked_fds (drain_table answers m).0))
unfolding drain_table any_work blocked_fds
drain_table-work answers [] = refl
drain_table-work answers ((k, e) ∷ m) =
    keep_entry-work k (drain_entry (answers k) k e) (drain_table answers m)
      (λ e' kept. drain_entry-work (answers k) k e e' kept) (drain_table-work answers m)

-- Whatever the sockets answer, the flusher thread does not spin and does not forget: a round that found
-- work leaves work exactly if it names a descriptor to wait for, and a round without work changes
-- nothing and waits for none.
pub flusher_turn-work :
    (answers : ℕ → List Answer) (p : Pump)
    → let (p', fds) = flusher_turn answers p in
      (has_work p' ≡ not (is_empty fds)) × (has_work p ≡ false → p' ≡ p)
unfolding flusher_turn has_work drain_pass
flusher_turn-work answers p = elim (Bool-cases (has_work p)) [
  | inl works ↦ rw works (drain_table-work answers p.handles, λ none_left. absurd (cc none_left))
  | inr parked ↦ rw parked (parked, λ e. refl)
]

-- The first send finds room, or the end gone.
abbrev pub Responds : List Answer → Type 0
Responds [] = ⊥
Responds (room zero ∷ answers) = ⊥
Responds (room (suc n) ∷ answers) = Unit
Responds (gone ∷ answers) = Unit

drain_buf-shrinks :
    (answers : List Answer) (h fd : ℕ) (buf : Bytes)
    → length (drain_buf answers h fd buf).left ≤ length buf
drain_buf-shrinks answers h fd buf =
    let d = drain_buf answers h fd buf in
    omega
      (arith, ap length (drain_buf-sum answers h fd buf), length-append (delivered h d.acts) d.left)

-- A round hands on a byte of each backlog at least.
drain_buf-progress :
    (answers : List Answer) (h fd : ℕ) (buf : Bytes)
    → Responds answers
    → (drain_buf answers h fd buf).dead ≡ false
    → length (drain_buf answers h fd buf).left ≤ length buf - 1
unfolding drain_buf
drain_buf-progress [] h fd buf responds alive = absurd responds
drain_buf-progress (room zero ∷ answers) h fd (b ∷ buf) responds alive = absurd responds
drain_buf-progress (a ∷ answers) h fd [] responds alive = omega arith
drain_buf-progress (gone ∷ answers) h fd (b ∷ buf) responds alive = absurd (cc alive)
drain_buf-progress (room (suc n) ∷ answers) h fd (b ∷ buf) responds alive =
    let m = min (suc n) (length (b ∷ buf)) in
    let shrinks = drain_buf-shrinks answers h fd (drop m (b ∷ buf)) in
    rw (send_room-suc n (b ∷ buf)) (omega (arith, shrinks, length-drop m (b ∷ buf)))

drain_entry-alive :
    (answers : List Answer) (h : ℕ) (e e' : PendingRecv)
    → (drain_entry answers h e).0 ≡ some e'
    → (drain_buf answers h e.inner_fd e.buf).dead ≡ false
unfolding drain_entry
drain_entry-alive answers h e e' kept = ground arith

Fits : ℕ → Table PendingRecv → Type 0
Fits n m = All (λ entry. length entry.1.buf ≤ n) m

keep_entry-Fits :
    (n k : ℕ) (o : Option PendingRecv × List Act) (t : Table PendingRecv × List Act)
    → ((e' : PendingRecv) → o.0 ≡ some e' → length e'.buf ≤ n)
    → Fits n t.0
    → Fits n (keep_entry k o t).0
unfolding Fits
keep_entry-Fits n k (none, acts) t short rest = rest
keep_entry-Fits n k (some e', acts) t short rest = (short e' refl, rest)

drain_table-Fits :
    (n : ℕ) (answers : ℕ → List Answer) (m : Table PendingRecv)
    → ((h : ℕ) → Responds (answers h))
    → Fits n m
    → Fits (n - 1) (drain_table answers m).0
unfolding drain_table Fits
drain_table-Fits n answers [] responds fits = tt
drain_table-Fits n answers ((k, e) ∷ m) responds fits =
    keep_entry-Fits (n - 1) k (drain_entry (answers k) k e) (drain_table answers m)
      (λ e' kept.
        let left = drain_entry-left (answers k) k e e' kept in
        let less =
          drain_buf-progress (answers k) k e.inner_fd e.buf (responds k)
            (drain_entry-alive (answers k) k e e' kept) in
        omega (arith, ap length left, less, fits.0))
      (drain_table-Fits n answers m responds fits.1)

Fits-blocked : (m : Table PendingRecv) → Fits 0 m → blocked_fds m ≡ []
unfolding Fits blocked_fds
Fits-blocked [] fits = refl
Fits-blocked ((k, e) ∷ m) fits = by_buf e.buf fits.0 (Fits-blocked m fits.1)
  where
    by_buf :
        (buf : Bytes)
        → length buf ≤ 0
        → blocked_fds m ≡ []
        → (if is_empty buf then blocked_fds m else e.inner_fd ∷ blocked_fds m) ≡ []
    by_buf [] short rest = rest
    by_buf (b ∷ buf) short rest = absurd (omega arith)

flusher_loop-parked :
    (rounds : List (ℕ → List Answer)) (p : Pump) → has_work p ≡ false → flusher_loop rounds p ≡ p
unfolding flusher_loop
flusher_loop-parked [] p parked = refl
flusher_loop-parked (answers ∷ rounds) p parked =
    rw ((flusher_turn-work answers p).1 parked) (flusher_loop-parked rounds p parked)

flusher_turn-Fits :
    (n : ℕ) (answers : ℕ → List Answer) (p : Pump)
    → has_work p ≡ true
    → ((h : ℕ) → Responds (answers h))
    → Fits n p.handles
    → Fits (n - 1) (flusher_turn answers p).0.handles
unfolding flusher_turn drain_pass has_work
flusher_turn-Fits n answers p works responds fits =
    rw works (drain_table-Fits n answers p.handles responds fits)

-- A round on empty backlogs signals what is to be signalled, and then there is no work.
flusher_turn-last :
    (answers : ℕ → List Answer) (p : Pump)
    → has_work p ≡ true
    → Fits 0 (flusher_turn answers p).0.handles
    → has_work (flusher_turn answers p).0 ≡ false
unfolding flusher_turn drain_pass has_work
flusher_turn-last answers p works fits =
    let turn : flusher_turn answers p ≡ drain_pass answers p = rw (flusher_turn, works) in
    let fits' : Fits 0 (drain_pass answers p).0.handles =
      subst (λ t. Fits 0 t.0.handles) turn fits in
    rw works (
      drain_table-work answers p.handles
      ∙ ap (λ fds. not (is_empty fds)) (Fits-blocked (drain_table answers p.handles).0 fits'))

-- The flusher thread comes to rest: if the application, whenever it is waited for, makes room for a byte
-- or closes its end, then one round more than the longest backlog has bytes leaves no work, neither
-- a backlog nor an end of file to signal.
pub flusher_loop-parks :
    (rounds : List (ℕ → List Answer)) (n : ℕ) (p : Pump)
    → All (λ (e : ℕ × PendingRecv). length e.1.buf ≤ n) p.handles
    → All (λ answers. (h : ℕ) → Responds (answers h)) rounds
    → n < length rounds
    → has_work (flusher_loop rounds p) ≡ false
unfolding flusher_loop has_work Fits
flusher_loop-parks [] n p fits responds more = absurd (omega arith)
flusher_loop-parks (answers ∷ rounds) zero p fits responds more = elim (Bool-cases (has_work p)) [
  | inr parked ↦ rw (flusher_loop-parked (answers ∷ rounds) p parked) parked
  | inl works ↦
      let rests =
        flusher_turn-last answers p works (flusher_turn-Fits 0 answers p works responds.0 fits) in
      rw (flusher_loop-parked rounds (flusher_turn answers p).0 rests) rests
]
flusher_loop-parks (answers ∷ rounds) (suc n) p fits responds more =
    elim (Bool-cases (has_work p)) [
      | inr parked ↦ rw (flusher_loop-parked (answers ∷ rounds) p parked) parked
      | inl works ↦
          flusher_loop-parks rounds n (flusher_turn answers p).0
            (subst (λ k. Fits k (flusher_turn answers p).0.handles) (omega arith)
              (flusher_turn-Fits (suc n) answers p works responds.0 fits))
            responds.1 (omega arith)
    ]
