-- ===== src/Interpose/RecvPump/Eof.antt =====
-- The end of file of the receive pump of crates/ax25-interpose/src/state.rs (`mark_eof`, `drain_pass`),
-- and its place behind the backlog.
use pdn_libax.Prelude.{
  ℕ, zero, suc, ◌+◌, ◌≤◌, ◌≡◌, ◌≢◌, refl, sym, ap, inl, inr, Bool, true, false, ◌&&◌, not, List, [],
  ◌∷◌, ◌++◌, append-nil, ◌∙◌, Option, none, some, arith, ==_refl, length, drop, min, is_empty, All,
  Bytes, Table, lookup, insert, adjust, lookup-insert, lookup-adjust, Bool-cases, subst,
}
use pdn_libax.Interpose.RecvPump.{
  PendingRecv, Answer, room, gone, Act, sent, shut, Pump, wrote, send_room, staged, new_entry,
  register, mark_eof, drain_buf, drain_entry, drain_table, keep_entry, blocked_fds, drain_pass,
  entry_has_work, any_work, has_work,
}
use pdn_libax.Interpose.RecvPump.Backlog.{delivered, drain_buf-sum, send_room-suc}

-- How often end of file was signalled.
abbrev pub shuts : List Act → ℕ
shuts [] = 0
shuts (sent k fd bytes ∷ acts) = shuts acts
shuts (shut k fd ∷ acts) = suc (shuts acts)

pub shuts-append : (xs ys : List Act) → shuts (xs ++ ys) ≡ shuts xs + shuts ys
shuts-append [] ys = omega arith
shuts-append (sent k fd bytes ∷ xs) ys = shuts-append xs ys
shuts-append (shut k fd ∷ xs) ys = omega (arith, shuts-append xs ys)

pub drain_buf-shuts :
    (answers : List Answer) (h fd : ℕ) (buf : Bytes) → shuts (drain_buf answers h fd buf).acts ≡ 0
unfolding drain_buf
drain_buf-shuts [] h fd [] = refl
drain_buf-shuts (a ∷ answers) h fd [] = refl
drain_buf-shuts [] h fd (b ∷ buf) = refl
drain_buf-shuts (gone ∷ answers) h fd (b ∷ buf) = refl
drain_buf-shuts (room zero ∷ answers) h fd (b ∷ buf) = refl
drain_buf-shuts (room (suc n) ∷ answers) h fd (b ∷ buf) =
    rw (send_room-suc n (b ∷ buf))
      (drain_buf-shuts answers h fd (drop (min (suc n) (length (b ∷ buf))) (b ∷ buf)))

pub is_empty_lem : (bytes : Bytes) → is_empty bytes ≡ true → bytes ≡ []
is_empty_lem [] e = refl
is_empty_lem (b ∷ bytes) e = cc e

pub and_true : (a b c : Bool) → (a && b && not c) ≡ true → (a ≡ true) × (b ≡ true) × (c ≡ false)
and_true a b c e = ground arith

drain_buf_nil :
    (answers : List Answer) (h fd : ℕ)
    → drain_buf answers h fd [] ≡ record { left = []; acts = []; dead = false }
unfolding drain_buf
drain_buf_nil answers h fd = refl

-- A pass over an entry with an empty backlog whose end was signalled changes and does nothing.
pub drain_entry_done :
    (answers : List Answer) (h : ℕ) (e : PendingRecv)
    → e.buf ≡ []
    → e.eof_done ≡ true
    → drain_entry answers h e ≡ (some e, [])
unfolding drain_entry drain_buf
drain_entry_done answers h e empty signalled =
    let nothing : drain_buf answers h e.inner_fd e.buf
        ≡ record { left = e.buf; acts = []; dead = false } =
      rw (empty, drain_buf_nil answers h e.inner_fd) in
    rw (nothing, signalled, not_ending e) refl
  where
    not_ending : (e : PendingRecv) → (is_empty e.buf && e.eof && not true) ≡ false
    not_ending e = ground arith

-- If a pass over an entry signals end of file, what it does to the sockets is a row of sends that together
-- carry the whole backlog, and then, as the last act and the only one of its kind, the shutdown of the
-- entry's own descriptor. End of file was pending and not signalled before, and the entry stays with an
-- empty backlog and marked as signalled, so that no later pass over it does anything to a socket.
pub drain_entry-shut_last :
    (answers : List Answer) (h : ℕ) (e : PendingRecv)
    → shuts (drain_entry answers h e).1 ≢ 0
    → (e.eof ≡ true)
      × (e.eof_done ≡ false)
      × (sends : List Act) × ((drain_entry answers h e).1 ≡ sends ++ shut h e.inner_fd ∷ [])
      × (shuts sends ≡ 0)
      × (delivered h sends ≡ e.buf)
      × (e' : PendingRecv) × ((drain_entry answers h e).0 ≡ some e')
      × ((later : List Answer) → drain_entry later h e' ≡ (some e', []))
unfolding drain_entry
drain_entry-shut_last answers h e some_shut =
    let d = drain_buf answers h e.inner_fd e.buf in
    let none_yet = drain_buf-shuts answers h e.inner_fd e.buf in
    elim (Bool-cases d.dead) [
      | inl dead ↦ absurd (some_shut (rw dead none_yet))
      | inr alive ↦ elim (Bool-cases (is_empty d.left && e.eof && not e.eof_done)) [
        | inl ends ↦
            let (empty, eof, fresh) = and_true (is_empty d.left) e.eof e.eof_done ends in
            let all : delivered h d.acts ≡ e.buf =
              sym (append-nil (delivered h d.acts))
              ∙ ap (λ b. delivered h d.acts ++ b) (sym (is_empty_lem d.left empty))
              ∙ drain_buf-sum answers h e.inner_fd e.buf in
            rw (alive, ends)
              (
                eof,
                fresh,
                d.acts,
                refl,
                none_yet,
                all,
                record e { buf = d.left; eof_done = true },
                refl,
                λ later.
                    drain_entry_done later h (record e { buf = d.left; eof_done = true })
                      (is_empty_lem d.left empty) refl,
              )
        | inr goes_on ↦ absurd (some_shut (rw (alive, goes_on) none_yet))
      ]
    ]

send_all :
    (n : ℕ) (b : ℕ) (buf : Bytes)
    → length (b ∷ buf) ≤ n
    → send_room n (b ∷ buf) ≡ wrote (length (b ∷ buf))
send_all n b buf fits = ground arith

drop_all : (xs : Bytes) → drop (length xs) xs ≡ []
drop_all [] = refl
drop_all (x ∷ xs) = drop_all xs

-- A send with room for the whole backlog.
drain_buf-enough :
    (n h fd : ℕ) (buf : Bytes)
    → length buf ≤ n
    → ((drain_buf (room n ∷ []) h fd buf).left ≡ [])
      × ((drain_buf (room n ∷ []) h fd buf).dead ≡ false)
unfolding drain_buf
drain_buf-enough n h fd [] fits = (refl, refl)
drain_buf-enough n h fd (b ∷ buf) fits = rw (send_all n b buf fits) (
    subst (λ xs. ((drain_buf [] h fd xs).left ≡ []) × ((drain_buf [] h fd xs).dead ≡ false))
      (sym (drop_all buf)) (refl, refl))

abbrev idle : Option PendingRecv → Bool
idle none = true
idle (some e) = not (entry_has_work e) && is_empty e.buf

drain_entry-settles :
    (n h : ℕ) (e : PendingRecv) → length e.buf ≤ n → idle (drain_entry (room n ∷ []) h e).0 ≡ true
unfolding drain_entry
drain_entry-settles n h e fits =
    let (empty, alive) = drain_buf-enough n h e.inner_fd e.buf fits in
    rw (alive, empty)
      (elim (Bool-cases (e.eof && not e.eof_done)) [
        | inl ends ↦ rw ends (not_and e.eof)
        | inr goes_on ↦ rw goes_on (ap (λ b. not b && true) goes_on)
      ])
  where
    not_and : (b : Bool) → (not (b && false) && true) ≡ true
    not_and b = ground arith

abbrev Settled : Table PendingRecv → Type 0
Settled m = (any_work m ≡ false) × (blocked_fds m ≡ [])

keep_entry-settles :
    (k : ℕ) (o : Option PendingRecv × List Act) (t : Table PendingRecv × List Act)
    → idle o.0 ≡ true
    → Settled t.0
    → Settled (keep_entry k o t).0
unfolding any_work blocked_fds
keep_entry-settles k (none, acts) t quiet rest = rest
keep_entry-settles k (some e, acts) t quiet rest = ground (arith, quiet, rest)

drain_table-settles :
    (n : ℕ) (m : Table PendingRecv)
    → All (λ entry. length entry.1.buf ≤ n) m
    → Settled (drain_table (λ h. room n ∷ []) m).0
unfolding drain_table
drain_table-settles n [] ok = unfold any_work blocked_fds in (refl, refl)
drain_table-settles n ((k, e) ∷ m) ok =
    keep_entry-settles k (drain_entry (room n ∷ []) k e) (drain_table (λ h. room n ∷ []) m)
      (drain_entry-settles n k e ok.0) (drain_table-settles n m ok.1)

-- If every socket takes its whole backlog, a drain pass leaves no work and no blocked descriptor.
pub drain_pass-settles :
    (n : ℕ) (p : Pump)
    → All (λ entry. length entry.1.buf ≤ n) p.handles
    → (has_work (drain_pass (λ h. room n ∷ []) p).0 ≡ false)
      × ((drain_pass (λ h. room n ∷ []) p).1 ≡ [])
unfolding drain_pass has_work
drain_pass-settles n p fits = drain_table-settles n p.handles fits

-- For a handle that is not registered, a close before `register` leaves no trace in the entry, while a
-- close behind `register` marks it.
pub mark_eof-register :
    (h fd : ℕ) (p : Pump)
    → lookup h p.handles ≡ none
    → (lookup h (register h fd (mark_eof h p)).handles
        ≡ some (new_entry fd (staged (lookup h p.early))))
      × (lookup h (mark_eof h (register h fd p)).handles
          ≡ some (record (new_entry fd (staged (lookup h p.early))) { eof = true }))
unfolding register mark_eof
mark_eof-register h fd p absent =
    let e = new_entry fd (staged (lookup h p.early)) in
    (
      rw (lookup-insert h h e (adjust h (λ v. record v { eof = true }) p.handles), ==_refl h) refl,
      rw
          (
            lookup-adjust h h (λ v. record v { eof = true }) (insert h e p.handles),
            ==_refl h,
            lookup-insert h h e p.handles,
            ==_refl h,
          )
          refl,
    )
