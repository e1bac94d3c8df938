-- ===== src/Interpose/RecvPump/Backlog.antt =====
-- One pass over one entry of the receive pump of crates/ax25-interpose/src/state.rs: what is sent and
-- what is left.
use pdn_libax.Prelude.{
  ℕ, zero, suc, ◌≡◌, refl, inl, inr, true, false, ◌&&◌, not, List, [], ◌∷◌, ◌++◌, append_assoc,
  append-nil, some, arith, ◌==◌, ==_refl, if◌then◌else◌, length, take, drop, take-append-drop, min,
  is_empty, Bytes, Bool-cases,
}
use pdn_libax.Interpose.RecvPump.{
  PendingRecv, Answer, room, gone, Act, sent, shut, wrote, send_room, drain_buf, drain_entry,
}

-- What the sockets were given for a handle.
abbrev pub delivered : ℕ → List Act → Bytes
delivered h [] = []
delivered h (sent k fd bytes ∷ acts) =
    if k == h then bytes ++ delivered h acts else delivered h acts
delivered h (shut k fd ∷ acts) = delivered h acts

pub delivered-append :
    (h : ℕ) (xs ys : List Act) → delivered h (xs ++ ys) ≡ delivered h xs ++ delivered h ys
delivered-append h [] ys = refl
delivered-append h (sent k fd bytes ∷ xs) ys =
    ground (arith, delivered-append h xs ys, append_assoc bytes (delivered h xs) (delivered h ys))
delivered-append h (shut k fd ∷ xs) ys = delivered-append h xs ys

-- No send was told that the application's end is gone.
abbrev pub NoneGone : List Answer → Type 0
NoneGone [] = Unit
NoneGone (room n ∷ answers) = NoneGone answers
NoneGone (gone ∷ answers) = ⊥

pub send_room-suc :
    (n : ℕ) (bytes : Bytes) → send_room (suc n) bytes ≡ wrote (min (suc n) (length bytes))
send_room-suc n bytes = ground arith

-- The loop over a backlog hands on a front part of it.
pub drain_buf-sum :
    (answers : List Answer) (h fd : ℕ) (buf : Bytes)
    → delivered h (drain_buf answers h fd buf).acts ++ (drain_buf answers h fd buf).left ≡ buf
unfolding drain_buf
drain_buf-sum [] h fd [] = refl
drain_buf-sum (a ∷ answers) h fd [] = refl
drain_buf-sum [] h fd (b ∷ buf) = refl
drain_buf-sum (gone ∷ answers) h fd (b ∷ buf) = refl
drain_buf-sum (room zero ∷ answers) h fd (b ∷ buf) = refl
drain_buf-sum (room (suc n) ∷ answers) h fd (b ∷ buf) =
    let m = min (suc n) (length (b ∷ buf)) in
    let rest = drain_buf answers h fd (drop m (b ∷ buf)) in
    rw (send_room-suc n (b ∷ buf)) (
      rw
        (
          ==_refl h,
          append_assoc (take m (b ∷ buf)) (delivered h rest.acts) rest.left,
          drain_buf-sum answers h fd (drop m (b ∷ buf)),
        )
        (take-append-drop m (b ∷ buf)))

drain_buf-alive :
    (answers : List Answer) (h fd : ℕ) (buf : Bytes)
    → NoneGone answers
    → (drain_buf answers h fd buf).dead ≡ false
unfolding drain_buf
drain_buf-alive [] h fd [] ok = refl
drain_buf-alive (a ∷ answers) h fd [] ok = refl
drain_buf-alive [] h fd (b ∷ buf) ok = refl
drain_buf-alive (gone ∷ answers) h fd (b ∷ buf) ok = absurd ok
drain_buf-alive (room zero ∷ answers) h fd (b ∷ buf) ok = refl
drain_buf-alive (room (suc n) ∷ answers) h fd (b ∷ buf) ok =
    rw (send_room-suc n (b ∷ buf))
      (drain_buf-alive answers h fd (drop (min (suc n) (length (b ∷ buf))) (b ∷ buf)) ok)

drain_buf-others :
    (answers : List Answer) (k h fd : ℕ) (buf : Bytes)
    → (k == h) ≡ false
    → delivered h (drain_buf answers k fd buf).acts ≡ []
unfolding drain_buf
drain_buf-others [] k h fd [] ne = refl
drain_buf-others (a ∷ answers) k h fd [] ne = refl
drain_buf-others [] k h fd (b ∷ buf) ne = refl
drain_buf-others (gone ∷ answers) k h fd (b ∷ buf) ne = refl
drain_buf-others (room zero ∷ answers) k h fd (b ∷ buf) ne = refl
drain_buf-others (room (suc n) ∷ answers) k h fd (b ∷ buf) ne =
    rw (send_room-suc n (b ∷ buf), ne)
      (drain_buf-others answers k h fd (drop (min (suc n) (length (b ∷ buf))) (b ∷ buf)) ne)

pub drain_entry-keeps :
    (answers : List Answer) (h : ℕ) (e : PendingRecv)
    → NoneGone answers
    → (e' : PendingRecv) × ((drain_entry answers h e).0 ≡ some e')
      × (delivered h (drain_entry answers h e).1 ++ e'.buf ≡ e.buf)
unfolding drain_entry
drain_entry-keeps answers h e ok =
    let kept = drain_buf-sum answers h e.inner_fd e.buf in
    let alive = drain_buf-alive answers h e.inner_fd e.buf ok in
    let d = drain_buf answers h e.inner_fd e.buf in
    rw alive (elim (Bool-cases (is_empty d.left && e.eof && not e.eof_done)) [
      | inl ends ↦ rw ends (
        record e { buf = d.left; eof_done = true },
        refl,
        rw (delivered-append h d.acts (shut h e.inner_fd ∷ []), append-nil (delivered h d.acts))
            kept,
      )
      | inr goes_on ↦ rw goes_on (record e { buf = d.left }, refl, kept)
    ])

pub drain_entry-others :
    (answers : List Answer) (k h : ℕ) (e : PendingRecv)
    → (k == h) ≡ false
    → delivered h (drain_entry answers k e).1 ≡ []
unfolding drain_entry
drain_entry-others answers k h e ne = ground (
  arith,
  drain_buf-others answers k h e.inner_fd e.buf ne,
  delivered-append h (drain_buf answers k e.inner_fd e.buf).acts (shut k e.inner_fd ∷ []),
  append-nil (delivered h (drain_buf answers k e.inner_fd e.buf).acts),
)
