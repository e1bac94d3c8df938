-- ===== src/Interpose/RecvPump/Own.antt =====
-- What the receive pump of crates/ax25-interpose/src/state.rs does to the socket of one handle, in order.
use pdn_libax.Prelude.{
  ℕ, ◌≡◌, refl, ap, ◌∙◌, inl, inr, false, List, [], ◌∷◌, ◌++◌, append-nil, Option, none, some,
  arith, subst, ◌==◌, ==_iff, ==_refl, if◌then◌else◌, drop, All, All-append, Bytes, Table, lookup,
  is_empty, not, ◌&&◌, Unique, Bool-cases,
}
use pdn_libax.Interpose.RecvPump.{
  PendingRecv, Answer, Act, sent, shut, WriteOutcome, wrote, would_block, fatal, nb_write, Drained,
  drain_written, drain_buf, drain_entry, keep_entry, drain_table,
}
use pdn_libax.Interpose.RecvPump.Backlog.{delivered}

abbrev act_handle : Act → ℕ
act_handle (sent k fd bytes) = k
act_handle (shut k fd) = k

-- What was done to the socket of one handle, in order.
abbrev pub own : ℕ → List Act → List Act
own h [] = []
own h (a ∷ acts) = if act_handle a == h then a ∷ own h acts else own h acts

pub own-append : (h : ℕ) (xs ys : List Act) → own h (xs ++ ys) ≡ own h xs ++ own h ys
own-append h [] ys = refl
own-append h (a ∷ xs) ys = ground (arith, own-append h xs ys)

pub delivered-own : (h : ℕ) (acts : List Act) → delivered h (own h acts) ≡ delivered h acts
delivered-own h [] = refl
delivered-own h (sent k fd bytes ∷ acts) = ground (arith, delivered-own h acts)
delivered-own h (shut k fd ∷ acts) = ground (arith, delivered-own h acts)

abbrev Only : ℕ → List Act → Type 0
Only k acts = All (λ a. act_handle a ≡ k) acts

own-Only : (h : ℕ) (acts : List Act) → Only h acts → own h acts ≡ acts
own-Only h [] only = refl
own-Only h (a ∷ acts) only = rw (only.0, ==_refl h, own-Only h acts only.1) refl

own_other : (h k : ℕ) (acts : List Act) → (k == h) ≡ false → Only k acts → own h acts ≡ []
own_other h k [] other only = refl
own_other h k (a ∷ acts) other only = rw (only.0, other) (own_other h k acts other only.1)

drain_written-Only :
    (h fd : ℕ) (buf : Bytes) (more : Bytes → Drained) (w : WriteOutcome)
    → ((xs : Bytes) → Only h (more xs).acts)
    → Only h (drain_written w h fd buf more).acts
drain_written-Only h fd buf more (wrote n) only = (refl, only (drop n buf))
drain_written-Only h fd buf more would_block only = tt
drain_written-Only h fd buf more fatal only = tt

drain_buf-Only :
    (answers : List Answer) (h fd : ℕ) (buf : Bytes) → Only h (drain_buf answers h fd buf).acts
unfolding drain_buf
drain_buf-Only [] h fd [] = tt
drain_buf-Only (a ∷ answers) h fd [] = tt
drain_buf-Only [] h fd (b ∷ buf) = tt
drain_buf-Only (a ∷ answers) h fd (b ∷ buf) =
    drain_written-Only h fd (b ∷ buf) (λ xs. drain_buf answers h fd xs) (nb_write a (b ∷ buf))
      (λ xs. drain_buf-Only answers h fd xs)

drain_entry-Only :
    (answers : List Answer) (h : ℕ) (e : PendingRecv) → Only h (drain_entry answers h e).1
unfolding drain_entry
drain_entry-Only answers h e =
    let d = drain_buf answers h e.inner_fd e.buf in
    let sends = drain_buf-Only answers h e.inner_fd e.buf in
    elim (Bool-cases d.dead) [
      | inl dead ↦ rw dead sends
      | inr alive ↦ elim (Bool-cases (is_empty d.left && e.eof && not e.eof_done)) [
        | inl ends ↦
            rw (alive, ends) (All-append _ d.acts (shut h e.inner_fd ∷ []) sends (refl, tt))
        | inr goes_on ↦ rw (alive, goes_on) sends
      ]
    ]

own-keep_entry :
    (k h : ℕ) (o : Option PendingRecv × List Act) (t : Table PendingRecv × List Act)
    → own h (keep_entry k o t).1 ≡ own h o.1 ++ own h t.1
own-keep_entry k h (none, acts) t = own-append h acts t.1
own-keep_entry k h (some e, acts) t = own-append h acts t.1

abbrev pub acts_on : List Answer → ℕ → Option PendingRecv → List Act
acts_on answers h none = []
acts_on answers h (some e) = (drain_entry answers h e).1

-- A pass over the table does to the socket of a handle what `drain_entry` does for its entry.
pub drain_table-own :
    (answers : ℕ → List Answer) (h : ℕ) (m : Table PendingRecv)
    → Unique m
    → own h (drain_table answers m).1 ≡ acts_on (answers h) h (lookup h m)
unfolding drain_table lookup
drain_table-own answers h [] u = refl
drain_table-own answers h ((k, e) ∷ m) u =
    let o = drain_entry (answers k) k e in
    let only = drain_entry-Only (answers k) k e in
    own-keep_entry k h o (drain_table answers m) ∙ elim (Bool-cases (k == h)) [
      | inl same ↦
          let here : k ≡ h = (==_iff k h).0 same in
          let rest : own h (drain_table answers m).1 ≡ [] =
            drain_table-own answers h m u.1
            ∙ ap (acts_on (answers h) h) (subst (λ i. lookup i m ≡ none) here u.0) in
          let first : own h o.1 ≡ (drain_entry (answers h) h e).1 =
            subst (λ i. own i (drain_entry (answers k) k e).1 ≡ (drain_entry (answers i) i e).1)
              here (own-Only k o.1 only) in
          rw (same, rest, append-nil (own h o.1)) first
      | inr other ↦ rw (own_other h k o.1 other only, other) (drain_table-own answers h m u.1)
    ]
