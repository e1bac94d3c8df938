-- ===== src/Interpose/RecvPump/Drain.antt =====
-- One pass over all entries of the receive pump of crates/ax25-interpose/src/state.rs, seen from one
-- handle.
use pdn_libax.Prelude.{
  ℕ, ◌≡◌, refl, sym, ap, ◌∙◌, inl, inr, true, false, List, [], ◌∷◌, ◌++◌, append-nil, Option, none,
  some, arith, ◌==◌, ==_iff, ==_refl, Table, lookup, Unique, Bool-cases, subst,
}
use pdn_libax.Interpose.RecvPump.{PendingRecv, Answer, Act, drain_entry, drain_table, keep_entry}
use pdn_libax.Interpose.RecvPump.Backlog.{
  delivered, delivered-append, NoneGone, drain_entry-keeps, drain_entry-others,
}

lookup-cons_none :
    (k h : ℕ) (w : PendingRecv) (m : Table PendingRecv)
    → lookup h ((k, w) ∷ m) ≡ none
    → ((k == h) ≡ false) × (lookup h m ≡ none)
unfolding lookup
lookup-cons_none k h w m e = ground arith

lookup-cons_other :
    (k h : ℕ) (w : PendingRecv) (m : Table PendingRecv)
    → (k == h) ≡ false
    → lookup h m ≡ lookup h ((k, w) ∷ m)
unfolding lookup
lookup-cons_other k h w m ne = rw ne

lookup-cons_same :
    (k h : ℕ) (w e : PendingRecv) (m : Table PendingRecv)
    → (k == h) ≡ true
    → lookup h ((k, w) ∷ m) ≡ some e
    → w ≡ e
unfolding lookup
lookup-cons_same k h w e m same eq = ground arith

pub lookup-keep_entry :
    (k h : ℕ) (o : Option PendingRecv × List Act) (t : Table PendingRecv × List Act)
    → (k == h) ≡ false
    → lookup h (keep_entry k o t).0 ≡ lookup h t.0
unfolding lookup
lookup-keep_entry k h (none, acts) t ne = refl
lookup-keep_entry k h (some e, acts) t ne = rw ne

pub delivered-keep_entry :
    (k h : ℕ) (o : Option PendingRecv × List Act) (t : Table PendingRecv × List Act)
    → delivered h (keep_entry k o t).1 ≡ delivered h o.1 ++ delivered h t.1
delivered-keep_entry k h (none, acts) t = delivered-append h acts t.1
delivered-keep_entry k h (some e, acts) t = delivered-append h acts t.1

lookup-keep_same :
    (h : ℕ) (e : PendingRecv) (o : Option PendingRecv × List Act) (t : Table PendingRecv × List Act)
    → o.0 ≡ some e
    → lookup h (keep_entry h o t).0 ≡ some e
unfolding lookup
lookup-keep_same h e (none, acts) t eq = cc
lookup-keep_same h e (some w, acts) t eq = rw (==_refl h) eq

-- One pass over the table, seen from one handle: nothing for a handle that is not there, and for one
-- that is there, what was handed on and what is left make up its backlog.
pub drain_table-absent :
    (answers : ℕ → List Answer) (h : ℕ) (m : Table PendingRecv)
    → lookup h m ≡ none
    → (lookup h (drain_table answers m).0 ≡ none) × (delivered h (drain_table answers m).1 ≡ [])
unfolding drain_table
drain_table-absent answers h [] e = (unfold lookup in refl, refl)
drain_table-absent answers h ((k, w) ∷ m) e =
    let (ne, e') = lookup-cons_none k h w m e in
    let (gone', nothing) = drain_table-absent answers h m e' in
    let o = drain_entry (answers k) k w in
    (
      lookup-keep_entry k h o (drain_table answers m) ne ∙ gone',
      delivered-keep_entry k h o (drain_table answers m)
          ∙ cc (drain_entry-others (answers k) k h w ne, nothing),
    )

drain_table-head :
    (answers : ℕ → List Answer) (h : ℕ) (w : PendingRecv) (m : Table PendingRecv)
    → lookup h m ≡ none
    → NoneGone (answers h)
    → (e' : PendingRecv) × (lookup h (drain_table answers ((h, w) ∷ m)).0 ≡ some e')
      × (delivered h (drain_table answers ((h, w) ∷ m)).1 ++ e'.buf ≡ w.buf)
unfolding drain_table
drain_table-head answers h w m fresh ok =
    let (e', found, kept) = drain_entry-keeps (answers h) h w ok in
    let o = drain_entry (answers h) h w in
    (
      e',
      lookup-keep_same h e' o (drain_table answers m) found,
      rw
          (
            delivered-keep_entry h h o (drain_table answers m),
            (drain_table-absent answers h m fresh).1,
            append-nil (delivered h o.1),
          )
          kept,
    )

drain_table-first :
    (answers : ℕ → List Answer) (h k : ℕ) (w : PendingRecv) (m : Table PendingRecv)
    (e : PendingRecv)
    → lookup k m ≡ none
    → (k == h) ≡ true
    → lookup h ((k, w) ∷ m) ≡ some e
    → NoneGone (answers h)
    → (e' : PendingRecv) × (lookup h (drain_table answers ((k, w) ∷ m)).0 ≡ some e')
      × (delivered h (drain_table answers ((k, w) ∷ m)).1 ++ e'.buf ≡ e.buf)
drain_table-first answers h k w m e fresh same eq ok =
    let eqk = (==_iff k h).0 same in
    let (e', found, kept) =
      drain_table-head answers h w m (subst (λ i. lookup i m ≡ none) eqk fresh) ok in
    subst
      (λ i.
        (e'' : PendingRecv) × (lookup h (drain_table answers ((i, w) ∷ m)).0 ≡ some e'')
        × (delivered h (drain_table answers ((i, w) ∷ m)).1 ++ e''.buf ≡ e.buf))
      (sym eqk) (e', found, kept ∙ ap (λ v. v.buf) (lookup-cons_same k h w e m same eq))

pub drain_table-present :
    (answers : ℕ → List Answer) (h : ℕ) (m : Table PendingRecv) (e : PendingRecv)
    → Unique m
    → lookup h m ≡ some e
    → NoneGone (answers h)
    → (e' : PendingRecv) × (lookup h (drain_table answers m).0 ≡ some e')
      × (delivered h (drain_table answers m).1 ++ e'.buf ≡ e.buf)
unfolding drain_table
drain_table-present answers h [] e u eq ok = absurd (unfold lookup in cc eq)
drain_table-present answers h ((k, w) ∷ m) e u eq ok = elim (Bool-cases (k == h)) [
  | inl same ↦ drain_table-first answers h k w m e u.0 same eq ok
  | inr other ↦
      let (e', found, kept) =
        drain_table-present answers h m e u.1 (lookup-cons_other k h w m other ∙ eq) ok in
      let o = drain_entry (answers k) k w in
      (
        e',
        lookup-keep_entry k h o (drain_table answers m) other ∙ found,
        rw
            (
              delivered-keep_entry k h o (drain_table answers m),
              drain_entry-others (answers k) k h w other,
            )
            kept,
      )
]

keep_entry-Unique :
    (k : ℕ) (o : Option PendingRecv × List Act) (t : Table PendingRecv × List Act)
    → lookup k t.0 ≡ none
    → Unique t.0
    → Unique (keep_entry k o t).0
keep_entry-Unique k (none, acts) t fresh u = u
keep_entry-Unique k (some e, acts) t fresh u = (fresh, u)

pub drain_table-Unique :
    (answers : ℕ → List Answer) (m : Table PendingRecv)
    → Unique m
    → Unique (drain_table answers m).0
unfolding drain_table
drain_table-Unique answers [] u = tt
drain_table-Unique answers ((k, w) ∷ m) u =
    keep_entry-Unique k (drain_entry (answers k) k w) (drain_table answers m)
      (drain_table-absent answers k m u.0).0 (drain_table-Unique answers m u.1)
