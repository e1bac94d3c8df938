-- ===== src/Rhp/Client/Ids.antt =====
-- The request ids of `RhpClient` in crates/rhpv2/src/client.rs, over the requests of all threads and the
-- reader thread.
use pdn_libax.Prelude.{
  ℕ, ◌+◌, ◌%◌, ◌<◌, ◌≤◌, ◌≡◌, refl, inl, inr, false, List, [], ◌∷◌, arith, ◌==◌, length, All,
  i64_mod, Option-cases, Bool-cases, subst, sym,
}
use pdn_libax.Rhp.Frame.{Value}
use pdn_libax.Rhp.Frame
use pdn_libax.Rhp.Reader.{Sink, Client, has_id, drop_id, deliver, shut_down}
use pdn_libax.Rhp.Reader.Loop.{dispatch_push-replies, deliver_waiting, deliver_unknown}
use pdn_libax.Rhp.Client.{given, Conn, next_id, open_channel, with_pending}

-- A thread begins or ends a request, the reader takes a frame, or the transport is gone.
pub data Act : Type 0 where
  begins : Act
  finishes : ℕ → Act
  hears : Value → Act
  stops : Act

abbrev taken_id : {S : Type 0} → Conn S → ℕ
taken_id c = (1 + c.last_id) % i64_mod

module _ {S : Type 0} (on : Sink S) where
  unfoldable pub act : Act → Conn S → Conn S
  unfolding next_id deliver shut_down
  act begins c = let (id, c') = next_id c in open_channel (taken_id c) c'
  act (finishes id) c = with_pending (drop_id id) c
  act (hears f) c = record c { core = deliver on f c.core }
  act stops c = record c { core = shut_down on c.core }

  unfoldable pub acts : List Act → Conn S → Conn S
  unfolding act
  acts [] c = c
  acts (a ∷ rest) c = acts rest (act a c)

  -- Every id that waits has been given out.
  GivenOut : ℕ → List ℕ → Type 0
  GivenOut last ids = All (λ id. id ≤ last) ids

  nobody : (last : ℕ) → GivenOut last []
  unfolding GivenOut
  nobody last = tt

  drop_id-GivenOut :
      (last id : ℕ) (ids : List ℕ) → GivenOut last ids → GivenOut last (drop_id id ids)
  unfolding GivenOut
  drop_id-GivenOut last id [] all = tt
  drop_id-GivenOut last id (i ∷ ids) all = elim (Bool-cases (i == id)) [
    | inl same ↦ rw same (drop_id-GivenOut last id ids all.1)
    | inr other ↦ rw other (all.0, drop_id-GivenOut last id ids all.1)
  ]

  later-GivenOut : (last : ℕ) (ids : List ℕ) → GivenOut last ids → GivenOut (1 + last) ids
  unfolding GivenOut
  later-GivenOut last [] all = tt
  later-GivenOut last (i ∷ ids) all = (omega (arith, all.0), later-GivenOut last ids all.1)

  begun_GivenOut : (last : ℕ) (ids : List ℕ) → GivenOut last ids → GivenOut last (last ∷ ids)
  unfolding GivenOut
  begun_GivenOut last ids all = (omega arith, all)

  has_id-GivenOut : (last : ℕ) (ids : List ℕ) → GivenOut last ids → has_id (1 + last) ids ≡ false
  unfolding GivenOut
  has_id-GivenOut last [] all = refl
  has_id-GivenOut last (i ∷ ids) all = ground (arith, all.0, has_id-GivenOut last ids all.1)

  deliver-GivenOut :
      (f : Value) (last : ℕ) (c : Client S)
      → GivenOut last c.pending
      → GivenOut last (deliver on f c).pending
  deliver-GivenOut f last c all = elim (Option-cases (Frame.id f)) [
    | inl e ↦
        let same : (deliver on f c).pending ≡ c.pending =
          unfold deliver in rw (deliver, e) ((dispatch_push-replies on f c).1) in
        rw same all
    | inr (id, e) ↦ elim (Bool-cases (has_id id c.pending)) [
      | inl waits ↦ rw (deliver_waiting on f id c e waits) (drop_id-GivenOut last id c.pending all)
      | inr unknown ↦ rw (deliver_unknown on f id c e unknown, (dispatch_push-replies on f c).1) all
    ]
  ]

  act-GivenOut :
      (a : Act) (c : Conn S)
      → 1 + c.last_id < i64_mod
      → GivenOut c.last_id c.core.pending
      → ((act a c).last_id ≤ 1 + c.last_id) × GivenOut (act a c).last_id (act a c).core.pending
  unfolding act
  act-GivenOut begins c room all =
      let id : taken_id c ≡ 1 + c.last_id = omega arith in
      rw id (
        omega arith,
        begun_GivenOut (1 + c.last_id) (drop_id (1 + c.last_id) c.core.pending) (
            drop_id-GivenOut (1 + c.last_id) (1 + c.last_id) c.core.pending
              (later-GivenOut c.last_id c.core.pending all)),
      )
  act-GivenOut (finishes id) c room all =
      (omega arith, drop_id-GivenOut c.last_id id c.core.pending all)
  act-GivenOut (hears f) c room all = (omega arith, deliver-GivenOut f c.last_id c.core all)
  act-GivenOut stops c room all = (omega arith, nobody c.last_id)

  acts-GivenOut :
      (steps : List Act) (c : Conn S)
      → c.last_id + length steps < i64_mod
      → GivenOut c.last_id c.core.pending
      → ((acts steps c).last_id ≤ c.last_id + length steps)
        × GivenOut (acts steps c).last_id (acts steps c).core.pending
  unfolding acts
  acts-GivenOut [] c room all = (omega arith, all)
  acts-GivenOut (a ∷ rest) c room all =
      let (next, all') = act-GivenOut a c (omega arith) all in
      let (last, all'') = acts-GivenOut rest (act a c) (omega (arith, next)) all' in
      (omega (arith, next, last), all'')

  -- On a connection that has given out no id yet, after fewer than 2^64 - 1 steps of any threads, the id
  -- that the next request takes is not zero, and no request waits under it.
  pub next_id-unused :
      (steps : List Act) (c : Conn S)
      → c.last_id ≡ 0
      → c.core.pending ≡ []
      → 1 + length steps < i64_mod
      → let (r, c') = next_id (acts steps c) in
        (id : ℕ) × (r ≡ given id) × (0 < id) × (has_id id c'.core.pending ≡ false)
  unfolding next_id
  next_id-unused steps c first none_yet room =
      let last = (acts steps c).last_id in
      let none_wait : GivenOut c.last_id c.core.pending =
        subst (GivenOut c.last_id) (sym none_yet) (nobody c.last_id) in
      let (bound, all) = acts-GivenOut steps c (omega (arith, first)) none_wait in
      let id : taken_id (acts steps c) ≡ 1 + last = omega (arith, bound, first) in
      (
        taken_id (acts steps c),
        refl,
        omega (arith, id),
        rw id (has_id-GivenOut last (acts steps c).core.pending all),
      )
