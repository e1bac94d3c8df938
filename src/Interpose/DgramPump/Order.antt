-- ===== src/Interpose/DgramPump/Order.antt =====
-- The order of the datagrams of `DgramPump` (crates/ax25-interpose/src/state.rs).
use pdn_libax.Prelude.{
  ℕ, zero, suc, ◌≤◌, ◌<◌, ◌≡◌, refl, sym, ap, ◌∙◌, inl, inr, Bool, true, ◌&&◌, not, List, [], ◌∷◌,
  ◌++◌, append_assoc, append-nil, some, arith, ltb, ==_refl, length, length-append, is_empty, Table,
  lookup, lookup-adjust, Bool-cases, subst,
}
use pdn_libax.Interpose.DgramPump.{
  Datagram, DgramOutcome, got, Line, dgram_queue_cap, raise, push_entry, push, take_front,
  recv_queue, recv_entry, recv_one,
}

abbrev pub push_each : Bool → ℕ → List Datagram → Table Line → Table Line
push_each sends h [] m = m
push_each sends h (dg ∷ dgs) m = push_each sends h dgs (push sends h dg m)

-- What so many takes in a row give.
abbrev pub take_each : ℕ → ℕ → Table Line → List DgramOutcome
take_each zero h m = []
take_each (suc n) h m = let (outcome, m') = recv_one h m in outcome ∷ take_each n h m'

abbrev pub got_each : List Datagram → List DgramOutcome
got_each [] = []
got_each (dg ∷ dgs) = got dg ∷ got_each dgs

-- A handle is registered and has a queue.
abbrev pub Queued : ℕ → List Datagram → Table Line → Type 0
Queued h q m = (l : Line) × (lookup h m ≡ some l) × (l.entry.queue ≡ q)

raise-queue : (sends : Bool) (l : Line) → (raise sends l).entry.queue ≡ l.entry.queue
unfolding raise
raise-queue sends l = elim (Bool-cases (not l.entry.signaled && sends)) [
  | inl up ↦ rw up refl
  | inr down ↦ rw down refl
]

push-Queued :
    (sends : Bool) (h : ℕ) (dg : Datagram) (q : List Datagram) (m : Table Line)
    → length q < dgram_queue_cap
    → Queued h q m
    → Queued h (q ++ dg ∷ []) (push sends h dg m)
unfolding push
push-Queued sends h dg q m fits (l, found, queue) = (
  push_entry sends dg l,
  rw (lookup-adjust h h (push_entry sends dg) m, ==_refl h, found) refl,
  pushed (ground (arith, fits, queue)),
)
  where
    pushed :
        ltb (length l.entry.queue) dgram_queue_cap ≡ true
        → (push_entry sends dg l).entry.queue ≡ q ++ dg ∷ []
    pushed room =
        unfold push_entry in
        rw room (
          raise-queue sends
            (record l { entry = record l.entry { queue = l.entry.queue ++ dg ∷ [] } })
          ∙ ap (λ xs. xs ++ dg ∷ []) queue)

push_each-Queued :
    (sends : Bool) (h : ℕ) (dgs q : List Datagram) (m : Table Line)
    → length (q ++ dgs) ≤ dgram_queue_cap
    → Queued h q m
    → Queued h (q ++ dgs) (push_each sends h dgs m)
push_each-Queued sends h [] q m fits queued = rw (append-nil q) queued
push_each-Queued sends h (dg ∷ dgs) q m fits queued =
    subst (λ xs. Queued h xs (push_each sends h dgs (push sends h dg m)))
      (append_assoc q (dg ∷ []) dgs)
      (push_each-Queued sends h dgs (q ++ dg ∷ []) (push sends h dg m)
        (subst (λ xs. length xs ≤ dgram_queue_cap) (sym (append_assoc q (dg ∷ []) dgs)) fits)
        (push-Queued sends h dg q m (omega (arith, fits, length-append q (dg ∷ dgs))) queued))

take_front-queue : (rest : List Datagram) (l : Line) → (take_front rest l).entry.queue ≡ rest
take_front-queue rest l = elim (Bool-cases (is_empty rest && l.entry.signaled)) [
  | inl last ↦ rw last refl
  | inr more ↦ rw more refl
]

recv_one-Queued :
    (h : ℕ) (dg : Datagram) (q : List Datagram) (m : Table Line)
    → Queued h (dg ∷ q) m
    → ((recv_one h m).0 ≡ got dg) × Queued h q (recv_one h m).1
unfolding recv_one recv_entry
recv_one-Queued h dg q m (l, found, queue) =
    rw (recv_one, found)
      (
        ap (λ xs. (recv_queue xs l).0) queue,
        (
          (recv_queue l.entry.queue l).1,
          rw (lookup-adjust h h (λ v. (recv_queue v.entry.queue v).1) m, ==_refl h, found) refl,
          ap (λ xs. (recv_queue xs l).1.entry.queue) queue ∙ take_front-queue q l,
        ),
      )

take_each-Queued :
    (h : ℕ) (q : List Datagram) (m : Table Line)
    → Queued h q m
    → take_each (length q) h m ≡ got_each q
take_each-Queued h [] m queued = refl
take_each-Queued h (dg ∷ q) m queued =
    let (first, rest) = recv_one-Queued h dg q m queued in
    cc (first, take_each-Queued h q (recv_one h m).1 rest)

-- Datagrams that are pushed on a registered handle with an empty queue, at most 4096 of them, are taken
-- whole and in order, whether the signal bytes could be sent or not.
pub take-push :
    (sends : Bool) (h : ℕ) (dgs : List Datagram) (m : Table Line)
    → length dgs ≤ dgram_queue_cap
    → Queued h [] m
    → take_each (length dgs) h (push_each sends h dgs m) ≡ got_each dgs
take-push sends h dgs m fits queued =
    take_each-Queued h dgs (push_each sends h dgs m) (push_each-Queued sends h dgs [] m fits queued)
