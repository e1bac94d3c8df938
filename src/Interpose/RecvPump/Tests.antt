-- ===== src/Interpose/RecvPump/Tests.antt =====
-- The theorems on the receive pump at one session of two handles.
use pdn_libax.Prelude.{
  ◌≡◌, refl, true, false, ℕ, replicate, List, [], ◌∷◌, ◌++◌, some, arith, lookup,
}
use pdn_libax.Interpose.RecvPump.{
  Act, shut, PendingRecv, room, Pump, new_entry, register, mark_eof, drain_entry, has_work, Answer,
  flusher_loop,
}
use pdn_libax.Interpose.RecvPump.Calls.{receives, registers, drains, Event, run}
use pdn_libax.Interpose.RecvPump.Backlog.{delivered}
use pdn_libax.Interpose.RecvPump.Staging.{never_lose}
use pdn_libax.Interpose.RecvPump.Flusher.{flusher_loop-parks}
use pdn_libax.Interpose.RecvPump.Eof.{shuts, drain_entry-shut_last, mark_eof-register}

abbrev idle_pump : Pump
idle_pump = record { handles = []; early = []; log = [] }

abbrev early_calls : List Event
early_calls = receives 7 (1 ∷ 2 ∷ []) (room 9) ∷ receives 8 (5 ∷ []) (room 9) ∷ []

abbrev live_calls : List Event
live_calls =
    receives 7 (3 ∷ 4 ∷ []) (room 9) ∷ drains (λ h. room 1 ∷ []) ∷ receives 7 (6 ∷ []) (room 0) ∷ []

never_lose_example :
    (e : PendingRecv) × (lookup 7
        (run (early_calls ++ registers 7 30 ∷ live_calls) idle_pump).handles
      ≡ some e)
    × (delivered 7 (run (early_calls ++ registers 7 30 ∷ live_calls) idle_pump).log ++ e.buf
        ≡ 1 ∷ 2 ∷ 3 ∷ 4 ∷ 6 ∷ [])
unfolding lookup
never_lose_example =
    never_lose 7 30 early_calls live_calls idle_pump (tt, refl, refl, refl) (tt, (tt, tt))
      (omega arith) (tt, (tt, (tt, tt)))

abbrev closing_entry : PendingRecv
closing_entry = record { inner_fd = 30; buf = 1 ∷ 2 ∷ []; eof = true; eof_done = false }

drain_entry-shut_last_example :
    (true ≡ true)
    × (false ≡ false)
    × (sends : List Act) × ((drain_entry (room 1 ∷ room 5 ∷ []) 7 closing_entry).1
        ≡ sends ++ shut 7 30 ∷ [])
    × (shuts sends ≡ 0)
    × (delivered 7 sends ≡ 1 ∷ 2 ∷ [])
    × (e' : PendingRecv) × ((drain_entry (room 1 ∷ room 5 ∷ []) 7 closing_entry).0 ≡ some e')
    × ((later : List Answer) → drain_entry later 7 e' ≡ (some e', []))
unfolding drain_entry
drain_entry-shut_last_example =
    drain_entry-shut_last (room 1 ∷ room 5 ∷ []) 7 closing_entry (omega arith)

abbrev closing_pump : Pump
closing_pump = record { handles = (7, closing_entry) ∷ []; early = []; log = [] }

abbrev byte_rounds : List (ℕ → List Answer)
byte_rounds = replicate 5 (λ h. room 1 ∷ [])

flusher_loop-parks_example : has_work (flusher_loop byte_rounds closing_pump) ≡ false
flusher_loop-parks_example =
    flusher_loop-parks byte_rounds 4 closing_pump (omega arith, tt)
      ((λ h. tt), ((λ h. tt), ((λ h. tt), ((λ h. tt), ((λ h. tt), tt))))) (omega arith)

mark_eof-register_example :
    (lookup 7 (register 7 30 (mark_eof 7 idle_pump)).handles ≡ some (new_entry 30 []))
    × (lookup 7 (mark_eof 7 (register 7 30 idle_pump)).handles
        ≡ some (record (new_entry 30 []) { eof = true }))
unfolding lookup
mark_eof-register_example = mark_eof-register 7 30 idle_pump refl
