-- ===== src/Interpose/DgramPump/Tests.antt =====
-- The theorems on the datagram pump at a handle with two datagrams.
use pdn_libax.Prelude.{◌≡◌, refl, true, List, [], ◌∷◌, none, Table, arith}
use pdn_libax.Interpose.DgramPump.{Datagram, got, eof, Line, new_line, recv_entry, shutdown_entry}
use pdn_libax.Interpose.DgramPump.Signals.{
  Use, registers, pushes, takes, shuts, run, AllReady, run-AllReady, shutdown_entry-recv_entry,
}

abbrev first : Datagram
first = record { source = none; payload = 0xF0 ∷ 1 ∷ [] }

abbrev second : Datagram
second = record { source = none; payload = 0xF0 ∷ 2 ∷ [] }

abbrev uses : List Use
uses = registers 4 20 21 ∷ pushes 4 first ∷ pushes 4 second ∷ takes 4 ∷ shuts ∷ takes 4 ∷ []

run-AllReady_example : AllReady (run uses [])
run-AllReady_example = run-AllReady uses

abbrev signalled : Line
signalled = record {
  entry = record (new_line 20 21).entry { queue = first ∷ []; signaled = true };
  unread = 1;
}

shutdown_entry-recv_entry_example :
    ((recv_entry (shutdown_entry true signalled)).0 ≡ got first)
    × ((recv_entry (shutdown_entry true signalled)).1.unread ≡ 0)
    × ((recv_entry (recv_entry (shutdown_entry true signalled)).1).0 ≡ eof)
shutdown_entry-recv_entry_example =
    shutdown_entry-recv_entry first signalled refl refl (refl, (λ e. absurd (cc e)), omega arith)

abbrev opened : Table Line
opened = (4, new_line 20 21) ∷ []
