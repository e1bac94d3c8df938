-- ===== src/Interpose/RecvPump.antt =====
-- crates/ax25-interpose/src/state.rs: `RecvPump`, which carries received bytes into the socketpair of
-- an application. The pump's methods run under its lock. What the kernel answers to a `send` on our
-- end of the pair is an input (`Answer`); what the pump did to the sockets is a log (`Act`), in which
-- the handle stands beside the descriptor.
pub mod Backlog
pub mod Drain
pub mod Calls
pub mod Delivery
pub mod Staging
pub mod Eof
pub mod Flusher
pub mod Handles
pub mod Own
pub mod Ends
mod Tests
use pdn_libax.Prelude.{
  ℕ, ◌-◌, ◌*◌, Bool, true, false, ◌&&◌, ◌||◌, not, List, [], ◌∷◌, ◌++◌, Option, none, some, ltb,
  ◌==◌, if◌then◌else◌, length, take, drop, min, is_empty, Bytes, Table, lookup, insert, remove,
  adjust, map_values,
}

pub record PendingRecv : Type 0 where
  pub inner_fd : ℕ
  pub buf : Bytes
  pub eof : Bool
  pub eof_done : Bool

abbrev pub early_stage_cap : ℕ
early_stage_cap = 256 * 1024

-- The answer to one `send`: the socketpair takes up to some number of bytes (the drain loop hands it
-- the front slice of a ring buffer, so it may take fewer than it could), or the application's end is gone.
pub data Answer : Type 0 where
  room : ℕ → Answer
  gone : Answer

pub data WriteOutcome : Type 0 where
  wrote : ℕ → WriteOutcome
  would_block fatal : WriteOutcome

-- What was done to a socket for a handle: bytes sent, or `shutdown(SHUT_WR)`.
pub data Act : Type 0 where
  sent : ℕ → ℕ → Bytes → Act
  shut : ℕ → ℕ → Act

pub record Pump : Type 0 where
  pub handles : Table PendingRecv
  pub early : Table Bytes
  pub log : List Act

abbrev pub send_room : ℕ → Bytes → WriteOutcome
send_room n bytes = if n == 0 then would_block else wrote (min n (length bytes))

unfoldable pub nb_write : Answer → Bytes → WriteOutcome
nb_write (room n) bytes = if is_empty bytes then wrote 0 else send_room n bytes
nb_write gone bytes = if is_empty bytes then wrote 0 else fatal

abbrev pub staged : Option Bytes → Bytes
staged none = []
staged (some q) = q

abbrev pub new_entry : ℕ → Bytes → PendingRecv
new_entry inner_fd buf = record { inner_fd = inner_fd; buf = buf; eof = false; eof_done = false }

unfoldable pub register : ℕ → ℕ → Pump → Pump
register handle inner_fd p = record p {
  early = remove handle p.early;
  handles = insert handle (new_entry inner_fd (staged (lookup handle p.early))) p.handles;
}

unfoldable pub unregister : ℕ → Pump → Pump
unregister handle p = record p { handles = remove handle p.handles; early = remove handle p.early }

-- Bytes for a handle that is not registered yet.
unfoldable pub stage : ℕ → Bytes → Pump → Pump
stage handle bytes p =
    let q = staged (lookup handle p.early) in
    let space = early_stage_cap - length q in
    record p { early = insert handle (q ++ take space bytes) p.early }

abbrev pub buffered : ℕ → Bytes → Pump → Pump
buffered handle bytes p = record p {
  handles = adjust handle (λ e. record e { buf = e.buf ++ bytes }) p.handles;
}

abbrev pub push_written : ℕ → ℕ → Bytes → WriteOutcome → Pump → Pump
push_written handle fd bytes (wrote n) p =
    let p' = record p { log = p.log ++ sent handle fd (take n bytes) ∷ [] } in
    if ltb n (length bytes) then buffered handle (drop n bytes) p' else p'
push_written handle fd bytes would_block p = buffered handle bytes p
push_written handle fd bytes fatal p = record p { handles = remove handle p.handles }

-- Bytes for a registered handle: straight to the socket if nothing is buffered.
unfoldable pub push_live : ℕ → Bytes → Answer → PendingRecv → Pump → Pump
unfolding nb_write
push_live handle bytes answer e p =
    if is_empty e.buf
    then push_written handle e.inner_fd bytes (nb_write answer bytes) p
    else buffered handle bytes p

unfoldable pub push : ℕ → Bytes → Answer → Pump → Pump
unfolding stage push_live
push handle [] answer p = p
push handle (b ∷ bytes) answer p = elim (lookup handle p.handles) [
  | none ↦ stage handle (b ∷ bytes) p
  | some e ↦ push_live handle (b ∷ bytes) answer e p
]

unfoldable pub mark_eof : ℕ → Pump → Pump
mark_eof handle p = record p { handles = adjust handle (λ e. record e { eof = true }) p.handles }

unfoldable pub shutdown_all : Pump → Pump
shutdown_all p = record p { handles = map_values (λ e. record e { eof = true }) p.handles }

-- The `while` loop over one backlog. The answers are those to its sends in order; when they are used
-- up the socket is full. The result has what is left, what was done, and whether the end is gone.
pub record Drained : Type 0 where
  pub left : Bytes
  pub acts : List Act
  pub dead : Bool

abbrev pub drain_written : WriteOutcome → ℕ → ℕ → Bytes → (Bytes → Drained) → Drained
drain_written (wrote n) handle fd buf more =
    let rest = more (drop n buf) in record rest { acts = sent handle fd (take n buf) ∷ rest.acts }
drain_written would_block handle fd buf more = record { left = buf; acts = []; dead = false }
drain_written fatal handle fd buf more = record { left = buf; acts = []; dead = true }

unfoldable pub drain_buf : List Answer → ℕ → ℕ → Bytes → Drained
unfolding nb_write
drain_buf answers handle fd [] = record { left = []; acts = []; dead = false }
drain_buf [] handle fd (b ∷ buf) = record { left = b ∷ buf; acts = []; dead = false }
drain_buf (a ∷ answers) handle fd (b ∷ buf) =
    drain_written (nb_write a (b ∷ buf)) handle fd (b ∷ buf)
      (λ buf'. drain_buf answers handle fd buf')

-- One entry of `drain_pass`: its new state (`none` if it is dropped), and what was done. End of file
-- is signalled once, behind the backlog.
unfoldable pub drain_entry : List Answer → ℕ → PendingRecv → Option PendingRecv × List Act
unfolding drain_buf
drain_entry answers handle e =
    let d = drain_buf answers handle e.inner_fd e.buf in
    if d.dead
    then (none, d.acts)
    else if is_empty d.left && e.eof && not e.eof_done
    then (some (record e { buf = d.left; eof_done = true }), d.acts ++ shut handle e.inner_fd ∷ [])
    else (some (record e { buf = d.left }), d.acts)

abbrev pub keep_entry :
    ℕ → Option PendingRecv × List Act → Table PendingRecv × List Act → Table PendingRecv × List Act
keep_entry handle (none, acts) (m, rest) = (m, acts ++ rest)
keep_entry handle (some e, acts) (m, rest) = ((handle, e) ∷ m, acts ++ rest)

unfoldable pub drain_table : (ℕ → List Answer) → Table PendingRecv → Table PendingRecv × List Act
unfolding drain_entry
drain_table answers [] = ([], [])
drain_table answers ((handle, e) ∷ m) =
    keep_entry handle (drain_entry (answers handle) handle e) (drain_table answers m)

-- The descriptors that still have a backlog.
unfoldable pub blocked_fds : Table PendingRecv → List ℕ
blocked_fds [] = []
blocked_fds ((handle, e) ∷ m) = if is_empty e.buf then blocked_fds m else e.inner_fd ∷ blocked_fds m

unfoldable pub drain_pass : (ℕ → List Answer) → Pump → Pump × List ℕ
unfolding drain_table blocked_fds
drain_pass answers p =
    let (handles, acts) = drain_table answers p.handles in
    (record p { handles = handles; log = p.log ++ acts }, blocked_fds handles)

abbrev pub entry_has_work : PendingRecv → Bool
entry_has_work e = not (is_empty e.buf) || e.eof && not e.eof_done

unfoldable pub any_work : Table PendingRecv → Bool
any_work [] = false
any_work ((handle, e) ∷ m) = entry_has_work e || any_work m

-- The condition on which the flusher thread waits, and `has_work`.
unfoldable pub has_work : Pump → Bool
unfolding any_work
has_work p = any_work p.handles

-- One round of `flusher_loop`, which parks while there is no work: the pump, and the descriptors whose
-- room it then waits for.
unfoldable pub flusher_turn : (ℕ → List Answer) → Pump → Pump × List ℕ
unfolding has_work drain_pass
flusher_turn answers p = if has_work p then drain_pass answers p else (p, [])

-- Rounds of `flusher_loop`, each with the answers to its sends.
unfoldable pub flusher_loop : List (ℕ → List Answer) → Pump → Pump
unfolding flusher_turn
flusher_loop [] p = p
flusher_loop (answers ∷ rounds) p = flusher_loop rounds (flusher_turn answers p).0
