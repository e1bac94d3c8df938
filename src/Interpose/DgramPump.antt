-- ===== src/Interpose/DgramPump.antt =====
-- crates/ax25-interpose/src/state.rs: `DgramPump`, the queues of received UI datagrams. Beside an entry
-- of the table stands how many unread bytes its socketpair holds, the signal that `select` and `poll`
-- see; whether a `send` of a signal byte succeeds is an input.
pub mod Signals
pub mod Order
mod Tests
use pdn_libax.Prelude.{
  ℕ, suc, ◌-◌, ◌*◌, Bool, true, false, ◌&&◌, not, List, [], ◌∷◌, ◌++◌, Option, none, some, ltb,
  ◌==◌, if◌then◌else◌, length, is_empty, Bytes, Table, lookup, insert, remove, adjust, map_values,
}

-- `Datagram`; its field `data` is `payload` here.
pub record Datagram : Type 0 where
  pub source : Option Bytes
  pub payload : Bytes

pub data DgramOutcome : Type 0 where
  got : Datagram → DgramOutcome
  empty eof no_handle : DgramOutcome

abbrev pub dgram_queue_cap : ℕ
dgram_queue_cap = 4096

pub record DgramEntry : Type 0 where
  pub app_fd : ℕ
  pub inner_fd : ℕ
  pub queue : List Datagram
  pub signaled : Bool
  pub at_eof : Bool

pub record Line : Type 0 where
  pub entry : DgramEntry
  pub unread : ℕ

abbrev pub new_line : ℕ → ℕ → Line
new_line app_fd inner_fd = record {
  entry = record {
    app_fd = app_fd;
    inner_fd = inner_fd;
    queue = [];
    signaled = false;
    at_eof = false;
  };
  unread = 0;
}

unfoldable pub register : ℕ → ℕ → ℕ → Table Line → Table Line
register handle app_fd inner_fd m = insert handle (new_line app_fd inner_fd) m

unfoldable pub unregister : ℕ → Table Line → Table Line
unregister handle m = remove handle m

-- One byte is sent, unless one is in the pair already.
unfoldable pub raise : Bool → Line → Line
raise sends l =
    if not l.entry.signaled && sends
    then record { entry = record l.entry { signaled = true }; unread = suc l.unread }
    else l

unfoldable pub push_entry : Bool → Datagram → Line → Line
unfolding raise
push_entry sends dg l =
    if ltb (length l.entry.queue) dgram_queue_cap
    then raise sends (record l { entry = record l.entry { queue = l.entry.queue ++ dg ∷ [] } })
    else l

unfoldable pub push : Bool → ℕ → Datagram → Table Line → Table Line
unfolding push_entry
push sends handle dg m = adjust handle (push_entry sends dg) m

-- The signal byte is read when the last datagram is taken.
abbrev pub take_front : List Datagram → Line → Line
take_front rest l =
    if is_empty rest && l.entry.signaled
    then record { entry = record l.entry { queue = rest; signaled = false }; unread = l.unread - 1 }
    else record l { entry = record l.entry { queue = rest } }

abbrev pub recv_queue : List Datagram → Line → DgramOutcome × Line
recv_queue (dg ∷ rest) l = (got dg, take_front rest l)
recv_queue [] l = ((if l.entry.at_eof then eof else empty), l)

unfoldable pub recv_entry : Line → DgramOutcome × Line
recv_entry l = recv_queue l.entry.queue l

unfoldable pub recv_one : ℕ → Table Line → DgramOutcome × Table Line
unfolding recv_entry
recv_one handle m = elim (lookup handle m) [
  | none ↦ (no_handle, m)
  | some l ↦ ((recv_entry l).0, adjust handle (λ v. (recv_entry v).1) m)
]

unfoldable pub shutdown_entry : Bool → Line → Line
unfolding raise
shutdown_entry sends l = raise sends (record l { entry = record l.entry { at_eof = true } })

unfoldable pub shutdown_all : Bool → Table Line → Table Line
unfolding shutdown_entry
shutdown_all sends m = map_values (shutdown_entry sends) m
