-- ===== src/Interpose/Sockets.antt =====
-- crates/ax25-interpose: the table of AF_AX25 descriptors (state.rs) and the calls of lib.rs on the
-- socket options and on UI datagrams. The table and the connect registry of the shared RHP client are
-- the state. What libc or the node answers is an input; `client` is `none` if the node cannot be
-- reached.
pub mod Options
pub mod Payload
mod Tests
use pdn_libax.Prelude.{
  ℕ, zero, suc, ◌+◌, ◌-◌, ◌%◌, ◌^◌, ◌≡◌, Bool, true, false, ◌||◌, ◌&&◌, not, List, [], ◌∷◌, ◌++◌,
  Option, none, some, ltb, leb, ◌==◌, if◌then◌else◌, length, take, min, is_empty, Bytes, Table,
  lookup, insert, remove, adjust,
}
use pdn_libax.Prelude.Errno.{einval, enfile, edestaddrreq}
use pdn_libax.Rhp.Registry.{ConnPhase, take_error}

pub record FdState : Type 0 where
  pub app_fd : ℕ
  pub inner_fd : ℕ
  pub handle : Option ℕ
  pub local : Option Bytes
  pub remote : Option Bytes
  pub digis : List Bytes
  pub listening : Bool
  pub dgram : Bool
  pub pidincl : Bool
  pub paclen : Option ℕ
  pub window : Option ℕ
  pub t1 : Option ℕ
  pub t2 : Option ℕ
  pub t3 : Option ℕ
  pub n2 : Option ℕ
  pub extseq : Option ℕ

pub record Sockets : Type 0 where
  pub fds : Table FdState
  pub client : Option (Table ConnPhase)

-- A C result: 0 or a count, or -1 with an errno.
pub data Reply : Type 0 where
  returned : ℕ → Reply
  failed_with : ℕ → Reply

abbrev pub new_fd : ℕ → ℕ → Bool → FdState
new_fd app_fd inner_fd dgram = record {
  app_fd = app_fd;
  inner_fd = inner_fd;
  handle = none;
  local = none;
  remote = none;
  digis = [];
  listening = false;
  dgram = dgram;
  pidincl = false;
  paclen = none;
  window = none;
  t1 = none;
  t2 = none;
  t3 = none;
  n2 = none;
  extseq = none;
}

-- `pair` is what `socketpair` gives.
unfoldable pub create_ax25_fd : Option (ℕ × ℕ) → Bool → Sockets → Option ℕ × Sockets
create_ax25_fd none dgram s = (none, s)
create_ax25_fd (some (app_fd, inner_fd)) dgram s =
    (some app_fd, record s { fds = insert app_fd (new_fd app_fd inner_fd dgram) s.fds })

abbrev pub has_fd : Option FdState → Bool
has_fd none = false
has_fd (some f) = true

unfoldable pub is_ax25_fd : ℕ → Sockets → Bool
is_ax25_fd fd s = has_fd (lookup fd s.fds)

abbrev pub dgram_of : Option FdState → Bool
dgram_of none = false
dgram_of (some f) = f.dgram

unfoldable pub is_dgram_fd : ℕ → Sockets → Bool
is_dgram_fd fd s = dgram_of (lookup fd s.fds)

abbrev pub af_ax25 : ℕ
af_ax25 = 3

abbrev pub sock_seqpacket : ℕ
sock_seqpacket = 5

abbrev pub sock_dgram : ℕ
sock_dgram = 2

abbrev pub created : Option ℕ × Sockets → Reply × Sockets
created (some fd, s) = (returned fd, s)
created (none, s) = (failed_with enfile, s)

-- `base` is the type without its CLOEXEC and NONBLOCK flags, `real` what libc returns for sockets of
-- other families.
unfoldable pub socket : ℕ → ℕ → Option (ℕ × ℕ) → Reply → Sockets → Reply × Sockets
unfolding create_ax25_fd
socket domain base pair real s =
    if domain == af_ax25 && (base == sock_seqpacket || base == sock_dgram)
    then created (create_ax25_fd pair (base == sock_dgram) s)
    else (real, s)
