-- ===== src/Interpose/Sockets/Options.antt =====
-- The socket options of crates/ax25-interpose/src/lib.rs: `setsockopt` and `getsockopt`.
use pdn_libax.Prelude.{
  ℕ, ◌≤◌, ◌≡◌, refl, Bool, true, false, ◌||◌, ◌&&◌, not, Option, none, some, arith, leb, ◌==◌,
  ==_refl, if◌then◌else◌, Table, lookup, lookup-adjust, adjust,
}
use pdn_libax.Prelude.Errno.{einval}
use pdn_libax.Rhp.Registry.{ConnPhase, take_error}
use pdn_libax.Interpose.Sockets.{FdState, Sockets, Reply, returned, failed_with, is_ax25_fd}

-- The option names and levels of <netax25/ax25.h> and libc.
abbrev pub ax25_window : ℕ
ax25_window = 1

abbrev pub ax25_t1 : ℕ
ax25_t1 = 2

abbrev pub ax25_n2 : ℕ
ax25_n2 = 3

abbrev pub ax25_t3 : ℕ
ax25_t3 = 4

abbrev pub ax25_t2 : ℕ
ax25_t2 = 5

abbrev pub ax25_extseq : ℕ
ax25_extseq = 7

abbrev pub ax25_pidincl : ℕ
ax25_pidincl = 8

abbrev pub ax25_paclen : ℕ
ax25_paclen = 10

abbrev pub sol_ax25 : ℕ
sol_ax25 = 257

abbrev pub sol_socket : ℕ
sol_socket = 1

abbrev pub so_error : ℕ
so_error = 4

unfoldable pub set_option : ℕ → ℕ → FdState → FdState
set_option name v f =
    if name == ax25_window
    then record f { window = some v }
    else if name == ax25_paclen
    then record f { paclen = some v }
    else if name == ax25_pidincl
    then record f { pidincl = not (v == 0) }
    else if name == ax25_t1
    then record f { t1 = some v }
    else if name == ax25_t2
    then record f { t2 = some v }
    else if name == ax25_t3
    then record f { t3 = some v }
    else if name == ax25_n2
    then record f { n2 = some v }
    else if name == ax25_extseq
    then record f { extseq = some v }
    else f

-- `optval` is the integer at the pointer, `none` for NULL; `real` is what libc returns.
unfoldable pub setsockopt : ℕ → ℕ → ℕ → Option ℕ → ℕ → Reply → Sockets → Reply × Sockets
unfolding is_ax25_fd set_option
setsockopt fd level name none optlen real s = if is_ax25_fd fd s then (returned 0, s) else (real, s)
setsockopt fd level name (some v) optlen real s =
    if is_ax25_fd fd s
    then (
      returned 0,
      (if level == sol_ax25 && leb 4 optlen
          then record s { fds = adjust fd (set_option name v) s.fds }
          else s),
    )
    else (real, s)

abbrev pub or_zero : Option ℕ → ℕ
or_zero none = 0
or_zero (some v) = v

abbrev pub flag : Bool → ℕ
flag b = if b then 1 else 0

unfoldable pub get_option : ℕ → FdState → ℕ
get_option name f =
    if name == ax25_window
    then or_zero f.window
    else if name == ax25_paclen
    then or_zero f.paclen
    else if name == ax25_t1
    then or_zero f.t1
    else if name == ax25_t2
    then or_zero f.t2
    else if name == ax25_t3
    then or_zero f.t3
    else if name == ax25_n2
    then or_zero f.n2
    else if name == ax25_extseq
    then or_zero f.extseq
    else if name == ax25_pidincl
    then flag f.pidincl
    else 0

abbrev pub option_of : ℕ → Option FdState → ℕ
unfolding get_option
option_of name none = 0
option_of name (some f) = get_option name f

abbrev pub handle_of : Option FdState → Option ℕ
handle_of none = none
handle_of (some f) = f.handle

-- `take_connect_error` of the handle, if there is one and the client can be reached.
abbrev pub taken_error : Option ℕ → Option (Table ConnPhase) → ℕ × Option (Table ConnPhase)
unfolding take_error
taken_error none client = (0, client)
taken_error (some h) none = (0, none)
taken_error (some h) (some conns) = let (e, conns') = take_error h conns in (e, some conns')

-- What is returned, and the integer that is stored at `optval` if one is. The call has somewhere to
-- store it if both pointers are there and the length is at least 4 (`fits`). `real` is what libc does.
unfoldable pub getsockopt :
    ℕ → ℕ → ℕ → Bool → Reply × Option ℕ → Sockets → (Reply × Option ℕ) × Sockets
unfolding is_ax25_fd taken_error option_of
getsockopt fd level name fits real s =
    let (e, client) = taken_error (handle_of (lookup fd s.fds)) s.client in
    if not (is_ax25_fd fd s)
    then (real, s)
    else if level == sol_socket && name == so_error
    then if fits
      then ((returned 0, some e), record s { client = client })
      else ((failed_with einval, none), s)
    else if level == sol_ax25
    then ((returned 0, (if fits then some (option_of name (lookup fd s.fds)) else none)), s)
    else (real, s)

-- The options that are stored.
abbrev pub stored : ℕ → Bool
stored name =
    name == ax25_window
    || name == ax25_paclen
    || name == ax25_t1
    || name == ax25_t2
    || name == ax25_t3
    || name == ax25_n2
    || name == ax25_extseq

get-set :
    (name v : ℕ) (f : FdState) → stored name ≡ true → get_option name (set_option name v f) ≡ v
unfolding get_option set_option
get-set name v f known = ground (arith, known)

-- An option other than AX25_PIDINCL that is set on an AF_AX25 descriptor at its level, with at least
-- four bytes, is read back as it was set; the other descriptors keep their state.
pub getsockopt-setsockopt :
    (fd other name v optlen : ℕ) (real : Reply) (real' : Reply × Option ℕ) (s : Sockets)
    (f : FdState)
    → lookup fd s.fds ≡ some f
    → stored name ≡ true
    → 4 ≤ optlen
    → (fd == other) ≡ false
    → let set = (setsockopt fd sol_ax25 name (some v) optlen real s).1 in
      ((getsockopt fd sol_ax25 name true real' set).0 ≡ (returned 0, some v))
      × (lookup other set.fds ≡ lookup other s.fds)
unfolding setsockopt getsockopt
getsockopt-setsockopt fd other name v optlen real real' s f found known long ne =
    rw (found, le_leb 4 optlen long)
      (
        rw
            (
              lookup-adjust fd fd (set_option name v) s.fds,
              ==_refl fd,
              found,
              get-set name v f known,
            )
            refl,
        rw (lookup-adjust fd other (set_option name v) s.fds, ne) refl,
      )
  where
    le_leb : (a b : ℕ) → a ≤ b → leb a b ≡ true
    le_leb a b h = ground arith
