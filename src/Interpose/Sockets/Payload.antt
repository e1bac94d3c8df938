-- ===== src/Interpose/Sockets/Payload.antt =====
-- UI datagrams in crates/ax25-interpose/src/lib.rs: what `ax25_dgram_send` hands to the node and what
-- `ax25_dgram_recv` gives to the application.
use pdn_libax.Prelude.{
  ℕ, suc, ◌≤◌, ◌≡◌, refl, sym, ap, Bool, true, false, ◌||◌, List, [], ◌∷◌, Option, none, some,
  arith, if◌then◌else◌, length, take, drop, take_all, subst, is_empty, Bytes, codes, Table, lookup,
  lookup-adjust, adjust, ==_refl,
}
use pdn_libax.Prelude.Errno.{einval, edestaddrreq, ebadf, econnrefused, enotconn, eagain}
use pdn_libax.Interpose.Sockets.{FdState, Sockets}
use pdn_libax.Interpose.DgramPump.{DgramOutcome, got, empty, eof, no_handle, Line, recv_one}

-- A result of the RHP client: a value, or an errno.
pub data Tried : Type 0 where
  ready : ℕ → Tried
  refused : ℕ → Tried

-- What `ensure_dgram_handle` comes to: its result, the handles it closed on the node, the descriptor
-- table, and the registration with the datagram pump (handle and the two ends).
pub record Ensured : Type 0 where
  pub result : Tried
  pub closed : List ℕ
  pub sockets : Sockets
  pub registered : Option (ℕ × ℕ × ℕ)

abbrev pub refuse : ℕ → List ℕ → Sockets → Ensured
refuse e closed s = record { result = refused e; closed = closed; sockets = s; registered = none }

-- The handle is stored, unless another thread was faster.
abbrev pub store_handle : ℕ → ℕ → Option FdState → Sockets → Ensured
store_handle fd h none s = refuse ebadf (h ∷ []) s
store_handle fd h (some f) s = elim f.handle [
  | some other ↦ record { result = ready other; closed = h ∷ []; sockets = s; registered = none }
  | none ↦ record {
    result = ready h;
    closed = [];
    sockets = record s { fds = adjust fd (λ v. record v { handle = some h }) s.fds };
    registered = some (h, f.app_fd, f.inner_fd);
  }
]

-- The bind is tried if there is a local callsign; `bound` is its error, if it has one.
abbrev pub bind_handle : ℕ → ℕ → Option Bytes → Option ℕ → Sockets → Ensured
bind_handle fd h (some local) (some e) s = refuse e (h ∷ []) s
bind_handle fd h (some local) none s = store_handle fd h (lookup fd s.fds) s
bind_handle fd h none bound s = store_handle fd h (lookup fd s.fds) s

abbrev pub open_handle : ℕ → Tried → Option Bytes → Option ℕ → Sockets → Ensured
open_handle fd (refused e) local bound s = refuse e [] s
open_handle fd (ready h) local bound s = bind_handle fd h local bound s

-- `reached`: the client is there. `opened`, `bound`: the node's answers. `between`: what other threads
-- do to the table while it is not locked.
unfoldable pub ensure_dgram_handle :
    ℕ → Bool → Tried → Option ℕ → (Sockets → Sockets) → Sockets → Ensured
ensure_dgram_handle fd reached opened bound between s = elim (lookup fd s.fds) [
  | none ↦ refuse ebadf [] s
  | some f ↦ elim f.handle [
    | some h ↦ record { result = ready h; closed = []; sockets = s; registered = none }
    | none ↦
        if reached
        then open_handle fd opened f.local bound (between s)
        else refuse econnrefused [] s
  ]
]

-- The request of a send: the remote and local callsigns and the payload; or an errno.
pub data Outgoing : Type 0 where
  sends : Bytes → Bytes → Bytes → Outgoing
  stops : ℕ → Outgoing

-- The PID octet 0xF0 is put in front, unless the application does it.
unfoldable pub wire_payload : Bool → Bytes → Bytes
wire_payload pidincl app = if pidincl then app else 0xF0 ∷ app

-- The local callsign, else AX25_SRC_CALL, else a placeholder.
abbrev pub source_call : Option Bytes → Option Bytes → Bytes
source_call (some local) env = local
source_call none (some call) = call
source_call none none = codes "NOCALL"

abbrev pub send_wire : Bytes → Bytes → Bytes → Outgoing
send_wire remote local [] = stops einval
send_wire remote local (b ∷ wire) = sends remote local (b ∷ wire)

-- `dest` is `none` for NULL, and holds `none` if the address is too short.
unfoldable pub outgoing : Option (Option Bytes) → Option Bytes → Bytes → FdState → Outgoing
unfolding wire_payload
outgoing (some none) env app f = stops einval
outgoing (some (some remote)) env app f =
    send_wire remote (source_call f.local env) (wire_payload f.pidincl app)
outgoing none env app f = elim f.remote [
  | none ↦ stops edestaddrreq
  | some remote ↦ send_wire remote (source_call f.local env) (wire_payload f.pidincl app)
]

-- What the application gets of a payload, with room for some bytes.
unfoldable pub app_payload : Bool → ℕ → Bytes → Bytes
app_payload pidincl len payload =
    take len (if pidincl || is_empty payload then payload else drop 1 payload)

-- The end of one turn of the loop of `ax25_dgram_recv`: the bytes and the sender, the end of file, or an
-- errno.
pub data Incoming : Type 0 where
  given : Bytes → Bytes → Incoming
  ended : Incoming
  failed : ℕ → Incoming

abbrev pub source_text : Option Bytes → Bytes
source_text none = []
source_text (some call) = call

-- `none`: it waits for the socketpair and tries again.
abbrev pub incoming : Bool → Bool → ℕ → DgramOutcome → Option Incoming
incoming pidincl nonblock len (got dg) =
    some (given (app_payload pidincl len dg.payload) (source_text dg.source))
incoming pidincl nonblock len eof = some ended
incoming pidincl nonblock len no_handle = some (failed enotconn)
incoming pidincl nonblock len empty = if nonblock then some (failed eagain) else none

unfoldable pub recv_turn : ℕ → Bool → Bool → ℕ → Table Line → Option Incoming × Table Line
unfolding app_payload recv_one
recv_turn handle pidincl nonblock len m =
    let (outcome, m') = recv_one handle m in (incoming pidincl nonblock len outcome, m')

-- A payload as it is sent, received with room for it: the same setting of AX25_PIDINCL at both ends
-- gives the application's bytes, only the receiver's gives them behind 0xF0, and only the sender's
-- gives them without the first.
pub app_payload-wire_payload :
    (len : ℕ) (app : Bytes)
    → length app ≤ len
    → (app_payload true len (wire_payload true app) ≡ app)
      × (app_payload false len (wire_payload false app) ≡ app)
      × (app_payload true (suc len) (wire_payload false app) ≡ 0xF0 ∷ app)
      × (app_payload false len (wire_payload true app) ≡ drop 1 app)
unfolding app_payload wire_payload
app_payload-wire_payload len app fits = (
  take_all len app fits,
  take_all len app fits,
  ap (◌∷◌ 0xF0) (take_all len app fits),
  tail app fits,
)
  where
    tail :
        (app : Bytes)
        → length app ≤ len
        → take len (if is_empty app then app else drop 1 app) ≡ drop 1 app
    tail [] fits = take_all len [] fits
    tail (b ∷ app) fits = take_all len app (omega (arith, fits))

ensure_dgram_handle-fresh :
    (fd h : ℕ) (local : Bytes) (s : Sockets) (f : FdState)
    → lookup fd s.fds ≡ some f
    → f.handle ≡ none
    → f.local ≡ some local
    → ensure_dgram_handle fd true (ready h) none (λ v. v) s ≡ record {
      result = ready h;
      closed = [];
      sockets = record s { fds = adjust fd (λ v. record v { handle = some h }) s.fds };
      registered = some (h, f.app_fd, f.inner_fd);
    }
unfolding ensure_dgram_handle
ensure_dgram_handle-fresh fd h local s f found fresh named =
    rw (ensure_dgram_handle, found, fresh, named, found, fresh) refl

ensure_dgram_handle-known :
    (fd h : ℕ) (reached : Bool) (opened : Tried) (bound : Option ℕ) (between : Sockets → Sockets)
    (s : Sockets) (f : FdState)
    → lookup fd s.fds ≡ some f
    → f.handle ≡ some h
    → ensure_dgram_handle fd reached opened bound between s
      ≡ record { result = ready h; closed = []; sockets = s; registered = none }
unfolding ensure_dgram_handle
ensure_dgram_handle-known fd h reached opened bound between s f found known =
    rw (ensure_dgram_handle, found, known) refl

-- A second call of `ensure_dgram_handle` after one that opened a handle, with no other thread at work in
-- the first, returns the same handle, closes nothing and registers nothing, whatever the node says.
pub ensure_dgram_handle_twice :
    (fd h : ℕ) (local : Bytes) (reached : Bool) (opened : Tried) (bound : Option ℕ)
    (between : Sockets → Sockets) (s : Sockets) (f : FdState)
    → lookup fd s.fds ≡ some f
    → f.handle ≡ none
    → f.local ≡ some local
    → let first = ensure_dgram_handle fd true (ready h) none (λ v. v) s in
      (first.result ≡ ready h)
      × (first.closed ≡ [])
      × (first.registered ≡ some (h, f.app_fd, f.inner_fd))
      × (ensure_dgram_handle fd reached opened bound between first.sockets
          ≡ record { result = ready h; closed = []; sockets = first.sockets; registered = none })
unfolding ensure_dgram_handle
ensure_dgram_handle_twice fd h local reached opened bound between s f found fresh named =
    subst
      (λ first.
        (first.result ≡ ready h)
        × (first.closed ≡ [])
        × (first.registered ≡ some (h, f.app_fd, f.inner_fd))
        × (ensure_dgram_handle fd reached opened bound between first.sockets
            ≡ record { result = ready h; closed = []; sockets = first.sockets; registered = none }))
      (sym (ensure_dgram_handle-fresh fd h local s f found fresh named))
      (
        refl,
        refl,
        refl,
        ensure_dgram_handle-known fd h reached opened bound between
            (record s { fds = adjust fd (λ v. record v { handle = some h }) s.fds })
            (record f { handle = some h })
            (rw (lookup-adjust fd fd (λ v. record v { handle = some h }) s.fds, ==_refl fd, found)
              refl)
            refl,
      )
