-- ===== src/Rhp/Client.antt =====
-- crates/rhpv2/src/client.rs: `RhpClient`, the requests to the node. Beside the state that the reader
-- thread shares stand the writer, as the bytes that it has taken, and the request counter. `to_vec` is
-- serde_json's; `during` is what the reader and other callers do while a request waits, by its id.
pub mod Chunks
pub mod Replies
pub mod Kept
pub mod Transport
pub mod Ids
pub mod Errnos
pub mod Sending
pub mod Untracked
mod Tests
use pdn_libax.Prelude.{
  ℕ, zero, suc, ◌+◌, ◌%◌, Bool, true, false, ◌&&◌, not, List, [], ◌∷◌, ◌++◌, map, Option, none,
  some, ltb, ◌==◌, if◌then◌else◌, length, take, drop, is_empty, Bytes, codes, bytes_eq, to_lower,
  i64_mod, Table,
}
use pdn_libax.Prelude.Errno.{eio, etimedout}
use pdn_libax.Rhp.Wire.{IoError, IoResult, ok, err, write_frame, to_wire_string, errcode_to_errno}
use pdn_libax.Rhp.Frame.{Value}
use pdn_libax.Rhp.Frame
use pdn_libax.Rhp.Requests.{
  open_req, send_req, close_req, socket_req, send_to_req, bind_req, listen_req, auth_req,
  open_flag_active, open_flag_passive, max_send_chunk,
}
use pdn_libax.Rhp.Registry.{ConnPhase, set_pending, forget, forget_accepts}
use pdn_libax.Rhp.Reader.{Client, has_id, drop_id}

-- `broken_pipe` is the `Io` error of a request whose channel the reader dropped.
pub data RhpError : Type 0 where
  io : IoError → RhpError
  broken_pipe timeout : RhpError
  server : ℕ → Option Bytes → RhpError

unfoldable pub to_errno : RhpError → ℕ
unfolding errcode_to_errno
to_errno (io e) = eio
to_errno broken_pipe = eio
to_errno timeout = etimedout
to_errno (server errcode errtext) = errcode_to_errno errcode

pub data RhpResult {ℓ} (A : Type ℓ) : Type ℓ where
  given : A → RhpResult A
  failed : RhpError → RhpResult A

pub record Conn (S : Type 0) : Type 0 where
  pub core : Client S
  pub last_id : ℕ
  pub written : Bytes

abbrev pub Call : Type 0 → Type 0 → Type 0
Call S A = Conn S → RhpResult A × Conn S

abbrev pub pure : {S A : Type 0} → A → Call S A
pure a c = (given a, c)

abbrev pub raise : {S A : Type 0} → RhpError → Call S A
raise e c = (failed e, c)

abbrev pub go_on : {S A B : Type 0} → RhpResult A → (A → Call S B) → Call S B
go_on (given a) f c = f a c
go_on (failed e) f c = (failed e, c)

infixl 5 ◌>>=◌ ◌>>◌
abbrev pub ◌>>=◌ : {S A B : Type 0} → Call S A → (A → Call S B) → Call S B
◌>>=◌ m f c = let (r, c') = m c in go_on r f c'

abbrev pub ◌>>◌ : {S A B : Type 0} → Call S A → Call S B → Call S B
m >> k = m >>= λ _. k

-- The frame that was sent on the channel of a request.
abbrev pub reply_for : ℕ → List (ℕ × Value) → Option Value
reply_for id [] = none
reply_for id (e ∷ replies) = if e.0 == id then some e.1 else reply_for id replies

-- What `recv_timeout` returns in the end: the frame, a dropped channel, or the time-out.
abbrev pub awaited : Option Value → Bool → RhpResult Value
awaited (some f) waits = given f
awaited none true = failed timeout
awaited none false = failed broken_pipe

abbrev pub drop_replies : ℕ → List (ℕ × Value) → List (ℕ × Value)
drop_replies id [] = []
drop_replies id (e ∷ replies) =
    if e.0 == id then drop_replies id replies else e ∷ drop_replies id replies

-- A new channel for a request: it waits, and no reply is in it.
abbrev pub open_channel : {S : Type 0} → ℕ → Conn S → Conn S
open_channel id c = record c {
  core = record c.core {
    pending = id ∷ drop_id id c.core.pending;
    replies = drop_replies id c.core.replies;
  };
}

abbrev pub with_pending : {S : Type 0} → (List ℕ → List ℕ) → Conn S → Conn S
with_pending f c = record c { core = record c.core { pending = f c.core.pending } }

unfoldable pub check_ok : Value → RhpResult (Unit {0})
check_ok frame =
    let code = Frame.errcode frame in
    let ok_text : Bool = elim (Frame.errtext frame) [
      | none ↦ false
      | some t ↦ bytes_eq (map to_lower t) (codes "ok")
    ] in
    if not (code == 0) && not ok_text then failed (server code (Frame.errtext frame)) else given tt

-- `reply.handle().ok_or_else(...)`
abbrev pub expect_handle : {S : Type 0} → Bytes → Value → Call S ℕ
expect_handle missing frame c = elim (Frame.handle frame) [
  | none ↦ (failed (server 1 (some missing)), c)
  | some h ↦ (given h, c)
]

pub record OpenResult : Type 0 where
  pub handle : ℕ
  pub errcode : ℕ
  pub errtext : Option Bytes

-- `via.join(",")`, or nothing without digipeaters.
abbrev join_more : List Bytes → Bytes
join_more [] = []
join_more (v ∷ vs) = b',' ∷ v ++ join_more vs

unfoldable pub via_text : List Bytes → Option Bytes
via_text [] = none
via_text (v ∷ vs) = some (v ++ join_more vs)

-- `data.chunks(n)`: a round for each byte is fuel enough.
unfoldable pub chunks : ℕ → ℕ → Bytes → List Bytes
chunks zero n s = []
chunks (suc fuel) n [] = []
chunks (suc fuel) n (b ∷ s) = take n (b ∷ s) ∷ chunks fuel n (drop n (b ∷ s))

module _ {S : Type 0} where
  unfoldable pub next_id : Call S ℕ
  next_id c = let id = (1 + c.last_id) % i64_mod in (given id, record c { last_id = id })

  abbrev pub checked : Value → Call S (Unit {0})
  checked frame c = (check_ok frame, c)

  abbrev pub track : ℕ → Call S (Unit {0})
  track handle c =
      (given tt, record c { core = record c.core { conns = set_pending handle c.core.conns } })

  abbrev pub untrack : ℕ → Call S (Unit {0})
  untrack handle c = (
    given tt,
    record c {
      core = record c.core {
        conns = forget handle c.core.conns;
        accepts = forget_accepts handle c.core.accepts;
      };
    },
  )

module _ {S : Type 0} (during : ℕ → Conn S → Conn S) where
  abbrev pub sent_request : ℕ → IoResult Bytes → Call S Value
  sent_request id (err e) c = (failed (io e), with_pending (drop_id id) c)
  sent_request id (ok w) c =
      let c' = during id (record c { written = w }) in
      (
        awaited (reply_for id c'.core.replies) (has_id id c'.core.pending),
        with_pending (drop_id id) c',
      )

  unfoldable pub request : ℕ → Bytes → Call S Value
  unfolding write_frame
  request id bytes c =
      let c' = open_channel id c in sent_request id (write_frame c'.written bytes) c'

module _ {S : Type 0} (to_vec : Value → Bytes) (during : ℕ → Conn S → Conn S) where
  abbrev pub simple : ℕ → Value → Call S (Unit {0})
  simple id v = do reply ← request during id (to_vec v); checked reply

  unfoldable pub auth : Bytes → Bytes → Call S (Unit {0})
  unfolding next_id request
  auth user pass = do id ← next_id; simple id (auth_req id user pass)

  unfoldable pub open_handle : Bytes → Option Bytes → Option Bytes → ℕ → Call S OpenResult
  unfolding next_id request
  open_handle local remote via flags = do
    id ← next_id
    reply ← request during id (to_vec (open_req id none local remote via flags))
    checked reply
    handle ← expect_handle (codes "openReply missing handle") reply
    pure (record { handle = handle; errcode = Frame.errcode reply; errtext = Frame.errtext reply })

  unfoldable pub open_connect : Bytes → Bytes → List Bytes → Call S OpenResult
  unfolding open_handle via_text set_pending
  open_connect local remote via = do
    res ← open_handle local (some remote) (via_text via) open_flag_active
    track res.handle
    pure res

  unfoldable pub open_listen : Bytes → Call S OpenResult
  unfolding open_handle
  open_listen local = open_handle local none none open_flag_passive

  unfoldable pub send_chunk : ℕ → Bytes → Call S (Unit {0})
  unfolding next_id request
  send_chunk handle chunk = do id ← next_id; simple id (send_req id handle (to_wire_string chunk))

  unfoldable pub send_each : ℕ → List Bytes → Call S (Unit {0})
  unfolding send_chunk
  send_each handle [] = pure tt
  send_each handle (chunk ∷ rest) = do send_chunk handle chunk; send_each handle rest

  unfoldable pub send : ℕ → Bytes → Call S (Unit {0})
  unfolding send_each chunks
  send handle [] = send_chunk handle []
  send handle (b ∷ s) = send_each handle (chunks (length (b ∷ s)) max_send_chunk (b ∷ s))

  unfoldable pub sendto : ℕ → Bytes → Bytes → Bytes → Call S (Unit {0})
  unfolding next_id request
  sendto handle remote local payload = do
    id ← next_id
    simple id (send_to_req id handle remote local (to_wire_string payload))

  unfoldable pub close : ℕ → Call S (Unit {0})
  unfolding next_id request
  close handle = do untrack handle; id ← next_id; simple id (close_req id handle)

  unfoldable pub socket_mode : Bytes → Call S ℕ
  unfolding next_id request
  socket_mode mode = do
    id ← next_id
    reply ← request during id (to_vec (socket_req id mode))
    checked reply
    expect_handle (codes "socketReply missing handle") reply

  unfoldable pub socket : Call S ℕ
  unfolding socket_mode
  socket = socket_mode (codes "stream")

  unfoldable pub socket_dgram : Call S ℕ
  unfolding socket_mode
  socket_dgram = socket_mode (codes "custom")

  unfoldable pub bind : ℕ → Bytes → Option Bytes → Call S (Unit {0})
  unfolding next_id request
  bind handle local port = do id ← next_id; simple id (bind_req id handle local port)

  unfoldable pub listen : ℕ → Call S (Unit {0})
  unfolding next_id request
  listen handle = do id ← next_id; simple id (listen_req id handle)
