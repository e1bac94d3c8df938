-- ===== src/Rhp/Client/Errnos.antt =====
-- The errors of the operations of `RhpClient` in crates/rhpv2/src/client.rs, as errno numbers.
use pdn_libax.Prelude.{
  ◌+◌, ◌%◌, i64_mod, codes, Bool, if◌then◌else◌, inl, inr, ℕ, ◌≢◌, true, false, List, [], ◌∷◌,
  Option, none, some, arith, Bytes, Option-cases, Bool-cases, length, ◌==◌,
}
use pdn_libax.Rhp.Wire.{IoResult, ok, err, write_frame}
use pdn_libax.Rhp.Wire.Framing.{errcode_to_errno-zero}
use pdn_libax.Rhp.Frame.{Value}
use pdn_libax.Rhp.Frame
use pdn_libax.Rhp.Requests.{max_send_chunk, socket_req}
use pdn_libax.Rhp.Reader.{has_id}
use pdn_libax.Rhp.Client.{
  reply_for, open_channel, RhpResult, given, failed, server, to_errno, Conn, Call, pure, go_on,
  ◌>>=◌, ◌>>◌, awaited, check_ok, expect_handle, checked, sent_request, request, simple, auth,
  open_handle, open_connect, open_listen, send_chunk, send_each, send, chunks, sendto, close,
  socket_mode, socket, socket_dgram, bind, listen,
}

-- A failure has an errno.
abbrev pub Honest : {A : Type 0} → RhpResult A → Type 0
Honest (given a) = Unit
Honest (failed e) = to_errno e ≢ 0

module _ {S A B : Type 0} where
  go_on-Honest :
      (r : RhpResult A) (c : Conn S) (f : A → Call S B)
      → Honest r
      → ((a : A) (c' : Conn S) → Honest (f a c').0)
      → Honest (go_on r f c).0
  go_on-Honest (given a) c f h k = k a c
  go_on-Honest (failed e) c f h k = h

  pub bind-Honest :
      (m : Call S A) (f : A → Call S B) (c : Conn S)
      → Honest (m c).0
      → ((a : A) (c' : Conn S) → Honest (f a c').0)
      → Honest ((m >>= f) c).0
  bind-Honest m f c h k = go_on-Honest (m c).0 (m c).1 f h k

refused :
    (b : Bool) (code : ℕ) (text : Option Bytes)
    → code ≢ 0
    → let r : RhpResult (Unit {0}) = if b then failed (server code text) else given tt in Honest r
unfolding to_errno
refused true code text h = λ e. h ((errcode_to_errno-zero code).0 e)
refused false code text h = tt

check_ok-Honest : (f : Value) → Honest (check_ok f)
unfolding check_ok
check_ok-Honest f = elim (Bool-cases (Frame.errcode f == 0)) [
  | inl zero ↦ rw (check_ok, zero) tt
  | inr other ↦
      rw (check_ok, other)
        (refused _ (Frame.errcode f) (Frame.errtext f) (λ e. absurd (ground arith)))
]

expect_handle-Honest :
    {S : Type 0} (m : Bytes) (f : Value) (c : Conn S) → Honest (expect_handle m f c).0
unfolding to_errno
expect_handle-Honest m f c = elim (Option-cases (Frame.handle f)) [
  | inl missing ↦ rw (expect_handle, missing) (λ e. absurd (omega arith))
  | inr (h, found) ↦ rw (expect_handle, found) tt
]

module _ {S : Type 0} (during : ℕ → Conn S → Conn S) where
  awaited-Honest : (o : Option Value) (waits : Bool) → Honest (awaited o waits)
  unfolding to_errno
  awaited-Honest (some f) waits = tt
  awaited-Honest none true = λ e. absurd (omega arith)
  awaited-Honest none false = λ e. absurd (omega arith)

  sent_request-Honest :
      (id : ℕ) (r : IoResult Bytes) (c : Conn S) → Honest (sent_request during id r c).0
  unfolding to_errno
  sent_request-Honest id (err e) c = λ e. absurd (omega arith)
  sent_request-Honest id (ok w) c =
      let c' = during id (record c { written = w }) in
      awaited-Honest (reply_for id c'.core.replies) (has_id id c'.core.pending)

  request-Honest : (id : ℕ) (bytes : Bytes) (c : Conn S) → Honest (request during id bytes c).0
  unfolding request
  request-Honest id bytes c =
      let c' = open_channel id c in sent_request-Honest id (write_frame c'.written bytes) c'

module _ {S : Type 0} (to_vec : Value → Bytes) (during : ℕ → Conn S → Conn S) where
  simple-Honest : (id : ℕ) (v : Value) (c : Conn S) → Honest (simple to_vec during id v c).0
  simple-Honest id v c =
      bind-Honest (request during id (to_vec v)) checked c (request-Honest during id (to_vec v) c)
        λ f c'. check_ok-Honest f

  handle-Honest :
      {A : Type 0} (id : ℕ) (v : Value) (missing : Bytes) (found : Value → ℕ → A) (c : Conn S)
      → Honest
          ((do
            reply ← request during id (to_vec v)
            checked reply
            handle ← expect_handle missing reply
            pure (found reply handle))
            c).0
  handle-Honest id v missing found c =
      let expected = λ (reply : Value).
        expect_handle {S = S} missing reply >>= λ handle. pure (found reply handle) in
      bind-Honest (request during id (to_vec v)) (λ reply. checked reply >> expected reply) c
        (request-Honest during id (to_vec v) c)
        λ reply c1.
          bind-Honest (checked reply) (λ u. expected reply) c1 (check_ok-Honest reply)
            λ u c2.
              bind-Honest (expect_handle missing reply) (λ handle. pure (found reply handle)) c2
                (expect_handle-Honest missing reply c2) λ handle c3. tt

  open_handle-Honest :
      (local : Bytes) (remote via : Option Bytes) (flags : ℕ) (c : Conn S)
      → Honest (open_handle to_vec during local remote via flags c).0
  unfolding open_handle
  open_handle-Honest local remote via flags c = handle-Honest _ _ _ _ _

  send_chunk-Honest :
      (handle : ℕ) (s : Bytes) (c : Conn S) → Honest (send_chunk to_vec during handle s c).0
  unfolding send_chunk
  send_chunk-Honest handle s c = simple-Honest _ _ _

  send_each-Honest :
      (handle : ℕ) (ss : List Bytes) (c : Conn S) → Honest (send_each to_vec during handle ss c).0
  unfolding send_each
  send_each-Honest handle [] c = tt
  send_each-Honest handle (s ∷ ss) c =
      bind-Honest (send_chunk to_vec during handle s) _ c (send_chunk-Honest handle s c)
        λ u c'. send_each-Honest handle ss c'

  socket_mode-Honest : (mode : Bytes) (c : Conn S) → Honest (socket_mode to_vec during mode c).0
  unfolding socket_mode
  socket_mode-Honest mode c =
      let id = (1 + c.last_id) % i64_mod in
      let c0 = record c { last_id = id } in
      let m = request during id (to_vec (socket_req id mode)) in
      let expected = expect_handle {S = S} (codes "socketReply missing handle") in
      bind-Honest m (λ reply. checked reply >> expected reply) c0
        (request-Honest during id (to_vec (socket_req id mode)) c0)
        λ reply c1.
          bind-Honest (checked reply) (λ u. expected reply) c1 (check_ok-Honest reply)
            λ u c2. expect_handle-Honest (codes "socketReply missing handle") reply c2

-- The public operations of the client, with their arguments.
pub data Operation : Type 0 where
  auth_op : Bytes → Bytes → Operation
  connect_op : Bytes → Bytes → List Bytes → Operation
  open_listen_op : Bytes → Operation
  send_op : ℕ → Bytes → Operation
  sendto_op : ℕ → Bytes → Bytes → Bytes → Operation
  close_op listen_op : ℕ → Operation
  socket_op socket_dgram_op : Operation
  bind_op : ℕ → Bytes → Option Bytes → Operation

module _ {S : Type 0} (to_vec : Value → Bytes) (during : ℕ → Conn S → Conn S) where
  unfoldable pub errno_of {ℓ} : {A : Type ℓ} → RhpResult A → Option ℕ
  errno_of (given a) = none
  errno_of (failed e) = some (to_errno e)

  -- The errno that an operation ends with, if it fails.
  unfoldable pub errno_after : Operation → Conn S → Option ℕ
  errno_after (auth_op user pass) c = errno_of (auth to_vec during user pass c).0
  errno_after (connect_op local remote via) c =
      errno_of (open_connect to_vec during local remote via c).0
  errno_after (open_listen_op local) c = errno_of (open_listen to_vec during local c).0
  errno_after (send_op handle s) c = errno_of (send to_vec during handle s c).0
  errno_after (sendto_op handle remote local s) c =
      errno_of (sendto to_vec during handle remote local s c).0
  errno_after (close_op handle) c = errno_of (close to_vec during handle c).0
  errno_after (listen_op handle) c = errno_of (listen to_vec during handle c).0
  errno_after socket_op c = errno_of (socket to_vec during c).0
  errno_after socket_dgram_op c = errno_of (socket_dgram to_vec during c).0
  errno_after (bind_op handle local port) c = errno_of (bind to_vec during handle local port c).0

  errno_of-Honest : {A : Type 0} (r : RhpResult A) → Honest r → errno_of r ≢ some 0
  unfolding errno_of
  errno_of-Honest (given a) h e = absurd (ground arith)
  errno_of-Honest (failed x) h e = absurd (ground arith)

  -- An operation of the client that fails has an errno other than 0: the caller, who puts it into
  -- `errno`, cannot take a failure for a success.
  pub errno_after_nonzero : (op : Operation) (c : Conn S) → errno_after op c ≢ some 0
  unfolding errno_after auth open_connect open_listen send sendto close listen socket socket_dgram
      bind
  errno_after_nonzero (auth_op user pass) c = errno_of-Honest _ (simple-Honest to_vec during _ _ _)
  errno_after_nonzero (connect_op local remote via) c = errno_of-Honest _ (
      bind-Honest (open_handle to_vec during _ _ _ _) _ c
        (open_handle-Honest to_vec during _ _ _ _ c) λ res c'. tt)
  errno_after_nonzero (open_listen_op local) c =
      errno_of-Honest _ (open_handle-Honest to_vec during _ _ _ _ c)
  errno_after_nonzero (send_op handle []) c =
      errno_of-Honest _ (send_chunk-Honest to_vec during _ _ c)
  errno_after_nonzero (send_op handle (b ∷ s)) c =
      errno_of-Honest _
        (send_each-Honest to_vec during handle (chunks (length (b ∷ s)) max_send_chunk (b ∷ s)) c)
  errno_after_nonzero (sendto_op handle remote local s) c =
      errno_of-Honest _ (simple-Honest to_vec during _ _ _)
  errno_after_nonzero (close_op handle) c = errno_of-Honest _ (simple-Honest to_vec during _ _ _)
  errno_after_nonzero (listen_op handle) c = errno_of-Honest _ (simple-Honest to_vec during _ _ _)
  errno_after_nonzero socket_op c = errno_of-Honest _ (socket_mode-Honest to_vec during _ c)
  errno_after_nonzero socket_dgram_op c = errno_of-Honest _ (socket_mode-Honest to_vec during _ c)
  errno_after_nonzero (bind_op handle local port) c =
      errno_of-Honest _ (simple-Honest to_vec during _ _ _)
