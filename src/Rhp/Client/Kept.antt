-- ===== src/Rhp/Client/Kept.antt =====
-- What the requests of `RhpClient` in crates/rhpv2/src/client.rs leave alone: they change the state of
-- the event sink only by what happens while they wait.
use pdn_libax.Prelude.{ℕ, ◌+◌, ◌%◌, List, [], ◌∷◌, Bytes, length, i64_mod}
use pdn_libax.Rhp.Wire.{IoResult, ok, err, write_frame, to_wire_string}
use pdn_libax.Rhp.Frame.{Value}
use pdn_libax.Rhp.Requests.{max_send_chunk, send_req}
use pdn_libax.Rhp.Client.{
  RhpResult, given, failed, Conn, Call, open_channel, chunks, request, sent_request, simple, go_on,
  checked, send_chunk, send_each, send,
}

module _ {S : Type 0} (P : S → Type 0) where
  -- What happens while a request waits keeps it.
  abbrev pub Keeps : (ℕ → Conn S → Conn S) → Type 0
  Keeps during = (id : ℕ) (c : Conn S) → P c.core.sink → P (during id c).core.sink

  module _ (to_vec : Value → Bytes) (during : ℕ → Conn S → Conn S) (keeps : Keeps during) where
    sent_request-Kept :
        (id : ℕ) (w : IoResult Bytes) (c : Conn S)
        → P c.core.sink
        → P (sent_request during id w c).1.core.sink
    sent_request-Kept id (ok w) c p = keeps id (record c { written = w }) p
    sent_request-Kept id (err e) c p = p

    request-Kept :
        (id : ℕ) (bytes : Bytes) (c : Conn S)
        → P c.core.sink
        → P (request during id bytes c).1.core.sink
    unfolding request
    request-Kept id bytes c p =
        sent_request-Kept id (write_frame c.written bytes) (open_channel id c) p

    checked-Kept :
        (r : RhpResult Value) (c : Conn S)
        → P c.core.sink
        → P (go_on r (λ reply. checked reply) c).1.core.sink
    checked-Kept (given f) c p = p
    checked-Kept (failed e) c p = p

    simple-Kept :
        (id : ℕ) (v : Value) (c : Conn S)
        → P c.core.sink
        → P (simple to_vec during id v c).1.core.sink
    simple-Kept id v c p =
        checked-Kept (request during id (to_vec v) c).0 (request during id (to_vec v) c).1
          (request-Kept id (to_vec v) c p)

    send_chunk-Kept :
        (h : ℕ) (bytes : Bytes) (c : Conn S)
        → P c.core.sink
        → P (send_chunk to_vec during h bytes c).1.core.sink
    unfolding send_chunk
    send_chunk-Kept h bytes c p =
        let id = (1 + c.last_id) % i64_mod in
        simple-Kept id (send_req id h (to_wire_string bytes)) (record c { last_id = id }) p

    next-Kept :
        (next : Call S (Unit {0})) (r : RhpResult (Unit {0})) (c : Conn S)
        → ((d : Conn S) → P d.core.sink → P (next d).1.core.sink)
        → P c.core.sink
        → P (go_on r (λ u. next) c).1.core.sink
    next-Kept next (given u) c kept p = kept c p
    next-Kept next (failed e) c kept p = p

    send_each-Kept :
        (h : ℕ) (parts : List Bytes) (c : Conn S)
        → P c.core.sink
        → P (send_each to_vec during h parts c).1.core.sink
    unfolding send_each
    send_each-Kept h [] c p = p
    send_each-Kept h (part ∷ parts) c p =
        next-Kept (send_each to_vec during h parts) (send_chunk to_vec during h part c).0
          (send_chunk to_vec during h part c).1 (λ d q. send_each-Kept h parts d q)
          (send_chunk-Kept h part c p)

    pub send-Kept :
        (h : ℕ) (bytes : Bytes) (c : Conn S)
        → P c.core.sink
        → P (send to_vec during h bytes c).1.core.sink
    unfolding send
    send-Kept h [] c p = send_chunk-Kept h [] c p
    send-Kept h (b ∷ s) c p = send_each-Kept h (chunks (length (b ∷ s)) max_send_chunk (b ∷ s)) c p
