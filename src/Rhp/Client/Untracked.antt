-- ===== src/Rhp/Client/Untracked.antt =====
-- `RhpClient::close` of crates/rhpv2/src/client.rs and the registries of connects and accepts.
use pdn_libax.Prelude.{
  i64_mod, ◌+◌, ◌%◌, ℕ, ◌≡◌, refl, ◌∙◌, none, ==_refl, Bytes, Table, lookup, lookup-remove, remove,
}
use pdn_libax.Rhp.Frame.{Value}
use pdn_libax.Rhp.Reader.{Client}
use pdn_libax.Rhp.Wire.{IoResult, ok, err, write_frame}
use pdn_libax.Rhp.Requests.{close_req}
use pdn_libax.Rhp.Registry.{forget, forget_accepts}
use pdn_libax.Rhp.Client
use pdn_libax.Rhp.Client.{
  RhpResult, given, failed, Conn, go_on, checked, open_channel, sent_request, request,
}

pub removed : {V : Type 0} (k : ℕ) (m : Table V) → lookup k (remove k m) ≡ none
removed k m = lookup-remove k k m ∙ rw (==_refl k) refl

-- The client neither knows a connect nor queues an accept for the handle.
abbrev pub Untracked : {S : Type 0} → ℕ → Client S → Type 0
Untracked h c = (lookup h c.conns ≡ none) × (lookup h c.accepts ≡ none)

-- While a request waits, the reader thread does not start to track this handle.
abbrev pub StaysUntracked : {S : Type 0} → ℕ → (ℕ → Conn S → Conn S) → Type 0
StaysUntracked {S} h during =
    (id : ℕ) (c : Conn S) → Untracked h c.core → Untracked h (during id c).core

module _ {S : Type 0} (to_vec : Value → Bytes) (during : ℕ → Conn S → Conn S) where
  sent_request-Untracked :
      (h id : ℕ) (w : IoResult Bytes) (c : Conn S)
      → StaysUntracked h during
      → Untracked h c.core
      → Untracked h (sent_request during id w c).1.core
  sent_request-Untracked h id (err e) c stays untracked = untracked
  sent_request-Untracked h id (ok w) c stays untracked =
      stays id (record c { written = w }) untracked

  checked-Untracked :
      (h : ℕ) (r : RhpResult Value) (c : Conn S)
      → Untracked h c.core
      → Untracked h (go_on r checked c).1.core
  checked-Untracked h (given f) c untracked = untracked
  checked-Untracked h (failed e) c untracked = untracked

  simple-Untracked :
      (h id : ℕ) (v : Value) (c : Conn S)
      → StaysUntracked h during
      → Untracked h c.core
      → Untracked h (Client.simple to_vec during id v c).1.core
  unfolding request
  simple-Untracked h id v c stays untracked =
      let r = request during id (to_vec v) c in
      checked-Untracked h r.0 r.1 (
        sent_request-Untracked h id (write_frame c.written (to_vec v)) (open_channel id c) stays
          untracked)

  -- `RhpClient::close` leaves no trace of the handle in the registries, whatever the node answers.
  pub Client_close-Untracked :
      (h : ℕ) (c : Conn S)
      → StaysUntracked h during
      → Untracked h (Client.close to_vec during h c).1.core
  unfolding Client.close request
  Client_close-Untracked h c stays =
      let id = (1 + c.last_id) % i64_mod in
      let c' : Conn S = record c {
        core = record c.core {
          conns = forget h c.core.conns;
          accepts = forget_accepts h c.core.accepts;
        };
        last_id = id;
      } in
      simple-Untracked h id (close_req id h) c' stays
        (unfold forget forget_accepts in (removed h c.core.conns, removed h c.core.accepts))
