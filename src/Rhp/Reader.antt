-- ===== src/Rhp/Reader.antt =====
-- crates/rhpv2/src/client.rs: `reader_loop` and `dispatch_push`. The reader thread owns the read half
-- of the stream and shares the client's tables; the event sink and the JSON parser are parameters.
mod Tests
pub mod Loop
use pdn_libax.Prelude.{
  ℕ, zero, suc, ◌+◌, Bool, true, false, List, [], ◌∷◌, ◌++◌, Option, none, some, ◌==◌,
  if◌then◌else◌, Bytes, codes, bytes_eq, Table, is_empty,
}
use pdn_libax.Prelude.Errno.{econnrefused, econnreset}
use pdn_libax.Rhp.Wire.{Stream, IoResult, ok, err, read_frame, from_wire_string, errcode_to_errno}
use pdn_libax.Rhp.Frame.{Value, unwrap_or}
use pdn_libax.Rhp.Frame
use pdn_libax.Rhp.Registry.{
  ConnPhase, AcceptInfo, mark_connected, mark_failed, fail_all_pending, push_accept,
}

-- `RhpEventSink`: the callbacks, on the sink's own state.
pub record Sink (S : Type 0) : Type 0 where
  pub on_recv : ℕ → Bytes → S → S
  pub on_dgram : ℕ → Option Bytes → Option Bytes → Bytes → S → S
  pub on_accept : ℕ → ℕ → Option Bytes → Option Bytes → S → S
  pub on_status : ℕ → ℕ → S → S
  pub on_close : ℕ → S → S
  pub on_disconnect : S → S

-- `NullSink`, with the callbacks that the trait gives.
abbrev pub null_sink : Sink (Unit {0})
null_sink = record {
  on_recv = λ handle bytes s. s;
  on_dgram = λ handle source dest bytes s. s;
  on_accept = λ listener child remote local s. s;
  on_status = λ handle flags s. s;
  on_close = λ handle s. s;
  on_disconnect = λ s. s;
}

-- The state that the reader shares: the requests that wait for a reply, the replies that it sent on
-- their channels, the registries, `closed`, and the sink.
pub record Client (S : Type 0) : Type 0 where
  pub pending : List ℕ
  pub replies : List (ℕ × Value)
  pub conns : Table ConnPhase
  pub accepts : Table (List AcceptInfo)
  pub closed : Bool
  pub sink : S

-- `pending.remove(&id)` finds a waiting request.
abbrev pub has_id : ℕ → List ℕ → Bool
has_id id [] = false
has_id id (i ∷ ids) = if i == id then true else has_id id ids

abbrev pub drop_id : ℕ → List ℕ → List ℕ
drop_id id [] = []
drop_id id (i ∷ ids) = if i == id then drop_id id ids else i ∷ drop_id id ids

abbrev pub close_errno : ℕ → ℕ
close_errno code = if code == 0 then econnrefused else errcode_to_errno code

module _ {S : Type 0} (on : Sink S) where
  unfoldable pub recv_push : Value → Client S → Client S
  recv_push f c = elim (Frame.handle f) [
    | none ↦ c
    | some h ↦
        let bytes = elim (Frame.data_str f) as (λ _. Bytes) [
          | none ↦ []
          | some s ↦ from_wire_string s
        ] in
        if Frame.is_dgram_recv f
        then record c { sink = on.on_dgram h (Frame.remote f) (Frame.local f) bytes c.sink }
        else record c { sink = on.on_recv h bytes c.sink }
  ]

  unfoldable pub accept_push : Value → Client S → Client S
  accept_push f c = elim (Frame.handle f) [
    | none ↦ c
    | some listener ↦ elim (Frame.child f) [
      | none ↦ c
      | some child ↦ record c {
        accepts =
            push_accept listener
              (record { child_handle = child; remote = Frame.remote f; local = Frame.local f })
              c.accepts;
        sink = on.on_accept listener child (Frame.remote f) (Frame.local f) c.sink;
      }
    ]
  ]

  unfoldable pub status_push : Value → Client S → Client S
  status_push f c = elim (Frame.handle f) [
    | none ↦ c
    | some h ↦ record c {
      conns =
          if Frame.is_connected (Frame.status_flags f) then mark_connected h c.conns else c.conns;
      sink = on.on_status h (Frame.status_flags f) c.sink;
    }
  ]

  unfoldable pub close_push : Value → Client S → Client S
  close_push f c = elim (Frame.handle f) [
    | none ↦ c
    | some h ↦ record c {
      conns = mark_failed h (close_errno (Frame.errcode f)) c.conns;
      sink = on.on_close h c.sink;
    }
  ]

  unfoldable pub dispatch_push : Value → Client S → Client S
  unfolding recv_push accept_push status_push close_push
  dispatch_push f c =
      if bytes_eq (Frame.typ f) (codes "recv")
      then recv_push f c
      else if bytes_eq (Frame.typ f) (codes "accept")
      then accept_push f c
      else if bytes_eq (Frame.typ f) (codes "status")
      then status_push f c
      else if bytes_eq (Frame.typ f) (codes "close")
      then close_push f c
      else c

  -- A reply goes to the request that waits for it; every other frame is a push.
  unfoldable pub deliver : Value → Client S → Client S
  deliver f c = elim (Frame.id f) [
    | none ↦ dispatch_push f c
    | some id ↦
        if has_id id c.pending
        then record c { pending = drop_id id c.pending; replies = c.replies ++ (id, f) ∷ [] }
        else dispatch_push f c
  ]

  -- Behind the loop: the channels are dropped, and what waits on the transport is failed.
  unfoldable pub shut_down : Client S → Client S
  shut_down c = record c {
    closed = true;
    pending = [];
    conns = fail_all_pending econnreset c.conns;
    sink = on.on_disconnect c.sink;
  }

  module _ (parse : Bytes → Option Value) where
    -- One frame body: an undecodable one is skipped.
    unfoldable pub take_frame : Bytes → Client S → Client S
    take_frame body c = elim (parse body) [ none ↦ c | some f ↦ deliver f c ]

    -- One turn of the loop: a frame goes on with the loop, and anything else ends it.
    abbrev pub read_turn :
        IoResult (Option Bytes) × Stream
        → Client S
        → (Stream → Client S → Option (Client S))
        → Option (Client S)
    read_turn (ok none, s) c go_on = some (shut_down c)
    read_turn (ok (some body), s) c go_on = go_on s (take_frame body c)
    read_turn (err e, s) c go_on = some (shut_down c)

    -- `none` means that the fuel ran out.
    unfoldable pub reader_loop : ℕ → Stream → Client S → Option (Client S)
    reader_loop zero s c = none
    reader_loop (suc fuel) s c = read_turn (read_frame s) c (λ s' c'. reader_loop fuel s' c')
