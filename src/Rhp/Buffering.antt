-- ===== src/Rhp/Buffering.antt =====
-- crates/rhpv2/src/client.rs: `BufferingSink`, which keeps the received bytes of each handle.
use pdn_libax.Prelude.{
  ℕ, ◌≡◌, ap, ◌∙◌, Bool, true, false, List, [], ◌∷◌, ◌++◌, append_assoc, append-nil, Option, none,
  some, arith, ◌==◌, if◌then◌else◌, Bytes, Table, lookup, insert, adjust, lookup-insert,
  lookup-adjust,
}
use pdn_libax.Rhp.Reader.{Sink}

pub record HandleBuf : Type 0 where
  pub bytes : Bytes
  pub eof : Bool

-- `entry(handle).or_default()`
abbrev pub or_default : Option HandleBuf → HandleBuf
or_default none = record { bytes = []; eof = false }
or_default (some b) = b

unfoldable pub on_recv : ℕ → Bytes → Table HandleBuf → Table HandleBuf
on_recv handle bytes m =
    let b = or_default (lookup handle m) in insert handle (record b { bytes = b.bytes ++ bytes }) m

unfoldable pub on_close : ℕ → Table HandleBuf → Table HandleBuf
on_close handle m = insert handle (record (or_default (lookup handle m)) { eof = true }) m

-- The other callbacks are the trait's: they do nothing.
abbrev pub buffering_sink : Sink (Table HandleBuf)
buffering_sink = record {
  on_recv = on_recv;
  on_dgram = λ handle source dest bytes m. m;
  on_accept = λ listener child remote local m. m;
  on_status = λ handle flags m. m;
  on_close = on_close;
  on_disconnect = λ m. m;
}

-- The drained bytes, and the table with the handle's buffer empty.
unfoldable pub take_bytes : ℕ → Table HandleBuf → Bytes × Table HandleBuf
take_bytes handle m =
    ((or_default (lookup handle m)).bytes, adjust handle (λ b. record b { bytes = [] }) m)

unfoldable pub is_eof : ℕ → Table HandleBuf → Bool
is_eof handle m = (or_default (lookup handle m)).eof

-- What the reader thread tells the sink of the handles' streams.
pub data Push : Type 0 where
  received : ℕ → Bytes → Push
  ended : ℕ → Push

unfoldable pub feed : List Push → Table HandleBuf → Table HandleBuf
unfolding on_recv on_close
feed [] m = m
feed (received h bytes ∷ ps) m = feed ps (on_recv h bytes m)
feed (ended h ∷ ps) m = feed ps (on_close h m)

-- The bytes that were received on one handle.
abbrev pub stream_of : ℕ → List Push → Bytes
stream_of k [] = []
stream_of k (received h bytes ∷ ps) = if h == k then bytes ++ stream_of k ps else stream_of k ps
stream_of k (ended h ∷ ps) = stream_of k ps

abbrev pub kept : ℕ → Table HandleBuf → Bytes
kept k m = (or_default (lookup k m)).bytes

kept-feed :
    (k : ℕ) (ps : List Push) (m : Table HandleBuf) → kept k (feed ps m) ≡ kept k m ++ stream_of k ps
unfolding feed
kept-feed k [] m = ground (arith, append-nil (kept k m))
kept-feed k (received h bytes ∷ ps) m = ground (
  arith,
  kept-feed k ps (on_recv h bytes m),
  lookup-insert h k (record { bytes = kept h m ++ bytes; eof = (or_default (lookup h m)).eof }) m,
  append_assoc (kept h m) bytes (stream_of k ps),
)
kept-feed k (ended h ∷ ps) m = ground (
  arith,
  kept-feed k ps (on_close h m),
  lookup-insert h k (record { bytes = kept h m; eof = true }) m,
)

-- Draining a handle gives every byte that was received on it since the last drain, in order, whatever
-- came in between for other handles, and a second drain gives nothing.
pub take_bytes-feed :
    (k : ℕ) (ps : List Push) (m : Table HandleBuf)
    → kept k m ≡ []
    → ((take_bytes k (feed ps m)).0 ≡ stream_of k ps)
      × ((take_bytes k (take_bytes k (feed ps m)).1).0 ≡ [])
unfolding take_bytes
take_bytes-feed k ps m e = (
  kept-feed k ps m ∙ ap (λ (b : Bytes). b ++ stream_of k ps) e,
  ground (
    arith,
    lookup-adjust k k (λ (b : HandleBuf). record { bytes = []; eof = b.eof }) (feed ps m),
  ),
)
