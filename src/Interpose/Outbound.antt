-- ===== src/Interpose/Outbound.antt =====
-- crates/ax25-interpose/src/state.rs: the gate of a non-blocking connect and `OutboundPump`, which share
-- the direction of a socketpair from the application to us. What lies in that direction is a list of
-- pieces: filler of a gate, or bytes that the application wrote past the interposer.
pub mod Gating
pub mod Filler
mod Tests
use pdn_libax.Prelude.{
  ℕ, zero, suc, Bool, true, false, ◌&&◌, List, [], ◌∷◌, ◌++◌, map, Option, none, some, Bytes, Table,
  lookup, insert, remove, replicate,
}

pub data Piece : Type 0 where
  filler : Piece
  written : Bytes → Piece

-- The entries of the pump and the gates, from a handle to our end; what lies in each pair, by our end;
-- and the `send` requests to the node, each with its handle.
pub record Outbound : Type 0 where
  pub entries : Table ℕ
  pub gates : Table ℕ
  pub pipes : Table (List Piece)
  pub wire : List (ℕ × Piece)

abbrev pub pieces_of : Option (List Piece) → List Piece
pieces_of none = []
pieces_of (some ps) = ps

abbrev pub pipe : ℕ → Outbound → List Piece
pipe fd s = pieces_of (lookup fd s.pipes)

-- `entry(handle).or_insert_with`
abbrev pub or_insert : ℕ → ℕ → Option ℕ → Table ℕ → Table ℕ
or_insert handle fd none m = insert handle fd m
or_insert handle fd (some kept) m = m

unfoldable pub register : ℕ → ℕ → Outbound → Outbound
register handle fd s = record s {
  entries = or_insert handle fd (lookup handle s.entries) s.entries;
}

-- `fill` sends are taken before the pair is full.
unfoldable pub arm_connect_gate : ℕ → ℕ → ℕ → Outbound → Outbound
arm_connect_gate handle fd fill s = record s {
  pipes = insert fd (pipe fd s ++ replicate fill filler) s.pipes;
  gates = insert handle fd s.gates;
}

abbrev pub resolve_gate : ℕ → Option ℕ → Outbound → Outbound
unfolding register
resolve_gate handle none s = s
resolve_gate handle (some fd) s =
    register handle fd (record s { gates = remove handle s.gates; pipes = insert fd [] s.pipes })

unfoldable pub resolve_connect_gate : ℕ → Outbound → Outbound
unfolding resolve_gate
resolve_connect_gate handle s = resolve_gate handle (lookup handle s.gates) s

-- Everything that lies in the pair is sent to the node.
unfoldable pub drain_locked : ℕ → ℕ → Outbound → Outbound
drain_locked handle fd s = record s {
  wire = s.wire ++ map (λ p. (handle, p)) (pipe fd s);
  pipes = insert fd [] s.pipes;
}

abbrev pub flush_entry : ℕ → Option ℕ → Outbound → Outbound
unfolding drain_locked
flush_entry handle none s = s
flush_entry handle (some fd) s = drain_locked handle fd s

unfoldable pub flush : ℕ → Outbound → Outbound
unfolding flush_entry
flush handle s = flush_entry handle (lookup handle s.entries) s

-- The bytes that bypassed the interposer go first.
unfoldable pub send_ordered : ℕ → Bytes → Outbound → Outbound
unfolding flush
send_ordered handle bytes s =
    let s' = flush handle s in record s' { wire = s'.wire ++ (handle, written bytes) ∷ [] }

-- The part of `destroy_ax25_fd` on this state: both ends are closed.
unfoldable pub destroy : ℕ → ℕ → Outbound → Outbound
destroy handle fd s = record s {
  entries = remove handle s.entries;
  gates = remove handle s.gates;
  pipes = remove fd s.pipes;
}

-- The application writes to its end by a path that is not interposed.
unfoldable pub bypass : ℕ → Bytes → Outbound → Outbound
bypass fd bytes s = record s { pipes = insert fd (pipe fd s ++ written bytes ∷ []) s.pipes }
