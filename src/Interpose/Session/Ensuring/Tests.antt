-- ===== src/Interpose/Session/Ensuring/Tests.antt =====
-- `ensure_dgram_handle` of crates/ax25-interpose/src/lib.rs on a datagram descriptor without a handle, with
-- a node that gives handle 42 to a `socket` request.
use pdn_libax.Prelude.{ℕ, ◌≡◌, refl, true, false, [], ◌∷◌, none, some, Bytes, codes, lookup}
use pdn_libax.Rhp.Frame.{Value, obj, unsigned, member, end}
use pdn_libax.Rhp.Frame
use pdn_libax.Rhp.Client.{Conn, check_ok}
use pdn_libax.Rhp.Client
use pdn_libax.Interpose.EventSink.{Pumps}
use pdn_libax.Interpose.Sockets.{FdState, new_fd}
use pdn_libax.Interpose.Sockets.Payload.{ready}
use pdn_libax.Interpose.Session.{Session, Env, ensure_dgram}

abbrev to_vec_test : Value → Bytes
to_vec_test v = codes "{}"

abbrev reply : Value
reply = obj (member (codes "errCode") (unsigned 0) (member (codes "handle") (unsigned 42) end))

abbrev answers : ℕ → Conn Pumps → Conn Pumps
answers id c = record c { core = record c.core { replies = (id, reply) ∷ [] } }

abbrev env : Env
env = record { opens = true; credentials = none; src_call = none }

abbrev beacon : FdState
beacon = record (new_fd 10 11 true) { local = some (codes "GB7RDG-2") }

abbrev session : Session
session = record {
  fds = (10, beacon) ∷ [];
  cached = true;
  net = record {
    core = record {
      pending = [];
      replies = [];
      conns = [];
      accepts = [];
      closed = false;
      sink = record {
        recv = record { handles = []; early = []; log = [] };
        dgrams = [];
        outbound = record { entries = []; gates = []; pipes = []; wire = [] };
      };
    };
    last_id = 0;
    written = [];
  };
}

allocated : (ensure_dgram to_vec_test answers env 10 session).0 ≡ ready 42
unfolding ensure_dgram Client.socket_dgram Client.bind Frame.handle Frame.errcode Frame.errtext
    check_ok lookup
allocated = refl
