-- ===== src/Interpose/Session/Tests.antt =====
-- Instances of the theorems on the calls of crates/ax25-interpose/src/lib.rs: a session over a node that
-- answers each request with the handle 42, a listener with one child, and an environment that is set.
use pdn_libax.Prelude.{
  ℕ, ◌≡◌, ◌≢◌, ◌⊎◌, refl, true, false, List, [], ◌∷◌, none, some, if◌then◌else◌, arith, ◌==◌, Bytes,
  lookup, codes, replicate, decimal,
}
use pdn_libax.Prelude.Errno.{einprogress}
use pdn_libax.Rhp.Frame.{Value, obj, str, unsigned, member, end, or_else}
use pdn_libax.Rhp.Frame
use pdn_libax.Rhp.Registry.{AcceptInfo}
use pdn_libax.Rhp.Wire.{write_frame}
use pdn_libax.Rhp.Client.{
  Conn, OpenResult, given, open_connect, open_handle, next_id, request, check_ok, via_text,
}
use pdn_libax.Rhp.Client.Untracked.{Untracked}
use pdn_libax.Interpose.EventSink.{Pumps}
use pdn_libax.Interpose.Sockets.{FdState, returned, failed_with, new_fd}
use pdn_libax.Interpose.Sockaddr.{read_digipeaters}
use pdn_libax.Interpose.Sockaddr.Writing.{full_size, sockaddr_at}
use pdn_libax.Interpose.Race.{comes_up, Move, arms, looks, releases, marks, resolves}
use pdn_libax.Interpose.Race.Released.{done, left, right, Open}
use pdn_libax.Interpose.Session.{Session, Env, on_net, ensure_client}
use pdn_libax.Interpose.Session.Errnos.{returned-Tells}
use pdn_libax.Interpose.Session.Failures.{calls-Tells}
use pdn_libax.Interpose.Session.Transfer.{sendto}
use pdn_libax.Interpose.Session.Calls.{bind, listen, connect_opened}
use pdn_libax.Interpose.Session.Connecting.{connect_opened-writable}
use pdn_libax.Interpose.Session.Accept.{close, accept_child, getsockname}
use pdn_libax.Interpose.Session.Wiring.{Forgotten, close-Forgotten, accept_child-getsockname}

abbrev pumps : Pumps
pumps = record {
  recv = record { handles = []; early = (42, codes "hi") ∷ []; log = [] };
  dgrams = [];
  outbound = record { entries = []; gates = []; pipes = []; wire = [] };
}

abbrev listener : FdState
listener = record (new_fd 10 11 false) {
  handle = some 7;
  local = some (codes "GB7RDG-1");
  listening = true;
}

abbrev session : Session
session = record {
  fds = (10, listener) ∷ [];
  cached = true;
  net = record {
    core = record {
      pending = [];
      replies = [];
      conns = [];
      accepts = [];
      closed = false;
      sink = pumps;
    };
    last_id = 0;
    written = [];
  };
}

abbrev answer : Value
answer = obj (member (codes "handle") (unsigned 42) (member (codes "errCode") (unsigned 0) end))

abbrev to_vec_test : Value → Bytes
to_vec_test v = codes "{}"

abbrev answers : ℕ → Conn Pumps → Conn Pumps
answers id c = record c { core = record c.core { replies = (id, answer) ∷ [] } }

abbrev env : Env
env = record { opens = true; credentials = none; src_call = none }

-- A child waits on the listener when it is closed.
abbrev queued : Session
queued = record session {
  net = record session.net {
    core = record session.net.core {
      accepts = (7, record { child_handle = 42; remote = none; local = none } ∷ []) ∷ [];
    };
  };
}

close-Forgotten_example :
    let (r, s') = close to_vec_test answers env (returned 9) 10 queued in
    (r ≡ returned 0)
    × ((j : ℕ) → lookup j s'.fds ≡ (if 10 == j then none else lookup j queued.fds))
    × ((h : ℕ)
        → some 7 ≡ some h
        → Forgotten h s'.net.core.sink
          × (((ensure_client to_vec_test answers env queued).0 ≡ false) ⊎ Untracked h s'.net.core))
unfolding lookup
close-Forgotten_example =
    close-Forgotten to_vec_test answers env (returned 9) 10 listener queued refl
      (λ h has id c untracked. untracked)

abbrev child : AcceptInfo
child = record { child_handle = 42; remote = some (codes "M0ABC-2"); local = none }

accept_child-getsockname_example :
    let (reply, out, s') =
      accept_child (0 ∷ 0 ∷ 0 ∷ []) none (some (12, 13)) (some (codes "GB7RDG-1")) child session in
    (m : Bytes) × (getsockname to_vec_test answers env
        (returned 9)
        12
        (some (replicate 72 0, 72))
        s'
      ≡ (returned 0, some (m, full_size)))
    × (read_digipeaters (some (sockaddr_at m)) full_size ≡ codes "GB7RDG-1" ∷ [])
unfolding decimal
accept_child-getsockname_example =
    accept_child-getsockname (0 ∷ 0 ∷ 0 ∷ []) none 12 13 (some (codes "GB7RDG-1")) child session
      to_vec_test answers env (returned 9) (codes "GB7RDG") 1 (replicate 72 0) 72
      (omega arith, (refl, (refl, (refl, (refl, (refl, (refl, tt))))))) (omega arith) refl refl
      (omega arith)

abbrev opened_42 : OpenResult
opened_42 = record { handle = 42; errcode = 0; errtext = none }

accepted_open :
    (open_connect to_vec_test answers (codes "M0LTE") (codes "GB7RDG") [] session.net).0
    ≡ given opened_42
unfolding open_connect open_handle next_id request check_ok via_text write_frame Frame.handle
    Frame.errcode Frame.errtext
accepted_open = refl

abbrev moves : List Move
moves = marks comes_up ∷ arms ∷ resolves ∷ looks ∷ releases ∷ []

connect_opened-writable_example :
    let (reply, s') =
      connect_opened to_vec_test answers env
        (returned 9)
        true
        2
        moves
        []
        10
        (codes "GB7RDG")
        []
        (on_net (open_connect to_vec_test answers (codes "M0LTE") (codes "GB7RDG") []) session) in
    (reply ≡ failed_with einprogress) × Open 42 11 2 s'.net.core.sink.outbound
unfolding lookup
connect_opened-writable_example =
    connect_opened-writable to_vec_test answers env (returned 9) 2 moves [] 10 (codes "M0LTE")
      (codes "GB7RDG") [] comes_up opened_42 listener session accepted_open refl
      (right (left (right (left (left done)))))

calls-Tells_example :
    ((bind to_vec_test answers env (returned 9) 10 none 0 session).0 ≢ failed_with 0)
    × ((listen to_vec_test answers env (returned 9) 10 session).0 ≢ failed_with 0)
    × ((sendto to_vec_test answers env (returned 9) [] 10 none (codes "CQ") session).0
        ≢ failed_with 0)
calls-Tells_example =
    calls-Tells to_vec_test answers env (returned 9) (returned-Tells 9) 10 none 0 [] none
      (codes "CQ") session
