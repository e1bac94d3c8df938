-- ===== src/Interpose/Session/Wiring.antt =====
-- What the calls of crates/ax25-interpose/src/lib.rs leave in the table of descriptors and the pumps: close,
-- and accept with the name of the new socket.
use pdn_libax.Prelude.{
  ℕ, ◌≡◌, ◌≤◌, refl, ap, ◌∙◌, Bool, true, false, [], ◌∷◌, Option, none, some, if◌then◌else◌, ◌==◌,
  ==_refl, Bytes, lookup, lookup-adjust, lookup-insert, lookup-remove, insert, is_empty, Bool-cases,
  Option-cases, inl, inr, ◌⊎◌, ◌&&◌, not,
}
use pdn_libax.Rhp.Frame.{Value, or_else}
use pdn_libax.Rhp.Registry.{AcceptInfo}
use pdn_libax.Rhp.Client.{RhpResult, given, failed, Conn}
use pdn_libax.Rhp.Client.Untracked.{removed, Untracked, StaysUntracked, Client_close-Untracked}
use pdn_libax.Interpose.RecvPump
use pdn_libax.Interpose.DgramPump
use pdn_libax.Interpose.Outbound
use pdn_libax.Interpose.Outbound.{destroy}
use pdn_libax.Interpose.EventSink.{Pumps}
use pdn_libax.Interpose.Sockaddr.Writing.{OutAddr, full_size, sockaddr_at}
use pdn_libax.Interpose.Sockaddr.{read_digipeaters}
use pdn_libax.Interpose.Sockaddr.ReadBack.{write_sockname-read}
use pdn_libax.Callsign.Entry.{IsBase, canonical}
use pdn_libax.Interpose.Sockets.{create_ax25_fd, FdState, Reply, returned, new_fd}
use pdn_libax.Interpose.Session.{
  Session, Env, connect_client, ensure_client, destroy_ax25_fd, drop_handle, authorized,
}
use pdn_libax.Interpose.Session.Accept.{
  close, close_session, close_reached, accept_child, getsockname,
}

-- No pump knows the handle.
abbrev pub Forgotten : ℕ → Pumps → Type 0
Forgotten h p =
    (lookup h p.recv.handles ≡ none)
    × (lookup h p.recv.early ≡ none)
    × (lookup h p.dgrams ≡ none)
    × (lookup h p.outbound.entries ≡ none)
    × (lookup h p.outbound.gates ≡ none)

drop_handle-Forgotten : (h inner : ℕ) (p : Pumps) → Forgotten h (drop_handle (some h) inner p)
unfolding RecvPump.unregister DgramPump.unregister destroy
drop_handle-Forgotten h inner p = (
  removed h p.recv.handles,
  removed h p.recv.early,
  removed h p.dgrams,
  removed h p.outbound.entries,
  removed h p.outbound.gates,
)

destroyed :
    (fd : ℕ) (f : FdState) (s : Session)
    → lookup fd s.fds ≡ some f
    → let s' = destroy_ax25_fd fd s in
      ((j : ℕ) → lookup j s'.fds ≡ (if fd == j then none else lookup j s.fds))
      × ((h : ℕ) → f.handle ≡ some h → Forgotten h s'.net.core.sink)
unfolding destroy_ax25_fd
destroyed fd f s e =
    rw (destroy_ax25_fd, e)
      (
        λ j. lookup-remove fd j s.fds,
        λ h has. rw has (drop_handle-Forgotten h f.inner_fd s.net.core.sink),
      )

destroyed-core :
    (fd h : ℕ) (s : Session) → Untracked h s.net.core → Untracked h (destroy_ax25_fd fd s).net.core
unfolding destroy_ax25_fd
destroyed-core fd h s untracked = elim (Option-cases (lookup fd s.fds)) [
  | inl absent ↦ rw (destroy_ax25_fd, absent) untracked
  | inr (f, found) ↦ rw (destroy_ax25_fd, found) untracked
]

module _ (to_vec : Value → Bytes) (during : ℕ → Conn Pumps → Conn Pumps) (env : Env) where
  authorized-fds :
      (r : RhpResult (Unit {0})) (s : Session) → (authorized to_vec during env (r, s)).1.fds ≡ s.fds
  authorized-fds (given u) s = refl
  authorized-fds (failed e) s = refl

  connect_client-fds :
      (credentials : Option (Bytes × Bytes)) (s : Session)
      → (connect_client to_vec during env credentials s).1.fds ≡ s.fds
  unfolding connect_client
  connect_client-fds none s = refl
  connect_client-fds (some (user, pass)) s = authorized-fds _ _

  pub ensure_client-fds : (s : Session) → (ensure_client to_vec during env s).1.fds ≡ s.fds
  unfolding ensure_client
  ensure_client-fds s = elim (Bool-cases (s.cached && not s.net.core.closed)) [
    | inl live ↦ rw (ensure_client, live) refl
    | inr gone ↦ elim (Bool-cases env.opens) [
      | inl opened ↦ rw (ensure_client, gone, opened) (connect_client-fds env.credentials s)
      | inr shut ↦ rw (ensure_client, gone, shut) refl
    ]
  ]

  module _ (real : Reply) where
    close_reached-fds :
        (h : ℕ) (r : Bool × Session) → (close_reached to_vec during env real h r).fds ≡ r.1.fds
    close_reached-fds h (false, s) = refl
    close_reached-fds h (true, s) = refl

    pub close_session-fds :
        (o : Option ℕ) (s : Session) → (close_session to_vec during env real o s).fds ≡ s.fds
    close_session-fds none s = refl
    close_session-fds (some h) s =
        close_reached-fds h (ensure_client to_vec during env s) ∙ ensure_client-fds s

    close_session-Untracked :
        (h : ℕ) (o : Option ℕ) (s : Session)
        → StaysUntracked h during
        → o ≡ some h
        → ((ensure_client to_vec during env s).0 ≡ false)
          ⊎ Untracked h (close_session to_vec during env real o s).net.core
    close_session-Untracked h o s stays has =
        rw has (elim (Bool-cases (ensure_client to_vec during env s).0) [
          | inl reached ↦ inr (
              rw reached (
                Client_close-Untracked to_vec during h (ensure_client to_vec during env s).1.net
                  stays))
          | inr unreached ↦ inl unreached
        ])

    -- Closing an AF_AX25 descriptor returns 0, whatever the node answers. The descriptor is gone from the
    -- table and the others stay as they are, and no pump knows its handle any more. The client's tables
    -- of connects and of accepts do not know it either, if the reader does not start to track it while
    -- the request waits, and unless no client can be reached: then they are those of a dead client.
    pub close-Forgotten :
        (fd : ℕ) (f : FdState) (s : Session)
        → lookup fd s.fds ≡ some f
        → ((h : ℕ) → f.handle ≡ some h → StaysUntracked h during)
        → let (r, s') = close to_vec during env real fd s in
          (r ≡ returned 0)
          × ((j : ℕ) → lookup j s'.fds ≡ (if fd == j then none else lookup j s.fds))
          × ((h : ℕ)
              → f.handle ≡ some h
              → Forgotten h s'.net.core.sink
                × (((ensure_client to_vec during env s).0 ≡ false) ⊎ Untracked h s'.net.core))
    unfolding close
    close-Forgotten fd f s e stays =
        let s1 = close_session to_vec during env real f.handle s in
        let kept = close_session-fds f.handle s in
        let (gone, forgotten) = destroyed fd f s1 (ap (lookup fd) kept ∙ e) in
        rw (close, e)
          (
            refl,
            (λ j. gone j ∙ ap (λ m. if fd == j then none else lookup j m) kept),
            λ h has. (
              forgotten h has,
              elim (close_session-Untracked h f.handle s (stays h has) has) [
                | inl unreached ↦ inl unreached
                | inr untracked ↦ inr (destroyed-core fd h s1 untracked)
              ],
            ),
          )

-- The entry of an accepted socket.
abbrev pub child_fd : ℕ → ℕ → Option Bytes → AcceptInfo → FdState
child_fd app inner local info = record (new_fd app inner false) {
  handle = some info.child_handle;
  remote = info.remote;
  local = or_else info.local local;
}

accept_child-fds :
    (pad : Bytes) (out : OutAddr) (app inner : ℕ) (local : Option Bytes) (info : AcceptInfo)
    (s : Session) (j : ℕ)
    → let (reply, out', s') = accept_child pad out (some (app, inner)) local info s in
      lookup j s'.fds ≡ (if app == j then some (child_fd app inner local info) else lookup j s.fds)
unfolding accept_child create_ax25_fd
accept_child-fds pad out app inner local info s j =
    let wire = λ (f : FdState). record f {
      handle = some info.child_handle;
      remote = info.remote;
      local = or_else info.local local;
    } in
    let m = insert app (new_fd app inner false) s.fds in
    elim (Bool-cases (app == j)) [
      | inl same ↦
          rw (lookup-adjust app j wire m, lookup-insert app j (new_fd app inner false) s.fds, same)
            refl
      | inr other ↦
          rw (lookup-adjust app j wire m, lookup-insert app j (new_fd app inner false) s.fds, other)
            refl
    ]

module _ (pad : Bytes) (out : OutAddr) (app inner : ℕ) (local : Option Bytes) (info : AcceptInfo)
    (s : Session) where
  -- A child that was taken from the queue gets the new descriptor, which knows its handle, the caller and
  -- the local callsign (the listener's, if the push has none), and the other descriptors stay as they are.
  -- Bytes that came before are its backlog, and its writes are forwarded from now on, if the outbound
  -- pump did not know the handle.
  pub accept_child-wired :
      lookup info.child_handle s.net.core.sink.outbound.entries ≡ none
      → let (reply, out', s') = accept_child pad out (some (app, inner)) local info s in
        let p = s'.net.core.sink in
        (reply ≡ some (returned app))
        × ((j : ℕ)
            → lookup j s'.fds
              ≡ (if app == j then some (child_fd app inner local info) else lookup j s.fds))
        × (lookup info.child_handle p.recv.handles
            ≡ some (
                RecvPump.new_entry inner
                  (RecvPump.staged (lookup info.child_handle s.net.core.sink.recv.early))))
        × (lookup info.child_handle p.outbound.entries ≡ some inner)
  unfolding accept_child RecvPump.register Outbound.register
  accept_child-wired fresh =
      let h = info.child_handle in
      let pumps = s.net.core.sink in
      (
        refl,
        accept_child-fds pad out app inner local info s,
        lookup-insert h h (RecvPump.new_entry inner (RecvPump.staged (lookup h pumps.recv.early)))
              pumps.recv.handles
            ∙ rw (==_refl h) refl,
        rw fresh (lookup-insert h h inner pumps.outbound.entries ∙ rw (==_refl h) refl),
      )

  module _ (to_vec : Value → Bytes) (during : ℕ → Conn Pumps → Conn Pumps) (env : Env)
      (real : Reply) where
    -- On an accepted socket whose local callsign is canonical and not empty, `getsockname` with room for a
    -- `full_sockaddr_ax25` shows that callsign as the only digipeater.
    pub accept_child-getsockname :
        (base : Bytes) (ssid : ℕ) (memory : Bytes) (avail : ℕ)
        → IsBase base
        → ssid ≤ 15
        → is_empty (canonical base ssid) ≡ false
        → or_else info.local local ≡ some (canonical base ssid)
        → full_size ≤ avail
        → let (reply, out', s') = accept_child pad out (some (app, inner)) local info s in
          (m : Bytes) × (getsockname to_vec during env real app (some (memory, avail)) s'
            ≡ (returned 0, some (m, full_size)))
          × (read_digipeaters (some (sockaddr_at m)) full_size ≡ canonical base ssid ∷ [])
    unfolding getsockname
    accept_child-getsockname base ssid memory avail b small named here roomy =
        let found : lookup app (accept_child pad out (some (app, inner)) local info s).2.fds
            ≡ some (child_fd app inner local info) =
          accept_child-fds pad out app inner local info s app ∙ rw (==_refl app) refl in
        let (m, wrote, call, digis) =
          write_sockname-read base ssid b small memory avail named roomy in
        (m, rw (getsockname, found, here, wrote) refl, digis)
