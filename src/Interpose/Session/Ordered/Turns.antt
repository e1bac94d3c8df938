-- ===== src/Interpose/Session/Ordered/Turns.antt =====
-- A turn of `outbound_loop` of crates/ax25-interpose/src/state.rs, up to what the node takes.
use pdn_libax.Prelude.{
  ℕ, ◌≡◌, refl, sym, ◌∙◌, ap, subst, inl, inr, true, false, List, [], ◌∷◌, ◌++◌, Option, none, some,
  ◌==◌, ==_refl, if◌then◌else◌, is_empty, Bytes, Table, lookup, All, AreBytes, Bool-cases,
}
use pdn_libax.Rhp.Frame.{Value}
use pdn_libax.Rhp.Client.{Conn}
use pdn_libax.Rhp.Client
use pdn_libax.Rhp.Client.Kept.{Keeps, send-Kept}
use pdn_libax.Rhp.Client.Sending.{Serializes, Obliging}
use pdn_libax.Interpose.EventSink.{Pumps}
use pdn_libax.Interpose.Session.{Session, Env, on_net, ensure_client}
use pdn_libax.Interpose.Session.Ordered.{
  entries_of, drain_locked, flush, flush_entry, flush_ready, turn_reached, outbound_turn,
}
use pdn_libax.Interpose.Session.Ordered.Joined.{
  pieces, Forwards, nothing-Forwards, Forwards-append, flush-Forwards,
}

-- What `recv` gives at the ends that are ready, each with its handle, in the snapshot's order.
unfoldable pub all_reads : List (Option (List Bytes)) → Table ℕ → List (ℕ × Bytes)
all_reads [] m = []
all_reads (ready ∷ rest) [] = []
all_reads (none ∷ rest) (e ∷ m) = all_reads rest m
all_reads (some reads ∷ rest) (e ∷ m) = pieces e.0 reads ++ all_reads rest m

all_reads-none : (ready : List (Option (List Bytes))) → all_reads ready [] ≡ []
unfolding all_reads
all_reads-none [] = refl
all_reads-none (r ∷ ready) = refl

abbrev pub ReadsAreBytes : Option (List Bytes) → Type 0
ReadsAreBytes none = Unit
ReadsAreBytes (some reads) = All AreBytes reads

Found : Table ℕ → Table ℕ → Type 0
Found m entries = All (λ e. (inner : ℕ) × (lookup e.0 entries ≡ some inner)) m

Found-cons : (e : ℕ × ℕ) (m entries : Table ℕ) → Found m entries → Found m (e ∷ entries)
unfolding Found lookup
Found-cons e [] entries all = tt
Found-cons e (d ∷ m) entries ((inner, found), rest) = (
  elim (Bool-cases (e.0 == d.0)) [
    | inl same ↦ (e.1, rw same)
    | inr other ↦ (inner, rw other found)
  ],
  Found-cons e m entries rest,
)

-- Every key of a table is found in it.
all_Found : (m : Table ℕ) → Found m m
unfolding Found lookup
all_Found [] = tt
all_Found (e ∷ m) = ((e.1, rw (==_refl e.0)), Found-cons e m m (all_Found m))

abbrev HasEntries : Table ℕ → Pumps → Type 0
HasEntries m p = p.outbound.entries ≡ m

module _ (to_vec : Value → Bytes) (during : ℕ → Conn Pumps → Conn Pumps)
    (parse : Bytes → Option Value) (keeps : (m : Table ℕ) → Keeps (HasEntries m) during) where
  drain_locked-entries :
      (h inner : ℕ) (reads : List Bytes) (m : Table ℕ) (s : Session)
      → entries_of s ≡ m
      → entries_of (drain_locked to_vec during h inner reads s) ≡ m
  unfolding drain_locked
  drain_locked-entries h inner [] m s e = e
  drain_locked-entries h inner (bytes ∷ reads) m s e =
      drain_locked-entries h inner reads m (on_net (Client.send to_vec during h bytes) s).1
        (send-Kept (HasEntries m) to_vec during (keeps m) h bytes s.net e)

  flush-entries :
      (h : ℕ) (reads : List Bytes) (m : Table ℕ) (s : Session)
      → entries_of s ≡ m
      → entries_of (flush to_vec during h reads s) ≡ m
  unfolding flush
  flush-entries h reads m s e = by_entry (lookup h (entries_of s))
    where
      by_entry : (o : Option ℕ) → entries_of (flush_entry to_vec during h o reads s) ≡ m
      by_entry none = e
      by_entry (some inner) = drain_locked-entries h inner reads m s e

  module _ (serializes : (h : ℕ) → Serializes to_vec parse h) (obliging : Obliging during) where
    flush_ready-Forwards :
        (ready : List (Option (List Bytes))) (m entries : Table ℕ) (s : Session)
        → Found m entries
        → entries_of s ≡ entries
        → All ReadsAreBytes ready
        → Forwards to_vec during parse
            (all_reads ready m)
            s.net.written
            (flush_ready to_vec during ready m s).net.written
    unfolding flush_ready all_reads Found
    flush_ready-Forwards [] m entries s found e all =
        nothing-Forwards to_vec during parse s.net.written
    flush_ready-Forwards (r ∷ ready) [] entries s found e all =
        nothing-Forwards to_vec during parse s.net.written
    flush_ready-Forwards (none ∷ ready) (d ∷ m) entries s found e all =
        flush_ready-Forwards ready m entries s found.1 e all.1
    flush_ready-Forwards (some reads ∷ ready) ((h, i) ∷ m) entries s ((inner, found), rest) e all =
        let s' = flush to_vec during h reads s in
        Forwards-append to_vec during parse (pieces h reads) (all_reads ready m) s.net.written
          s'.net.written (flush_ready to_vec during ready m s').net.written
          (flush-Forwards to_vec during parse serializes obliging h inner reads s
            (ap (λ t. lookup h t) e ∙ found) all.0)
          (flush_ready-Forwards ready m entries s' rest (flush-entries h reads entries s e) all.1)

    -- One turn of the background pump over a client that is up, if nothing registers or forgets a handle
    -- while a request waits, the node answers each request without an error and its parser reads a
    -- `send` request back: the turn writes whole frames that the node takes as payloads, and for each
    -- handle they are together what the application wrote past the interposer on the ends that `poll`
    -- reported, in order.
    pub outbound_turn-Forwards :
        (env : Env) (ready : List (Option (List Bytes))) (s : Session)
        → s.cached ≡ true
        → s.net.core.closed ≡ false
        → All ReadsAreBytes ready
        → Forwards to_vec during parse
            (all_reads ready (entries_of s))
            s.net.written
            (outbound_turn to_vec during env (some ready) s).net.written
    unfolding outbound_turn ensure_client all_reads
    outbound_turn-Forwards env ready s cached alive all = by_entries (entries_of s) refl
      where
        turn : Table ℕ → Session
        turn m =
            if is_empty m
            then s
            else turn_reached to_vec during env ready m (ensure_client to_vec during env s)

        by_entries :
            (m : Table ℕ)
            → entries_of s ≡ m
            → Forwards to_vec during parse (all_reads ready m) s.net.written (turn m).net.written
        by_entries [] e =
            subst (λ ps. Forwards to_vec during parse ps s.net.written s.net.written)
              (sym (all_reads-none ready)) (nothing-Forwards to_vec during parse s.net.written)
        by_entries (d ∷ m) e =
            let up : ensure_client to_vec during env s ≡ (true, s) =
              rw (ensure_client, cached, alive) in
            rw up (flush_ready-Forwards ready (d ∷ m) (d ∷ m) s (all_Found (d ∷ m)) e all)
