-- ===== src/Interpose/EventSink.antt =====
-- crates/ax25-interpose/src/state.rs: `InterposeSink`, which hands the reader thread's events to the
-- pumps. The kernel's answer to a `send` is a function of the pumps' state.
use pdn_libax.Prelude.{
  ℕ, ◌≡◌, refl, sym, ap, ◌∙◌, ◌⊎◌, inl, inr, Bool, true, false, ◌||◌, List, [], ◌∷◌, Option, none,
  some, arith, ◌==◌, ==_iff, if◌then◌else◌, Bytes, Table, lookup, lookup-remove, lookup-map_values,
  Bool-cases, map_some,
}
use pdn_libax.Rhp.Frame.{is_connected}
use pdn_libax.Rhp.Reader.{Sink}
use pdn_libax.Interpose.RecvPump
use pdn_libax.Interpose.RecvPump.{Answer, Pump, PendingRecv}
use pdn_libax.Interpose.DgramPump
use pdn_libax.Interpose.DgramPump.{Line}
use pdn_libax.Interpose.Outbound.{Outbound, register, resolve_connect_gate, resolve_gate}

pub record Pumps : Type 0 where
  pub recv : Pump
  pub dgrams : Table Line
  pub outbound : Outbound

-- The keys of a table.
abbrev pub keys {ℓ} : {V : Type ℓ} → Table V → List ℕ
keys [] = []
keys (e ∷ m) = e.0 ∷ keys m

unfoldable pub resolve_each : List ℕ → Outbound → Outbound
unfolding resolve_connect_gate
resolve_each [] s = s
resolve_each (h ∷ hs) s = resolve_each hs (resolve_connect_gate h s)

abbrev has_key : ℕ → List ℕ → Bool
has_key h [] = false
has_key h (k ∷ ks) = k == h || has_key h ks

absent_or_key :
    {V : Type 0} (h : ℕ) (m : Table V) → (lookup h m ≡ none) ⊎ (has_key h (keys m) ≡ true)
unfolding lookup
absent_or_key h [] = inl refl
absent_or_key h (e ∷ m) = elim (Bool-cases (e.0 == h)) [
  | inl same ↦ inr (rw same refl)
  | inr other ↦ elim (absent_or_key h m) [
    | inl absent ↦ inl (rw other absent)
    | inr later ↦ inr (rw (other, later) refl)
  ]
]

-- A resolved gate is gone, and the others stay.
pub resolve-gates :
    (h j : ℕ) (s : Outbound)
    → lookup j (resolve_connect_gate h s).gates ≡ (if h == j then none else lookup j s.gates)
unfolding resolve_connect_gate register
resolve-gates h j s = by_gate (lookup h s.gates) refl
  where
    by_gate :
        (o : Option ℕ)
        → lookup h s.gates ≡ o
        → lookup j (resolve_gate h o s).gates ≡ (if h == j then none else lookup j s.gates)
    by_gate (some fd) found = lookup-remove h j s.gates
    by_gate none found = elim (Bool-cases (h == j)) [
      | inl same ↦ rw same (ap (λ i. lookup i s.gates) (sym ((==_iff h j).0 same)) ∙ found)
      | inr other ↦ rw other refl
    ]

resolve_each-gates :
    (hs : List ℕ) (j : ℕ) (s : Outbound)
    → (lookup j s.gates ≡ none) ⊎ (has_key j hs ≡ true)
    → lookup j (resolve_each hs s).gates ≡ none
unfolding resolve_each
resolve_each-gates [] j s (inl absent) = absent
resolve_each-gates [] j s (inr named) = cc named
resolve_each-gates (h ∷ hs) j s named =
    resolve_each-gates hs j (resolve_connect_gate h s) (ground (arith, resolve-gates h j s, named))

module _ (answer : ℕ → Bytes → Pumps → Answer) (sends : Pumps → Bool) where
  unfoldable pub on_status : ℕ → ℕ → Pumps → Pumps
  unfolding resolve_connect_gate
  on_status handle flags s =
      if is_connected flags
      then record s { outbound = resolve_connect_gate handle s.outbound }
      else s

  unfoldable pub on_close : ℕ → Pumps → Pumps
  unfolding resolve_connect_gate RecvPump.mark_eof
  on_close handle s = record s {
    outbound = resolve_connect_gate handle s.outbound;
    recv = RecvPump.mark_eof handle s.recv;
  }

  unfoldable pub on_disconnect : Pumps → Pumps
  unfolding resolve_each RecvPump.shutdown_all DgramPump.shutdown_all
  on_disconnect s = record {
    outbound = resolve_each (keys s.outbound.gates) s.outbound;
    recv = RecvPump.shutdown_all s.recv;
    dgrams = DgramPump.shutdown_all (sends s) s.dgrams;
  }

  -- `on_accept` is the trait's, which does nothing; a datagram's destination is dropped.
  abbrev pub interpose_sink : Sink Pumps
  interpose_sink = record {
    on_recv = λ handle bytes s. record s {
      recv = RecvPump.push handle bytes (answer handle bytes s) s.recv;
    };
    on_dgram = λ handle source dest bytes s. record s {
      dgrams =
          DgramPump.push (sends s) handle (record { source = source; payload = bytes }) s.dgrams;
    };
    on_accept = λ listener child remote local s. s;
    on_status = on_status;
    on_close = on_close;
    on_disconnect = on_disconnect;
  }

  -- When the transport is gone, no connect is gated any more, and every registered handle is marked for
  -- end of file with its descriptor and backlog kept.
  pub on_disconnect-gates :
      (s : Pumps) (h : ℕ)
      → (lookup h (on_disconnect s).outbound.gates ≡ none)
        × (lookup h (on_disconnect s).recv.handles
            ≡ map_some (λ e. record e { eof = true }) (lookup h s.recv.handles))
  unfolding on_disconnect RecvPump.shutdown_all
  on_disconnect-gates s h = (
    resolve_each-gates (keys s.outbound.gates) h s.outbound (absent_or_key h s.outbound.gates),
    lookup-map_values (λ e. record e { eof = true }) h s.recv.handles,
  )
