-- ===== src/Callsign/Slots.antt =====
-- What `fill_sax` of crates/libax25/src/addr.rs writes, for every list of tokens.
use pdn_libax.Prelude.{
  ℕ, zero, suc, ◌-◌, ◌≤◌, ◌≡◌, ◌⊎◌, refl, Bool, true, false, ◌&&◌, List, [], ◌∷◌, Option, some,
  none, arith, leb, ltb, ◌∙◌, ◌==◌, if◌then◌else◌, length, length-set, is_empty, Bytes, Outcome,
  done, panic, inl, inr,
}
use pdn_libax.Callsign.{Address, encode_entry}
use pdn_libax.Callsign.Path.{
  FullSockaddr, place, write_entry, is_via, finish, fill_sax, af_ax25, full_sockaddr_size,
  ax25_max_digis,
}

-- The loop changes the callsign and the slots only, keeps their number, and counts at most nine
-- entries.
pub record Placed (sax sax' : FullSockaddr) (r : Option ℕ) : Type 0 where
  pub slots : length sax'.digipeater ≡ length sax.digipeater
  pub family : sax'.family ≡ sax.family
  pub ndigis : sax'.ndigis ≡ sax.ndigis
  pub count : (m : ℕ) → r ≡ some m → m ≤ 9

abbrev PlacedBy : FullSockaddr → Outcome (FullSockaddr × Option ℕ) → Type 0
PlacedBy sax panic = Unit
PlacedBy sax (done (sax', r)) = Placed sax sax' r

Placed-here : (n : ℕ) (sax : FullSockaddr) → n ≤ 9 → Placed sax sax (some n)
Placed-here n sax h = record {
  slots = refl;
  family = refl;
  ndigis = refl;
  count = λ m e. ground arith;
}

Placed-failed : (sax : FullSockaddr) → Placed sax sax none
Placed-failed sax = record {
  slots = refl;
  family = refl;
  ndigis = refl;
  count = λ m e. absurd (cc e);
}

PlacedBy-write :
    (n : ℕ) (e : Address) (sax : FullSockaddr) (r : Outcome (FullSockaddr × Option ℕ))
    → PlacedBy (write_entry n e sax) r
    → PlacedBy sax r
PlacedBy-write n e sax panic h = tt
PlacedBy-write zero e sax (done (sax', r)) h = record {
  slots = h.slots;
  family = h.family;
  ndigis = h.ndigis;
  count = h.count;
}
PlacedBy-write (suc di) e sax (done (sax', r)) h = record {
  slots = h.slots ∙ length-set sax.digipeater di e;
  family = h.family;
  ndigis = h.ndigis;
  count = h.count;
}

PlacedBy-if :
    (b : Bool) (sax : FullSockaddr) (x y : Outcome (FullSockaddr × Option ℕ))
    → (b ≡ true → PlacedBy sax x)
    → (b ≡ false → PlacedBy sax y)
    → PlacedBy sax (if b then x else y)
PlacedBy-if true sax x y hx hy = hx refl
PlacedBy-if false sax x y hx hy = hy refl

entered-PlacedBy :
    (n : ℕ) (e : Address) (sax : FullSockaddr) (more : Outcome (FullSockaddr × Option ℕ))
    → n ≤ 8
    → (suc n ≤ 8 → PlacedBy (write_entry n e sax) more)
    → PlacedBy sax (
        if n == 0
        then more
        else if leb ax25_max_digis (n - 1)
        then done (sax, some n)
        else if ltb ax25_max_digis (suc n)
        then done (write_entry n e sax, some (suc n))
        else more)
entered-PlacedBy n e sax more h w =
    let entry = PlacedBy-write n e sax in
    PlacedBy-if (n == 0) sax more _ (λ z. entry more (w (ground arith)))
      λ _.
        PlacedBy-if (leb ax25_max_digis (n - 1)) sax _ _ (λ _. Placed-here n sax (omega arith))
          λ _.
            PlacedBy-if (ltb ax25_max_digis (suc n)) sax _ more
              (λ _.
                entry (done (write_entry n e sax, some (suc n)))
                  (Placed-here (suc n) (write_entry n e sax) (omega arith)))
              (λ z. entry more (w (ground arith)))

place-PlacedBy :
    (n : ℕ) (tokens : List Bytes) (sax : FullSockaddr) → n ≤ 8 → PlacedBy sax (place n tokens sax)
unfolding place
place-PlacedBy n [] sax h = Placed-here n sax (omega arith)
place-PlacedBy n (tok ∷ tokens) sax h =
    PlacedBy-if (n == 1 && is_via tok) sax (place n tokens sax) _
      (λ _. place-PlacedBy n tokens sax h)
      (λ _.
        elim (encode_entry tok)
          as (λ r. PlacedBy sax (elim r as (λ _. Outcome (FullSockaddr × Option ℕ)) [
            | panic ↦ panic
            | done none ↦ done (sax, none)
            | done (some e) ↦
                if n == 0
                then place (suc n) tokens (write_entry n e sax)
                else if leb ax25_max_digis (n - 1)
                then done (sax, some n)
                else if ltb ax25_max_digis (suc n)
                then done (write_entry n e sax, some (suc n))
                else place (suc n) tokens (write_entry n e sax)
          ])) [
            | panic ↦ tt
            | done none ↦ Placed-failed sax
            | done (some e) ↦
                entered-PlacedBy n e sax (place (suc n) tokens (write_entry n e sax)) h
                  (λ h'. place-PlacedBy (suc n) tokens (write_entry n e sax) h')
          ])

finish-bounds :
    (sax sax' : FullSockaddr) (r : Outcome (FullSockaddr × Option ℕ)) (code : Option ℕ)
    → PlacedBy sax r
    → finish r ≡ done (sax', code)
    → (length sax'.digipeater ≡ length sax.digipeater)
      × (((code ≡ none) × (sax'.family ≡ sax.family) × (sax'.ndigis ≡ sax.ndigis))
          ⊎ ((code ≡ some full_sockaddr_size) × (sax'.family ≡ af_ax25) × (sax'.ndigis ≤ 8)))
finish-bounds sax sax' panic code p e = cc
finish-bounds sax sax' (done (s, none)) code p e = (
  ground (arith, p.slots),
  inl (ground arith, ground (arith, p.family), ground (arith, p.ndigis)),
)
finish-bounds sax sax' (done (s, some n)) code p e =
    let small : n ≤ 9 = p.count n refl in
    (ground (arith, p.slots), inr (ground arith, ground arith, ground arith))

-- For every list of tokens: the number of slots does not change. Either the call returns -1 and leaves
-- the family and the count as they were, or it returns the size of the structure, sets the family to
-- AF_AX25, and the count is at most 8.
pub fill_sax_bounds :
    (tokens : List Bytes) (sax sax' : FullSockaddr) (code : Option ℕ)
    → fill_sax tokens sax ≡ done (sax', code)
    → (length sax'.digipeater ≡ length sax.digipeater)
      × (((code ≡ none) × (sax'.family ≡ sax.family) × (sax'.ndigis ≡ sax.ndigis))
          ⊎ ((code ≡ some full_sockaddr_size) × (sax'.family ≡ af_ax25) × (sax'.ndigis ≤ 8)))
unfolding fill_sax
fill_sax_bounds tokens sax sax' code e =
    finish-bounds sax sax' _ code
      (place-PlacedBy 0 (if is_empty tokens then [] ∷ [] else tokens) sax (omega arith)) e
