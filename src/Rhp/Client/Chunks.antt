-- ===== src/Rhp/Client/Chunks.antt =====
-- The chunks of `send` in crates/rhpv2/src/client.rs.
use pdn_libax.Prelude.{
  ℕ, zero, suc, ◌≤◌, ◌<◌, ◌≡◌, refl, List, [], ◌∷◌, ◌++◌, arith, Bytes, length, take, drop,
  length-take, length-drop, take-append-drop, All, AreBytes, All-append_left, All-append_right,
}
use pdn_libax.Rhp.Client.{chunks}

abbrev pub joined : List Bytes → Bytes
joined [] = []
joined (s ∷ ss) = s ++ joined ss

-- The chunks put together are the bytes.
pub joined-chunks :
    (fuel n : ℕ) (s : Bytes) → 0 < n → length s ≤ fuel → joined (chunks fuel n s) ≡ s
unfolding chunks
joined-chunks zero n [] pos fuel = refl
joined-chunks zero n (b ∷ s) pos h = absurd (omega arith)
joined-chunks (suc fuel) n [] pos h = refl
joined-chunks (suc fuel) n (b ∷ s) pos h = rw (
  joined-chunks fuel n (drop n (b ∷ s)) pos (omega (arith, length-drop n (b ∷ s))),
  take-append-drop n (b ∷ s),
)

-- No chunk is longer than `n`, and none is empty.
pub chunks-sizes :
    (fuel n : ℕ) (s : Bytes)
    → 0 < n
    → All (λ (c : Bytes). (0 < length c) × (length c ≤ n)) (chunks fuel n s)
unfolding chunks
chunks-sizes zero n s pos = tt
chunks-sizes (suc fuel) n [] pos = tt
chunks-sizes (suc fuel) n (b ∷ s) pos = (
  (omega (arith, length-take n (b ∷ s)), omega (arith, length-take n (b ∷ s))),
  chunks-sizes fuel n (drop n (b ∷ s)) pos,
)

pub chunks-AreBytes : (fuel n : ℕ) (s : Bytes) → AreBytes s → All AreBytes (chunks fuel n s)
unfolding chunks
chunks-AreBytes zero n s all = tt
chunks-AreBytes (suc fuel) n [] all = tt
chunks-AreBytes (suc fuel) n (b ∷ s) all =
    let parts : AreBytes (take n (b ∷ s) ++ drop n (b ∷ s)) = rw (take-append-drop n (b ∷ s)) all in
    (
      All-append_left _ (take n (b ∷ s)) (drop n (b ∷ s)) parts,
      chunks-AreBytes fuel n (drop n (b ∷ s))
          (All-append_right _ (take n (b ∷ s)) (drop n (b ∷ s)) parts),
    )

-- `send` makes one payload of no bytes, and the chunks of any other.
abbrev pub payloads : ℕ → Bytes → List Bytes
payloads n [] = [] ∷ []
payloads n (b ∷ s) = chunks (length (b ∷ s)) n (b ∷ s)

pub joined-payloads : (n : ℕ) (s : Bytes) → 0 < n → joined (payloads n s) ≡ s
joined-payloads n [] pos = refl
joined-payloads n (b ∷ s) pos = joined-chunks (length (b ∷ s)) n (b ∷ s) pos (omega arith)
