-- ===== src/Rose/Tests.antt =====
-- Instances of the theorems on the ROSE addresses of crates/libax25/src/stubs.rs.
use pdn_libax.Prelude.{◌≡◌, refl, true, ◌∷◌, ◌++◌, some, Bytes, codes, drop, length, replicate}
use pdn_libax.Callsign.Memory.{c_string}
use pdn_libax.Rose.{rose_aton, rose_ntoa, all_digits, rose_ntoa-aton}

ten_digits : all_digits (codes "0820193456") ≡ true
unfolding all_digits
ten_digits = refl

rose_ntoa-aton_example :
    (stored : Bytes) × (rose_aton
        (λ s. true)
        (some (codes "0820193456" ++ 0 ∷ codes "x"))
        (some (replicate 6 1))
      ≡ (some 0, some (stored ++ drop 5 (replicate 6 1))))
    × (length stored ≡ 5)
    × (c_string (rose_ntoa (some stored) (replicate 12 9)) ≡ codes "0820193456")
rose_ntoa-aton_example =
    rose_ntoa-aton (λ s. true) (codes "0820193456") (codes "x") (replicate 6 1) (replicate 12 9)
      refl refl ten_digits
