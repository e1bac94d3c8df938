-- ===== src/Interpose/Sockaddr/Tests.antt =====
-- Instances of the theorems on the socket addresses that crates/ax25-interpose/src/addr.rs writes.
use pdn_libax.Prelude.{refl, [], ◌∷◌, some, arith, codes, replicate}
use pdn_libax.Interpose.Sockaddr.Writing.{write_call, write_sockname}
use pdn_libax.Interpose.Sockaddr.ReadBack.{Inside, write-Inside}

write-Inside_example :
    Inside
      (replicate 40 7)
      20
      (write_call (1 ∷ 2 ∷ 3 ∷ []) (codes "M0LTE-3") (some (replicate 40 7, 20)))
    × Inside (replicate 40 7) 20 (write_sockname (codes "M0LTE-3") (some (replicate 40 7, 20)))
write-Inside_example =
    write-Inside (codes "M0LTE-3") (1 ∷ 2 ∷ 3 ∷ []) (replicate 40 7) 20 refl (omega arith)
