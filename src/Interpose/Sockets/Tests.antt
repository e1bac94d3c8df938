-- ===== src/Interpose/Sockets/Tests.antt =====
-- The theorems on sockets and socket addresses at concrete calls.
use pdn_libax.Prelude.{
  ◌≡◌, refl, true, false, [], ◌∷◌, none, some, codes, arith, lookup, done, decimal,
}
use pdn_libax.Callsign.{encode_entry}
use pdn_libax.Interpose.Sockaddr.{encode, decode, encode-encode_entry}
use pdn_libax.Interpose.Sockets.{FdState, Sockets, returned, new_fd}
use pdn_libax.Interpose.Sockets.Options.{
  setsockopt, getsockopt, sol_ax25, ax25_paclen, getsockopt-setsockopt,
}

encode-encode_entry_example :
    (encode_entry (codes "GB7RDG-15") ≡ done (some (encode (codes "GB7RDG-15"))))
    × (decode (encode (codes "GB7RDG-15")) ≡ codes "GB7RDG-15")
unfolding decimal
encode-encode_entry_example =
    encode-encode_entry (codes "GB7RDG") 15
      (omega arith, (refl, (refl, (refl, (refl, (refl, (refl, tt))))))) (omega arith)

abbrev beacon : FdState
beacon = record (new_fd 10 11 true) { local = some (codes "M0LTE") }

abbrev sockets : Sockets
sockets = record { fds = (10, beacon) ∷ (12, new_fd 12 13 false) ∷ []; client = none }

getsockopt-setsockopt_example :
    ((getsockopt 10 sol_ax25 ax25_paclen true
        (returned 9, none)
        (setsockopt 10 sol_ax25 ax25_paclen (some 200) 4 (returned 9) sockets).1).0
      ≡ (returned 0, some 200))
    × (lookup 12 (setsockopt 10 sol_ax25 ax25_paclen (some 200) 4 (returned 9) sockets).1.fds
        ≡ lookup 12 sockets.fds)
getsockopt-setsockopt_example =
    getsockopt-setsockopt 10 12 ax25_paclen 200 4 (returned 9) (returned 9, none) sockets beacon
      (unfold lookup in refl) refl (omega arith) refl
