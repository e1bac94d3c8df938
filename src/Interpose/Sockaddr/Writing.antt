-- ===== src/Interpose/Sockaddr/Writing.antt =====
-- crates/ax25-interpose/src/addr.rs: `write_call` and `write_sockname`, which copy a socket address into
-- the application's memory, as much as it has room for. The fields of `full_sockaddr_ax25` stand at the
-- offsets that `repr(C)` gives them: the family at 0, the callsign at 2, the count at 12 behind three
-- bytes of padding, and the digipeaters at 16.
use pdn_libax.Prelude.{
  ℕ, zero, suc, ◌+◌, ◌*◌, ◌^◌, List, [], ◌∷◌, ◌++◌, Option, none, some, take, drop, min, replicate,
  Bytes,
}
use pdn_libax.Callsign.{Address}
use pdn_libax.Callsign.Memory.{address_bytes, byte_at, address_at}
use pdn_libax.Interpose.Sockaddr.{Sockaddr, encode, sockaddr_size, max_digis}

abbrev pub full_size : ℕ
full_size = 72

-- A `sockaddr_ax25` with no digipeaters; `pad` is what lies in its padding.
unfoldable pub sockaddr_bytes : Bytes → Bytes → Bytes
sockaddr_bytes pad call = 3 ∷ 0 ∷ (address_bytes (encode call) ++ (pad ++ 0 ∷ 0 ∷ 0 ∷ 0 ∷ []))

-- The same callsign in the first digipeater, and everything else zeroed.
unfoldable pub sockname_bytes : Bytes → Bytes
sockname_bytes call =
    3
    ∷ 0
    ∷ (address_bytes (encode call)
        ++ (0 ∷ 0 ∷ 0 ∷ 1 ∷ 0 ∷ 0 ∷ 0 ∷ (address_bytes (encode call) ++ replicate 49 0)))

-- The application's memory at `addr` and `*len`; `none` if one of the pointers is null.
abbrev pub OutAddr : Type 0
OutAddr = Option (Bytes × ℕ)

abbrev pub copy_out : Bytes → ℕ → OutAddr → OutAddr
copy_out image size none = none
copy_out image size (some (memory, avail)) =
    let n = min avail size in some (take n image ++ drop n memory, size)

unfoldable pub write_call : Bytes → Bytes → OutAddr → OutAddr
unfolding sockaddr_bytes
write_call pad call out = copy_out (sockaddr_bytes pad call) sockaddr_size out

unfoldable pub write_sockname : Bytes → OutAddr → OutAddr
unfolding sockname_bytes
write_sockname call out = copy_out (sockname_bytes call) full_size out

-- The fields of the address that lies in some memory, as the application reads them.
abbrev pub addresses_at : ℕ → Bytes → List Address
addresses_at zero m = []
addresses_at (suc n) m = address_at m ∷ addresses_at n (drop 7 m)

abbrev pub int_at : Bytes → ℕ
int_at m =
    byte_at m
    + 256 * byte_at (drop 1 m)
    + 256 ^ 2 * byte_at (drop 2 m)
    + 256 ^ 3 * byte_at (drop 3 m)

unfoldable pub sockaddr_at : Bytes → Sockaddr
sockaddr_at m =
    let rest = drop 10 (drop 2 m) in
    record {
      call = address_at (drop 2 m);
      ndigis = int_at rest;
      digis = addresses_at max_digis (drop 4 rest);
    }
