-- ===== src/Rhp/Wire.antt =====
-- crates/rhpv2/src: framing.rs, codec.rs and errors.rs.
pub mod Framing
pub mod Codes
mod Tests
use pdn_libax.Prelude.{
  ℕ, ◌+◌, ◌*◌, ◌/◌, ◌%◌, ◌^◌, ◌≤◌, Bool, true, false, List, [], ◌∷◌, ◌++◌, map, Option, none, some,
  ltb, leb, ◌==◌, if◌then◌else◌, length, take, drop, Bytes, codes,
}
use pdn_libax.Prelude.Errno.{
  eio, ebadf, eacces, einval, eopnotsupp, eafnosupport, eaddrinuse, eaddrnotavail, enotconn,
  ehostunreach,
}

-- What stands behind the last byte of a byte stream: its end, or an I/O error.
pub data End : Type 0 where
  closed broken : End

pub record Stream : Type 0 where
  pub unread : Bytes
  pub end : End

pub data IoError : Type 0 where
  invalid_input unexpected_eof failed : IoError

pub data IoResult {ℓ} (A : Type ℓ) : Type ℓ where
  ok : A → IoResult A
  err : IoError → IoResult A

abbrev end_error : End → IoError
end_error closed = unexpected_eof
end_error broken = failed

-- `Read::read_exact` of the standard library.
unfoldable pub read_exact : ℕ → Stream → IoResult Bytes × Stream
read_exact n s =
    if leb n (length s.unread)
    then (ok (take n s.unread), record s { unread = drop n s.unread })
    else (err (end_error s.end), record s { unread = [] })

abbrev pub max_frame : ℕ
max_frame = 65535

-- `(payload.len() as u16).to_be_bytes()`
abbrev pub be_bytes : ℕ → Bytes
be_bytes n = (n % 2 ^ 16 / 256) ∷ (n % 256) ∷ []

-- The writer is the bytes that it has taken.
unfoldable pub write_frame : Bytes → Bytes → IoResult Bytes
write_frame w payload =
    if ltb max_frame (length payload)
    then err invalid_input
    else ok (w ++ (be_bytes (length payload) ++ payload))

-- `u16::from_be_bytes`
abbrev pub from_be_bytes : Bytes → ℕ
from_be_bytes [] = 0
from_be_bytes (hi ∷ []) = 0
from_be_bytes (hi ∷ lo ∷ s) = hi * 256 + lo

abbrev pub read_body : IoResult Bytes × Stream → IoResult (Option Bytes) × Stream
read_body (ok body, s) = (ok (some body), s)
read_body (err e, s) = (err e, s)

abbrev pub read_prefixed : IoResult Bytes × Stream → IoResult (Option Bytes) × Stream
read_prefixed (ok len_buf, s) = read_body (read_exact (from_be_bytes len_buf) s)
read_prefixed (err unexpected_eof, s) = (ok none, s)
read_prefixed (err invalid_input, s) = (err invalid_input, s)
read_prefixed (err failed, s) = (err failed, s)

unfoldable pub read_frame : Stream → IoResult (Option Bytes) × Stream
unfolding read_exact
read_frame s = read_prefixed (read_exact 2 s)

-- A `String` is the list of its code points: `u8 as char` keeps the number, `char as u8` its low byte.
unfoldable pub to_wire_string : Bytes → List ℕ
to_wire_string = map λ b. b

unfoldable pub from_wire_string : List ℕ → Bytes
from_wire_string = map λ c. c % 256

-- Error codes are `i64` bit patterns.
unfoldable pub errcode_to_errno : ℕ → ℕ
errcode_to_errno errcode =
    if errcode == 0
    then 0
    else if errcode == 3
    then ebadf
    else if errcode == 6
    then eaddrnotavail
    else if errcode == 7
    then einval
    else if errcode == 8
    then eafnosupport
    else if errcode == 9
    then eaddrinuse
    else if errcode == 14
    then eacces
    else if errcode == 15
    then ehostunreach
    else if errcode == 16
    then eopnotsupp
    else if errcode == 17
    then enotconn
    else if errcode == 12
    then einval
    else eio

unfoldable pub errcode_name : ℕ → Bytes
errcode_name errcode =
    if errcode == 0
    then codes "Ok"
    else if errcode == 3
    then codes "Invalid handle"
    else if errcode == 6
    then codes "Invalid local address"
    else if errcode == 7
    then codes "Invalid remote address"
    else if errcode == 8
    then codes "Bad or missing family"
    else if errcode == 9
    then codes "Duplicate socket"
    else if errcode == 12
    then codes "Bad parameter"
    else if errcode == 14
    then codes "Unauthorised"
    else if errcode == 15
    then codes "No route"
    else if errcode == 16
    then codes "Operation not supported"
    else if errcode == 17
    then codes "Not connected"
    else codes "Unspecified"
