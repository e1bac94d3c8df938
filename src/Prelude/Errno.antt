-- ===== src/Prelude/Errno.antt =====
-- The errno values that the program uses, as the `libc` crate has them on Linux.
use Prim.Native.Nat.{ℕ}

abbrev pub eio : ℕ
eio = 5

abbrev pub ebadf : ℕ
ebadf = 9

abbrev pub eagain : ℕ
eagain = 11

abbrev pub eacces : ℕ
eacces = 13

abbrev pub einval : ℕ
einval = 22

abbrev pub enfile : ℕ
enfile = 23

abbrev pub edestaddrreq : ℕ
edestaddrreq = 89

abbrev pub eopnotsupp : ℕ
eopnotsupp = 95

abbrev pub eafnosupport : ℕ
eafnosupport = 97

abbrev pub eaddrinuse : ℕ
eaddrinuse = 98

abbrev pub eaddrnotavail : ℕ
eaddrnotavail = 99

abbrev pub econnaborted : ℕ
econnaborted = 103

abbrev pub econnreset : ℕ
econnreset = 104

abbrev pub enotconn : ℕ
enotconn = 107

abbrev pub etimedout : ℕ
etimedout = 110

abbrev pub econnrefused : ℕ
econnrefused = 111

abbrev pub ehostunreach : ℕ
ehostunreach = 113

abbrev pub einprogress : ℕ
einprogress = 115
