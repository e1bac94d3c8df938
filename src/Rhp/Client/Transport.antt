-- ===== src/Rhp/Client/Transport.antt =====
-- The transport of `RhpClient` in crates/rhpv2/src/client.rs: its address, whether it is closed, and a
-- request without a reply.
use pdn_libax.Prelude.{Bool, Option, Bytes, codes}
use pdn_libax.Rhp.Wire.{IoResult, ok, err, write_frame}
use pdn_libax.Rhp.Frame.{unwrap_or}
use pdn_libax.Rhp.Client.{given, failed, io, Conn, Call}

-- The argument is PDN_RHP_ADDR.
abbrev pub default_addr : Option Bytes → Bytes
default_addr env = unwrap_or env (codes "127.0.0.1:9000")

module _ {S : Type 0} where
  abbrev pub is_closed : Conn S → Bool
  is_closed c = c.core.closed

  abbrev pub oneway_written : IoResult Bytes → Call S (Unit {0})
  oneway_written (ok w) c = (given tt, record c { written = w })
  oneway_written (err e) c = (failed (io e), c)

  unfoldable pub send_oneway : Bytes → Call S (Unit {0})
  unfolding write_frame
  send_oneway bytes c = oneway_written (write_frame c.written bytes) c
