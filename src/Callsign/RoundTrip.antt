-- ===== src/Callsign/RoundTrip.antt =====
-- Encoding a callsign of crates/libax25/src/addr.rs and decoding the result.
use pdn_libax.Prelude.{ℕ, ◌≤◌, ◌≡◌, Bytes, done, Option, some, none, map_outcome}
use pdn_libax.Callsign.{Address, encode_entry, decode_entry}
use pdn_libax.Callsign.Entry.{IsBase, canonical, encode_canonical, decode_entry-entry}

abbrev pub decode_option : Option Address → Option Bytes
decode_option none = none
decode_option (some a) = some (decode_entry a)

-- Every canonical callsign, that is up to six upper-case letters or digits and an SSID from 0 to 15
-- that is written only if it is not 0, is accepted, and decodes to the text that was encoded.
pub decode-encode :
    (base : Bytes) (ssid : ℕ)
    → IsBase base
    → ssid ≤ 15
    → map_outcome decode_option (encode_entry (canonical base ssid))
      ≡ done (some (canonical base ssid))
decode-encode base ssid b h = rw (encode_canonical base ssid b h, decode_entry-entry base ssid b h)
