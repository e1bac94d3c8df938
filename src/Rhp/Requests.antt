-- ===== src/Rhp/Requests.antt =====
-- The request structs of crates/rhpv2/src/messages.rs, as the JSON objects that serde makes of them:
-- fields in the order of their declaration, `type` first, and an optional field only if it is there.
use pdn_libax.Prelude.{ℕ, Option, none, some, Bytes, codes}
use pdn_libax.Rhp.Frame.{Value, unsigned, str, obj, Members, end, member}

abbrev optional : Bytes → Option Bytes → Members → Members
optional key none rest = rest
optional key (some value) rest = member key (str value) rest

abbrev pub open_flag_active : ℕ
open_flag_active = 128

abbrev pub open_flag_passive : ℕ
open_flag_passive = 0

abbrev pub max_send_chunk : ℕ
max_send_chunk = 8100

-- `type` and `id` stand in front of every request.
abbrev pub request_obj : Bytes → ℕ → Members → Value
request_obj typ id rest =
    obj (member (codes "type") (str typ) (member (codes "id") (unsigned id) rest))

unfoldable pub open_req : ℕ → Option Bytes → Bytes → Option Bytes → Option Bytes → ℕ → Value
open_req id port local remote via flags = request_obj (codes "open") id (
    member (codes "pfam") (str (codes "ax25")) (
      member (codes "mode") (str (codes "stream")) (
        optional (codes "port") port (
          member (codes "local") (str local) (
            optional (codes "remote") remote
              (optional (codes "via") via (member (codes "flags") (unsigned flags) end)))))))

unfoldable pub send_req : ℕ → ℕ → Bytes → Value
send_req id handle payload =
    request_obj (codes "send") id
      (member (codes "handle") (unsigned handle) (member (codes "data") (str payload) end))

unfoldable pub close_req : ℕ → ℕ → Value
close_req id handle = request_obj (codes "close") id (member (codes "handle") (unsigned handle) end)

unfoldable pub socket_req : ℕ → Bytes → Value
socket_req id mode =
    request_obj (codes "socket") id
      (member (codes "pfam") (str (codes "ax25")) (member (codes "mode") (str mode) end))

unfoldable pub send_to_req : ℕ → ℕ → Bytes → Bytes → Bytes → Value
send_to_req id handle remote local payload = request_obj (codes "sendto") id (
    member (codes "handle") (unsigned handle) (
      member (codes "remote") (str remote)
        (member (codes "local") (str local) (member (codes "data") (str payload) end))))

unfoldable pub bind_req : ℕ → ℕ → Bytes → Option Bytes → Value
bind_req id handle local port = request_obj (codes "bind") id (
    member (codes "handle") (unsigned handle)
      (member (codes "local") (str local) (optional (codes "port") port end)))

unfoldable pub listen_req : ℕ → ℕ → Value
listen_req id handle =
    request_obj (codes "listen") id
      (member (codes "handle") (unsigned handle) (member (codes "flags") (unsigned 0) end))

unfoldable pub auth_req : ℕ → Bytes → Bytes → Value
auth_req id user pass =
    request_obj (codes "auth") id
      (member (codes "user") (str user) (member (codes "pass") (str pass) end))
