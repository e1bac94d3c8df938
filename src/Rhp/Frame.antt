-- ===== src/Rhp/Frame.antt =====
-- crates/rhpv2/src/messages.rs: the accessors of `Frame`, over a parsed `serde_json::Value`.
-- A JSON string is the list of its code points. Parsing itself is the library's: a parameter of the
-- reader.
use pdn_libax.Prelude.{
  ℕ, ◌^◌, Bool, true, false, ◌||◌, Option, none, some, ltb, if◌then◌else◌, Bytes, codes, bytes_eq,
  bit_and, not, ◌==◌,
}

mutual
  -- A number is a `u64`, a negative `i64` by its bit pattern, or a float.
  pub data Value : Type 0 where
    null : Value
    bool : Bool → Value
    unsigned : ℕ → Value
    negative : ℕ → Value
    float : Value
    str : Bytes → Value
    arr : Items → Value
    obj : Members → Value

  pub data Items : Type 0 where
    nil : Items
    item : Value → Items → Items

  pub data Members : Type 0 where
    end : Members
    member : Bytes → Value → Members → Members

-- `Map::get`: keys are distinct.
unfoldable pub get_member : Bytes → Members → Option Value
get_member key end = none
get_member key (member k v rest) = if bytes_eq k key then some v else get_member key rest

-- `Value::get` with a string: `None` unless the value is an object.
unfoldable pub get : Bytes → Value → Option Value
unfolding get_member
get key (obj m) = get_member key m
get key _ = none

abbrev pub as_str : Option Value → Option Bytes
as_str (some (str s)) = some s
as_str _ = none

abbrev pub as_u64 : Option Value → Option ℕ
as_u64 (some (unsigned n)) = some n
as_u64 _ = none

-- The bit pattern of the `i64`.
abbrev pub as_i64 : Option Value → Option ℕ
as_i64 (some (unsigned n)) = if ltb n (2 ^ 63) then some n else none
as_i64 (some (negative n)) = some n
as_i64 _ = none

-- `Option::or_else`, `unwrap_or`, `is_some`
abbrev pub or_else {ℓ} : {A : Type ℓ} → Option A → Option A → Option A
or_else none b = b
or_else (some a) b = some a

abbrev pub unwrap_or {ℓ} : {A : Type ℓ} → Option A → A → A
unwrap_or none d = d
unwrap_or (some a) d = a

abbrev pub is_some {ℓ} : {A : Type ℓ} → Option A → Bool
is_some none = false
is_some (some a) = true

unfoldable pub typ : Value → Bytes
unfolding get
typ f = unwrap_or (as_str (get (codes "type") f)) (codes "")

unfoldable pub id : Value → Option ℕ
unfolding get
id f = as_u64 (get (codes "id") f)

unfoldable pub handle : Value → Option ℕ
unfolding get
handle f = as_u64 (get (codes "handle") f)

unfoldable pub seqno : Value → Option ℕ
unfolding get
seqno f = as_u64 (get (codes "seqno") f)

unfoldable pub child : Value → Option ℕ
unfolding get
child f = as_u64 (get (codes "child") f)

unfoldable pub errcode : Value → ℕ
unfolding get
errcode f = unwrap_or (as_i64 (or_else (get (codes "errCode") f) (get (codes "errcode") f))) 0

unfoldable pub status_flags : Value → ℕ
unfolding get errcode
status_flags f =
    unwrap_or (as_i64 (or_else (get (codes "flags") f) (get (codes "status") f))) (errcode f)

unfoldable pub errtext : Value → Option Bytes
unfolding get
errtext f = as_str (or_else (get (codes "errText") f) (get (codes "errtext") f))

unfoldable pub data_str : Value → Option Bytes
unfolding get
data_str f = as_str (get (codes "data") f)

unfoldable pub is_dgram_recv : Value → Bool
unfolding get
is_dgram_recv f = is_some (get (codes "remote") f) || is_some (get (codes "port") f)

unfoldable pub remote : Value → Option Bytes
unfolding get
remote f = as_str (get (codes "remote") f)

unfoldable pub local : Value → Option Bytes
unfolding get
local f = as_str (get (codes "local") f)

abbrev pub status_connected : ℕ
status_connected = 0x02

-- `flags & STATUS_CONNECTED != 0`
abbrev pub is_connected : ℕ → Bool
is_connected flags = not (bit_and flags status_connected == 0)
