-- ===== src/Axports/Loaded.antt =====
-- crates/libax25/src/config.rs: the table of loaded ports and the functions that look into it. A
-- returned `char *` is the text it points to, or `none` for NULL.
pub mod Lookups
use pdn_libax.Prelude.{
  ℕ, zero, suc, ◌+◌, Bool, true, false, ◌&&◌, ◌||◌, List, [], ◌∷◌, ◌++◌, map, Option, none, some,
  ltb, ◌==◌, if◌then◌else◌, is_empty, length, Bytes, bytes_eq, to_upper, codes, Outcome, done,
  panic,
}
use pdn_libax.Callsign.{Address, encode_entry, cmp_entry, null_ax25_address}
use pdn_libax.Axports.{ParsedPort, parse_axports, eq_ignore_ascii_case}

pub record CPort : Type 0 where
  pub name : Bytes
  pub call : Bytes
  pub device : Bytes
  pub description : Bytes
  pub name_s : Bytes
  pub call_s : Bytes
  pub device_s : Bytes
  pub baud : ℕ
  pub window : ℕ
  pub paclen : ℕ

abbrev pub has_nul : Bytes → Bool
has_nul [] = false
has_nul (b ∷ s) = b == 0 || has_nul s

-- `CString::new(s).unwrap_or_default()`
abbrev pub c_string : Bytes → Bytes
c_string s = if has_nul s then [] else s

abbrev pub load_port : ParsedPort → CPort
load_port p = record {
  name = c_string p.name;
  call = c_string p.call;
  device = c_string p.name;
  description = c_string p.description;
  name_s = p.name;
  call_s = p.call;
  device_s = p.name;
  baud = p.baud;
  window = p.window;
  paclen = p.paclen;
}

abbrev pub push_all : List CPort → Outcome (List ParsedPort) → Outcome (List CPort)
push_all ports panic = panic
push_all ports (done parsed) = done (ports ++ map load_port parsed)

abbrev pub load_content : Option Bytes → List CPort → Outcome (List CPort)
unfolding parse_axports
load_content none ports = done ports
load_content (some content) ports = push_all ports (parse_axports content)

-- The file is read if the table is empty; `none` is a file that cannot be read as UTF-8 text. The
-- returned count is the length of the new table.
unfoldable pub ax25_config_load_ports : Option Bytes → List CPort → Outcome (List CPort)
unfolding load_content
ax25_config_load_ports content [] = load_content content []
ax25_config_load_ports content (p ∷ ports) = done (p ∷ ports)

-- A `char *` argument, as `cstr_arg` reads it.
pub data CArg : Type 0 where
  null not_utf8 : CArg
  text : Bytes → CArg

unfoldable pub split_dash : Bytes → Option (Bytes × Bytes)
split_dash [] = none
split_dash (c ∷ s) =
    let rest = split_dash s in
    if c == b'-'
    then some ([], s)
    else elim rest [ none ↦ none | some (base, ssid) ↦ some (c ∷ base, ssid) ]

abbrev pub norm_parts : Bytes → Option (Bytes × Bytes) → Bytes
norm_parts s none = s
norm_parts s (some (base, ssid)) = if bytes_eq ssid (b'0' ∷ []) then base else s

unfoldable pub norm : Bytes → Bytes
unfolding split_dash
norm s = norm_parts (map to_upper s) (split_dash (map to_upper s))

unfoldable pub is_same_call : Bytes → Bytes → Bool
unfolding norm
is_same_call a b = bytes_eq (norm a) (norm b)

abbrev pub answers_to : Bytes → CPort → Bool
unfolding is_same_call
answers_to query p = eq_ignore_ascii_case p.name_s query || is_same_call p.call_s query

-- The ports from the first one that is meant on.
unfoldable pub find_from : Bytes → List CPort → List CPort
unfolding answers_to
find_from query [] = []
find_from query (p ∷ ports) = if answers_to query p then p ∷ ports else find_from query ports

abbrev pub name_of_first : List CPort → Option Bytes
name_of_first [] = none
name_of_first (p ∷ ports) = some p.name

abbrev pub name_of_second : List CPort → Option Bytes
name_of_second [] = none
name_of_second (p ∷ ports) = name_of_first ports

unfoldable pub ax25_config_get_next : List CPort → CArg → Option Bytes
unfolding find_from
ax25_config_get_next ports null = name_of_first ports
ax25_config_get_next ports not_utf8 = none
ax25_config_get_next ports (text query) = name_of_second (find_from query ports)

-- A field of the first port that is meant, or what the function returns without one.
abbrev pub field_of {ℓ} : {A : Type ℓ} → A → (CPort → A) → List CPort → A
field_of default field [] = default
field_of default field (p ∷ ports) = field p

abbrev pub find_field {ℓ} : {A : Type ℓ} → A → (CPort → A) → List CPort → CArg → A
unfolding find_from
find_field default field ports null = default
find_field default field ports not_utf8 = default
find_field default field ports (text query) = field_of default field (find_from query ports)

unfoldable pub ax25_config_get_addr : List CPort → CArg → Option Bytes
unfolding find_field
ax25_config_get_addr = find_field none (λ p. some p.call)

unfoldable pub ax25_config_get_dev : List CPort → CArg → Option Bytes
unfolding find_field
ax25_config_get_dev = find_field none (λ p. some p.device)

unfoldable pub ax25_config_get_desc : List CPort → CArg → Option Bytes
unfolding find_field
ax25_config_get_desc = find_field none (λ p. some p.description)

unfoldable pub ax25_config_get_window : List CPort → CArg → ℕ
unfolding find_field
ax25_config_get_window = find_field 0 (λ p. p.window)

unfoldable pub ax25_config_get_paclen : List CPort → CArg → ℕ
unfolding find_field
ax25_config_get_paclen = find_field 0 (λ p. p.paclen)

unfoldable pub ax25_config_get_baud : List CPort → CArg → ℕ
unfolding find_field
ax25_config_get_baud = find_field 0 (λ p. p.baud)

unfoldable pub device_name : Bytes → List CPort → Option Bytes
device_name device [] = none
device_name device (p ∷ ports) =
    if bytes_eq p.device_s device then some p.name else device_name device ports

unfoldable pub ax25_config_get_name : List CPort → CArg → Option Bytes
unfolding device_name
ax25_config_get_name ports null = none
ax25_config_get_name ports not_utf8 = none
ax25_config_get_name ports (text device) = device_name device ports

abbrev pub meets : Address → Outcome (Option Address) → Outcome Bool
meets callsign panic = panic
meets callsign (done none) = done false
meets callsign (done (some a)) = done (cmp_entry callsign a == 0)

abbrev pub port_found : Outcome Bool → Bytes → Outcome (Option Bytes) → Outcome (Option Bytes)
port_found panic name rest = panic
port_found (done true) name rest = done (some name)
port_found (done false) name rest = rest

unfoldable pub port_of_call : Address → List CPort → Outcome (Option Bytes)
unfolding encode_entry cmp_entry
port_of_call callsign [] = done none
port_of_call callsign (p ∷ ports) =
    port_found (meets callsign (encode_entry p.call_s)) p.name (port_of_call callsign ports)

-- The null address stands for all ports, "*".
unfoldable pub ax25_config_get_port : List CPort → Option Address → Outcome (Option Bytes)
unfolding port_of_call cmp_entry
ax25_config_get_port ports none = done none
ax25_config_get_port ports (some callsign) =
    if cmp_entry callsign null_ax25_address == 0
    then done (some (codes "*"))
    else port_of_call callsign ports
