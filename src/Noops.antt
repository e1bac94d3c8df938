-- ===== src/Noops.antt =====
-- The exports of crates/libax25/src/stubs.rs that keep the ABI without the kernel's stack: the NET/ROM
-- and ROSE configuration, serial lines, the daemon, and the readers of /proc/net. A C string or another
-- pointer that may be NULL is an `Option`; a list that a reader gives is the address of its head.
use pdn_libax.Prelude.{ℕ, Option, none, Bytes}

-- An opaque pointer.
abbrev pub Pointer : Type 0
Pointer = Option ℕ

abbrev pub nr_config_load_ports : ℕ
nr_config_load_ports = 0

abbrev pub nr_config_get_next : Option Bytes → Option Bytes
nr_config_get_next name = none

abbrev pub nr_config_get_name : Option Bytes → Option Bytes
nr_config_get_name dev = none

abbrev pub nr_config_get_addr : Option Bytes → Option Bytes
nr_config_get_addr name = none

abbrev pub nr_config_get_dev : Option Bytes → Option Bytes
nr_config_get_dev name = none

abbrev pub nr_config_get_port : Pointer → Option Bytes
nr_config_get_port call = none

abbrev pub nr_config_get_alias : Option Bytes → Option Bytes
nr_config_get_alias name = none

abbrev pub nr_config_get_paclen : Option Bytes → ℕ
nr_config_get_paclen name = 0

abbrev pub nr_config_get_desc : Option Bytes → Option Bytes
nr_config_get_desc name = none

abbrev pub rs_config_load_ports : ℕ
rs_config_load_ports = 0

abbrev pub rs_config_get_next : Option Bytes → Option Bytes
rs_config_get_next name = none

abbrev pub rs_config_get_name : Option Bytes → Option Bytes
rs_config_get_name dev = none

abbrev pub rs_config_get_addr : Option Bytes → Option Bytes
rs_config_get_addr name = none

abbrev pub rs_config_get_dev : Option Bytes → Option Bytes
rs_config_get_dev name = none

abbrev pub rs_config_get_port : Pointer → Option Bytes
rs_config_get_port a = none

abbrev pub rs_config_get_paclen : Option Bytes → ℕ
rs_config_get_paclen name = 0

abbrev pub rs_config_get_desc : Option Bytes → Option Bytes
rs_config_get_desc name = none

abbrev pub tty_raw : ℕ → ℕ → ℕ
tty_raw fd hwflag = 1

abbrev pub tty_speed : ℕ → ℕ → ℕ
tty_speed fd speed = 1

abbrev pub tty_is_locked : Option Bytes → ℕ
tty_is_locked tty = 0

abbrev pub tty_lock : Option Bytes → ℕ
tty_lock tty = 1

abbrev pub tty_unlock : Option Bytes → ℕ
tty_unlock tty = 1

abbrev pub daemon_start : ℕ → ℕ
daemon_start ignsigcld = 1

-- `null_reader!` and `noop_free!`, with the state of the process around the call.
abbrev pub null_reader : Pointer
null_reader = none

abbrev pub noop_free {ℓ} : {S : Type ℓ} → Pointer → S → S
noop_free p s = s

abbrev pub find_link : Option Bytes → Option Bytes → Option Bytes → Pointer
find_link src dest dev = none

abbrev pub find_neigh : ℕ → Pointer → Pointer
find_neigh addr neigh = none

abbrev pub find_node : Option Bytes → Pointer → Pointer
find_node addr nodes = none
