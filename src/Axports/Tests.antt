-- ===== src/Axports/Tests.antt =====
-- The theorems on the configuration at a file of two ports.
use pdn_libax.Prelude.{◌≡◌, refl, [], ◌∷◌, map, some, Bytes, codes, trim_start, trim}
use pdn_libax.Axports.{ParsedPort, parse_axports}
use pdn_libax.Axports.Distinct.{IsValid, parse_axports-IsValid}
use pdn_libax.Axports.Loaded.{load_port, text, is_same_call, ax25_config_get_next}
use pdn_libax.Axports.Loaded.Lookups.{get_next-stuck}

abbrev ports_file : Bytes
ports_file =
    codes
      "# ports\nradio M0LTE-1 9600 255 4 two metres\nRADIO G0ABC 1200 128 2 taken\n\nhf GB7RDG-0 1200 128 2 short wave\nbad M0LTE! 1 1 1 x\n"

abbrev radio : ParsedPort
radio = record {
  name = codes "radio";
  call = codes "M0LTE-1";
  baud = 9600;
  paclen = 255;
  window = 4;
  description = codes "two metres";
}

abbrev hf : ParsedPort
hf = record {
  name = codes "hf";
  call = codes "GB7RDG";
  baud = 1200;
  paclen = 128;
  window = 2;
  description = codes "short wave";
}

parse_axports-IsValid_example : IsValid (radio ∷ hf ∷ [])
parse_axports-IsValid_example =
    parse_axports-IsValid ports_file (radio ∷ hf ∷ [])
      (unfold parse_axports trim_start trim in refl)

abbrev alias : ParsedPort
alias = record hf { name = codes "m0lte-1" }

get_next-stuck_example :
    ax25_config_get_next (map load_port (radio ∷ alias ∷ hf ∷ [])) (text (codes "m0lte-1"))
    ≡ some (codes "m0lte-1")
get_next-stuck_example = get_next-stuck radio alias (hf ∷ []) (unfold is_same_call in refl)
