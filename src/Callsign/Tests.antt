-- ===== src/Callsign/Tests.antt =====
-- Tests of the callsign codec, after those of crates/libax25/src/addr.rs, and instances of its theorems.
use pdn_libax.Prelude.{
  ℕ, ◌≤◌, ◌≡◌, ◌⊎◌, refl, some, none, [], ◌∷◌, ◌++◌, codes, done, panic, arith, map_outcome,
  decimal, true, Bytes, replicate, drop, length, Option,
}
use pdn_libax.Callsign.{Address, encode_entry, decode_entry, null_ax25_address}
use pdn_libax.Callsign.Entry.{canonical}
use pdn_libax.Callsign.RoundTrip.{decode-encode, decode_option}
use pdn_libax.Callsign.Accept.{encode-decode}
use pdn_libax.Callsign.Panics.{encode_panics}
use pdn_libax.Callsign.Path.{
  FullSockaddr, fill_sax, fill_sax-path, af_ax25, full_sockaddr_size, ax25_aton,
}
use pdn_libax.Callsign.Memory.{c_string, address_at}
use pdn_libax.Callsign.Wrappers.{ax25_aton_entry, ax25_ntoa, ntoa-aton_entry}
use pdn_libax.Callsign.Slots.{fill_sax_bounds}

abbrev m0lte_1 : Address
m0lte_1 = record { call = 154 ∷ 96 ∷ 152 ∷ 168 ∷ 138 ∷ 64 ∷ []; ssid = 2 }

abbrev m0lte_2 : Address
m0lte_2 = record { call = 154 ∷ 96 ∷ 152 ∷ 168 ∷ 138 ∷ 64 ∷ []; ssid = 4 }

m0lte_1_encodes : encode_entry (codes "m0lte-1") ≡ done (some m0lte_1)
unfolding encode_entry
m0lte_1_encodes = refl

m0lte_2_encodes : encode_entry (codes "M0LTE-2") ≡ done (some m0lte_2)
unfolding encode_entry
m0lte_2_encodes = refl

m0lte_1_decodes : decode_entry m0lte_1 ≡ codes "M0LTE-1"
unfolding decode_entry
m0lte_1_decodes = refl

null_address_decodes_empty : decode_entry null_ax25_address ≡ []
unfolding decode_entry
null_address_decodes_empty = refl

invalid_symbol : encode_entry (codes "M0*TE") ≡ done none
unfolding encode_entry
invalid_symbol = refl

out_of_range : encode_entry (codes "M0LTE-16") ≡ done none
unfolding encode_entry
out_of_range = refl

trailing_char_skipped : encode_entry (codes "ABCDEFG5") ≡ encode_entry (codes "ABCDEF-5")
unfolding encode_entry
trailing_char_skipped = refl

decode-encode_example :
    map_outcome decode_option (encode_entry (canonical (codes "GB7RDG") 15))
    ≡ done (some (canonical (codes "GB7RDG") 15))
decode-encode_example =
    decode-encode (codes "GB7RDG") 15
      (omega arith, (refl, (refl, (refl, (refl, (refl, (refl, tt))))))) (omega arith)

encode-decode_example : encode_entry (decode_entry m0lte_1) ≡ done (some m0lte_1)
encode-decode_example = encode-decode (codes "m0lte-1") m0lte_1 m0lte_1_encodes

-- "ABCDEFé": the two bytes of the accented letter are 0xC3 0xA9.
encode_panics_example : encode_entry (codes "ABCDEF" ++ 0xC3 ∷ 0xA9 ∷ []) ≡ panic
encode_panics_example =
    encode_panics (codes "ABCDEF") (0xA9 ∷ []) 0xC3 refl
      (refl, (refl, (refl, (refl, (refl, (refl, tt)))))) refl

abbrev blank_sax : FullSockaddr
blank_sax = record {
  family = 0;
  call = null_ax25_address;
  ndigis = 7;
  digipeater = replicate 8 null_ax25_address;
}

abbrev via_path : FullSockaddr
via_path = record {
  family = 3;
  call = m0lte_1;
  ndigis = 1;
  digipeater = m0lte_2 ∷ replicate 7 null_ax25_address;
}

aton_via : ax25_aton (codes " m0lte-1  via M0LTE-2") blank_sax ≡ done (via_path, some 72)
unfolding ax25_aton encode_entry
aton_via = refl

fill_sax-path_example :
    fill_sax (codes "m0lte-1" ∷ (codes "via" ∷ []) ++ codes "M0LTE-2" ∷ []) blank_sax
    ≡ done (
      record {
        family = af_ax25;
        call = m0lte_1;
        ndigis = length {A = Address} (m0lte_2 ∷ []);
        digipeater =
            (m0lte_2 ∷ []) ++ drop (length {A = Address} (m0lte_2 ∷ [])) blank_sax.digipeater;
      },
      some full_sockaddr_size,
    )
fill_sax-path_example =
    fill_sax-path (codes "m0lte-1") m0lte_1 (codes "via" ∷ []) (codes "M0LTE-2" ∷ []) (m0lte_2 ∷ [])
      blank_sax m0lte_1_encodes (refl, tt) (m0lte_2_encodes, tt) refl (omega arith) refl

fill_sax_via :
    fill_sax (codes "m0lte-1" ∷ codes "via" ∷ codes "M0LTE-2" ∷ []) blank_sax
    ≡ done (via_path, some 72)
unfolding fill_sax encode_entry
fill_sax_via = refl

fill_sax_bounds_example :
    (length via_path.digipeater ≡ length blank_sax.digipeater)
    × (((◌≡◌ {A = Option ℕ} (some 72) none)
          × (via_path.family ≡ blank_sax.family)
          × (via_path.ndigis ≡ blank_sax.ndigis))
        ⊎ ((some 72 ≡ some full_sockaddr_size)
            × (via_path.family ≡ af_ax25)
            × (via_path.ndigis ≤ 8)))
fill_sax_bounds_example =
    fill_sax_bounds (codes "m0lte-1" ∷ codes "via" ∷ codes "M0LTE-2" ∷ []) blank_sax via_path
      (some 72) fill_sax_via

ntoa-aton_entry_example :
    (stored : Bytes) × (ax25_aton_entry
        (λ s. true)
        (some (codes "M0LTE-1" ++ 0 ∷ codes "x"))
        (some (replicate 9 1))
      ≡ done (some 0, some stored))
    × (drop 7 stored ≡ drop 7 (replicate 9 1))
    × (c_string (ax25_ntoa (some (address_at stored)) (replicate 16 9)) ≡ codes "M0LTE-1")
unfolding decimal
ntoa-aton_entry_example =
    ntoa-aton_entry (λ s. true) (codes "M0LTE") 1 (codes "x") (replicate 9 1) (replicate 16 9)
      (omega arith, (refl, (refl, (refl, (refl, (refl, tt)))))) (omega arith) refl
