-- ===== src/Axports/Loaded/Lookups.antt =====
-- What the lookups of crates/libax25/src/config.rs find in a table that `parse_axports` filled.
use pdn_libax.Prelude.{
  ◌≡◌, refl, ap, true, false, List, [], ◌∷◌, ◌++◌, map, none, some, arith, All, Bytes,
  bytes_eq_refl, to_lower,
}
use pdn_libax.Axports.{ParsedPort, eq_ignore_ascii_case}
use pdn_libax.Axports.Distinct.{Differ, Distinct}
use pdn_libax.Axports.Loaded.{
  c_string, load_port, text, is_same_call, find_from, name_of_second, field_of,
  ax25_config_get_next, ax25_config_get_addr, ax25_config_get_dev, ax25_config_get_window,
  ax25_config_get_paclen,
}

-- No port of a list has a callsign that is the given name.
abbrev pub NotCalled : Bytes → List ParsedPort → Type 0
NotCalled name = All (λ p. is_same_call p.call name ≡ false)

Distinct-front :
    (xs ys : List ParsedPort) (p : ParsedPort)
    → Distinct (xs ++ p ∷ ys)
    → All (λ q. eq_ignore_ascii_case q.name p.name ≡ false) xs
Distinct-front [] ys p d = tt
Distinct-front (q ∷ xs) ys p d = ((meet xs d.0).0, Distinct-front xs ys p d.1)
  where
    meet : (xs : List ParsedPort) → All (Differ q) (xs ++ p ∷ ys) → Differ q p
    meet [] all = all.0
    meet (r ∷ xs) all = meet xs all.1

-- A port is found under its own name.
find_from-own :
    (xs ys : List ParsedPort) (p : ParsedPort)
    → All (λ q. eq_ignore_ascii_case q.name p.name ≡ false) xs
    → NotCalled p.name xs
    → find_from p.name (map load_port (xs ++ p ∷ ys)) ≡ load_port p ∷ map load_port ys
unfolding find_from
find_from-own [] ys p other uncalled = rw (bytes_eq_refl (map to_lower p.name)) refl
find_from-own (q ∷ xs) ys p other uncalled =
    rw (other.0, uncalled.0) (find_from-own xs ys p other.1 uncalled.1)

-- In a table of ports with different names, where no port before a port has its name for a callsign,
-- `ax25_config_get_next` of that port's name is the next port's name.
pub get_next-enumerates :
    (xs ys : List ParsedPort) (p q : ParsedPort)
    → Distinct (xs ++ p ∷ q ∷ ys)
    → NotCalled p.name xs
    → ax25_config_get_next (map load_port (xs ++ p ∷ q ∷ ys)) (text p.name) ≡ some (c_string q.name)
unfolding ax25_config_get_next
get_next-enumerates xs ys p q distinct uncalled =
    ap name_of_second (find_from-own xs (q ∷ ys) p (Distinct-front xs (q ∷ ys) p distinct) uncalled)

-- Under the same conditions the name gives the port's own callsign, device, window and paclen.
pub get_addr-own :
    (xs ys : List ParsedPort) (p : ParsedPort)
    → Distinct (xs ++ p ∷ ys)
    → NotCalled p.name xs
    → (ax25_config_get_addr (map load_port (xs ++ p ∷ ys)) (text p.name) ≡ some (c_string p.call))
      × (ax25_config_get_dev (map load_port (xs ++ p ∷ ys)) (text p.name) ≡ some (c_string p.name))
      × (ax25_config_get_window (map load_port (xs ++ p ∷ ys)) (text p.name) ≡ p.window)
      × (ax25_config_get_paclen (map load_port (xs ++ p ∷ ys)) (text p.name) ≡ p.paclen)
unfolding ax25_config_get_addr ax25_config_get_dev ax25_config_get_window ax25_config_get_paclen
get_addr-own xs ys p distinct uncalled =
    let found = find_from-own xs ys p (Distinct-front xs ys p distinct) uncalled in
    (
      ap (field_of none (λ c. some c.call)) found,
      ap (field_of none (λ c. some c.device)) found,
      ap (field_of 0 (λ c. c.window)) found,
      ap (field_of 0 (λ c. c.paclen)) found,
    )

-- If the first port's callsign is the second port's name, `ax25_config_get_next` of the second port's
-- name is that name again: a walk over the ports does not get past it.
pub get_next-stuck :
    (p q : ParsedPort) (ys : List ParsedPort)
    → is_same_call p.call q.name ≡ true
    → ax25_config_get_next (map load_port (p ∷ q ∷ ys)) (text q.name) ≡ some (c_string q.name)
unfolding ax25_config_get_next find_from
get_next-stuck p q ys called = ground (arith, called)
