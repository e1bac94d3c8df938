-- ===== src/Axports/Distinct.antt =====
-- The ports that `parse_axports` of crates/libax25/src/config.rs lets through.
use pdn_libax.Prelude.{
  ◌^◌, ◌<◌, ◌≡◌, refl, inl, inr, Bool, false, ◌||◌, not, List, [], ◌∷◌, ◌++◌, Option, none, some,
  arith, leb, is_empty, All, All-append, Bytes, bytes_eq, Outcome, done, panic, Bool-cases, subst,
  trim_start,
}
use pdn_libax.Callsign.{Address, encode_entry}
use pdn_libax.Axports.{
  ParsedPort, eq_ignore_ascii_case, is_taken, is_positive, push_encoded, push_port, push_fields,
  read_fields, read_line, read_lines, parse_axports, lines, is_comment, trim_cr,
}

-- The name, ignoring case, and the callsign are not those of another port.
abbrev pub Differ : ParsedPort → ParsedPort → Type 0
Differ p q = (eq_ignore_ascii_case p.name q.name ≡ false) × (bytes_eq p.call q.call ≡ false)

abbrev pub Distinct : List ParsedPort → Type 0
Distinct [] = Unit
Distinct (p ∷ ports) = All (Differ p) ports × Distinct ports

abbrev pub IsUsable : ParsedPort → Type 0
IsUsable p =
    (is_empty p.description ≡ false)
    × (p.baud < 2 ^ 31)
    × (0 < p.paclen)
    × (p.paclen < 2 ^ 31)
    × (0 < p.window)
    × (p.window < 2 ^ 31)
    × ((a : Address) × (encode_entry p.call ≡ done (some a)))

abbrev pub IsValid : List ParsedPort → Type 0
IsValid ports = Distinct ports × All IsUsable ports

Distinct-append :
    (ports : List ParsedPort) (p : ParsedPort)
    → Distinct ports
    → is_taken p.name p.call ports ≡ false
    → Distinct (ports ++ p ∷ [])
unfolding is_taken
Distinct-append [] p d free = (tt, tt)
Distinct-append (q ∷ ports) p d free =
    let (name_free, call_free, rest) =
      or_false (eq_ignore_ascii_case q.name p.name) (bytes_eq q.call p.call)
        (is_taken p.name p.call ports) free in
    (
      All-append (Differ q) ports (p ∷ []) d.0 ((name_free, call_free), tt),
      Distinct-append ports p d.1 rest,
    )
  where
    or_false : (a b c : Bool) → (a || b || c) ≡ false → (a ≡ false) × (b ≡ false) × (c ≡ false)
    or_false a b c e = ground arith

abbrev Valid : Outcome (List ParsedPort) → Type 0
Valid panic = Unit
Valid (done ports) = IsValid ports

usable :
    (a : Address) (p : ParsedPort)
    → encode_entry p.call ≡ done (some a)
    → (is_empty p.description
        || leb (2 ^ 31) p.baud
        || not (is_positive p.paclen)
        || not (is_positive p.window))
      ≡ false
    → IsUsable p
usable a p eq ok =
    let (described, rest) =
      or_false (is_empty p.description) (leb (2 ^ 31) p.baud) (not (is_positive p.paclen))
        (not (is_positive p.window)) ok in
    (
      described,
      ground (arith, rest.0),
      ground (arith, rest.1),
      ground (arith, rest.1),
      ground (arith, rest.2),
      ground (arith, rest.2),
      (a, eq),
    )
  where
    or_false :
        (a b c d : Bool)
        → (a || b || c || d) ≡ false
        → (a ≡ false) × ((b ≡ false) × (c ≡ false) × (d ≡ false))
    or_false a b c d e = ground arith

push_encoded-Valid :
    (o : Outcome (Option Address)) (p : ParsedPort) (out : List ParsedPort)
    → encode_entry p.call ≡ o
    → (is_empty p.description
        || leb (2 ^ 31) p.baud
        || not (is_positive p.paclen)
        || not (is_positive p.window))
      ≡ false
    → IsValid out
    → Valid (push_encoded o p out)
push_encoded-Valid panic p out eq ok valid = tt
push_encoded-Valid (done none) p out eq ok valid = valid
push_encoded-Valid (done (some a)) p out eq ok valid =
    elim (Bool-cases (is_taken p.name p.call out)) [
      | inl taken ↦ rw taken valid
      | inr free ↦ rw free (
        Distinct-append out p valid.0 free,
        All-append IsUsable out (p ∷ []) valid.1 (usable a p eq ok, tt),
      )
    ]

push_port-Valid : (p : ParsedPort) (out : List ParsedPort) → IsValid out → Valid (push_port p out)
unfolding push_port
push_port-Valid p out valid =
    elim (Bool-cases (
      is_empty p.description
      || leb (2 ^ 31) p.baud
      || not (is_positive p.paclen)
      || not (is_positive p.window))) [
        | inl bad ↦ rw bad valid
        | inr ok ↦ rw ok (push_encoded-Valid (encode_entry p.call) p out refl ok valid)
      ]

read_line-Valid : (raw : Bytes) (out : List ParsedPort) → IsValid out → Valid (read_line raw out)
unfolding read_line
read_line-Valid raw out valid = elim (Bool-cases (is_comment (trim_start (trim_cr raw)))) [
  | inl skipped ↦ rw skipped valid
  | inr kept ↦ rw kept (of_fields (read_fields (trim_start (trim_cr raw))))
]
  where
    of_fields : (o : Option ParsedPort) → Valid (push_fields o out)
    of_fields none = valid
    of_fields (some p) = push_port-Valid p out valid

read_lines-Valid :
    (raws : List Bytes) (o : Outcome (List ParsedPort)) → Valid o → Valid (read_lines raws o)
unfolding read_lines
read_lines-Valid raws panic v = tt
read_lines-Valid [] (done out) v = v
read_lines-Valid (raw ∷ raws) (done out) v =
    read_lines-Valid raws (read_line raw out) (read_line-Valid raw out v)

-- The ports of any file have different names, ignoring case, and different callsigns, and each has a
-- description, a speed of at least 0, a positive paclen and window, and a callsign that encodes.
pub parse_axports-IsValid :
    (content : Bytes) (ports : List ParsedPort) → parse_axports content ≡ done ports → IsValid ports
unfolding parse_axports
parse_axports-IsValid content ports e =
    subst Valid e (read_lines-Valid (lines content) (done []) (tt, tt))
