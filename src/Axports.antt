-- ===== src/Axports.antt =====
-- crates/libax25/src/config.rs: the axports file and the table of ports that is read from it. The text
-- of the file is the list of its bytes; an `i32` is carried as its bit pattern.
pub mod Distinct
pub mod Loaded
pub mod Uids
mod Tests
use pdn_libax.Prelude.{
  ℕ, ◌+◌, ◌-◌, ◌*◌, ◌%◌, ◌^◌, Bool, true, false, ◌&&◌, ◌||◌, not, List, [], ◌∷◌, ◌++◌, map, Option,
  none, some, ltb, leb, ◌==◌, if◌then◌else◌, is_empty, Bytes, bytes_eq, is_digit, to_upper,
  to_lower, i32_mod, Outcome, done, panic, trim_start, trim,
}
use pdn_libax.Callsign.{Address, encode_entry}

pub record ParsedPort : Type 0 where
  pub name : Bytes
  pub call : Bytes
  pub baud : ℕ
  pub paclen : ℕ
  pub window : ℕ
  pub description : Bytes

-- `str::lines`: the text between newlines. A last newline does not start a line of its own.
unfoldable pub lines_from : Bytes → Bytes → List Bytes
lines_from line [] = if is_empty line then [] else line ∷ []
lines_from line (c ∷ s) =
    if c == b'\n' then line ∷ lines_from [] s else lines_from (line ++ c ∷ []) s

unfoldable pub lines : Bytes → List Bytes
unfolding lines_from
lines s = lines_from [] s

abbrev trim_cr_step : ℕ → Bytes → Bytes
trim_cr_step c [] = if c == b'\r' then [] else c ∷ []
trim_cr_step c (d ∷ s) = c ∷ d ∷ s

-- `trim_end_matches('\r')`; the `\r` of a line end is stripped by `lines` already.
unfoldable pub trim_cr : Bytes → Bytes
trim_cr [] = []
trim_cr (c ∷ s) = trim_cr_step c (trim_cr s)

-- The text before the first blank or tab, and the rest.
unfoldable pub split_token : Bytes → Bytes × Bytes
split_token [] = ([], [])
split_token (c ∷ s) =
    let (tok, tail) = split_token s in
    if c == b' ' || c == b'\t' then ([], c ∷ s) else (c ∷ tok, tail)

unfoldable pub pop_token : Bytes → Option (Bytes × Bytes)
unfolding split_token
pop_token rest = let s = trim_start rest in if is_empty s then none else some (split_token s)

-- The next token and what stands behind it, for the code that goes on if there is one.
abbrev pub with_token {ℓ} :
    {A : Type ℓ} → Option (Bytes × Bytes) → (Bytes → Bytes → Option A) → Option A
with_token none go = none
with_token (some (tok, rest)) go = go tok rest

-- `str::parse::<i32>`: a sign and digits, within the range.
unfoldable pub digits_value : ℕ → Bytes → Option ℕ
digits_value val [] = some val
digits_value val (c ∷ s) =
    let rest = digits_value (val * 10 + (c - b'0')) s in if is_digit c then rest else none

abbrev pub signed_value : Bool → Option ℕ → Option ℕ
signed_value neg none = none
signed_value true (some v) = if leb v (2 ^ 31) then some ((i32_mod - v) % i32_mod) else none
signed_value false (some v) = if ltb v (2 ^ 31) then some v else none

abbrev pub unsigned : Bool → Bytes → Option ℕ
unfolding digits_value
unsigned neg [] = none
unsigned neg (c ∷ s) = signed_value neg (digits_value 0 (c ∷ s))

unfoldable pub parse_i32 : Bytes → Option ℕ
unfolding unsigned
parse_i32 [] = none
parse_i32 (c ∷ s) =
    if c == b'-'
    then unsigned true s
    else if c == b'+'
    then unsigned false s
    else unsigned false (c ∷ s)

abbrev pub unwrap_number : Option ℕ → ℕ → ℕ
unwrap_number none default = default
unwrap_number (some v) default = v

-- `> 0` on the bit pattern of an `i32`.
abbrev pub is_positive : ℕ → Bool
is_positive v = ltb 0 v && ltb v (2 ^ 31)

-- The callsign up to the first "-0".
unfoldable pub strip_zero : Bytes → Bytes
strip_zero [] = []
strip_zero (c ∷ []) = c ∷ []
strip_zero (c ∷ d ∷ s) =
    let rest = strip_zero (d ∷ s) in if c == b'-' && d == b'0' then [] else c ∷ rest

abbrev pub eq_ignore_ascii_case : Bytes → Bytes → Bool
eq_ignore_ascii_case a b = bytes_eq (map to_lower a) (map to_lower b)

-- A port with the name or the callsign is there already.
unfoldable pub is_taken : Bytes → Bytes → List ParsedPort → Bool
is_taken name call [] = false
is_taken name call (p ∷ out) =
    eq_ignore_ascii_case p.name name || bytes_eq p.call call || is_taken name call out

-- The end of one turn of the loop: the port is appended, or the line is skipped.
abbrev pub push_encoded :
    Outcome (Option Address) → ParsedPort → List ParsedPort → Outcome (List ParsedPort)
push_encoded panic p out = panic
push_encoded (done none) p out = done out
push_encoded (done (some a)) p out =
    if is_taken p.name p.call out then done out else done (out ++ p ∷ [])

unfoldable pub push_port : ParsedPort → List ParsedPort → Outcome (List ParsedPort)
unfolding encode_entry is_taken
push_port p out =
    if is_empty p.description
      || leb (2 ^ 31) p.baud
      || not (is_positive p.paclen)
      || not (is_positive p.window)
    then done out
    else push_encoded (encode_entry p.call) p out

-- The fields of a line; `none` if one is missing.
unfoldable pub read_fields : Bytes → Option ParsedPort
unfolding pop_token parse_i32 strip_zero
read_fields rest = with_token (pop_token rest) (λ name rest.
    with_token (pop_token rest) (λ call rest. with_token (pop_token rest) (λ baud rest.
      with_token (pop_token rest) (λ paclen rest. with_token (pop_token rest) (λ window rest.
        some (record {
          name = name;
          call = strip_zero (map to_upper call);
          baud = unwrap_number (parse_i32 baud) (i32_mod - 1);
          paclen = unwrap_number (parse_i32 paclen) 0;
          window = unwrap_number (parse_i32 window) 0;
          description = trim rest;
        }))))))

abbrev pub is_comment : Bytes → Bool
is_comment [] = true
is_comment (c ∷ s) = c == b'#'

abbrev pub push_fields : Option ParsedPort → List ParsedPort → Outcome (List ParsedPort)
push_fields none out = done out
push_fields (some p) out = push_port p out

unfoldable pub read_line : Bytes → List ParsedPort → Outcome (List ParsedPort)
unfolding trim_cr read_fields push_port
read_line raw out =
    let trimmed = trim_start (trim_cr raw) in
    if is_comment trimmed then done out else push_fields (read_fields trimmed) out

unfoldable pub read_lines : List Bytes → Outcome (List ParsedPort) → Outcome (List ParsedPort)
unfolding read_line
read_lines raws panic = panic
read_lines [] (done out) = done out
read_lines (raw ∷ raws) (done out) = read_lines raws (read_line raw out)

unfoldable pub parse_axports : Bytes → Outcome (List ParsedPort)
unfolding lines read_lines
parse_axports content = read_lines (lines content) (done [])
