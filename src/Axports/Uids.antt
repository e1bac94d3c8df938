-- ===== src/Axports/Uids.antt =====
-- crates/libax25/src/config.rs: the map from a user to a callsign (`parse_calls`, `load_calls`,
-- `get_call`).
use pdn_libax.Prelude.{
  ℕ, ◌≡◌, refl, inl, inr, Bool, false, ◌||◌, List, [], ◌∷◌, ◌++◌, map, Option, none, some, arith,
  ◌==◌, if◌then◌else◌, All, All-append, Bytes, to_upper, Outcome, done, panic, trim_start,
  Bool-cases, subst,
}
use pdn_libax.Callsign.{Address, encode_entry}
use pdn_libax.Axports.{lines, trim_cr, pop_token, parse_i32, is_comment}
use pdn_libax.Axports.Loaded.{CPort, has_nul, c_string}

pub record CallEntry : Type 0 where
  pub uid : ℕ
  pub call : Bytes

abbrev pub has_uid : ℕ → List CallEntry → Bool
has_uid uid [] = false
has_uid uid (e ∷ out) = e.uid == uid || has_uid uid out

abbrev pub push_call :
    ℕ → Bytes → List CallEntry → Outcome (Option Address) → Outcome (List CallEntry)
push_call uid call out panic = panic
push_call uid call out (done none) = done out
push_call uid call out (done (some a)) =
    if has_uid uid out then done out else done (out ++ record { uid = uid; call = call } ∷ [])

abbrev pub push_uid : Option ℕ → Bytes → List CallEntry → Outcome (List CallEntry)
unfolding encode_entry
push_uid none call out = done out
push_uid (some uid) call out = push_call uid call out (encode_entry call)

abbrev pub push_call_token :
    Bytes → Option (Bytes × Bytes) → List CallEntry → Outcome (List CallEntry)
unfolding push_uid parse_i32
push_call_token uid none out = done out
push_call_token uid (some (call, rest)) out = push_uid (parse_i32 uid) (map to_upper call) out

abbrev pub push_uid_token : Option (Bytes × Bytes) → List CallEntry → Outcome (List CallEntry)
unfolding push_call_token pop_token
push_uid_token none out = done out
push_uid_token (some (uid, rest)) out = push_call_token uid (pop_token rest) out

unfoldable pub read_call_line : Bytes → List CallEntry → Outcome (List CallEntry)
unfolding push_uid_token pop_token trim_cr
read_call_line raw out =
    let trimmed = trim_start (trim_cr raw) in
    if is_comment trimmed then done out else push_uid_token (pop_token trimmed) out

unfoldable pub read_call_lines : List Bytes → Outcome (List CallEntry) → Outcome (List CallEntry)
unfolding read_call_line
read_call_lines raws panic = panic
read_call_lines [] (done out) = done out
read_call_lines (raw ∷ raws) (done out) = read_call_lines raws (read_call_line raw out)

unfoldable pub parse_calls : Bytes → Outcome (List CallEntry)
unfolding lines read_call_lines
parse_calls content = read_call_lines (lines content) (done [])

-- The statics of `get_call`: the callsign that it took from the environment, and the table.
pub record Calls : Type 0 where
  pub env_call : Option Bytes
  pub table : List CallEntry

abbrev pub load_entry : CallEntry → CallEntry
load_entry e = record e { call = c_string e.call }

abbrev pub parsed_calls : Outcome (List CallEntry) → Outcome (List CallEntry)
parsed_calls panic = panic
parsed_calls (done parsed) = done (map load_entry parsed)

unfoldable pub load_calls : Option Bytes → List CallEntry → Outcome (List CallEntry)
unfolding parse_calls
load_calls content (e ∷ table) = done (e ∷ table)
load_calls none [] = done []
load_calls (some content) [] = parsed_calls (parse_calls content)

-- `guard.is_none()`, then `CString::new(call).ok()`.
abbrev pub keep_env : Bytes → Option Bytes → Option Bytes
keep_env call none = if has_nul call then none else some call
keep_env call (some kept) = some kept

abbrev pub find_call : ℕ → List CallEntry → List CPort → Option Bytes
find_call uid [] [] = none
find_call uid [] (p ∷ ports) = some p.call
find_call uid (e ∷ table) ports = if e.uid == uid then some e.call else find_call uid table ports

abbrev pub found_call :
    ℕ → List CPort → Option Bytes → Outcome (List CallEntry) → Outcome (Option Bytes × Calls)
found_call uid ports slot panic = panic
found_call uid ports slot (done table) =
    done (find_call uid table ports, record { env_call = slot; table = table })

abbrev pub configured_call :
    ℕ → Option Bytes → List CPort → Option Bytes → List CallEntry → Outcome (Option Bytes × Calls)
unfolding load_calls
configured_call uid content ports slot table = found_call uid ports slot (load_calls content table)

abbrev pub env_or_configured :
    ℕ → Option Bytes → List CPort → Option Bytes → List CallEntry → Outcome (Option Bytes × Calls)
unfolding configured_call
env_or_configured uid content ports none table = configured_call uid content ports none table
env_or_configured uid content ports (some call) table =
    done (some call, record { env_call = some call; table = table })

-- `env` is the variable AX25_CALLSIGN, `content` the file of callsigns if it can be read.
unfoldable pub get_call :
    ℕ → Option Bytes → Option Bytes → List CPort → Calls → Outcome (Option Bytes × Calls)
unfolding env_or_configured
get_call uid none content ports s = configured_call uid content ports s.env_call s.table
get_call uid (some []) content ports s = configured_call uid content ports s.env_call s.table
get_call uid (some (c ∷ env)) content ports s =
    env_or_configured uid content ports (keep_env (c ∷ env) s.env_call) s.table

abbrev pub Unclaimed : List CallEntry → Type 0
Unclaimed [] = Unit
Unclaimed (e ∷ out) = All (λ f. (e.uid == f.uid) ≡ false) out × Unclaimed out

abbrev pub Encodes : CallEntry → Type 0
Encodes e = (a : Address) × (encode_entry e.call ≡ done (some a))

abbrev Valid : Outcome (List CallEntry) → Type 0
Valid panic = Unit
Valid (done out) = Unclaimed out × All Encodes out

Unclaimed-append :
    (out : List CallEntry) (e : CallEntry)
    → Unclaimed out
    → has_uid e.uid out ≡ false
    → Unclaimed (out ++ e ∷ [])
Unclaimed-append [] e u free = (tt, tt)
Unclaimed-append (f ∷ out) e u free =
    let (other, rest) = or_false (f.uid == e.uid) (has_uid e.uid out) free in
    (
      All-append (λ g. (f.uid == g.uid) ≡ false) out (e ∷ []) u.0 (other, tt),
      Unclaimed-append out e u.1 rest,
    )
  where
    or_false : (a b : Bool) → (a || b) ≡ false → (a ≡ false) × (b ≡ false)
    or_false a b e = ground arith

push_call-Valid :
    (uid : ℕ) (call : Bytes) (out : List CallEntry) (o : Outcome (Option Address))
    → encode_entry call ≡ o
    → Valid (done out)
    → Valid (push_call uid call out o)
push_call-Valid uid call out panic eq v = tt
push_call-Valid uid call out (done none) eq v = v
push_call-Valid uid call out (done (some a)) eq v = elim (Bool-cases (has_uid uid out)) [
  | inl taken ↦ rw taken v
  | inr free ↦ rw free (
    Unclaimed-append out (record { uid = uid; call = call }) v.0 free,
    All-append Encodes out (record { uid = uid; call = call } ∷ []) v.1 ((a, eq), tt),
  )
]

read_call_line-Valid :
    (raw : Bytes) (out : List CallEntry) → Valid (done out) → Valid (read_call_line raw out)
unfolding read_call_line
read_call_line-Valid raw out v = elim (Bool-cases (is_comment (trim_start (trim_cr raw)))) [
  | inl skipped ↦ rw skipped v
  | inr kept ↦ rw kept (of_uid (pop_token (trim_start (trim_cr raw))))
]
  where
    of_number : (o : Option ℕ) (call : Bytes) → Valid (push_uid o call out)
    of_number none call = v
    of_number (some uid) call = push_call-Valid uid call out (encode_entry call) refl v

    of_call : (uid : Bytes) (o : Option (Bytes × Bytes)) → Valid (push_call_token uid o out)
    of_call uid none = v
    of_call uid (some (call, rest)) = of_number (parse_i32 uid) (map to_upper call)

    of_uid : (o : Option (Bytes × Bytes)) → Valid (push_uid_token o out)
    of_uid none = v
    of_uid (some (uid, rest)) = of_call uid (pop_token rest)

read_call_lines-Valid :
    (raws : List Bytes) (o : Outcome (List CallEntry)) → Valid o → Valid (read_call_lines raws o)
unfolding read_call_lines
read_call_lines-Valid raws panic v = tt
read_call_lines-Valid [] (done out) v = v
read_call_lines-Valid (raw ∷ raws) (done out) v =
    read_call_lines-Valid raws (read_call_line raw out) (read_call_line-Valid raw out v)

-- The entries of any file have different users and callsigns that encode.
pub parse_calls-Unclaimed :
    (content : Bytes) (out : List CallEntry)
    → parse_calls content ≡ done out
    → Unclaimed out × All Encodes out
unfolding parse_calls
parse_calls-Unclaimed content out e =
    subst Valid e (read_call_lines-Valid (lines content) (done []) (tt, tt))

-- A non-empty AX25_CALLSIGN without NUL is the answer for any user, and the first such value stays the
-- answer as long as the variable is set to any text but the empty one.
pub get_call_kept :
    (u v first c : ℕ) (env later : Bytes) (content : Option Bytes) (ports : List CPort) (s : Calls)
    → s.env_call ≡ none
    → has_nul (first ∷ env) ≡ false
    → (get_call u (some (first ∷ env)) content ports s
        ≡ done (some (first ∷ env), record s { env_call = some (first ∷ env) }))
      × (get_call v (some (c ∷ later)) content ports (record s { env_call = some (first ∷ env) })
          ≡ done (some (first ∷ env), record s { env_call = some (first ∷ env) }))
unfolding get_call
get_call_kept u v first c env later content ports s fresh no_nul = (rw (fresh, no_nul) refl, refl)
