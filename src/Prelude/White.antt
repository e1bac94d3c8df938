-- ===== src/Prelude/White.antt =====
-- White space of a `&str`, as the Rust standard library has it: `char::is_whitespace` on the UTF-8
-- bytes of the text, `trim_start`, `trim_end`, `split_whitespace`.
use Prim.Native.Nat.{ℕ, zero, suc, ◌-◌}
use mathlib.Core.Bool.{Bool, ◌&&◌, ◌||◌}
use mathlib.Core.List.{List, [], ◌∷◌, ◌++◌}
use pdn_libax.Prelude.Tests.{leb, ◌==◌, if◌then◌else◌}
use pdn_libax.Prelude.Lists.{is_empty}
use pdn_libax.Prelude.Text.{Bytes}

abbrev white_two : ℕ → ℕ → Bool
white_two a b = a == 0xC2 && (b == 0x85 || b == 0xA0)

abbrev white_three : ℕ → ℕ → ℕ → Bool
white_three a b c =
    a == 0xE1 && b == 0x9A && c == 0x80
    || a == 0xE2 && b == 0x80 && (leb 0x80 c && leb c 0x8A || c == 0xA8 || c == 0xA9 || c == 0xAF)
    || a == 0xE2 && b == 0x81 && c == 0x9F
    || a == 0xE3 && b == 0x80 && c == 0x80

abbrev white_one : ℕ → Bool
white_one a = leb 9 a && leb a 13 || a == b' '

-- The number of bytes of the white-space character at the head of the text, 0 if there is none.
unfoldable pub white : Bytes → ℕ
white [] = 0
white (a ∷ []) = if white_one a then 1 else 0
white (a ∷ b ∷ []) = if white_one a then 1 else if white_two a b then 2 else 0
white (a ∷ b ∷ c ∷ s) =
    if white_one a then 1 else if white_two a b then 2 else if white_three a b c then 3 else 0

-- The first argument counts the bytes that are left of the character being skipped.
unfoldable pub skip_white : ℕ → Bytes → Bytes
skip_white k [] = []
skip_white (suc k) (c ∷ s) = skip_white k s
skip_white zero (c ∷ s) =
    let n = white (c ∷ s) in let rest = skip_white (n - 1) s in if n == 0 then c ∷ s else rest

unfoldable pub trim_start : Bytes → Bytes
unfolding skip_white white
trim_start s = skip_white 0 s

unfoldable pub trim_end : Bytes → Bytes
unfolding trim_start
trim_end [] = []
trim_end (c ∷ s) = if is_empty (trim_start (c ∷ s)) then [] else c ∷ trim_end s

unfoldable pub trim : Bytes → Bytes
unfolding trim_start trim_end
trim s = trim_end (trim_start s)

abbrev emit_word : Bytes → List Bytes → List Bytes
emit_word [] words = words
emit_word (c ∷ cur) words = (c ∷ cur) ∷ words

-- The words, with the bytes `cur` of the word that is being read.
unfoldable pub words_from : ℕ → Bytes → Bytes → List Bytes
unfolding white
words_from k cur [] = emit_word cur []
words_from (suc k) cur (c ∷ s) = words_from k cur s
words_from zero cur (c ∷ s) =
    let n = white (c ∷ s) in
    let inside = words_from 0 (cur ++ c ∷ []) s in
    let outside = words_from (n - 1) [] s in if n == 0 then inside else emit_word cur outside

unfoldable pub split_whitespace : Bytes → List Bytes
unfolding words_from
split_whitespace s = words_from 0 [] s
