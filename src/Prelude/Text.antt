-- ===== src/Prelude/Text.antt =====
-- Bytes and byte strings of the Rust program. A `u8` is a number below 256, a `&[u8]` and the bytes
-- of a `&str` are lists of them; operations that wrap in Rust keep the remainder written out.
use Prim.Native.Nat.{ℕ, ◌+◌, ◌-◌, ◌/◌, ◌%◌, ◌^◌, ◌<◌}
use Prim.Native.Char.{code}
use Prim.Native.String.{String}
use mathlib.Core.Path.{◌≡◌, refl}
use mathlib.Core.Bool.{Bool, true, false, ◌&&◌, ◌||◌}
use mathlib.Core.List.{List, [], ◌∷◌}
use native.Mathlib.Omega.{arith}
use pdn_libax.Prelude.Tests.{leb, ◌==◌, if◌then◌else◌}
use pdn_libax.Prelude.Lists.{All}

abbrev pub Bytes : Type 0
Bytes = List ℕ

-- The code points of a literal: its bytes, if it is ASCII.
abbrev pub codes : String → Bytes
codes String.[] = []
codes (String.◌∷◌ c s) = code c ∷ codes s

abbrev pub AreBytes : Bytes → Type 0
AreBytes = All (λ b. b < 256)

-- `u8::is_ascii_uppercase` and its companions.
abbrev pub is_upper : ℕ → Bool
is_upper c = leb b'A' c && leb c b'Z'

abbrev pub is_lower : ℕ → Bool
is_lower c = leb b'a' c && leb c b'z'

abbrev pub is_digit : ℕ → Bool
is_digit c = leb b'0' c && leb c b'9'

abbrev pub is_alnum : ℕ → Bool
is_alnum c = is_upper c || is_lower c || is_digit c

abbrev pub to_upper : ℕ → ℕ
to_upper c = if is_lower c then c - 32 else c

abbrev pub to_lower : ℕ → ℕ
to_lower c = if is_upper c then c + 32 else c

-- `==` on byte strings.
abbrev pub bytes_eq : Bytes → Bytes → Bool
bytes_eq [] [] = true
bytes_eq [] (b ∷ t) = false
bytes_eq (a ∷ s) [] = false
bytes_eq (a ∷ s) (b ∷ t) = a == b && bytes_eq s t

pub bytes_eq_refl : (s : Bytes) → bytes_eq s s ≡ true
bytes_eq_refl [] = refl
bytes_eq_refl (a ∷ s) = ground (arith, bytes_eq_refl s)

pub bytes_eq→eq : (s t : Bytes) → bytes_eq s t ≡ true → s ≡ t
bytes_eq→eq [] [] h = refl
bytes_eq→eq [] (b ∷ t) h = cc
bytes_eq→eq (a ∷ s) [] h = cc
bytes_eq→eq (a ∷ s) (b ∷ t) h = ground (arith, bytes_eq→eq s t)

-- A computation of the program that may panic. A panic that leaves an `extern "C"` function aborts
-- the process.
pub data Outcome {ℓ} (A : Type ℓ) : Type ℓ where
  done : A → Outcome A
  panic : Outcome A

abbrev pub map_outcome {ℓ κ} : {A : Type ℓ} {B : Type κ} → (A → B) → Outcome A → Outcome B
map_outcome f (done a) = done (f a)
map_outcome f panic = panic

-- `as i32` and `as i64` keep the low bits: a signed value is carried as its bit pattern.
abbrev pub i32_mod : ℕ
i32_mod = 2 ^ 32

abbrev pub i64_mod : ℕ
i64_mod = 2 ^ 64

-- The decimal text of a number below 100.
unfoldable pub decimal : ℕ → Bytes
decimal n = if leb 10 n then (b'0' + n / 10) ∷ (b'0' + n % 10) ∷ [] else (b'0' + n) ∷ []
