-- ===== src/Common/Text.antt =====
-- Text as lists of bytes: equality, the order of std::string, and letter case.
use gudov.Common.Tests.{ltb, leb, ◌==◌, if◌then◌else◌}
use Prim.Native.Nat.{ℕ, zero, suc, ◌+◌, ◌/◌, ◌%◌}
use mathlib.Core.Path.{◌≡◌, refl}
use mathlib.Core.Bool.{Bool, true, false, ◌&&◌}
use mathlib.Core.List.{List, [], ◌∷◌, ◌++◌, map}
use Prim.Native.Char.{code}
use Prim.Native.String.{String}
use native.Mathlib.Omega.{arith}

abbrev pub Bytes : Type 0
Bytes = List ℕ

-- The bytes of a literal
abbrev pub codes : String → List ℕ
codes String.[] = []
codes (String.◌∷◌ c s) = code c ∷ codes s

-- std::string::operator==
unfoldable pub bytes_eq : Bytes → Bytes → Bool
bytes_eq [] [] = true
bytes_eq [] (y ∷ ys) = false
bytes_eq (x ∷ xs) [] = false
bytes_eq (x ∷ xs) (y ∷ ys) = if x == y then bytes_eq xs ys else false

-- std::string::operator<, byte by byte
unfoldable pub lex : Bytes → Bytes → Bool
lex [] [] = false
lex [] (y ∷ ys) = true
lex (x ∷ xs) [] = false
lex (x ∷ xs) (y ∷ ys) = if ltb x y then true else if x == y then lex xs ys else false

-- tolower of an ASCII byte, as strcasecmp applies it
unfoldable pub to_lower : ℕ → ℕ
to_lower c = if leb b'A' c && leb c b'Z' then c + 32 else c

unfoldable pub lower : Bytes → Bytes
lower s = map to_lower s

-- `os << n` in decimal; a number has at most as many digits as its value, and one more.
unfoldable pub digits_of : ℕ → ℕ → Bytes
digits_of zero n = []
digits_of (suc fuel) n =
    let rest = digits_of fuel (n / 10) in
    if ltb n 10 then (48 + n) ∷ [] else rest ++ (48 + n % 10) ∷ []

unfoldable pub decimal : ℕ → Bytes
decimal n = digits_of (suc n) n

abbrev pub is_nil : Bytes → Bool
is_nil [] = true
is_nil (x ∷ xs) = false

pub bytes_eq_refl : (s : Bytes) → bytes_eq s s ≡ true
unfolding bytes_eq
bytes_eq_refl [] = refl
bytes_eq_refl (x ∷ xs) = ground (arith, bytes_eq_refl xs)

pub bytes_eq→eq : (s t : Bytes) → bytes_eq s t ≡ true → s ≡ t
unfolding bytes_eq
bytes_eq→eq [] [] h = refl
bytes_eq→eq [] (y ∷ ys) h = absurd (cc)
bytes_eq→eq (x ∷ xs) [] h = absurd (cc)
bytes_eq→eq (x ∷ xs) (y ∷ ys) h = ground (arith, bytes_eq→eq xs ys)

bytes_eq-ne : (s t : Bytes) → bytes_eq s t ≡ false → ¬ (s ≡ t)
bytes_eq-ne s t h e = let f : bytes_eq s t ≡ true = rw (← e) (bytes_eq_refl s) in cc (f, h)

pub bytes_eq_sym : (s t : Bytes) → bytes_eq s t ≡ bytes_eq t s
unfolding bytes_eq
bytes_eq_sym [] [] = refl
bytes_eq_sym [] (y ∷ ys) = refl
bytes_eq_sym (x ∷ xs) [] = refl
bytes_eq_sym (x ∷ xs) (y ∷ ys) = ground (arith, bytes_eq_sym xs ys)

-- The order is total: texts that are not apart are equal.
pub lex_irrefl : (s : Bytes) → lex s s ≡ false
unfolding lex
lex_irrefl [] = refl
lex_irrefl (x ∷ xs) = ground (arith, lex_irrefl xs)

pub lex_total : (s t : Bytes) → lex s t ≡ false → lex t s ≡ false → s ≡ t
unfolding lex
lex_total [] [] h k = refl
lex_total [] (y ∷ ys) h k = absurd (cc)
lex_total (x ∷ xs) [] h k = absurd (cc)
lex_total (x ∷ xs) (y ∷ ys) h k = ground (arith, lex_total xs ys)

pub lex_trans : (s t u : Bytes) → lex s t ≡ true → lex t u ≡ true → lex s u ≡ true
unfolding lex
lex_trans [] [] u h k = absurd (cc)
lex_trans [] (y ∷ ys) [] h k = absurd (cc)
lex_trans [] (y ∷ ys) (z ∷ zs) h k = refl
lex_trans (x ∷ xs) [] u h k = absurd (cc)
lex_trans (x ∷ xs) (y ∷ ys) [] h k = absurd (cc)
lex_trans (x ∷ xs) (y ∷ ys) (z ∷ zs) h k = ground (arith, lex_trans xs ys zs)
