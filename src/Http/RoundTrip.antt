-- ===== src/Http/RoundTrip.antt =====
-- What Dump (gudov/http/http.cpp) printed is read back.
use gudov.Common.{ℕ, zero, suc, ◌+◌, ◌/◌, ◌%◌, ◌<◌, ◌==◌, ◌≡◌, ◌⊎◌, inl, inr, refl, arith}
use gudov.Common.{
  Bool, true, false, if◌then◌else◌, Bool-cases, ltb, [], ◌∷◌, ◌++◌, length, All, All-append,
  append_assoc,
}
use gudov.Common.{drop-append_self}
use gudov.Common.Text.{digits_of, decimal, Bytes, codes, is_nil}
use gudov.Common.Dict.{Dict}
use gudov.Http.Message.{same_text}
use gudov.Http.Print.{crlf, header_lines}
use gudov.Http.Reader.{read_until, read_line, read_headers}

-- The byte `c` does not stand in the text.
abbrev pub Lacks : ℕ → Bytes → Type 0
Lacks c = All (λ x. (x == c) ≡ false)

-- The test of it, for a text that is written out
abbrev pub lacks : ℕ → Bytes → Bool
lacks c [] = true
lacks c (x ∷ s) = if x == c then false else lacks c s

pub lacks→Lacks : (c : ℕ) (s : Bytes) → lacks c s ≡ true → Lacks c s
lacks→Lacks c [] h = tt
lacks→Lacks c (x ∷ s) h = elim (Bool-cases (x == c)) [
  | inl t ↦ absurd (ground arith)
  | inr t ↦ (t, lacks→Lacks c s (ground arith))
]

read_until-append :
    (c : ℕ) (xs rest : Bytes) → Lacks c xs → read_until c (xs ++ c ∷ rest) ≡ (xs, rest)
unfolding read_until
read_until-append c [] rest h = ground arith
read_until-append c (x ∷ xs) rest h = rw (h.0, read_until-append c xs rest h.1) refl

pub read_line-append :
    (xs rest : Bytes) → Lacks 13 xs → read_line (xs ++ (crlf ++ rest)) ≡ (xs, rest)
unfolding read_line
read_line-append xs rest h = rw (read_until-append 13 xs (10 ∷ rest) h) refl

-- Header lines with the separator ":" and `pad` behind it, and what follows them.
abbrev pub lines_onto : Bytes → Dict Bytes → Bytes → Bytes
lines_onto pad [] tail = tail
lines_onto pad ((k, v) ∷ m) tail = k ++ ((58 ∷ pad) ++ (v ++ (crlf ++ lines_onto pad m tail)))

-- A header that stays on its line, with its colon where it belongs.
abbrev pub Fits : Bytes × Bytes → Type 0
Fits (k, v) = Lacks 13 k × Lacks 58 k × Lacks 13 v

-- The same, and not the one that Dump writes by itself
abbrev pub Clean : Bytes × Bytes → Type 0
Clean (k, v) = Fits (k, v) × (same_text k (codes "connection") ≡ false)

not-nil : (k rest : Bytes) (c : ℕ) → is_nil (k ++ c ∷ rest) ≡ false
not-nil [] rest c = refl
not-nil (x ∷ k) rest c = refl

pub read_headers-lines_onto :
    (pad : Bytes) (m : Dict Bytes) (body : Bytes) (fuel : ℕ)
    → Lacks 13 pad
    → All Fits m
    → length m < fuel
    → read_headers (length pad) fuel (lines_onto pad m (crlf ++ body)) ≡ (m, body)
unfolding read_headers
read_headers-lines_onto pad m body zero p h lt = absurd (omega arith)
read_headers-lines_onto pad [] body (suc fuel) p h lt = unfold read_line read_until in refl
read_headers-lines_onto pad ((k, v) ∷ m) body (suc fuel) p h lt =
    let line : Bytes = k ++ ((58 ∷ pad) ++ v) in
    let whole : k ++ ((58 ∷ pad) ++ (v ++ (crlf ++ lines_onto pad m (crlf ++ body))))
        ≡ line ++ (crlf ++ lines_onto pad m (crlf ++ body)) =
      simp append_assoc in
    let clean : Lacks 13 line =
      All-append (λ x. (x == 13) ≡ false) k ((58 ∷ pad) ++ v) h.0.0
        (refl, All-append (λ x. (x == 13) ≡ false) pad v p h.0.2) in
    rw
      (
        whole,
        read_line-append line (lines_onto pad m (crlf ++ body)) clean,
        read_until-append 58 k (pad ++ v) h.0.1,
        not-nil k (pad ++ v) 58,
        drop-append_self pad v,
        read_headers-lines_onto pad m body fuel p h.1 (omega arith),
      )
      refl

-- The loop of Dump over clean headers prints all of them.
pub header_lines-lines_onto :
    (pad tail : Bytes) (m : Dict Bytes)
    → All Clean m
    → header_lines (58 ∷ pad) m ++ tail ≡ lines_onto pad m tail
unfolding header_lines
header_lines-lines_onto pad tail [] h = refl
header_lines-lines_onto pad tail ((k, v) ∷ m) h =
    rw h.0.1 (simp (append_assoc, header_lines-lines_onto pad tail m h.1))

pub All-Fits : (m : Dict Bytes) → All Clean m → All Fits m
All-Fits [] h = tt
All-Fits (kv ∷ m) h = (h.0.0, All-Fits m h.1)

digits_of-Lacks : (c fuel n : ℕ) → (c < 48) ⊎ (57 < c) → Lacks c (digits_of fuel n)
unfolding digits_of
digits_of-Lacks c zero n h = tt
digits_of-Lacks c (suc fuel) n h = elim (Bool-cases (ltb n 10)) [
  | inl t ↦ rw t (ground arith, tt)
  | inr t ↦ rw t (
      All-append (λ x. (x == c) ≡ false) (digits_of fuel (n / 10)) ((48 + n % 10) ∷ [])
        (digits_of-Lacks c fuel (n / 10) h) (ground arith, tt))
]

pub decimal-Lacks : (c n : ℕ) → (c < 48) ⊎ (57 < c) → Lacks c (decimal n)
unfolding decimal
decimal-Lacks c n h = digits_of-Lacks c (suc n) n h
