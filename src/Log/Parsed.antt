-- ===== src/Log/Parsed.antt =====
-- How LogFormatter::Init (gudov/log.cpp) reads a pattern.
use gudov.Common.{ℕ, zero, suc, ◌+◌, ◌≤◌, ◌≡◌, ◌==◌, refl, ◌∙◌, inl, inr, arith}
use gudov.Common.{
  Bool, true, false, Bool-cases, not, ◌&&◌, ◌||◌, List, [], ◌∷◌, ◌++◌, length, length-append, All,
  append-nil, append_assoc,
}
use gudov.Common.Text.{Bytes, is_nil}
use gudov.Log.Pattern.{
  Piece, literal, directive, is_alpha, scan_format, scan, flush, starts_with_percent, init_loop,
}

scan_format-length : (fmt s : Bytes) → length (scan_format fmt s).2 ≤ length s
unfolding scan_format
scan_format-length fmt [] = omega arith
scan_format-length fmt (c ∷ s) = elim (Bool-cases (c == b'}')) [
  | inl t ↦ rw t (omega arith)
  | inr t ↦ let h = scan_format-length (fmt ++ c ∷ []) s in rw t (omega arith)
]

scan-length : (name s : Bytes) → length (scan name s).3 ≤ length s
unfolding scan
scan-length name [] = omega arith
scan-length name (c ∷ s) =
    elim (Bool-cases (not (is_alpha c) && (not (c == b'{') && not (c == b'}')))) [
      | inl t ↦ rw t (omega arith)
      | inr t ↦ elim (Bool-cases (c == b'{')) [
        | inl u ↦ let h = scan_format-length [] s in rw (t, u) (omega arith)
        | inr u ↦ let h = scan-length (name ++ c ∷ []) s in rw (t, u) (omega arith)
      ]
    ]

init_loop-fuel :
    (fuel more : ℕ) (nstr s : Bytes)
    → length s ≤ fuel
    → length s ≤ more
    → init_loop fuel nstr s ≡ init_loop more nstr s
unfolding init_loop
init_loop-fuel zero zero nstr s h k = refl
init_loop-fuel zero (suc more) nstr [] h k = refl
init_loop-fuel zero (suc more) nstr (c ∷ s) h k = absurd (omega arith)
init_loop-fuel (suc fuel) zero nstr [] h k = refl
init_loop-fuel (suc fuel) zero nstr (c ∷ s) h k = absurd (omega arith)
init_loop-fuel (suc fuel) (suc more) nstr [] h k = refl
init_loop-fuel (suc fuel) (suc more) nstr (c ∷ s) h k =
    let tail = scan-length [] s in
    rw
      (
        init_loop-fuel fuel more (nstr ++ c ∷ []) s (omega arith) (omega arith),
        init_loop-fuel fuel more nstr s (omega arith) (omega arith),
        init_loop-fuel fuel more [] (scan [] s).3 (omega arith) (omega arith),
      )
      refl

-- A pattern is read to its end: as many turns of the loop as it has bytes are enough, so that any more
-- turns give the same entries and the same error.
pub init_loop_lem :
    (fuel : ℕ) (nstr s : Bytes)
    → length s ≤ fuel
    → init_loop fuel nstr s ≡ init_loop (length s) nstr s
init_loop_lem fuel nstr s h = init_loop-fuel fuel (length s) nstr s h (omega arith)

-- A pattern that is written for a list of entries, every format in its braces
unfoldable pub written : List Piece → Bytes
written [] = []
written (literal s ∷ ps) = s ++ written ps
written (directive name fmt ∷ ps) = b'%' ∷ (name ++ (b'{' ∷ (fmt ++ (b'}' ∷ written ps))))

abbrev pub literal_first : List Piece → Bool
literal_first [] = false
literal_first (literal s ∷ ps) = true
literal_first (directive name fmt ∷ ps) = false

-- The entries that a pattern can be written for: a text is not empty, has no '%' and is not followed by
-- another text; a name has letters only; a format has no '}'.
abbrev pub Written : List Piece → Type 0
Written [] = Unit
Written (literal s ∷ ps) =
    (is_nil s ≡ false) × All (λ c. (c == b'%') ≡ false) s × (literal_first ps ≡ false) × Written ps
Written (directive name fmt ∷ ps) =
    All (λ c. is_alpha c ≡ true) name × All (λ c. (c == b'}') ≡ false) fmt × Written ps

scan_format-append :
    (acc fmt rest : Bytes)
    → All (λ c. (c == b'}') ≡ false) fmt
    → scan_format acc (fmt ++ b'}' ∷ rest) ≡ (acc ++ fmt, true, rest)
unfolding scan_format
scan_format-append acc [] rest h = rw (append-nil acc) refl
scan_format-append acc (c ∷ fmt) rest h =
    rw (h.0, scan_format-append (acc ++ c ∷ []) fmt rest h.1, append_assoc acc (c ∷ []) fmt) refl

scan-append :
    (acc name fmt rest : Bytes)
    → All (λ c. is_alpha c ≡ true) name
    → All (λ c. (c == b'}') ≡ false) fmt
    → scan acc (name ++ (b'{' ∷ (fmt ++ b'}' ∷ rest))) ≡ (acc ++ name, fmt, true, rest)
unfolding scan
scan-append acc [] fmt rest h k = rw (append-nil acc, scan_format-append [] fmt rest k) refl
scan-append acc (c ∷ name) fmt rest h k =
    let open_brace : (c == b'{') ≡ false = ground arith in
    rw
      (
        h.0,
        open_brace,
        scan-append (acc ++ c ∷ []) name fmt rest h.1 k,
        append_assoc acc (c ∷ []) name,
      )
      refl

init_loop-literal :
    (s nstr rest : Bytes) (fuel : ℕ)
    → All (λ c. (c == b'%') ≡ false) s
    → init_loop (length s + fuel) nstr (s ++ rest) ≡ init_loop fuel (nstr ++ s) rest
unfolding init_loop
init_loop-literal [] nstr rest fuel h =
    let z : 0 + fuel ≡ fuel = omega arith in rw (z, append-nil nstr) refl
init_loop-literal (c ∷ s) nstr rest fuel h =
    let z : suc (length s) + fuel ≡ suc (length s + fuel) = omega arith in
    rw (z, h.0, init_loop-literal s (nstr ++ c ∷ []) rest fuel h.1, append_assoc nstr (c ∷ []) s)
      refl

no_percent :
    (name rest : Bytes)
    → All (λ c. is_alpha c ≡ true) name
    → starts_with_percent (name ++ b'{' ∷ rest) ≡ false
no_percent [] rest h = refl
no_percent (c ∷ name) rest h = ground arith

directive_turn :
    (name fmt rest nstr : Bytes) (fuel : ℕ)
    → All (λ c. is_alpha c ≡ true) name
    → All (λ c. (c == b'}') ≡ false) fmt
    → init_loop (suc fuel) nstr (b'%' ∷ (name ++ (b'{' ∷ (fmt ++ (b'}' ∷ rest)))))
      ≡ (flush nstr ++ directive name fmt ∷ (init_loop fuel [] rest).0, (init_loop fuel [] rest).1)
unfolding init_loop
directive_turn name fmt rest nstr fuel h k =
    rw (no_percent name (fmt ++ (b'}' ∷ rest)) h, scan-append [] name fmt rest h k) refl

init_loop-turns :
    (ps : List Piece) (nstr : Bytes)
    → Written ps
    → (is_nil nstr && literal_first ps) || not (literal_first ps) ≡ true
    → init_loop (length (written ps)) nstr (written ps) ≡ (flush nstr ++ ps, false)
unfolding written
init_loop-turns [] nstr h k = unfold init_loop in rw (append-nil (flush nstr)) refl
init_loop-turns (literal s ∷ ps) [] h k =
    rw
      (
        length-append s (written ps),
        init_loop-literal s [] (written ps) (length (written ps)) h.1,
        init_loop-turns ps s h.3 (rw (h.2, h.0) refl),
        h.0,
      )
      refl
init_loop-turns (literal s ∷ ps) (x ∷ nstr) h k = absurd (cc)
init_loop-turns (directive name fmt ∷ ps) nstr h k =
    let rest = name ++ (b'{' ∷ (fmt ++ (b'}' ∷ written ps))) in
    let a = length-append name (b'{' ∷ (fmt ++ (b'}' ∷ written ps))) in
    let b = length-append fmt (b'}' ∷ written ps) in
    directive_turn name fmt (written ps) nstr (length rest) h.0 h.1
    ∙ rw
        (
          init_loop_lem (length rest) [] (written ps) (omega arith),
          init_loop-turns ps [] h.2 (ready (literal_first ps)),
        )
        refl
  where
    ready : (b : Bool) → (true && b) || not b ≡ true
    ready true = refl
    ready false = refl

-- A pattern written for a list of entries is read back as these entries, without an error: for texts that
-- are not empty, have no '%' and do not follow each other, names of letters, and formats without '}'.
pub init_loop-written :
    (ps : List Piece) → Written ps → init_loop (length (written ps)) [] (written ps) ≡ (ps, false)
init_loop-written ps h = init_loop-turns ps [] h (ready (literal_first ps))
  where
    ready : (b : Bool) → (true && b) || not b ≡ true
    ready true = refl
    ready false = refl
