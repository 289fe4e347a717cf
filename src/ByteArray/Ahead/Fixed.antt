-- ===== src/ByteArray/Ahead/Fixed.antt =====
-- The fixed-width integers of a ByteArray (gudov/bytearray.cpp, gudov/endian.h): byte order, and reading
-- back what was written.
use gudov.Common.{ℕ, zero, suc, ◌+◌, ◌*◌, ◌/◌, ◌%◌, ◌^◌, ◌<◌, ◌≡◌, refl, ap, sym, subst, ◌∙◌, arith}
use gudov.Common.{
  List, [], ◌∷◌, ◌++◌, map, reverse, length, some, All, length-map, length-append, append-nil,
}
use gudov.Common.{All-append}
use gudov.ByteArray.{Cell, ByteArray, ok, Endian, little, big}
use gudov.ByteArray.Raw.{write, read}
use gudov.ByteArray.Values.{le_bytes, of_le_bytes, byte_swap, image, of_image, ordered, known}
use gudov.ByteArray.Values.{write_fuint, read_fuint}
use gudov.ByteArray.File.{IsValid, view}
use gudov.ByteArray.Ahead.{Ahead, Reads, reads_as, read_ahead, Rewound, write-Rewound}
use mathlib.Core.List.{reverse-cons, reverse-reverse}
use native.Mathlib.Nat.{pow-suc}

abbrev IsByte : ℕ → Type 0
IsByte x = x < 256

length-le_bytes : (w v : ℕ) → length (le_bytes w v) ≡ w
unfolding le_bytes
length-le_bytes zero v = refl
length-le_bytes (suc w) v = ap suc (length-le_bytes w (v / 256))

length-reverse {ℓ} : {A : Type ℓ} (xs : List A) → length (reverse xs) ≡ length xs
length-reverse [] = refl
length-reverse (x ∷ xs) =
    omega
      (arith, ap length (reverse-cons x xs), length-append (reverse xs) (x ∷ []), length-reverse xs)

reverse-All {ℓ κ} : {A : Type ℓ} (P : A → Type κ) (xs : List A) → All P xs → All P (reverse xs)
reverse-All P [] h = h
reverse-All P (x ∷ xs) h =
    rw (reverse-cons x xs) (All-append P (reverse xs) (x ∷ []) (reverse-All P xs h.1) (h.0, tt))

le_bytes-IsByte : (w v : ℕ) → All IsByte (le_bytes w v)
unfolding le_bytes
le_bytes-IsByte zero v = tt
le_bytes-IsByte (suc w) v = (omega arith, le_bytes-IsByte w (v / 256))

of_le_bytes-le_bytes : (w v : ℕ) → v < 256 ^ w → of_le_bytes (le_bytes w v) ≡ v
unfolding le_bytes of_le_bytes
of_le_bytes-le_bytes zero v h = omega arith
of_le_bytes-le_bytes (suc w) v h =
    omega (arith, of_le_bytes-le_bytes w (v / 256) (omega (arith, pow-suc 256 w)))

le_bytes-of_le_bytes : (bs : List ℕ) → All IsByte bs → le_bytes (length bs) (of_le_bytes bs) ≡ bs
unfolding le_bytes of_le_bytes
le_bytes-of_le_bytes [] h = refl
le_bytes-of_le_bytes (b ∷ bs) (h, hs) =
    let low : (b + 256 * of_le_bytes bs) % 256 ≡ b = omega arith in
    let rest : (b + 256 * of_le_bytes bs) / 256 ≡ of_le_bytes bs = omega arith in
    rw (low, rest, le_bytes-of_le_bytes bs hs)

-- ByteSwap reverses the bytes of a value.
le_bytes-byte_swap : (w v : ℕ) → le_bytes w (byte_swap w v) ≡ reverse (le_bytes w v)
unfolding byte_swap
le_bytes-byte_swap w v =
    let bs = reverse (le_bytes w v) in
    let count : length bs ≡ w = length-reverse (le_bytes w v) ∙ length-le_bytes w v in
    ap (λ t. le_bytes t (of_le_bytes bs)) (sym count)
    ∙ le_bytes-of_le_bytes bs (reverse-All IsByte (le_bytes w v) (le_bytes-IsByte w v))

byte_swap_twice : (w v : ℕ) → v < 256 ^ w → byte_swap w (byte_swap w v) ≡ v
byte_swap_twice w v h =
    unfold byte_swap in
    ap (λ t. of_le_bytes (reverse t)) (le_bytes-byte_swap w v)
    ∙ ap of_le_bytes (reverse-reverse (le_bytes w v))
    ∙ of_le_bytes-le_bytes w v h

-- The bytes that a typed write puts down are those of the object's byte order, whatever the machine's.
pub image-ordered :
    (endian host : Endian) (w v : ℕ) → image host w (ordered endian host w v) ≡ image endian w v
unfolding image ordered
image-ordered little little w v = refl
image-ordered big big w v = refl
image-ordered big little w v = le_bytes-byte_swap w v
image-ordered little big w v = ap reverse (le_bytes-byte_swap w v) ∙ reverse-reverse (le_bytes w v)

-- And a typed read takes the value of them by the object's byte order, on every machine.
pub ordered-of_image :
    (endian host : Endian) (w v : ℕ)
    → v < 256 ^ w
    → ordered endian host w (of_image host (image endian w v)) ≡ v
unfolding image ordered of_image
ordered-of_image little little w v h = of_le_bytes-le_bytes w v h
ordered-of_image big big w v h = rw reverse-reverse (of_le_bytes-le_bytes w v h)
ordered-of_image big little w v h = unfold byte_swap in byte_swap_twice w v h
ordered-of_image little big w v h = unfold byte_swap in byte_swap_twice w v h

pub length-image : (host : Endian) (w v : ℕ) → length (image host w v) ≡ w
unfolding image
length-image little w v = length-le_bytes w v
length-image big w v = length-reverse (le_bytes w v) ∙ length-le_bytes w v

known-map : (bs : List ℕ) (b : ByteArray) → known (map some bs) b ≡ ok bs b
unfolding known
known-map [] b = refl
known-map (x ∷ bs) b = rw (known-map bs b)

-- Reading an integer whose bytes come next.
pub read_fuint-Reads :
    (b : ByteArray) (reader : Endian) (w v : ℕ) (bs : List ℕ) (rest : List Cell)
    → IsValid b
    → 0 < w
    → length bs ≡ w
    → ordered b.endian reader w (of_image reader bs) ≡ v
    → Ahead (view b) (map some bs ++ rest)
    → Reads b (read_fuint reader w b) v w rest
unfolding read_fuint
read_fuint-Reads b reader w v bs rest h some_width long value a =
    let count : length (map some bs) ≡ w = length-map some bs ∙ long in
    let got : Reads b (read w b) (map some bs) w rest =
      reads_as (read_ahead b (map some bs) rest h (omega (arith, count)) a)
        (ap (λ n. read n b) (sym count)) refl count in
    record {
      state = got.state;
      runs = rw (got.runs, known-map bs got.state) (ap (λ t. ok t got.state) value);
      valid = got.valid;
      viewed = got.viewed;
      endian = got.endian;
      ahead = got.ahead;
    }

-- A fixed-width integer that one machine wrote is read back by any other, whatever byte order the
-- object and the two machines have: go back to where it began, and read it. The object must be
-- valid, the value fit w bytes, and the sizes stay below 2 ^ 64, and w below 2 ^ 52.
pub read_fuint-write_fuint :
    (b : ByteArray) (host reader : Endian) (w v : ℕ)
    → IsValid b
    → 0 < w
    → v < 256 ^ w
    → b.position + w + b.base_size < 2 ^ 64
    → w < 2 ^ 52
    → (r : Rewound b (write_fuint host w v b) (map some (image b.endian w v))) × Reads r.state
        (read_fuint reader w r.state)
        v
        w
        []
unfolding write_fuint
read_fuint-write_fuint b host reader w v h some_width small room exact =
    let bs = image b.endian w v in
    let count : length (map some bs) ≡ w = length-map some bs ∙ length-image b.endian w v in
    let written = ap (λ t. write (map some t) b) (image-ordered b.endian host w v) in
    let r : Rewound b (write (map some (image host w (ordered b.endian host w v))) b)
        (map some bs) =
      subst (λ t. Rewound b t (map some bs)) (sym written)
        (write-Rewound b (map some bs) h (omega (arith, count)) (omega (arith, count))) in
    let value : ordered r.state.endian reader w (of_image reader bs) ≡ v =
      ap (λ e. ordered e reader w (of_image reader bs)) r.endian
      ∙ ordered-of_image b.endian reader w v small in
    (
      r,
      read_fuint-Reads r.state reader w v bs [] r.valid some_width (length-image b.endian w v) value
          (rw append-nil r.ahead),
    )
