-- ===== src/ByteArray/Ahead/Strings.antt =====
-- Length-prefixed strings and zigzag integers of a ByteArray (gudov/bytearray.cpp).
use gudov.Common.{ℕ, zero, suc, ◌+◌, ◌%◌, ◌^◌, ◌≤◌, ◌<◌, ◌≡◌, refl, ap, sym, ◌∙◌, arith}
use gudov.Common.{List, [], ◌∷◌, ◌++◌, map, length, some, length-map, length-append, append-nil}
use gudov.ByteArray.{Cell, ByteArray, ok, Endian, then_with}
use gudov.ByteArray.Raw.{write, read}
use gudov.ByteArray.Values.{write_fuint, write_string_f, read_string_f}
use gudov.ByteArray.Values.{image, of_image, ordered}
use gudov.ByteArray.File.{IsValid, File, File-eq, view, splice, file_write, Ends}
use gudov.ByteArray.File.Write.{write_refines, length-bytes}
use gudov.ByteArray.Ahead.{Ahead, Reads, reads_as, read_ahead, Rewound, Ends-Rewound}
use gudov.ByteArray.Ahead.Fixed.{read_fuint-Reads, image-ordered, ordered-of_image, length-image}
use gudov.ByteArray.Ahead.Varint.{reads_then}
use native.Mathlib.Nat.{mod-eq_of_lt}

splice_behind {ℓ} :
    {A : Type ℓ} (bs : List A) (q : ℕ) (cs : List A) → q ≡ length bs → splice bs q cs ≡ bs ++ cs
unfolding splice
splice_behind [] zero cs e = refl
splice_behind [] (suc q) cs e = absurd (omega arith)
splice_behind (b ∷ bs) zero cs e = absurd (omega arith)
splice_behind (b ∷ bs) (suc q) cs e = ap (◌∷◌ b) (splice_behind bs q cs (omega arith))

splice-splice {ℓ} :
    {A : Type ℓ} (xs : List A) (k q : ℕ) (bs cs : List A)
    → k ≤ length xs
    → q ≡ k + length bs
    → splice (splice xs k bs) q cs ≡ splice xs k (bs ++ cs)
unfolding splice
splice-splice [] zero zero [] cs h e = refl
splice-splice [] zero zero (b ∷ bs) cs h e = absurd (omega arith)
splice-splice [] zero (suc q) [] cs h e = absurd (omega arith)
splice-splice [] zero (suc q) (b ∷ bs) cs h e = ap (◌∷◌ b) (splice_behind bs q cs (omega arith))
splice-splice [] (suc k) q bs cs h e = absurd (omega arith)
splice-splice (x ∷ xs) zero zero [] cs h e = refl
splice-splice (x ∷ xs) zero (suc q) [] cs h e = absurd (omega arith)
splice-splice (x ∷ xs) zero zero (b ∷ bs) cs h e = absurd (omega arith)
splice-splice (x ∷ xs) zero (suc q) (b ∷ bs) cs h e =
    ap (◌∷◌ b) (splice-splice xs zero q bs cs (omega arith) (omega arith))
splice-splice (x ∷ xs) (suc k) zero bs cs h e = absurd (omega arith)
splice-splice (x ∷ xs) (suc k) (suc q) bs cs h e =
    ap (◌∷◌ x) (splice-splice xs k q bs cs (omega arith) (omega arith))

-- Two writes are one write of both.
write_two :
    (b : ByteArray) (xs ys : List Cell)
    → IsValid b
    → b.position + length (xs ++ ys) + b.base_size < 2 ^ 64
    → length (xs ++ ys) < 2 ^ 52
    → (b' : ByteArray) × (then_with (write xs b) (λ _. write ys) ≡ ok tt b')
      × Ends b b' (file_write (xs ++ ys) (view b))
unfolding view file_write
write_two b xs ys v room exact =
    let both = length-append xs ys in
    let (b1, wrote1, ends1) = write_refines b xs v (omega (arith, both)) (omega (arith, both)) in
    let moved : b1.position ≡ b.position + length xs = ap (λ (f : File). f.position) ends1.viewed in
    let (b2, wrote2, ends2) =
      write_refines b1 ys ends1.valid (omega (arith, both, moved, ends1.base_size))
        (omega (arith, both)) in
    let inside : b.position ≤ length (view b).bytes =
      omega (arith, length-bytes b v, v.position-le-size) in
    (
      b2,
      rw wrote1 wrote2,
      record {
        valid = ends2.valid;
        viewed =
            ends2.viewed
            ∙ ap (file_write ys) ends1.viewed
            ∙ File-eq
                (splice-splice (view b).bytes b.position (b.position + length xs) xs ys inside refl)
                (omega (arith, both));
        endian = ends2.endian ∙ ends1.endian;
        base_size = ends2.base_size ∙ ends1.base_size;
      },
    )

-- Reading a string whose prefix and bytes come next.
read_string_f-Reads :
    (b : ByteArray) (reader : Endian) (w : ℕ) (bs value : List ℕ) (rest : List Cell)
    → IsValid b
    → 0 < w
    → 0 < length value
    → length bs ≡ w
    → ordered b.endian reader w (of_image reader bs) ≡ length value
    → Ahead (view b) (map some bs ++ (map some value ++ rest))
    → Reads b (read_string_f reader w b) (map some value) (w + length value) rest
unfolding read_string_f
read_string_f-Reads b reader w bs value rest h some_width some_byte long len a =
    let r =
      read_fuint-Reads b reader w (length value) bs (map some value ++ rest) h some_width long len
        a in
    let count : length (map some value) ≡ length value = length-map some value in
    let got : Reads r.state (read (length value) r.state) (map some value) (length value) rest =
      reads_as (read_ahead r.state (map some value) rest r.valid (omega (arith, count)) r.ahead)
        (ap (λ n. read n r.state) (sym count)) refl count in
    reads_as
      (reads_then b (length value) w (length value) (map some value ++ rest) rest _ _ _ r got)
      (ap (λ t. then_with t read) r.runs) refl refl

-- A string written with a length prefix of w bytes is read back whole, by any machine: write it, go
-- back to where it began, and read it. It must have a byte at least, and its length must fit the
-- prefix (a longer one is cut by WriteStringF16 and WriteStringF32).
read_string_f-write_string_f :
    (b : ByteArray) (host reader : Endian) (w : ℕ) (value : List ℕ)
    → IsValid b
    → 0 < w
    → 0 < length value
    → length value < 256 ^ w
    → b.position + (w + length value) + b.base_size < 2 ^ 64
    → w + length value < 2 ^ 52
    → (let prefix = map some (image b.endian w (length value)) in
        (r : Rewound b (write_string_f host w value b) (prefix ++ map some value)) × Reads r.state
          (read_string_f reader w r.state)
          (map some value)
          (w + length value)
          [])
unfolding write_string_f read_string_f write_fuint
read_string_f-write_string_f b host reader w value h some_width some_byte fits room exact =
    let len = length value in
    let prefix : List Cell = map some (image b.endian w len) in
    let long : length (prefix ++ map some value) ≡ w + len = omega (
      arith,
      length-append prefix (map some value),
      length-map some (image b.endian w len),
      length-image b.endian w len,
      length-map some value,
    ) in
    let cut : len % 256 ^ w ≡ len = mod-eq_of_lt fits in
    let put : write (map some (image host w (ordered b.endian host w (len % 256 ^ w)))) b
        ≡ write prefix b =
      ap (λ t. write (map some (image host w (ordered b.endian host w t))) b) cut
      ∙ ap (λ t. write (map some t) b) (image-ordered b.endian host w len) in
    let (b', wrote, ends) =
      write_two b prefix (map some value) h (omega (arith, long)) (omega (arith, long)) in
    let r =
      Ends-Rewound b b' _ (prefix ++ map some value) h
        (ap (λ t. then_with t (λ _. write (map some value))) put ∙ wrote) ends in
    let value_of : ordered r.state.endian reader w (of_image reader (image b.endian w len)) ≡ len =
      ap (λ e. ordered e reader w (of_image reader (image b.endian w len))) r.endian
      ∙ ordered-of_image b.endian reader w len fits in
    (
      r,
      read_string_f-Reads r.state reader w (image b.endian w len) value [] r.valid some_width
          some_byte (length-image b.endian w len) value_of (rw append-nil r.ahead),
    )
