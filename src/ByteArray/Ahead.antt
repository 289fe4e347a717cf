-- ===== src/ByteArray/Ahead.antt =====
-- Typed reads of a ByteArray (gudov/bytearray.cpp) by what lies ahead of the position.
pub mod Fixed
pub mod Varint
pub mod Decode
pub mod Strings
pub mod Zigzag
use gudov.Common.{ℕ, zero, suc, ◌+◌, ◌-◌, ◌*◌, ◌^◌, ◌≤◌, ◌<◌, ◌≡◌, refl, ap, sym, subst, ◌∙◌, arith}
use gudov.Common.{List, [], ◌∷◌, ◌++◌, length, take, drop, length-append, length-take, length-drop}
use gudov.ByteArray.{Cell, ByteArray, Outcome, ok, then_with}
use gudov.ByteArray.Raw.{write, read, set_position}
use gudov.ByteArray.Blocks.{take-add, drop-drop}
use gudov.ByteArray.File.{IsValid, File, File-eq, view, file_write, file_read, splice, Ends}
use gudov.ByteArray.File.Write.{write_refines, length-bytes}
use gudov.ByteArray.File.Read.{read_refines, file_skip}
use gudov.ByteArray.File.Position.{set_position_refines}

-- The bytes `xs` come next.
abbrev pub Ahead : File → List Cell → Type 0
Ahead f xs = take (length xs) (drop f.position f.bytes) ≡ xs

-- A read returned `a`, took `n` bytes, and `rest` comes next.
pub record Reads {ℓ} {A : Type ℓ} (b : ByteArray) (out : Outcome A) (a : A) (n : ℕ)
    (rest : List Cell) : Type ℓ where
  pub state : ByteArray
  pub runs : out ≡ ok a state
  pub valid : IsValid state
  pub viewed : view state ≡ record { bytes = (view b).bytes; position = (view b).position + n }
  pub endian : state.endian ≡ b.endian
  pub ahead : Ahead (view state) rest

pub reads_as {ℓ} :
    {A : Type ℓ} {b : ByteArray} {out out' : Outcome A} {a a' : A} {n n' : ℕ} {rest : List Cell}
    → Reads b out a n rest
    → out' ≡ out
    → a ≡ a'
    → n ≡ n'
    → Reads b out' a' n' rest
reads_as {b} r p q e = record {
  state = r.state;
  runs = p ∙ r.runs ∙ ap (λ t. ok t r.state) q;
  valid = r.valid;
  viewed = r.viewed ∙ ap (moved b) e;
  endian = r.endian;
  ahead = r.ahead;
}
  where
    moved : ByteArray → ℕ → File
    moved b k = record { bytes = (view b).bytes; position = (view b).position + k }

module _ {ℓ} {A : Type ℓ} where
  append_injective :
      (xs ys us vs : List A) → length xs ≡ length us → xs ++ ys ≡ us ++ vs → (xs ≡ us) × (ys ≡ vs)
  append_injective [] ys [] vs e h = (refl, h)
  append_injective [] ys (u ∷ us) vs e h = absurd (omega arith)
  append_injective (x ∷ xs) ys [] vs e h = absurd (omega arith)
  append_injective (x ∷ xs) ys (u ∷ us) vs e h =
      let tails = append_injective xs ys us vs (omega arith) (cc) in (cc (tails.0), tails.1)

  -- What splice put in is there to be read.
  splice_read :
      (xs : List A) (k : ℕ) (bs : List A)
      → k ≤ length xs
      → take (length bs) (drop k (splice xs k bs)) ≡ bs
  unfolding splice
  splice_read [] zero [] h = refl
  splice_read [] zero (b ∷ bs) h = ap (◌∷◌ b) (splice_read [] zero bs h)
  splice_read [] (suc k) bs h = absurd (omega arith)
  splice_read (x ∷ xs) zero [] h = refl
  splice_read (x ∷ xs) zero (b ∷ bs) h = ap (◌∷◌ b) (splice_read xs zero bs (omega arith))
  splice_read (x ∷ xs) (suc k) bs h = splice_read xs k bs (omega arith)

-- Of the bytes that come next, the first part and the second.
Ahead-split :
    (f : File) (xs ys : List Cell)
    → Ahead f (xs ++ ys)
    → (length xs ≤ length (drop f.position f.bytes))
      × Ahead f xs
      × Ahead (file_skip (length xs) f) ys
unfolding file_skip
Ahead-split f xs ys h =
    let d = drop f.position f.bytes in
    let both : take (length xs) d ++ take (length ys) (drop (length xs) d) ≡ xs ++ ys =
      sym (take-add (length xs) (length ys) d)
      ∙ ap (λ t. take t d) (sym (length-append xs ys))
      ∙ h in
    let long : length xs ≤ length d =
      omega (arith, ap length h, length-append xs ys, length-take (length (xs ++ ys)) d) in
    let parts =
      append_injective (take (length xs) d) _ xs ys (omega (arith, length-take (length xs) d))
        both in
    (
      long,
      parts.0,
      ap (take (length ys)) (sym (drop-drop f.position (length xs) _ f.bytes refl)) ∙ parts.1,
    )

pub read_ahead :
    (b : ByteArray) (xs ys : List Cell)
    → IsValid b
    → 0 < length xs
    → Ahead (view b) (xs ++ ys)
    → Reads b (read (length xs) b) xs (length xs) ys
unfolding view file_read file_skip
read_ahead b xs ys v h a =
    let (long, here, after) = Ahead-split (view b) xs ys a in
    let fits : b.position + length xs ≤ b.size =
      omega (arith, length-bytes b v, length-drop b.position (view b).bytes) in
    let (b', runs, ends) = read_refines b (length xs) v h fits in
    record {
      state = b';
      runs = runs ∙ ap (λ t. ok t b') here;
      valid = ends.valid;
      viewed = ends.viewed;
      endian = ends.endian;
      ahead = subst (λ f. Ahead f ys) (sym ends.viewed) after;
    }

-- A write that put `buf` at the position, followed by SetPosition back to where it began.
pub record Rewound (b : ByteArray) (out : Outcome (Unit {0})) (buf : List Cell) : Type 0 where
  pub state : ByteArray
  pub runs : then_with out (λ _. set_position b.position) ≡ ok tt state
  pub valid : IsValid state
  pub viewed :
      view state
      ≡ record { bytes = splice (view b).bytes (view b).position buf; position = (view b).position }
  pub endian : state.endian ≡ b.endian
  pub ahead : Ahead (view state) buf

-- Any call that left the file with `buf` written, followed by SetPosition.
pub Ends-Rewound :
    (b b' : ByteArray) (out : Outcome (Unit {0})) (buf : List Cell)
    → IsValid b
    → out ≡ ok tt b'
    → Ends b b' (file_write buf (view b))
    → Rewound b out buf
unfolding view file_write
Ends-Rewound b b' out buf v wrote ends =
    let moved : b'.position ≡ b.position + length buf = ap (λ (f : File). f.position) ends.viewed in
    let (b2, back, viewed, valid, endian) =
      set_position_refines b' b.position ends.valid
        (omega (arith, moved, ends.valid.position-le-size)) in
    let bytes : (view b').bytes ≡ splice (view b).bytes b.position buf =
      ap (λ (f : File). f.bytes) ends.viewed in
    let whole =
      viewed ∙ ap (λ t. let f : File = record { bytes = t; position = b.position } in f) bytes in
    record {
      state = b2;
      runs = rw wrote back;
      valid = valid;
      viewed = whole;
      endian = endian ∙ ends.endian;
      ahead =
          subst (λ f. Ahead f buf) (sym whole)
            (splice_read (view b).bytes b.position buf
              (omega (arith, length-bytes b v, v.position-le-size)));
    }

pub write-Rewound :
    (b : ByteArray) (buf : List Cell)
    → IsValid b
    → b.position + length buf + b.base_size < 2 ^ 64
    → length buf < 2 ^ 52
    → Rewound b (write buf b) buf
write-Rewound b buf v small exact =
    let (b', wrote, ends) = write_refines b buf v small exact in
    Ends-Rewound b b' (write buf b) buf v wrote ends
