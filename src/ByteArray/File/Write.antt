-- ===== src/ByteArray/File/Write.antt =====
-- ByteArray::Write (gudov/bytearray.cpp) refines writing at the position of a file.
use gudov.Common.{ℕ, zero, suc, ◌+◌, ◌-◌, ◌*◌, ◌%◌, ◌^◌, ◌≤◌, ◌<◌, ◌≡◌, refl, ap, sym, ◌∙◌, subst}
use gudov.Common.{Option, none, some, List, [], ◌∷◌, ◌++◌, ◌⊎◌, inl, inr, arith}
use gudov.Common.{◌==◌, Bool-cases, sub64, sub64-eq_sub}
use gudov.Common.{length, get_elem?-lt, take, length-take, All, All-get_elem?, length-append}
use gudov.ByteArray.{Cell, Node, ByteArray, ok, Outcome, then_with}
use gudov.ByteArray.Cursor.{overwrite}
use gudov.ByteArray.Raw.{write_loop, write_grown, finish_write, raise_size, write, add_capacity}
use gudov.ByteArray.Blocks.{IsBlock, flat, flat-append, length-flat, take-append_left}
use gudov.ByteArray.CursorLaws.{CurAt, cur_node_lem}
use gudov.ByteArray.WriteLoop.{Written, write_loop_lem}
use gudov.ByteArray.File.{IsValid, File-eq, view, splice, file_write, Ends}
use gudov.ByteArray.File.Capacity.{Roomy, add_capacity-Roomy}
use native.Mathlib.Nat.{mul-add-mod_self_right, mod-eq_of_lt}

module _ {ℓ} {A : Type ℓ} where
  splice_nothing_at : (xs : List A) (k : ℕ) → k ≤ length xs → splice xs k [] ≡ xs
  unfolding splice
  splice_nothing_at [] k h = refl
  splice_nothing_at (x ∷ xs) zero h = refl
  splice_nothing_at (x ∷ xs) (suc k) h = ap (◌∷◌ x) (splice_nothing_at xs k (omega arith))

  -- Cutting the memory at the new size gives the file with the bytes put in.
  take-overwrite :
      (xs : List A) (s p t : ℕ) (bs : List A)
      → p ≤ s
      → s ≤ t
      → p + length bs ≤ t
      → (t ≡ s) ⊎ (t ≡ p + length bs)
      → t ≤ length xs
      → take t (overwrite xs p bs) ≡ splice (take s xs) p bs
  unfolding overwrite splice
  take-overwrite [] zero zero zero [] a b c d e = refl
  take-overwrite [] zero zero zero (x ∷ bs) a b c d e = absurd (omega arith)
  take-overwrite [] zero (suc p) zero bs a b c d e = absurd (omega arith)
  take-overwrite [] (suc s) p zero bs a b c d e = absurd (omega arith)
  take-overwrite [] s p (suc t) bs a b c d e = absurd (omega arith)
  take-overwrite (x ∷ xs) s zero t [] a b c d e =
      let same : t ≡ s = omega arith in
      rw same (sym (splice_nothing_at (take s (x ∷ xs)) 0 (omega arith)))
  take-overwrite (x ∷ xs) zero zero zero (y ∷ bs) a b c d e = absurd (omega arith)
  take-overwrite (x ∷ xs) (suc s) zero zero (y ∷ bs) a b c d e = absurd (omega arith)
  take-overwrite (x ∷ xs) zero zero (suc t) (y ∷ bs) a b c d e =
      ap (◌∷◌ y)
        (take-overwrite xs 0 0 t bs a (omega arith) (omega arith) (omega arith) (omega arith))
  take-overwrite (x ∷ xs) (suc s) zero (suc t) (y ∷ bs) a b c d e = ap (◌∷◌ y) (
      take-overwrite xs s 0 t bs (omega arith) (omega arith) (omega arith) (omega arith)
        (omega arith))
  take-overwrite (x ∷ xs) zero (suc p) t bs a b c d e = absurd (omega arith)
  take-overwrite (x ∷ xs) (suc s) (suc p) zero bs a b c d e = absurd (omega arith)
  take-overwrite (x ∷ xs) (suc s) (suc p) (suc t) bs a b c d e = ap (◌∷◌ x) (
      take-overwrite xs s p t bs (omega arith) (omega arith) (omega arith) (omega arith)
        (omega arith))

-- The offset in the block.
mod_offset : (i base r p : ℕ) → p ≡ i * base + r → r < base → p % base ≡ r
mod_offset i base r p e h = rw e (mul-add-mod_self_right i base r ∙ mod-eq_of_lt h)

-- The cursor points at a block wherever there is room.
pub CurAt-some :
    (base k p size : ℕ) (c : Option ℕ)
    → CurAt base k c p
    → 0 < size
    → p + size ≤ k * base
    → (i : ℕ) × (c ≡ some i)
CurAt-some base k p size none at h l = absurd (omega arith)
CurAt-some base k p size (some i) at h l = (i, refl)

-- The offset in the current block, and the room behind it, as Write and Read compute them.
pub room_in_block :
    (b : ByteArray) (i : ℕ) (n : Node)
    → i * b.base_size ≤ b.position
    → b.position < i * b.base_size + b.base_size
    → n.size ≡ b.base_size
    → b.base_size < 2 ^ 64
    → (b.position ≡ i * b.base_size + b.position % b.base_size)
      × (b.position % b.base_size + sub64 n.size (b.position % b.base_size) ≡ b.base_size)
      × (0 < sub64 n.size (b.position % b.base_size))
room_in_block b i n lo hi size small =
    let r = b.position - i * b.base_size in
    let off = mod_offset i b.base_size r b.position (omega arith) (omega arith) in
    let rest = sub64-eq_sub n.size (b.position % b.base_size) (omega (arith, off)) (omega arith) in
    (omega (arith, off), omega (arith, off, rest), omega (arith, off, rest))

write_grown-Written :
    (b : ByteArray) (i : ℕ) (buf : List Cell)
    → b.cur ≡ some i
    → (i < length b.nodes)
      × (i * b.base_size ≤ b.position)
      × (b.position < i * b.base_size + b.base_size)
    → All (IsBlock b.base_size) b.nodes
    → b.base_size < 2 ^ 64
    → 0 < length buf
    → b.position + length buf ≤ length b.nodes * b.base_size
    → (w : Outcome (Unit {0})) × Written b w buf
      × (write_grown buf b ≡ then_with w λ _. finish_write)
unfolding write_grown
write_grown-Written b i buf c at blocks small some_left fits =
    let (n, g) = get_elem?-lt b.nodes i at.0 in
    let whole : IsBlock b.base_size n = All-get_elem? (IsBlock b.base_size) b.nodes i n g blocks in
    let (pos, room, some_room) = room_in_block b i n at.1 at.2 whole.0 small in
    (
      write_loop (suc (length buf)) (b.position % b.base_size)
          (sub64 n.size (b.position % b.base_size)) buf b,
      write_loop_lem (suc (length buf)) b i (b.position % b.base_size) _ buf c at.0 blocks pos room
          some_room some_left fits (omega arith),
      rw (cur_node_lem b i n c g),
    )

-- What is left when the loop is done: the size is raised to the position.
finish-Ends :
    (b b1 : ByteArray) (w : Outcome (Unit {0})) (buf : List Cell)
    → IsValid b
    → Roomy b b1 (length buf)
    → Written b1 w buf
    → (b' : ByteArray) × (then_with w (λ _. finish_write) ≡ ok tt b')
      × Ends b b' (file_write buf (view b))
unfolding finish_write raise_size file_write view
finish-Ends b b1 w buf v r d =
    let b' =
      raise_size
        (record b1 { nodes = d.nodes; cur = d.cur; position = b1.position + length buf }) in
    let longer : length b1.nodes ≡ length b.nodes + length r.extra =
      ap length r.nodes ∙ length-append b.nodes r.extra in
    let product : length b1.nodes * b.base_size
        ≡ length b.nodes * b.base_size + length r.extra * b.base_size =
      omega (arith, ap (λ (t : ℕ). t * b.base_size) longer) in
    let grown : b.capacity ≤ b1.capacity = omega (arith, product, r.capacity, v.capacity_lem) in
    let old : flat b1.nodes ≡ flat b.nodes ++ flat r.extra =
      ap flat r.nodes ∙ flat-append b.nodes r.extra in
    let memory : length (flat b1.nodes) ≡ b1.capacity =
      length-flat b.base_size b1.nodes r.blocks ∙ sym r.capacity in
    let old_memory : length (flat b.nodes) ≡ b.capacity =
      length-flat b.base_size b.nodes v.blocks ∙ sym v.capacity_lem in
    let same : take b.size (flat b1.nodes) ≡ take b.size (flat b.nodes) =
      rw old (take-append_left b.size (flat b.nodes) (flat r.extra) (omega (arith, old_memory))) in
    let new_size : ℕ = b'.size in
    (
      b',
      rw d.runs,
      record {
        valid = record {
          base_pos = omega arith;
          blocks = d.blocks;
          some_block = omega (arith, d.count, longer);
          capacity_lem = rw (d.count, r.base_size) r.capacity;
          fits = r.fits;
          at = d.at;
          position-le-size = ground arith;
          size-le-capacity = ground (arith, grown);
        };
        viewed =
            File-eq
              (rw (d.memory, ← same, ← r.position)
                (take-overwrite (flat b1.nodes) b.size b1.position new_size buf (omega arith)
                  (ground arith) (ground arith) (ground arith) (ground (arith, grown, memory))))
              (ap (λ t. t + length buf) r.position);
        endian = r.endian;
        base_size = r.base_size;
      },
    )

pub length-bytes : (b : ByteArray) → IsValid b → length (view b).bytes ≡ b.size
unfolding view
length-bytes b v = omega (
  arith,
  length-take b.size (flat b.nodes),
  length-flat b.base_size b.nodes v.blocks,
  v.capacity_lem,
  v.size-le-capacity,
)

nothing-Ends : (b : ByteArray) → IsValid b → Ends b b (file_write [] (view b))
unfolding file_write view
nothing-Ends b v = record {
  valid = v;
  viewed =
      File-eq
        (sym (
          splice_nothing_at (take b.size (flat b.nodes)) b.position
            (omega (arith, length-bytes b v, v.position-le-size))))
        (omega arith);
  endian = refl;
  base_size = refl;
}

-- Write to a valid object returns: it puts the bytes at the position, over what is there and on past
-- the end, and moves the position behind them. It leaves a valid object with the same byte order and
-- block size. The position, the bytes and one block must together stay below 2 ^ 64,
-- and fewer than 2 ^ 52 bytes are written, for which AddCapacity divides exactly.
pub write_refines :
    (b : ByteArray) (buf : List Cell)
    → IsValid b
    → b.position + length buf + b.base_size < 2 ^ 64
    → length buf < 2 ^ 52
    → (b' : ByteArray) × (write buf b ≡ ok tt b') × Ends b b' (file_write buf (view b))
unfolding write
write_refines b buf v small exact = elim (Bool-cases (length buf == 0)) [
  | inl t ↦ let empty : buf ≡ [] = ground arith in rw (t, empty) (b, refl, nothing-Ends b v)
  | inr t ↦
      let r = add_capacity-Roomy b (length buf) v small exact in
      let b1 = add_capacity (length buf) b in
      let at : CurAt b1.base_size (length b1.nodes) b1.cur b1.position =
        rw (r.base_size, r.position) r.at in
      let room : b1.position + length buf ≤ length b1.nodes * b1.base_size =
        rw (r.base_size, r.position) r.room in
      let (i, c) =
        CurAt-some b1.base_size (length b1.nodes) b1.position (length buf) b1.cur at (ground arith)
          room in
      let (w, d, e) =
        write_grown-Written b1 i buf c
          (subst (λ t. CurAt b1.base_size (length b1.nodes) t b1.position) c at)
          (rw r.base_size r.blocks) (omega (arith, r.base_size)) (ground arith) room in
      let (b', runs, ends) = finish-Ends b b1 w buf v r d in rw t (b', e ∙ runs, ends)
]
