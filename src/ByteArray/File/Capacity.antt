-- ===== src/ByteArray/File/Capacity.antt =====
-- AddCapacity (gudov/bytearray.cpp): whole blocks are appended until the bytes asked for fit.
use gudov.Common.{ℕ, zero, suc, ◌+◌, ◌-◌, ◌*◌, ◌^◌, ◌≤◌, ◌<◌, ◌≡◌, refl, ap, sym, ◌∙◌}
use gudov.Common.{Option, none, some, List, [], ◌++◌, inl, inr, arith}
use gudov.Common.{
  leb, ltb, ◌==◌, if◌then◌else◌, Bool-cases, true, false, ◌||◌, append-nil, sub64-eq_sub,
}
use gudov.Common.{length, All, All-append, length-append, length-replicate}
use gudov.ByteArray.{Node, ByteArray}
use gudov.ByteArray.Cursor.{new_node}
use gudov.ByteArray.Raw.{new_nodes, blocks_for, grow, add_capacity, get_capacity}
use gudov.ByteArray.Blocks.{IsBlock, mul_below}
use gudov.ByteArray.CursorLaws.{CurAt}
use gudov.ByteArray.File.{IsValid}
use native.Mathlib.Nat.{lt-div-mul-add, div-mul-le_self}

new_nodes-IsBlock : (count base : ℕ) → All (IsBlock base) (new_nodes count base)
unfolding new_nodes new_node
new_nodes-IsBlock zero base = tt
new_nodes-IsBlock (suc count) base =
    ((refl, length-replicate base none), new_nodes-IsBlock count base)

length-new_nodes : (count base : ℕ) → length (new_nodes count base) ≡ count
unfolding new_nodes
length-new_nodes zero base = refl
length-new_nodes (suc count) base = ap suc (length-new_nodes count base)

-- The blocks cover what is missing, with less than one block to spare.
blocks_for_bounds :
    (missing base : ℕ)
    → 0 < base
    → missing < 2 ^ 52
    → (missing ≤ blocks_for missing base * base) × (blocks_for missing base * base < missing + base)
unfolding blocks_for
blocks_for_bounds missing base h exact =
    let e : ltb missing (2 ^ 52) ≡ true = ground arith in
    rw e (
      omega (arith, lt-div-mul-add {a = missing + (base - 1)} h),
      omega (arith, div-mul-le_self (missing + (base - 1)) base),
    )

-- What AddCapacity(size) leaves: the same bytes, then fresh ones, and room for `size` bytes.
pub record Roomy (b b' : ByteArray) (size : ℕ) : Type 0 where
  pub extra : List Node
  pub nodes : b'.nodes ≡ b.nodes ++ extra
  pub blocks : All (IsBlock b.base_size) b'.nodes
  pub base_size : b'.base_size ≡ b.base_size
  pub position : b'.position ≡ b.position
  pub size_lem : b'.size ≡ b.size
  pub endian : b'.endian ≡ b.endian
  pub capacity : b'.capacity ≡ length b'.nodes * b.base_size
  pub fits : b'.capacity < 2 ^ 64
  pub room : b.position + size ≤ length b'.nodes * b.base_size
  pub at : CurAt b.base_size (length b'.nodes) b'.cur b.position

get_capacity_lem : (b : ByteArray) → IsValid b → get_capacity b ≡ b.capacity - b.position
unfolding get_capacity
get_capacity_lem b v = sub64-eq_sub b.capacity b.position (omega arith) v.fits

CurAt-grow :
    (base k k' p room : ℕ) (c : Option ℕ)
    → room ≡ k * base - p
    → 0 < base
    → k < k'
    → p ≤ k * base
    → CurAt base k c p
    → CurAt base k' (if room == 0 then some k else c) p
CurAt-grow base k k' p room none e h l le at =
    let empty : (room == 0) ≡ true = ground arith in rw empty (l, omega arith, omega arith)
CurAt-grow base k k' p room (some i) e h l le at =
    let inside : (room == 0) ≡ false = ground (arith, mul_below i k base) in
    rw inside (omega arith, at.1, at.2)

grow-Roomy :
    (b : ByteArray) (size : ℕ)
    → IsValid b
    → b.position + size + b.base_size < 2 ^ 64
    → size < 2 ^ 52
    → get_capacity b < size
    → Roomy b (grow (size - get_capacity b) b) size
unfolding grow
grow-Roomy b size v small exact lack =
    let left : get_capacity b ≡ length b.nodes * b.base_size - b.position =
      omega (arith, get_capacity_lem b v, v.capacity_lem) in
    let missing = size - get_capacity b in
    let count = blocks_for missing b.base_size in
    let (enough, spare) = blocks_for_bounds missing b.base_size v.base_pos (omega arith) in
    let extra = new_nodes count b.base_size in
    let total : length (b.nodes ++ extra) ≡ length b.nodes + count =
      length-append b.nodes extra
      ∙ ap (◌+◌ (length b.nodes)) (length-new_nodes count b.base_size) in
    let product : length (b.nodes ++ extra) * b.base_size
        ≡ length b.nodes * b.base_size + count * b.base_size =
      omega (arith, ap (λ (t : ℕ). t * b.base_size) total) in
    let some_new : 0 < count = count_pos count enough in
    let in_memory : b.position ≤ length b.nodes * b.base_size =
      omega (arith, v.capacity_lem, v.position-le-size, v.size-le-capacity) in
    record {
      extra = extra;
      nodes = refl;
      blocks = All-append (IsBlock b.base_size) b.nodes extra v.blocks (new_nodes-IsBlock count _);
      base_size = refl;
      position = refl;
      size_lem = refl;
      endian = refl;
      capacity = omega (arith, product, v.capacity_lem);
      fits = omega (arith, spare, left, v.capacity_lem);
      room = omega (arith, product, enough, left);
      at = rw total (
          CurAt-grow b.base_size (length b.nodes) (length b.nodes + count) b.position
            (get_capacity b) b.cur left v.base_pos (omega arith) in_memory v.at);
    }
  where
    count_pos : (count : ℕ) → size - get_capacity b ≤ count * b.base_size → 0 < count
    count_pos zero le = absurd (omega arith)
    count_pos (suc count) le = omega arith

-- AddCapacity of a valid object makes room for `size` bytes at the position: it keeps the blocks and
-- appends new ones where they are needed, sets the capacity to that of all blocks, and leaves a null
-- cursor on the first new block. The position, `size` and one block must together stay below 2 ^ 64, and
-- `size` below 2 ^ 52.
pub add_capacity-Roomy :
    (b : ByteArray) (size : ℕ)
    → IsValid b
    → b.position + size + b.base_size < 2 ^ 64
    → size < 2 ^ 52
    → Roomy b (add_capacity size b) size
unfolding add_capacity
add_capacity-Roomy b size v small exact =
    elim (Bool-cases (size == 0 || leb size (get_capacity b))) [
      | inl t ↦ rw t (roomy_already (omega (arith, covers size (get_capacity b) t)))
      | inr t ↦ rw t (grow-Roomy b size v small exact (lacks size (get_capacity b) t))
    ]
  where
    covers : (s c : ℕ) → (s == 0 || leb s c) ≡ true → s ≤ c
    covers s c t = ground arith

    lacks : (s c : ℕ) → (s == 0 || leb s c) ≡ false → c < s
    lacks s c t = ground arith

    roomy_already : size ≤ get_capacity b → Roomy b b size
    roomy_already h = record {
      extra = [];
      nodes = sym (append-nil b.nodes);
      blocks = v.blocks;
      base_size = refl;
      position = refl;
      size_lem = refl;
      endian = refl;
      capacity = v.capacity_lem;
      fits = v.fits;
      room =
          omega
            (arith, get_capacity_lem b v, v.capacity_lem, v.position-le-size, v.size-le-capacity);
      at = v.at;
    }
