-- ===== src/ByteArray/File/Position.antt =====
-- ByteArray::SetPosition, Clear and ToString and the constructor (gudov/bytearray.cpp) against the file view.
use gudov.Common.{ℕ, zero, suc, ◌+◌, ◌-◌, ◌*◌, ◌^◌, ◌≤◌, ◌<◌, ◌≡◌, refl, ap, ◌∙◌, subst}
use gudov.Common.{Option, none, some, List, [], ◌∷◌, inl, inr, arith, length-replicate}
use gudov.Common.{ltb, ltb→lt, ◌==◌, if◌then◌else◌, Bool-cases, true, false, sub64, sub64-eq_sub}
use gudov.Common.{length, get_elem?, get_elem?-lt, take, drop, All, All-get_elem?}
use gudov.ByteArray.{Node, ByteArray, ok, throws}
use gudov.ByteArray.Cursor.{seek, next_of}
use gudov.ByteArray.Raw.{
  read_at, to_string, get_read_size, set_position, raise_size, clear, unchanged,
}
use gudov.ByteArray.Raw.{new_byte_array}
use gudov.ByteArray.Blocks.{IsBlock, flat}
use gudov.ByteArray.CursorLaws.{
  CurAt, cur_node_lem, advance_lem, leave_lem, next_of-CurAt, suc-lt_of_mul, le-mul_pos,
}
use gudov.ByteArray.File.{IsValid, File-eq, view}
use gudov.ByteArray.File.Write.{length-bytes, CurAt-some}
use gudov.ByteArray.File.Read.{get_read_size_lem, read_body-Loaded}

module _ {ℓ} {A : Type ℓ} where
  drop_all : (xs : List A) (k : ℕ) → length xs ≤ k → drop k xs ≡ []
  drop_all [] zero h = refl
  drop_all [] (suc k) h = refl
  drop_all (x ∷ xs) zero h = absurd (omega arith)
  drop_all (x ∷ xs) (suc k) h = drop_all xs k (omega arith)

  take_nil : (n : ℕ) → take n (let e : List A = [] in e) ≡ []
  take_nil zero = refl
  take_nil (suc n) = refl

  take-drop : (xs : List A) (s k : ℕ) → take (s - k) (drop k xs) ≡ drop k (take s xs)
  take-drop xs s zero = ap (λ t. take t xs) (omega arith)
  take-drop [] zero (suc k) = take_nil (0 - suc k)
  take-drop [] (suc s) (suc k) = take_nil (suc s - suc k)
  take-drop (x ∷ xs) zero (suc k) =
      let none_left : 0 - suc k ≡ 0 = omega arith in ap (λ t. take t (drop k xs)) none_left
  take-drop (x ∷ xs) (suc s) (suc k) =
      let shifted : suc s - suc k ≡ s - k = omega arith in
      ap (λ t. take t (drop k xs)) shifted ∙ take-drop xs s k

read_at_rest :
    (b : ByteArray) (size : ℕ)
    → IsValid b
    → size ≡ b.size - b.position
    → 0 < size
    → read_at size b.position b ≡ ok (drop b.position (view b).bytes) b
unfolding read_at view
read_at_rest b size v e some_left =
    let fits : b.position + size ≤ b.size = omega (arith, v.position-le-size) in
    let (i, c) =
      CurAt-some b.base_size (length b.nodes) b.position size b.cur v.at some_left
        (omega (arith, v.capacity_lem, v.size-le-capacity)) in
    let at = subst (λ t. CurAt b.base_size (length b.nodes) t b.position) c v.at in
    let (n, g) = get_elem?-lt b.nodes i at.0 in
    let w = read_body-Loaded b i size n v c at g some_left fits in
    let enough : ltb (sub64 b.size b.position) size ≡ false =
      ground (arith, sub64-eq_sub b.size b.position, v.position-le-size) in
    let rest : take size (drop b.position (flat b.nodes))
        ≡ drop b.position (take b.size (flat b.nodes)) =
      ap (λ t. take t (drop b.position (flat b.nodes))) e
      ∙ take-drop (flat b.nodes) b.size b.position in
    rw (enough, cur_node_lem b i n c g) (ap (unchanged b) w.runs ∙ ap (λ t. ok t b) rest)

-- ToString of a valid object returns the bytes from the position on, and changes nothing.
to_string_lem : (b : ByteArray) → IsValid b → to_string b ≡ ok (drop b.position (view b).bytes) b
unfolding to_string
to_string_lem b v = elim (Bool-cases (get_read_size b == 0)) [
  | inl t ↦
      let done : b.size ≤ b.position = ground (arith, get_read_size_lem b v) in
      rw (t, drop_all (view b).bytes b.position (omega (arith, length-bytes b v))) refl
  | inr t ↦ rw t (read_at_rest b (get_read_size b) v (get_read_size_lem b v) (ground arith))
]

seek_round_more :
    (b : ByteArray) (i : ℕ) (n : Node) (fuel v : ℕ)
    → b.cur ≡ some i
    → get_elem? b.nodes i ≡ some n
    → suc i < length b.nodes
    → n.size < v
    → seek (suc fuel) v b ≡ seek fuel (v - n.size) (record b { cur = some (suc i) })
unfolding seek next_of
seek_round_more b i n fuel v c g here more =
    let behind : ltb n.size v ≡ true = ground arith in
    ground (arith, behind, cur_node_lem b i n c g, advance_lem b i n c g)

seek_round_last :
    (b : ByteArray) (i : ℕ) (n : Node) (fuel v : ℕ)
    → b.cur ≡ some i
    → get_elem? b.nodes i ≡ some n
    → v ≤ n.size
    → seek (suc fuel) v b
      ≡ ok tt (record b { cur = if n.size == v then next_of b.nodes i else some i })
unfolding seek
seek_round_last b i n fuel v c g last =
    let here : ltb n.size v ≡ false = ground arith in
    ground (arith, here, cur_node_lem b i n c g, leave_lem b i n c g v)

-- The loop of SetPosition ends at the block that holds byte `p`, within as many rounds as there are
-- blocks.
seek_lem :
    (fuel : ℕ) (b : ByteArray) (i v p : ℕ)
    → b.cur ≡ some i
    → i < length b.nodes
    → 0 < b.base_size
    → All (IsBlock b.base_size) b.nodes
    → p ≡ i * b.base_size + v
    → p ≤ length b.nodes * b.base_size
    → length b.nodes ≤ i + fuel
    → (c : Option ℕ) × (seek fuel v b ≡ ok tt (record b { cur = c }))
      × CurAt b.base_size (length b.nodes) c p
seek_lem zero b i v p c here some_base blocks e le enough = absurd (omega arith)
seek_lem (suc fuel) b i v p c here some_base blocks e le enough =
    let (n, g) = get_elem?-lt b.nodes i here in
    let whole : IsBlock b.base_size n = All-get_elem? (IsBlock b.base_size) b.nodes i n g blocks in
    elim (Bool-cases (ltb n.size v)) [
      | inl t ↦
          let next_in : suc i < length b.nodes =
            suc-lt_of_mul i (length b.nodes) b.base_size (ground arith) in
          let (c', runs, at) =
            seek_lem fuel (record b { cur = some (suc i) }) (suc i) (v - n.size) p refl next_in
              some_base blocks (ground arith) le (omega arith) in
          (c', seek_round_more b i n fuel v c g next_in (ltb→lt _ _ t) ∙ runs, at)
      | inr t ↦ (
        (if n.size == v then next_of b.nodes i else some i),
        seek_round_last b i n fuel v c g (ground arith),
        elim (Bool-cases (n.size == v)) [
          | inl full ↦ rw full (next_of-CurAt b.base_size b.nodes i p some_base here (ground arith))
          | inr left ↦ rw left (here, omega arith, ground arith)
        ],
      )
    ]

-- What SetPosition(v) leaves: the position is `v`, the size at least that, and the memory as it was.
pub record Moved (b b' : ByteArray) (v : ℕ) : Type 0 where
  pub valid : IsValid b'
  pub position : b'.position ≡ v
  pub nodes : b'.nodes ≡ b.nodes
  pub size_lem : b'.size ≡ (if ltb b.size v then v else b.size)
  pub endian : b'.endian ≡ b.endian

-- SetPosition accepts every position up to the capacity, and its loop finds the block of it. A
-- position past the size raises the size; one past the capacity throws, and nothing is changed.
pub set_position_lem :
    (b : ByteArray) (v : ℕ)
    → IsValid b
    → (v ≤ b.capacity → (b' : ByteArray) × (set_position v b ≡ ok tt b') × Moved b b' v)
      × (b.capacity < v → set_position v b ≡ throws b)
unfolding set_position raise_size
set_position_lem b v h = (inside, λ over. let t : ltb b.capacity v ≡ true = ground arith in rw t)
  where
    inside : v ≤ b.capacity → (b' : ByteArray) × (set_position v b ≡ ok tt b') × Moved b b' v
    inside le =
        let t : ltb b.capacity v ≡ false = ground arith in
        let b1 = record (raise_size (record b { position = v })) { cur = some 0 } in
        let (c, runs, at) =
          seek_lem (suc (length b.nodes)) b1 0 v v refl h.some_block h.base_pos h.blocks
            (omega arith) (omega (arith, h.capacity_lem)) (omega arith) in
        (
          record b1 { cur = c },
          rw t runs,
          record {
            valid = record {
              base_pos = h.base_pos;
              blocks = h.blocks;
              some_block = h.some_block;
              capacity_lem = h.capacity_lem;
              fits = h.fits;
              at = at;
              position-le-size = ground arith;
              size-le-capacity = ground (arith, h.size-le-capacity);
            };
            position = refl;
            nodes = refl;
            size_lem = refl;
            endian = refl;
          },
        )

-- Going back to a position within the size changes the position only.
pub set_position_refines :
    (b : ByteArray) (v : ℕ)
    → IsValid b
    → v ≤ b.size
    → (b' : ByteArray) × (set_position v b ≡ ok tt b')
      × (view b' ≡ record { bytes = (view b).bytes; position = v })
      × IsValid b'
      × (b'.endian ≡ b.endian)
unfolding view
set_position_refines b v h le =
    let (b', runs, m) = (set_position_lem b v h).0 (omega (arith, h.size-le-capacity)) in
    let same : b'.size ≡ b.size = ground (arith, m.size_lem) in
    (b', runs, File-eq (rw (same, m.nodes)) m.position, m.valid, m.endian)

-- A new ByteArray is a valid empty file at position 0, for a block size above 0 and below 2 ^ 64.
new_byte_array-IsValid :
    (base_size : ℕ)
    → 0 < base_size
    → base_size < 2 ^ 64
    → IsValid (new_byte_array base_size)
      × (view (new_byte_array base_size) ≡ record { bytes = []; position = 0 })
unfolding new_byte_array view
new_byte_array-IsValid s h small = (
  record {
    base_pos = h;
    blocks = ((refl, length-replicate s none), tt);
    some_block = omega arith;
    capacity_lem = omega arith;
    fits = small;
    at = omega arith;
    position-le-size = omega arith;
    size-le-capacity = omega arith;
  },
  refl,
)

-- Clear of a valid object leaves a valid empty file at position 0.
clear-IsValid :
    (b : ByteArray)
    → IsValid b
    → IsValid (clear b) × (view (clear b) ≡ record { bytes = []; position = 0 })
unfolding clear view
clear-IsValid b v = (go b.nodes v.blocks v.some_block, refl)
  where
    go :
        (ns : List Node)
        → All (IsBlock b.base_size) ns
        → 0 < length ns
        → IsValid (record b {
          position = 0;
          size = 0;
          capacity = b.base_size;
          cur = some 0;
          nodes = take 1 ns;
        })
    go [] h l = absurd (omega arith)
    go (n ∷ ns) h l = record {
      base_pos = v.base_pos;
      blocks = (h.0, tt);
      some_block = omega arith;
      capacity_lem = omega arith;
      fits =
          omega
            (arith, le-mul_pos (length b.nodes) b.base_size v.some_block, v.capacity_lem, v.fits);
      at = (omega arith, omega arith, omega (arith, v.base_pos));
      position-le-size = omega arith;
      size-le-capacity = omega arith;
    }
