-- ===== src/ByteArray/File/Read.antt =====
-- ByteArray::Read (gudov/bytearray.cpp) refines reading at the position of a file.
use gudov.Common.{ℕ, suc, ◌+◌, ◌-◌, ◌*◌, ◌%◌, ◌≤◌, ◌<◌, ◌≡◌, refl, ap, sym, ◌∙◌, subst}
use gudov.Common.{Option, none, some, List, [], arith}
use gudov.Common.{ltb, true, false, sub64, sub64-eq_sub}
use gudov.Common.{length, get_elem?, get_elem?-lt, All-get_elem?}
use gudov.ByteArray.{Cell, Node, ByteArray, ok, throws, fault, null_deref, Outcome}
use gudov.ByteArray.Cursor.{cur_node, node_at}
use gudov.ByteArray.Raw.{read_loop, read, get_read_size}
use gudov.ByteArray.Blocks.{IsBlock, flat, take-drop-take, mul_below}
use gudov.ByteArray.CursorLaws.{CurAt, cur_node_lem, le-mul_pos}
use gudov.ByteArray.ReadLoop.{Loaded, read_loop_lem}
use gudov.ByteArray.File.{IsValid, File, view, file_read, Ends}
use gudov.ByteArray.File.Write.{room_in_block, CurAt-some}

-- The file after Read: the same bytes, with the position moved on.
unfoldable pub file_skip : ℕ → File → File
file_skip size f = record f { position = f.position + size }

pub get_read_size_lem : (b : ByteArray) → IsValid b → get_read_size b ≡ b.size - b.position
unfolding get_read_size
get_read_size_lem b v = sub64-eq_sub b.size b.position v.position-le-size (omega arith)

-- The part of Read behind its check, from a block.
abbrev pub read_body : (b : ByteArray) (i size : ℕ) (n : Node) → Outcome (List Cell)
read_body b i size n =
    read_loop (suc size) (b.position % b.base_size) (sub64 n.size (b.position % b.base_size)) size
      [] b

pub read_body-Loaded :
    (b : ByteArray) (i size : ℕ) (n : Node)
    → IsValid b
    → b.cur ≡ some i
    → (i < length b.nodes)
      × (i * b.base_size ≤ b.position)
      × (b.position < i * b.base_size + b.base_size)
    → get_elem? b.nodes i ≡ some n
    → 0 < size
    → b.position + size ≤ b.size
    → Loaded b (read_body b i size n) size []
read_body-Loaded b i size n v c at g some_left fits =
    let whole : IsBlock b.base_size n =
      All-get_elem? (IsBlock b.base_size) b.nodes i n g v.blocks in
    let (pos, room, some_room) = room_in_block b i n at.1 at.2 whole.0 (
      omega
        (arith, le-mul_pos (length b.nodes) b.base_size v.some_block, v.capacity_lem, v.fits)) in
    read_loop_lem (suc size) b i (b.position % b.base_size) _ size [] c at.0 v.blocks pos room
      some_room some_left (omega (arith, v.capacity_lem, v.size-le-capacity)) (omega arith)

-- Read of one byte or more from a valid object that has that many left returns the next bytes, moves
-- the position behind them, and leaves a valid object with the same bytes, byte order and block size.
pub read_refines :
    (b : ByteArray) (size : ℕ)
    → IsValid b
    → 0 < size
    → b.position + size ≤ b.size
    → (b' : ByteArray) × (read size b ≡ ok (file_read size (view b)) b')
      × Ends b b' (file_skip size (view b))
unfolding read file_read file_skip view
read_refines b size v some_left fits =
    let (i, c) =
      CurAt-some b.base_size (length b.nodes) b.position size b.cur v.at some_left
        (omega (arith, v.capacity_lem, v.size-le-capacity)) in
    let at = subst (λ t. CurAt b.base_size (length b.nodes) t b.position) c v.at in
    let (n, g) = get_elem?-lt b.nodes i at.0 in
    let w = read_body-Loaded b i size n v c at g some_left fits in
    let enough : ltb (get_read_size b) size ≡ false =
      ground (arith, get_read_size_lem b v, v.position-le-size) in
    let b' = record b { cur = w.cur; position = b.position + size } in
    (
      b',
      rw (enough, cur_node_lem b i n c g)
          (w.runs
            ∙ ap (λ t. ok t b') (sym (take-drop-take b.size b.position size (flat b.nodes) fits))),
      record {
        valid = record {
          base_pos = v.base_pos;
          blocks = v.blocks;
          some_block = v.some_block;
          capacity_lem = v.capacity_lem;
          fits = v.fits;
          at = w.at;
          position-le-size = fits;
          size-le-capacity = v.size-le-capacity;
        };
        viewed = refl;
        endian = refl;
        base_size = refl;
      },
    )

-- Read from a valid object that has fewer bytes left throws out_of_range and changes nothing.
read_throws :
    (b : ByteArray) (size : ℕ) → IsValid b → b.size < b.position + size → read size b ≡ throws b
unfolding read
read_throws b size v h =
    let few : ltb (get_read_size b) size ≡ true =
      ground (arith, get_read_size_lem b v, v.position-le-size) in
    rw few

-- Read of no bytes returns nothing, except at the end of the last block: there `cur_` is nullptr,
-- and it is dereferenced before the loop is reached.
pub read_nothing :
    (b : ByteArray)
    → IsValid b
    → (b.position < b.capacity → read 0 b ≡ ok [] b)
      × (b.position ≡ b.capacity → read 0 b ≡ fault null_deref)
unfolding read
read_nothing b v = (inside, at_end b.cur refl v.at)
  where
    inside : b.position < b.capacity → read 0 b ≡ ok [] b
    inside h =
        let (i, c) =
          CurAt-some b.base_size (length b.nodes) b.position 1 b.cur v.at (omega arith)
            (omega (arith, v.capacity_lem)) in
        let at = subst (λ t. CurAt b.base_size (length b.nodes) t b.position) c v.at in
        let (n, g) = get_elem?-lt b.nodes i at.0 in
        let enough : ltb (get_read_size b) 0 ≡ false = ground arith in
        rw (enough, cur_node_lem b i n c g) (unfold read_loop in refl)

    at_end :
        (c : Option ℕ)
        → b.cur ≡ c
        → CurAt b.base_size (length b.nodes) c b.position
        → b.position ≡ b.capacity
        → read 0 b ≡ fault null_deref
    at_end none e at h =
        let enough : ltb (get_read_size b) 0 ≡ false = ground arith in
        let null : cur_node b ≡ fault null_deref = unfold cur_node node_at in rw e in
        rw (enough, null)
    at_end (some i) e at h =
        absurd (omega (arith, mul_below i (length b.nodes) b.base_size at.0, v.capacity_lem))
