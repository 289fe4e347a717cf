-- ===== src/ByteArray/ReadLoop.antt =====
-- The loop of ByteArray::Read (gudov/bytearray.cpp) on well-formed blocks: one round, and the whole
-- loop, against the flat memory.
use gudov.Common.{ℕ, zero, suc, ◌+◌, ◌-◌, ◌*◌, ◌≤◌, ◌<◌, ◌≡◌, refl, ap, subst, ◌∙◌, arith}
use gudov.Common.{Option, some, List, ◌++◌, append_assoc, inl, inr}
use gudov.Common.{leb, ◌==◌, if◌then◌else◌, Bool-cases, false, le→leb, leb→le}
use gudov.Common.{length, get_elem?, take, drop, All, get_elem?-lt, All-get_elem?, lt→ltb, sym}
use gudov.ByteArray.{Cell, Node, ByteArray, ok, Outcome}
use gudov.ByteArray.Cursor.{next_of, move}
use gudov.ByteArray.Raw.{read_loop}
use gudov.ByteArray.Blocks.{IsBlock, flat, flat-get, take-add, drop-drop}
use gudov.ByteArray.CursorLaws.{CurAt, next_of-CurAt, cur_node_lem, load_lem, leave_lem}
use gudov.ByteArray.CursorLaws.{advance_lem, suc-lt_of_mul}

read_round_last :
    (b : ByteArray) (i : ℕ) (n : Node) (fuel npos ncap size : ℕ) (buf : List Cell)
    → b.cur ≡ some i
    → get_elem? b.nodes i ≡ some n
    → npos + size ≤ n.size
    → 0 < size
    → size ≤ ncap
    → read_loop (suc fuel) npos ncap size buf b
      ≡ ok (buf ++ take size (drop npos n.ptr)) (record b {
        cur = if n.size == npos + size then next_of b.nodes i else some i;
        position = b.position + size;
      })
unfolding read_loop move
read_round_last b i n fuel npos ncap size buf c g room some_left fits =
    let busy : (size == 0) ≡ false = ground arith in
    ground (
      arith,
      busy,
      le→leb size ncap fits,
      load_lem b i n c g npos size room,
      leave_lem b i n c g (npos + size),
    )

read_round_more :
    (b : ByteArray) (i : ℕ) (n m : Node) (fuel npos ncap size : ℕ) (buf : List Cell)
    → b.cur ≡ some i
    → get_elem? b.nodes i ≡ some n
    → get_elem? b.nodes (suc i) ≡ some m
    → npos + ncap ≤ n.size
    → suc i < length b.nodes
    → ncap < size
    → read_loop (suc fuel) npos ncap size buf b
      ≡ read_loop fuel 0 m.size
          (size - ncap)
          (buf ++ take ncap (drop npos n.ptr))
          (record b { cur = some (suc i); position = b.position + ncap })
unfolding read_loop move next_of
read_round_more b i n m fuel npos ncap size buf c g g' room here more =
    let busy : (size == 0) ≡ false = ground arith in
    let over : leb size ncap ≡ false = ground arith in
    let b' = record b { position = b.position + ncap } in
    ground (
      arith,
      busy,
      over,
      load_lem b i n c g npos ncap room,
      advance_lem b' i n c g,
      lt→ltb (suc i) (length b.nodes) here,
      cur_node_lem (record b' { cur = some (suc i) }) (suc i) m refl g',
    )

-- What Read's loop does, from byte `b.position` on, to the bytes `buf` that it has already.
pub record Loaded (b : ByteArray) (out : Outcome (List Cell)) (size : ℕ) (buf : List Cell)
    : Type 0 where
  pub cur : Option ℕ
  pub runs :
      out
      ≡ ok
          (buf ++ take size (drop b.position (flat b.nodes)))
          (record b { cur = cur; position = b.position + size })
  pub at : CurAt b.base_size (length b.nodes) cur (b.position + size)

read_loop_last :
    (b : ByteArray) (i : ℕ) (n : Node) (fuel npos ncap size : ℕ) (buf : List Cell)
    → b.cur ≡ some i
    → get_elem? b.nodes i ≡ some n
    → i < length b.nodes
    → All (IsBlock b.base_size) b.nodes
    → b.position ≡ i * b.base_size + npos
    → npos + ncap ≡ b.base_size
    → 0 < size
    → size ≤ ncap
    → Loaded b (read_loop (suc fuel) npos ncap size buf b) size buf
read_loop_last b i n fuel npos ncap size buf c g here blocks pos room some_left fits =
    let whole : IsBlock b.base_size n = All-get_elem? (IsBlock b.base_size) b.nodes i n g blocks in
    let cur : Option ℕ = if n.size == npos + size then next_of b.nodes i else some i in
    record {
      cur = cur;
      runs =
          read_round_last b i n fuel npos ncap size buf c g (omega arith) some_left fits
          ∙ ap (λ t. ok (buf ++ t) (record b { cur = cur; position = b.position + size }))
              (flat-get b.base_size b.nodes i npos b.position size n blocks g (omega arith) pos);
      at = elim (Bool-cases (n.size == npos + size)) [
        | inl full ↦ rw full (next_of-CurAt b.base_size _ i _ (omega arith) here (ground arith))
        | inr left ↦ rw left (here, omega arith, ground arith)
      ];
    }

read_loop_more :
    (b : ByteArray) (i : ℕ) (n m : Node) (fuel npos ncap size : ℕ) (buf : List Cell)
    → b.cur ≡ some i
    → get_elem? b.nodes i ≡ some n
    → get_elem? b.nodes (suc i) ≡ some m
    → suc i < length b.nodes
    → All (IsBlock b.base_size) b.nodes
    → b.position ≡ i * b.base_size + npos
    → npos + ncap ≡ b.base_size
    → ncap < size
    → (let b' = record b { cur = some (suc i); position = b.position + ncap } in
        let buf' = buf ++ take ncap (drop npos n.ptr) in
        Loaded b' (read_loop fuel 0 m.size (size - ncap) buf' b') (size - ncap) buf')
    → Loaded b (read_loop (suc fuel) npos ncap size buf b) size buf
read_loop_more b i n m fuel npos ncap size buf c g g' here blocks pos room more w =
    let whole : IsBlock b.base_size n = All-get_elem? (IsBlock b.base_size) b.nodes i n g blocks in
    let rest : b.position + ncap + (size - ncap) ≡ b.position + size = omega arith in
    let all : ncap + (size - ncap) ≡ size = omega arith in
    let mem = flat b.nodes in
    let pieces : take ncap (drop npos n.ptr) ++ take (size - ncap) (drop (b.position + ncap) mem)
        ≡ take size (drop b.position mem) =
      ap (λ t. t ++ take (size - ncap) (drop (b.position + ncap) mem))
        (flat-get b.base_size b.nodes i npos b.position ncap n blocks g (omega arith) pos)
      ∙ ap (λ t. take ncap (drop b.position mem) ++ take (size - ncap) t)
          (sym (drop-drop b.position ncap (b.position + ncap) mem refl))
      ∙ sym (take-add ncap (size - ncap) (drop b.position mem))
      ∙ ap (λ t. take t (drop b.position mem)) all in
    record {
      cur = w.cur;
      runs =
          read_round_more b i n m fuel npos ncap size buf c g g' (omega arith) here more
          ∙ w.runs
          ∙ ap (λ t. ok t (record b { cur = w.cur; position = b.position + ncap + (size - ncap) }))
              (append_assoc buf _ _ ∙ ap (◌++◌ buf) pieces)
          ∙ ap
              (λ p.
                ok (buf ++ take size (drop b.position mem))
                  (record b { cur = w.cur; position = p }))
              rest;
      at = subst (CurAt b.base_size (length b.nodes) w.cur) rest w.at;
    }

pub read_loop_lem :
    (fuel : ℕ) (b : ByteArray) (i npos ncap size : ℕ) (buf : List Cell)
    → b.cur ≡ some i
    → i < length b.nodes
    → All (IsBlock b.base_size) b.nodes
    → b.position ≡ i * b.base_size + npos
    → npos + ncap ≡ b.base_size
    → 0 < ncap
    → 0 < size
    → b.position + size ≤ length b.nodes * b.base_size
    → size ≤ fuel
    → Loaded b (read_loop fuel npos ncap size buf b) size buf
read_loop_lem zero b i npos ncap size buf c here blocks pos room some_room some_left fits enough =
    absurd (omega arith)
read_loop_lem (suc fuel) b i npos ncap size buf c here blocks pos room some_room some_left fits
      enough =
    let (n, g) = get_elem?-lt b.nodes i here in
    elim (Bool-cases (leb size ncap)) [
      | inl t ↦
          read_loop_last b i n fuel npos ncap size buf c g here blocks pos room some_left
            (leb→le _ _ t)
      | inr t ↦
          let next_in : suc i < length b.nodes =
            suc-lt_of_mul i (length b.nodes) b.base_size (ground arith) in
          let (m, g') = get_elem?-lt b.nodes (suc i) next_in in
          let next_whole : IsBlock b.base_size m =
            All-get_elem? (IsBlock b.base_size) b.nodes (suc i) m g' blocks in
          let over : ncap < size = ground arith in
          read_loop_more b i n m fuel npos ncap size buf c g g' next_in blocks pos room over (
            read_loop_lem fuel (record b { cur = some (suc i); position = b.position + ncap })
              (suc i) 0 m.size (size - ncap) _ refl next_in blocks (omega arith) (omega arith)
              (omega arith) (omega arith) (omega arith) (omega arith))
    ]
