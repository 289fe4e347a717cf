-- ===== src/ByteArray/WriteLoop.antt =====
-- The loop of ByteArray::Write (gudov/bytearray.cpp) on well-formed blocks: one round, and the whole
-- loop, against the flat memory.
use gudov.Common.{ℕ, zero, suc, ◌+◌, ◌*◌, ◌≤◌, ◌<◌, ◌≡◌, refl, ap, subst, ◌∙◌, arith}
use gudov.Common.{Option, some, List, inl, inr}
use gudov.Common.{ltb, leb, ◌==◌, if◌then◌else◌, Bool-cases, true, false, le→leb, leb→le}
use gudov.Common.{length, get_elem?, set, take, drop, All, length-set, take-append-drop}
use gudov.Common.{get_elem?-set_self, get_elem?-set_ne, get_elem?-lt, All-set, All-get_elem?}
use gudov.Common.{length-take, length-drop}
use gudov.ByteArray.{Cell, Node, ByteArray, ok, Outcome}
use gudov.ByteArray.Cursor.{overwrite, next_of, move}
use gudov.ByteArray.Raw.{write_loop}
use gudov.ByteArray.Blocks.{IsBlock, flat, flat-set, length-overwrite, overwrite-overwrite}
use gudov.ByteArray.CursorLaws.{CurAt, next_of-CurAt, stored, cur_node_lem, store_lem, leave_lem}
use gudov.ByteArray.CursorLaws.{advance_lem, suc-lt_of_mul}

-- A round of Write's loop that copies all that is left.
write_round_last :
    (b : ByteArray) (i : ℕ) (n : Node) (fuel npos ncap : ℕ) (buf : List Cell)
    → b.cur ≡ some i
    → get_elem? b.nodes i ≡ some n
    → npos + length buf ≤ n.size
    → i < length b.nodes
    → 0 < length buf
    → length buf ≤ ncap
    → write_loop (suc fuel) npos ncap buf b
      ≡ ok tt (record b {
        nodes = set b.nodes i (stored n npos buf);
        cur =
            if n.size == npos + length buf
            then next_of (set b.nodes i (stored n npos buf)) i
            else some i;
        position = b.position + length buf;
      })
unfolding write_loop move
write_round_last b i n fuel npos ncap buf c g room here some_left fits =
    let busy : (length buf == 0) ≡ false = ground arith in
    let n' = stored n npos buf in
    ground (
      arith,
      busy,
      le→leb (length buf) ncap fits,
      store_lem b i n c g npos buf room,
      leave_lem (record b { nodes = set b.nodes i n' }) i n' c
          (get_elem?-set_self b.nodes i n' here) (npos + length buf),
    )

-- A round that fills the block and goes on in the next.
write_round_more :
    (b : ByteArray) (i : ℕ) (n m : Node) (fuel npos ncap : ℕ) (buf : List Cell)
    → b.cur ≡ some i
    → get_elem? b.nodes i ≡ some n
    → get_elem? b.nodes (suc i) ≡ some m
    → npos + length (take ncap buf) ≤ n.size
    → suc i < length b.nodes
    → ncap < length buf
    → write_loop (suc fuel) npos ncap buf b
      ≡ write_loop fuel 0 m.size (drop ncap buf) (record b {
        nodes = set b.nodes i (stored n npos (take ncap buf));
        cur = some (suc i);
        position = b.position + ncap;
      })
unfolding write_loop move next_of
write_round_more b i n m fuel npos ncap buf c g g' room here more =
    let busy : (length buf == 0) ≡ false = ground arith in
    let over : leb (length buf) ncap ≡ false = ground arith in
    let n' = stored n npos (take ncap buf) in
    let ns = set b.nodes i n' in
    let inside : ltb (suc i) (length ns) ≡ true = ground (arith, length-set b.nodes i n') in
    let b' = record b { nodes = ns; position = b.position + ncap } in
    ground (
      arith,
      busy,
      over,
      store_lem b i n c g npos (take ncap buf) room,
      advance_lem b' i n' c (get_elem?-set_self b.nodes i n' (omega arith)),
      inside,
      cur_node_lem (record b' { cur = some (suc i) }) (suc i) m refl
          (get_elem?-set_ne b.nodes i (suc i) n' (λ e. omega arith) ∙ g'),
    )

-- What Write's loop does, from byte `b.position` on.
pub record Written (b : ByteArray) (out : Outcome (Unit {0})) (buf : List Cell) : Type 0 where
  pub nodes : List Node
  pub cur : Option ℕ
  pub runs : out ≡ ok tt (record b { nodes = nodes; cur = cur; position = b.position + length buf })
  pub blocks : All (IsBlock b.base_size) nodes
  pub count : length nodes ≡ length b.nodes
  pub memory : flat nodes ≡ overwrite (flat b.nodes) b.position buf
  pub at : CurAt b.base_size (length nodes) cur (b.position + length buf)

stored-IsBlock :
    (base npos : ℕ) (n : Node) (buf : List Cell) → IsBlock base n → IsBlock base (stored n npos buf)
stored-IsBlock base npos n buf h = (h.0, length-overwrite n.ptr npos buf ∙ h.1)

write_loop_last :
    (b : ByteArray) (i : ℕ) (n : Node) (fuel npos ncap : ℕ) (buf : List Cell)
    → b.cur ≡ some i
    → get_elem? b.nodes i ≡ some n
    → i < length b.nodes
    → All (IsBlock b.base_size) b.nodes
    → b.position ≡ i * b.base_size + npos
    → npos + ncap ≡ b.base_size
    → 0 < length buf
    → length buf ≤ ncap
    → Written b (write_loop (suc fuel) npos ncap buf b) buf
write_loop_last b i n fuel npos ncap buf c g here blocks pos room some_left fits =
    let whole : IsBlock b.base_size n = All-get_elem? (IsBlock b.base_size) b.nodes i n g blocks in
    record {
      nodes = set b.nodes i (stored n npos buf);
      cur =
          if n.size == npos + length buf
          then next_of (set b.nodes i (stored n npos buf)) i
          else some i;
      runs = write_round_last b i n fuel npos ncap buf c g (omega arith) here some_left fits;
      blocks = All-set (IsBlock b.base_size) b.nodes i _ blocks (stored-IsBlock _ npos n buf whole);
      count = length-set b.nodes i _;
      memory = flat-set b.base_size b.nodes i npos b.position n buf blocks g (omega arith) pos;
      at = elim (Bool-cases (n.size == npos + length buf)) [
        | inl full ↦
            rw full
              (next_of-CurAt b.base_size _ i _ (omega arith) (rw length-set here) (ground arith))
        | inr left ↦ rw left (rw length-set here, omega arith, ground arith)
      ];
    }

write_loop_more :
    (b : ByteArray) (i : ℕ) (n m : Node) (fuel npos ncap : ℕ) (buf : List Cell)
    → b.cur ≡ some i
    → get_elem? b.nodes i ≡ some n
    → get_elem? b.nodes (suc i) ≡ some m
    → suc i < length b.nodes
    → All (IsBlock b.base_size) b.nodes
    → b.position ≡ i * b.base_size + npos
    → npos + ncap ≡ b.base_size
    → ncap < length buf
    → (let b' = record b {
      nodes = set b.nodes i (stored n npos (take ncap buf));
      cur = some (suc i);
      position = b.position + ncap;
    } in
        Written b' (write_loop fuel 0 m.size (drop ncap buf) b') (drop ncap buf))
    → Written b (write_loop (suc fuel) npos ncap buf b) buf
write_loop_more b i n m fuel npos ncap buf c g g' here blocks pos room more w =
    let whole : IsBlock b.base_size n = All-get_elem? (IsBlock b.base_size) b.nodes i n g blocks in
    let part : length (take ncap buf) ≡ ncap = omega (arith, length-take ncap buf) in
    let rest : b.position + ncap + length (drop ncap buf) ≡ b.position + length buf =
      omega (arith, length-drop ncap buf) in
    record {
      nodes = w.nodes;
      cur = w.cur;
      runs =
          write_round_more b i n m fuel npos ncap buf c g g' (omega arith) here more
          ∙ w.runs
          ∙ ap (λ p. ok tt (record b { nodes = w.nodes; cur = w.cur; position = p })) rest;
      blocks = w.blocks;
      count = w.count ∙ length-set b.nodes i _;
      memory =
          w.memory
          ∙ ap (λ t. overwrite t (b.position + ncap) (drop ncap buf))
              (flat-set b.base_size b.nodes i npos b.position n (take ncap buf) blocks g
                (omega arith) pos)
          ∙ overwrite-overwrite (flat b.nodes) b.position (b.position + ncap) (take ncap buf) _
              (omega arith)
          ∙ ap (overwrite (flat b.nodes) b.position) (take-append-drop ncap buf);
      at = subst (CurAt b.base_size (length w.nodes) w.cur) rest w.at;
    }

pub write_loop_lem :
    (fuel : ℕ) (b : ByteArray) (i npos ncap : ℕ) (buf : List Cell)
    → b.cur ≡ some i
    → i < length b.nodes
    → All (IsBlock b.base_size) b.nodes
    → b.position ≡ i * b.base_size + npos
    → npos + ncap ≡ b.base_size
    → 0 < ncap
    → 0 < length buf
    → b.position + length buf ≤ length b.nodes * b.base_size
    → length buf ≤ fuel
    → Written b (write_loop fuel npos ncap buf b) buf
write_loop_lem zero b i npos ncap buf c here blocks pos room some_room some_left fits enough =
    absurd (omega arith)
write_loop_lem (suc fuel) b i npos ncap buf c here blocks pos room some_room some_left fits enough =
    let (n, g) = get_elem?-lt b.nodes i here in
    elim (Bool-cases (leb (length buf) ncap)) [
      | inl t ↦
          write_loop_last b i n fuel npos ncap buf c g here blocks pos room some_left (leb→le _ _ t)
      | inr t ↦
          let next_in : suc i < length b.nodes =
            suc-lt_of_mul i (length b.nodes) b.base_size (ground arith) in
          let (m, g') = get_elem?-lt b.nodes (suc i) next_in in
          let whole : IsBlock b.base_size n =
            All-get_elem? (IsBlock b.base_size) b.nodes i n g blocks in
          let next_whole : IsBlock b.base_size m =
            All-get_elem? (IsBlock b.base_size) b.nodes (suc i) m g' blocks in
          let n' = stored n npos (take ncap buf) in
          let over : ncap < length buf = ground arith in
          let same = length-set b.nodes i n' in
          write_loop_more b i n m fuel npos ncap buf c g g' next_in blocks pos room over (
            write_loop_lem fuel
              (record b {
                nodes = set b.nodes i n';
                cur = some (suc i);
                position = b.position + ncap;
              })
              (suc i) 0 m.size (drop ncap buf) refl (omega arith)
              (All-set (IsBlock b.base_size) b.nodes i n' blocks (stored-IsBlock _ npos n _ whole))
              (omega arith) (omega arith) (omega arith) (omega (arith, length-drop ncap buf))
              (rw same (omega (arith, length-drop ncap buf))) (omega (arith, length-drop ncap buf)))
    ]
