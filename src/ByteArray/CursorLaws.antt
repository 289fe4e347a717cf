-- ===== src/ByteArray/CursorLaws.antt =====
-- The cursor of a ByteArray (gudov/bytearray.cpp) on well-formed blocks: where `cur_` points, and what
-- each step on it does.
use gudov.Common.{ℕ, suc, ◌+◌, ◌*◌, ◌≤◌, ◌<◌, ◌≡◌, arith}
use gudov.Common.{Option, none, some, List, inl, inr, Bool-cases}
use gudov.Common.{ltb, ltb→lt, ◌==◌, if◌then◌else◌, length, get_elem?, set, take, drop}
use gudov.ByteArray.{Cell, Node, ByteArray, ok}
use gudov.ByteArray.Cursor.{
  overwrite, next_of, cur_node, node_at, store, load, advance, leave_if_full,
}

-- `cur_` is the block that holds byte `p`, and nullptr at the end of the last of `k` blocks.
abbrev pub CurAt : ℕ → ℕ → Option ℕ → ℕ → Type 0
CurAt base k none p = p ≡ k * base
CurAt base k (some i) p = (i < k) × (i * base ≤ p) × (p < i * base + base)

pub next_of-CurAt :
    (base : ℕ) (ns : List Node) (i p : ℕ)
    → 0 < base
    → i < length ns
    → p ≡ i * base + base
    → CurAt base (length ns) (next_of ns i) p
unfolding next_of
next_of-CurAt base ns i p h l e = elim (Bool-cases (ltb (suc i) (length ns))) [
  | inl t ↦ rw t (ground arith, ground arith, ground arith)
  | inr t ↦ rw t (let end : suc i ≡ length ns = ground arith in rw (← end) (omega arith))
]

abbrev pub stored : Node → ℕ → List Cell → Node
stored n npos buf = record n { ptr = overwrite n.ptr npos buf }

module _ (b : ByteArray) (i : ℕ) (n : Node) (c : b.cur ≡ some i)
    (g : get_elem? b.nodes i ≡ some n) where
  pub cur_node_lem : cur_node b ≡ ok n b
  unfolding cur_node node_at
  cur_node_lem = ground arith

  pub store_lem :
      (npos : ℕ) (buf : List Cell)
      → npos + length buf ≤ n.size
      → store npos buf b ≡ ok tt (record b { nodes = set b.nodes i (stored n npos buf) })
  unfolding store
  store_lem npos buf h = ground (arith, cur_node_lem)

  pub load_lem :
      (npos size : ℕ) → npos + size ≤ n.size → load npos size b ≡ ok (take size (drop npos n.ptr)) b
  unfolding load
  load_lem npos size h = ground (arith, cur_node_lem)

  pub leave_lem :
      (end : ℕ)
      → leave_if_full end b
        ≡ ok tt (record b { cur = if n.size == end then next_of b.nodes i else some i })
  unfolding leave_if_full
  leave_lem end = ground (arith, cur_node_lem)

  pub advance_lem : advance b ≡ ok tt (record b { cur = next_of b.nodes i })
  unfolding advance
  advance_lem = ground arith

-- A block that ends before byte `k * base` has a successor.
pub suc-lt_of_mul : (i k base : ℕ) → i * base + base < k * base → suc i < k
suc-lt_of_mul i k base h = elim (Bool-cases (ltb (suc i) k)) [
  | inl t ↦ ltb→lt _ _ t
  | inr t ↦ absurd (omega (arith, mul_mono k (suc i) (ground arith)))
]
  where
    mul_mono : (a c : ℕ) → a ≤ c → a * base ≤ c * base
    mul_mono a c le = grind arith

pub le-mul_pos : (k base : ℕ) → 0 < k → base ≤ k * base
le-mul_pos k base h = grind arith
