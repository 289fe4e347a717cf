-- ===== src/ByteArray/Cursor.antt =====
-- gudov/bytearray.cpp: the blocks of a ByteArray and its cursor `cur_`: the copies into and out of
-- the current block, and the steps from block to block.
use gudov.Common.{ℕ, zero, suc, ◌+◌, ◌-◌, true, false, Option, none, some, List, [], ◌∷◌}
use gudov.Common.{leb, ltb, ◌==◌, if◌then◌else◌, length, get_elem?, set, take, drop, replicate}
use gudov.ByteArray.{Cell, Node, ByteArray, M, then_with, ok, fault, null_deref, out_of_bounds}
use gudov.ByteArray.{out_of_fuel, raise, ◌>>=◌, ◌>>◌}

-- `new char[s]` leaves the bytes indeterminate.
unfoldable pub new_node : ℕ → Node
new_node s = record { ptr = replicate s none; size = s }

-- `n->next` of the node at index i.
unfoldable pub next_of : List Node → ℕ → Option ℕ
next_of nodes i = if ltb (suc i) (length nodes) then some (suc i) else none

-- Bytes k, k + 1, … replaced: what memcpy does to a block.
unfoldable pub overwrite {ℓ} : {A : Type ℓ} → List A → ℕ → List A → List A
overwrite [] k bs = []
overwrite (x ∷ xs) zero [] = x ∷ xs
overwrite (x ∷ xs) zero (b ∷ bs) = b ∷ overwrite xs zero bs
overwrite (x ∷ xs) (suc k) bs = x ∷ overwrite xs k bs

unfoldable pub node_at : Option ℕ → M Node
node_at none b = fault null_deref
node_at (some i) b = elim (get_elem? b.nodes i) [ none ↦ fault null_deref | some n ↦ ok n b ]

-- `*cur_`
unfoldable pub cur_node : M Node
unfolding node_at
cur_node b = node_at b.cur b

unfoldable pub replace_node : Option ℕ → Node → ByteArray → ByteArray
replace_node none n b = b
replace_node (some i) n b = record b { nodes = set b.nodes i n }

-- memcpy(cur_->ptr + npos, buf, size)
unfoldable pub store : ℕ → List Cell → M (Unit {0})
unfolding cur_node replace_node
store npos buf b = then_with (cur_node b) λ n b.
    if leb (npos + length buf) n.size
    then ok tt (replace_node b.cur (record n { ptr = overwrite n.ptr npos buf }) b)
    else fault out_of_bounds

-- memcpy(buf, cur_->ptr + npos, size)
unfoldable pub load : ℕ → ℕ → M (List Cell)
unfolding cur_node
load npos size b = then_with (cur_node b) λ n b.
    if leb (npos + size) n.size then ok (take size (drop npos n.ptr)) b else fault out_of_bounds

-- `cur_ = cur_->next`
unfoldable pub advance : M (Unit {0})
unfolding next_of
advance b = elim b.cur [
  | none ↦ fault null_deref
  | some i ↦ ok tt (record b { cur = next_of b.nodes i })
]

-- `position_ += n`
unfoldable pub move : ℕ → M (Unit {0})
move n b = ok tt (record b { position = b.position + n })

-- `if (cur_->size == (npos + size)) cur_ = cur_->next;`
unfoldable pub leave_if_full : ℕ → M (Unit {0})
unfolding cur_node advance
leave_if_full end b = then_with (cur_node b) λ n b. if n.size == end then advance b else ok tt b

-- The loop of SetPosition, and the step behind it, with a bound on the rounds.
unfoldable pub seek : ℕ → ℕ → M (Unit {0})
unfolding cur_node advance leave_if_full
seek zero v = raise out_of_fuel
seek (suc fuel) v = do
  n ← cur_node
  elim (ltb n.size v) [ true ↦ do advance; seek fuel (v - n.size) | false ↦ leave_if_full v ]
