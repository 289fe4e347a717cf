-- ===== src/ByteArray/Raw.antt =====
-- gudov/bytearray.cpp: the constructor, AddCapacity, Write, both Reads, SetPosition, Clear and
-- ToString, and the accessors of gudov/bytearray.h.
use gudov.Common.{ℕ, zero, suc, ◌+◌, ◌-◌, ◌*◌, ◌/◌, ◌%◌, ◌^◌, Bool, true, false, ◌||◌}
use gudov.Common.{some, List, [], ◌∷◌, ◌++◌, leb, ltb, ◌==◌, if◌then◌else◌}
use gudov.Common.{length, take, drop, sub64}
use gudov.ByteArray.{Cell, little, big, Node, ByteArray, M, Outcome, ok, throws, fault}
use gudov.ByteArray.{out_of_fuel, return, raise, ◌>>=◌, ◌>>◌}
use gudov.ByteArray.Cursor.{new_node, cur_node, store, load, advance, move, leave_if_full, seek}

unfoldable pub new_byte_array : ℕ → ByteArray
unfolding new_node
new_byte_array base_size = record {
  base_size = base_size;
  position = 0;
  capacity = base_size;
  size = 0;
  endian = little;
  nodes = new_node base_size ∷ [];
  cur = some 0;
}

unfoldable pub get_read_size : ByteArray → ℕ
get_read_size b = sub64 b.size b.position

unfoldable pub get_capacity : ByteArray → ℕ
get_capacity b = sub64 b.capacity b.position

unfoldable pub is_little_endian : ByteArray → Bool
is_little_endian b = elim b.endian [ little ↦ true | big ↦ false ]

unfoldable pub set_is_little_endian : Bool → ByteArray → ByteArray
set_is_little_endian val b = record b { endian = if val then little else big }

unfoldable pub new_nodes : ℕ → ℕ → List Node
unfolding new_node
new_nodes zero s = []
new_nodes (suc count) s = new_node s ∷ new_nodes count s

-- The integer nearest to p / q, the even one of two
unfoldable nearest : ℕ → ℕ → ℕ
nearest p q =
    let d : ℕ = p / q in
    let r : ℕ = p % q in if ltb (2 * r) q then d else if ltb q (2 * r) then suc d else d + d % 2

-- p / q to 53 significant bits, for a quotient of 2 ^ 52 or more; `unit` is the value of its last bit.
unfoldable double_above : ℕ → ℕ → ℕ → ℕ → ℕ
unfolding nearest
double_above zero p q unit = nearest p q * unit
double_above (suc fuel) p q unit =
    let rest = double_above fuel p (2 * q) (2 * unit) in
    if ltb (p / q) (2 ^ 53) then nearest p q * unit else rest

-- The same for any quotient, rounded up to an integer; a last bit is worth 1 / `parts`.
unfoldable ceil_double : ℕ → ℕ → ℕ → ℕ → ℕ
unfolding double_above nearest
ceil_double zero p q parts = 1
ceil_double (suc fuel) p q parts =
    let rest = ceil_double fuel (2 * p) q (2 * parts) in
    if ltb (p / q) (2 ^ 52)
    then rest
    else if parts == 1
    then double_above 12 p q 1
    else (nearest p q + (parts - 1)) / parts

-- A size_t as a double
unfoldable as_double : ℕ → ℕ
unfolding double_above
as_double n = if ltb n (2 ^ 53) then n else double_above 12 n 1 1

-- ceil(1.0 * size / base_size_) in doubles: the quotient is below 2 ^ 52 for a smaller size, so that its
-- rounding does not reach an integer, and is the one of the rounded operands otherwise.
unfoldable pub blocks_for : ℕ → ℕ → ℕ
unfolding as_double ceil_double
blocks_for size base_size =
    if ltb size (2 ^ 52)
    then (size + (base_size - 1)) / base_size
    else ceil_double 128 (as_double size) (as_double base_size) 1

unfoldable pub grow : ℕ → ByteArray → ByteArray
grow missing b =
    let count = blocks_for missing b.base_size in
    record b {
      nodes = b.nodes ++ new_nodes count b.base_size;
      capacity = b.capacity + count * b.base_size;
      cur = if get_capacity b == 0 then some (length b.nodes) else b.cur;
    }

unfoldable pub add_capacity : ℕ → ByteArray → ByteArray
add_capacity size b =
    if size == 0 || leb size (get_capacity b) then b else grow (size - get_capacity b) b

-- The loop of Write, with a bound on its rounds; `size` is the length of what is left of `buf`.
unfoldable pub write_loop : ℕ → ℕ → ℕ → List Cell → M (Unit {0})
unfolding store leave_if_full move advance cur_node
write_loop zero npos ncap buf = raise out_of_fuel
write_loop (suc fuel) npos ncap buf = elim (length buf == 0) [
  | true ↦ return tt
  | false ↦ elim (leb (length buf) ncap) [
    | true ↦ do store npos buf; leave_if_full (npos + length buf); move (length buf)
    | false ↦ do
      store npos (take ncap buf)
      move ncap
      advance
      n ← cur_node
      write_loop fuel 0 n.size (drop ncap buf)
  ]
]

-- `if (position_ > size_) size_ = position_;`
unfoldable pub raise_size : ByteArray → ByteArray
raise_size b = record b { size = if ltb b.size b.position then b.position else b.size }

unfoldable pub finish_write : M (Unit {0})
finish_write b = ok tt (raise_size b)

unfoldable pub write_grown : List Cell → M (Unit {0})
write_grown buf b =
    (do
      n ← cur_node
      write_loop (suc (length buf)) (b.position % b.base_size)
          (sub64 n.size (b.position % b.base_size)) buf
      finish_write)
      b

-- Write(buf, size)
unfoldable pub write : List Cell → M (Unit {0})
write buf b = if length buf == 0 then ok tt b else write_grown buf (add_capacity (length buf) b)

-- The loop of Read, which collects what it copies.
unfoldable pub read_loop : ℕ → ℕ → ℕ → ℕ → List Cell → M (List Cell)
unfolding load leave_if_full move advance cur_node
read_loop zero npos ncap size buf = raise out_of_fuel
read_loop (suc fuel) npos ncap size buf = elim (size == 0) [
  | true ↦ return buf
  | false ↦ elim (leb size ncap) [
    | true ↦ do got ← load npos size; leave_if_full (npos + size); move size; return (buf ++ got)
    | false ↦ do
      got ← load npos ncap
      move ncap
      advance
      n ← cur_node
      read_loop fuel 0 n.size (size - ncap) (buf ++ got)
  ]
]

-- Read(buf, size). `cur_->size` is read before the loop, whatever `size` is.
unfoldable pub read : ℕ → M (List Cell)
read size b =
    if ltb (get_read_size b) size
    then throws b
    else (do
      n ← cur_node
      read_loop (suc size) (b.position % b.base_size) (sub64 n.size (b.position % b.base_size)) size
          [])
        b

-- A const member function leaves the object as it was.
abbrev pub unchanged {ℓ} : {A : Type ℓ} → ByteArray → Outcome A → Outcome A
unchanged b (ok a b') = ok a b
unchanged b (throws b') = throws b
unchanged b (fault e) = fault e

-- Read(buf, size, position) const. Its local cursor starts at `cur_`, also where `position` lies in
-- another block.
unfoldable pub read_at : ℕ → ℕ → M (List Cell)
read_at size position b =
    if ltb (sub64 b.size position) size
    then throws b
    else unchanged b (
        (do
          n ← cur_node
          read_loop (suc size) (position % b.base_size) (sub64 n.size (position % b.base_size)) size
              [])
          b)

unfoldable pub to_string : M (List Cell)
to_string b = if get_read_size b == 0 then ok [] b else read_at (get_read_size b) b.position b

-- SetPosition(v)
unfoldable pub set_position : ℕ → M (Unit {0})
set_position v b =
    if ltb b.capacity v
    then throws b
    else seek (suc (length b.nodes)) v
        (record (raise_size (record b { position = v })) { cur = some 0 })

-- Clear() keeps the first block.
unfoldable pub clear : ByteArray → ByteArray
clear b = record b {
  position = 0;
  size = 0;
  capacity = b.base_size;
  cur = some 0;
  nodes = take 1 b.nodes;
}
