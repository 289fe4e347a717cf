-- ===== src/Stream/Laws.antt =====
-- When the loops of gudov/stream.cpp end, and with what.
use gudov.Common.{
  ℕ, zero, suc, ◌+◌, ◌-◌, ◌≤◌, ◌<◌, ◌==◌, ◌≡◌, refl, ◌∙◌, inl, inr, arith, leb, false, Bool-cases,
}
use gudov.Common.{none, some}
use gudov.Common.Int.{ℤ, pos, negsuc}
use gudov.Stream.{
  to_int, to_size, sub64, add64, smaller, buffer_loop, read_fix_size, write_fix_size, array_loop,
}
use gudov.Stream.{read_fix_size_array, write_fix_size_array}

-- A stream that moves at least a byte, and at most as many as it is asked for
abbrev pub moves : (ℕ → ℕ → ℕ → ℕ) → ℕ → ℕ → ℕ → ℤ
moves extra turn offset asked = pos (suc (smaller (extra turn offset asked) (asked - 1)))

sub64-le : (a b : ℕ) → a < 18446744073709551616 → b ≤ a → sub64 a b ≡ a - b
sub64-le a b h k = omega arith

smaller-bounds : (a b : ℕ) → 0 < a → 0 < b → (0 < smaller a b) × (smaller a b ≤ a)
smaller-bounds a b h k = elim (Bool-cases (leb a b)) [
  | inl t ↦ rw t (h, omega arith)
  | inr t ↦ rw t (k, ground arith)
]

moved : (x a : ℕ) → 0 < a → suc (smaller x (a - 1)) ≤ a
moved x a h = elim (Bool-cases (leb x (a - 1))) [
  | inl t ↦ rw t (ground arith)
  | inr t ↦ rw t (omega arith)
]

positive : (n : ℕ) → (suc n == 0) ≡ false
positive n = ground arith

buffer_loop-moves :
    (extra : ℕ → ℕ → ℕ → ℕ) (max_len fuel turn length offset left : ℕ)
    → 0 < max_len
    → left < fuel
    → left < 18446744073709551616
    → buffer_loop (moves extra) max_len fuel turn length offset left ≡ some (to_int length)
unfolding buffer_loop to_size
buffer_loop-moves extra max_len zero turn length offset left m lt b = absurd (omega arith)
buffer_loop-moves extra max_len (suc fuel) turn length offset zero m lt b = refl
buffer_loop-moves extra max_len (suc fuel) turn length offset (suc left) m lt b =
    let asked = smaller (suc left) max_len in
    let bounds = smaller-bounds (suc left) max_len (omega arith) m in
    let more = smaller (extra turn offset asked) (asked - 1) in
    let few : suc more ≤ asked = moved (extra turn offset asked) asked bounds.0 in
    let rest : sub64 (suc left) (suc more) < suc left =
      rw (sub64-le (suc left) (suc more) b (omega arith)) (omega arith) in
    rw (positive left, positive more)
      (buffer_loop-moves extra max_len fuel (suc turn) length (add64 offset (suc more))
        (sub64 (suc left) (suc more)) m (omega arith) (omega arith))

array_loop-buffer_loop :
    (io : ℕ → ℕ → ℤ) (max_len fuel turn length offset left : ℕ)
    → array_loop io max_len fuel turn length left
      ≡ buffer_loop (λ t o a. io t a) max_len fuel turn length offset left
unfolding array_loop buffer_loop
array_loop-buffer_loop io max_len zero turn length offset left = refl
array_loop-buffer_loop io max_len (suc fuel) turn length offset left =
    let len = to_size (io turn (smaller left max_len)) in
    rw
      (array_loop-buffer_loop io max_len fuel (suc turn) length (add64 offset len) (sub64 left len))
      refl

-- Reading and writing a fixed size end and return that size as an int, over a buffer and over a byte array, when the stream
-- moves at every turn a byte or more and no more than it is asked for: for any size below 2^64, and in at
-- most as many turns as the size has bytes, and one.
pub fix_size-moves :
    (extra : ℕ → ℕ → ℕ → ℕ) (max_len length fuel : ℕ)
    → 0 < max_len
    → length < 18446744073709551616
    → length < fuel
    → (read_fix_size (moves extra) max_len fuel length ≡ some (to_int length))
      × (write_fix_size (moves extra) max_len fuel length ≡ some (to_int length))
      × (read_fix_size_array (λ t a. moves extra t 0 a) max_len fuel length ≡ some (to_int length))
      × (write_fix_size_array (λ t a. moves extra t 0 a) max_len fuel length ≡ some (to_int length))
unfolding read_fix_size write_fix_size read_fix_size_array write_fix_size_array
fix_size-moves extra max_len length fuel m b lt =
    let done = buffer_loop-moves extra max_len fuel 0 length 0 length m lt b in
    let flat = buffer_loop-moves (λ t o a. extra t 0 a) max_len fuel 0 length 0 length m lt b in
    let array =
      array_loop-buffer_loop (λ t a. moves extra t 0 a) max_len fuel 0 length 0 length ∙ flat in
    (done, done, array, array)

buffer_loop-error :
    (max_len fuel turn length offset left : ℕ)
    → 0 < left
    → left + fuel < 18446744073709551616
    → buffer_loop (λ t o a. negsuc 0) max_len fuel turn length offset left ≡ none
unfolding buffer_loop to_size
buffer_loop-error max_len zero turn length offset left h b = refl
buffer_loop-error max_len (suc fuel) turn length offset left h b =
    let len : ℕ = 18446744073709551615 in
    let some_left : (left == 0) ≡ false = ground arith in
    rw some_left (
      buffer_loop-error max_len fuel (suc turn) length (add64 offset len) (sub64 left len)
        (omega arith) (omega arith))

-- A stream that answers -1, as it does on an error, does not end the loops: the test `len <= 0` is made on
-- an unsigned number and misses it, and what is left grows by one at every turn. For any size but 0 and any
-- number of turns that together are below 2^64, they are still running.
pub fix_size-error :
    (max_len length fuel : ℕ)
    → 0 < length
    → length + fuel < 18446744073709551616
    → (read_fix_size (λ t o a. negsuc 0) max_len fuel length ≡ none)
      × (write_fix_size (λ t o a. negsuc 0) max_len fuel length ≡ none)
      × (read_fix_size_array (λ t a. negsuc 0) max_len fuel length ≡ none)
      × (write_fix_size_array (λ t a. negsuc 0) max_len fuel length ≡ none)
unfolding read_fix_size write_fix_size read_fix_size_array write_fix_size_array
fix_size-error max_len length fuel h b =
    let still = buffer_loop-error max_len fuel 0 length 0 length h b in
    let array = array_loop-buffer_loop (λ t a. negsuc 0) max_len fuel 0 length 0 length ∙ still in
    (still, still, array, array)
