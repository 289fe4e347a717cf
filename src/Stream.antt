-- ===== src/Stream.antt =====
-- gudov/stream.cpp: ReadFixSize and WriteFixSize. The stream's own read and write are a parameter: what
-- they return at each turn, as the int that it is, for the offset and the size asked for.
pub mod Laws
mod Tests
use gudov.Common.{ℕ, zero, suc, ◌+◌, ◌-◌, ◌%◌, ◌==◌, leb, Bool, if◌then◌else◌, Option, none, some}
use gudov.Common.Int.{ℤ, pos, negsuc}

-- `size_t len = read(...)`
unfoldable pub to_size : ℤ → ℕ
to_size (pos n) = n
to_size (negsuc n) = 18446744073709551615 - n

-- `return length`: the 32 bits of an int
abbrev pub to_int : ℕ → ℕ
to_int n = n % 4294967296

-- `a -= b` and `a += b` on size_t
abbrev pub sub64 : ℕ → ℕ → ℕ
sub64 a b = (a + (18446744073709551616 - b)) % 18446744073709551616

abbrev pub add64 : ℕ → ℕ → ℕ
add64 a b = (a + b) % 18446744073709551616

abbrev pub smaller : ℕ → ℕ → ℕ
smaller a b = if leb a b then a else b

module _ (io : ℕ → ℕ → ℕ → ℤ) (max_len : ℕ) where
  -- The loop over a buffer: `none` while it still runs, and otherwise the int it returns.
  unfoldable pub buffer_loop : ℕ → ℕ → ℕ → ℕ → ℕ → Option ℕ
  buffer_loop zero turn length offset left = none
  buffer_loop (suc fuel) turn length offset left =
      let len = to_size (io turn offset (smaller left max_len)) in
      let rest = buffer_loop fuel (suc turn) length (add64 offset len) (sub64 left len) in
      if left == 0 then some (to_int length) else if len == 0 then some 0 else rest

  unfoldable pub read_fix_size : ℕ → ℕ → Option ℕ
  read_fix_size fuel length = buffer_loop fuel 0 length 0 length

  unfoldable pub write_fix_size : ℕ → ℕ → Option ℕ
  write_fix_size fuel length = buffer_loop fuel 0 length 0 length

-- The same over a ByteArray, which keeps the position itself
module _ (io : ℕ → ℕ → ℤ) (max_len : ℕ) where
  unfoldable pub array_loop : ℕ → ℕ → ℕ → ℕ → Option ℕ
  array_loop zero turn length left = none
  array_loop (suc fuel) turn length left =
      let len = to_size (io turn (smaller left max_len)) in
      let rest = array_loop fuel (suc turn) length (sub64 left len) in
      if left == 0 then some (to_int length) else if len == 0 then some 0 else rest

  unfoldable pub read_fix_size_array : ℕ → ℕ → Option ℕ
  read_fix_size_array fuel length = array_loop fuel 0 length length

  unfoldable pub write_fix_size_array : ℕ → ℕ → Option ℕ
  write_fix_size_array fuel length = array_loop fuel 0 length length
