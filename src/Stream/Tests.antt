-- ===== src/Stream/Tests.antt =====
-- Runs of the theorems about gudov/stream.cpp at concrete inputs.
use gudov.Common.{ℕ, ◌≡◌, arith, none, some}
use gudov.Common.Int.{negsuc}
use gudov.Stream.{to_int, read_fix_size, write_fix_size, read_fix_size_array, write_fix_size_array}
use gudov.Stream.Laws.{moves, fix_size-moves, fix_size-error}

abbrev two : ℕ → ℕ → ℕ → ℕ
two turn offset asked = 1

fix_size-moves_example :
    (read_fix_size (moves two) 4 10 9 ≡ some (to_int 9))
    × (write_fix_size (moves two) 4 10 9 ≡ some (to_int 9))
    × (read_fix_size_array (λ t a. moves two t 0 a) 4 10 9 ≡ some (to_int 9))
    × (write_fix_size_array (λ t a. moves two t 0 a) 4 10 9 ≡ some (to_int 9))
fix_size-moves_example = fix_size-moves two 4 9 10 (omega arith) (omega arith) (omega arith)

fix_size-error_example :
    (read_fix_size (λ t o a. negsuc 0) 4 1000 9 ≡ none)
    × (write_fix_size (λ t o a. negsuc 0) 4 1000 9 ≡ none)
    × (read_fix_size_array (λ t a. negsuc 0) 4 1000 9 ≡ none)
    × (write_fix_size_array (λ t a. negsuc 0) 4 1000 9 ≡ none)
fix_size-error_example = fix_size-error 4 9 1000 (omega arith) (omega arith)
