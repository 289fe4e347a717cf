-- ===== src/Hook/Tests.antt =====
-- Runs of the theorems about gudov/hook.cpp at concrete inputs.
use gudov.Common.{ℕ, zero, suc, ◌+◌, ◌<◌, ◌≡◌, refl, arith, Bool, true, false, some}
use gudov.Common.Int.{pos}
use gudov.FdManager.{FdCtx}
use gudov.Hook.{Answer, failed, try_io, do_io}
use gudov.Hook.Laws.{Balanced, goes_on, last_answer, answer_of, do_io-Balanced, try_io-answer}

-- An interrupt, a wait, and five bytes
abbrev call : ℕ → Answer
call zero = failed 4
call (suc zero) = failed 11
call (suc (suc n)) = record { value = pos 5; errno = 0 }

abbrev never : ℕ → Bool
never n = false

abbrev ctx : FdCtx
ctx = record {
  is_init = true;
  is_socket = true;
  sys_nonblock = true;
  user_nonblock = false;
  fd = 3;
  recv_timeout = 100;
  send_timeout = 100;
}

do_io-Balanced_example : Balanced (do_io call never (λ n. 0) never 5 true false 20 20 (some ctx))
do_io-Balanced_example = do_io-Balanced call never (λ n. 0) never 5 20 20 true false (some ctx)

twice : (i : ℕ) → i < 2 → goes_on call never (λ n. 0) never 100 (0 + i) ≡ true
twice zero h = refl
twice (suc zero) h = refl
twice (suc (suc i)) h = absurd (omega arith)

try_io-answer_example :
    answer_of call never (λ n. 0) never (try_io call never (λ n. 0) never 3 100 0)
    ≡ some (last_answer call never (λ n. 0) never 100 (0 + 2))
try_io-answer_example = try_io-answer call never (λ n. 0) never 2 3 100 0 twice refl (omega arith)
