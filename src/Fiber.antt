-- ===== src/Fiber.antt =====
-- gudov/fiber.h, gudov/fiber.cpp: the states of the fibers of one thread.
-- A Fiber* is an address of `fibers`. `control` is the fiber whose code runs, and `saved` says, for the ctx_
-- of each fiber, whose code it continues: swapcontext saves the code that runs into one ctx_ and continues
-- another one. A call of Resume or Yield is modelled up to that switch.
-- Scheduler::GetMainFiber() is `main_fiber`. getcontext and swapcontext succeed.
pub mod Laws
pub mod Tests
use gudov.Common.{ℕ, Bool, true, false, not, ◌||◌, Option, none, some, ◌==◌, if◌then◌else◌}

pub data State : Type 0 where
  running term ready : State

pub record Fiber : Type 0 where
  pub id : ℕ
  pub state : State
  pub has_stack : Bool
  pub callback : Option ℕ
  pub run_in_scheduler : Bool

pub record Thread : Type 0 where
  pub fibers : ℕ → Fiber
  pub running_fiber : Option ℕ
  pub thread_fiber : Option ℕ
  pub main_fiber : Option ℕ
  pub control : ℕ
  pub saved : ℕ → ℕ

-- A call goes on, or an assertion fails, or a null fiber's context is used.
pub data Outcome {ℓ} (A : Type ℓ) : Type ℓ where
  continues : A → Outcome A
  assert_failed : Outcome A
  null_deref : Outcome A

abbrev pub is_state : State → State → Bool
is_state running running = true
is_state term term = true
is_state ready ready = true
is_state _ _ = false

unfoldable pub put_fiber : ℕ → Fiber → Thread → Thread
put_fiber f x t = record t { fibers = λ g. if g == f then x else t.fibers g }

-- The ctx_ of `f` is set to continue the code of `c`, as getcontext and makecontext do.
unfoldable pub put_saved : ℕ → ℕ → Thread → Thread
put_saved f c t = record t { saved = λ g. if g == f then c else t.saved g }

-- swapcontext(&from->ctx_, &to->ctx_)
unfoldable pub swapcontext : ℕ → ℕ → Thread → Thread
unfolding put_saved
swapcontext from to t = record (put_saved from t.control t) {
  control = (put_saved from t.control t).saved to;
}

-- The private constructor: the thread's own context, at address `f`
unfoldable pub thread_main : ℕ → Thread → Thread
thread_main f t =
    record (put_fiber f
      (record {
        id = 0;
        state = running;
        has_stack = false;
        callback = none;
        run_in_scheduler = false;
      })
      (put_saved f t.control t)) { running_fiber = some f }

-- Fiber(callback, stack_size, run_in_scheduler) with its number and address
unfoldable pub new_fiber : ℕ → ℕ → Option ℕ → Bool → Thread → Thread
new_fiber number f callback run_in_scheduler t =
    put_fiber f
      (record {
        id = number;
        state = ready;
        has_stack = true;
        callback = callback;
        run_in_scheduler = run_in_scheduler;
      })
      (put_saved f f t)

-- GetRunningFiber, which makes the main fiber at address `f` when there is none
unfoldable pub get_running_fiber : ℕ → Thread → Thread × ℕ
get_running_fiber f t = elim t.running_fiber [
  | some g ↦ (t, g)
  | none ↦ (record (thread_main f t) { thread_fiber = some f }, f)
]

-- The fiber whose context a switch goes to or comes from.
unfoldable pub other_side : ℕ → Thread → Option ℕ
other_side f t = if (t.fibers f).run_in_scheduler then t.main_fiber else t.thread_fiber

unfoldable pub reset : Option ℕ → ℕ → Thread → Outcome Thread
reset callback f t =
    if not (t.fibers f).has_stack
    then assert_failed
    else if is_state (t.fibers f).state term || is_state (t.fibers f).state ready
    then continues
        (put_fiber f (record (t.fibers f) { callback = callback; state = ready }) (put_saved f f t))
    else assert_failed

unfoldable pub resume : ℕ → Thread → Outcome Thread
resume f t =
    if is_state (t.fibers f).state term || is_state (t.fibers f).state running
    then assert_failed
    else elim (other_side f t) [
      | none ↦ null_deref
      | some from ↦ continues (
          swapcontext from f (record (put_fiber f (record (t.fibers f) { state = running }) t) {
            running_fiber = some f;
          }))
    ]

-- `if (state_ != Term) state_ = Ready;`
unfoldable pub yielded : State → State
yielded term = term
yielded running = ready
yielded ready = ready

unfoldable pub yield : ℕ → Thread → Outcome Thread
yield f t =
    if is_state (t.fibers f).state running || is_state (t.fibers f).state term
    then elim (other_side f t) [
      | none ↦ null_deref
      | some to ↦ continues (
          swapcontext f to
            (record (put_fiber f (record (t.fibers f) { state = yielded (t.fibers f).state }) t) {
              running_fiber = t.thread_fiber;
            }))
    ]
    else assert_failed

-- The end of MainFunc, when the callback of `f` has returned
unfoldable pub finish : ℕ → Thread → Outcome Thread
finish f t = yield f (put_fiber f (record (t.fibers f) { callback = none; state = term }) t)
