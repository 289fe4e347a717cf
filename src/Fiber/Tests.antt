-- ===== src/Fiber/Tests.antt =====
-- The theorems about fibers (gudov/fiber.cpp) on a concrete thread.
use gudov.Common.{◌≡◌, refl, true, some, none}
use gudov.Fiber.{
  running, ready, Thread, continues, other_side, put_fiber, put_saved, new_fiber, resume, yield,
}
use gudov.Fiber.Laws.{yield-resume}

-- The thread's own fiber at 0, and fibers of the scheduler at 1 and 2.
abbrev thread : Thread
thread = new_fiber 2 2 (some 8) true (
    new_fiber 1 1 (some 7) true (record {
      fibers = λ f. record {
        id = 0;
        state = running;
        has_stack = true;
        callback = none;
        run_in_scheduler = true;
      };
      running_fiber = some 0;
      thread_fiber = some 0;
      main_fiber = some 0;
      control = 0;
      saved = λ f. f;
    }))

is_ready : (thread.fibers 1).state ≡ ready
unfolding new_fiber put_fiber put_saved
is_ready = refl

goes_back : other_side 1 thread ≡ some 0
unfolding other_side new_fiber put_fiber put_saved
goes_back = refl

yield-resume_example :
    (t1 : Thread) × (t2 : Thread) × (resume 1 thread ≡ continues t1)
    × (t1.control ≡ thread.saved 1)
    × (yield 1 t1 ≡ continues t2)
    × (t2.control ≡ thread.control)
    × (t2.saved 1 ≡ t1.control)
    × ((t2.fibers 1).state ≡ ready)
yield-resume_example = yield-resume thread 1 0 is_ready goes_back refl
