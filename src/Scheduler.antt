-- ===== src/Scheduler.antt =====
-- gudov/scheduler.h, gudov/scheduler.cpp: the task queue, what Run takes from it, starting and stopping.
-- Fibers and callbacks are named by numbers, 0 being the null pointer or the empty function; threads are
-- numbers too, and `none` is the thread -1. Logging is left out.
pub mod Steps
pub mod Reach
pub mod Drain
mod Tests
use gudov.Common.{
  ℕ, zero, suc, ◌+◌, ◌-◌, ◌==◌, leb, Bool, true, false, not, ◌&&◌, ◌||◌, if◌then◌else◌,
}
use gudov.Common.{Option, none, some, List, [], ◌∷◌, ◌++◌, length}

pub record Task : Type 0 where
  pub fiber : ℕ
  pub callback : ℕ
  pub thread : Option ℕ

-- Task() and Reset
unfoldable pub reset_task : Task
reset_task = record { fiber = 0; callback = 0; thread = none }

abbrev pub runs : Task → Bool
runs t = not (t.fiber == 0) || not (t.callback == 0)

abbrev pub empty {ℓ} : {A : Type ℓ} → List A → Bool
empty [] = true
empty (x ∷ xs) = false

-- ScheduleNoLock: whether to tickle, and the queue
unfoldable pub schedule_no_lock : Task → List Task → Bool × List Task
schedule_no_lock t tasks = (empty tasks, if runs t then tasks ++ t ∷ [] else tasks)

-- Schedule of a range of tasks
unfoldable pub schedule_all : List Task → Bool → List Task → Bool × List Task
schedule_all [] need_tickle tasks = (need_tickle, tasks)
schedule_all (t ∷ ts) need_tickle tasks =
    let (tickle, queue) = schedule_no_lock t tasks in schedule_all ts (tickle || need_tickle) queue

-- Whether the task is for another thread than `me`
unfoldable pub elsewhere : ℕ → Task → Bool
elsewhere me t = elim t.thread [ none ↦ false | some n ↦ not (n == me) ]

unfoldable pub is_busy : (ℕ → Bool) → Task → Bool
is_busy running t = not (t.fiber == 0) && running t.fiber

-- The loop of Run over the queue, `running` being the fibers in that state: the task it takes, the queue,
-- and tickle_me. Its assertion holds of what
-- ScheduleNoLock queues. Its iterator differs from the end behind an erase, also when nothing is left.
unfoldable pub take_task : ℕ → (ℕ → Bool) → List Task → Bool → Option Task × List Task × Bool
take_task me running [] tickle_me = (none, [], tickle_me)
take_task me running (t ∷ ts) tickle_me =
    let (other, later, tickle_other) = take_task me running ts true in
    let (got, rest, tickle) = take_task me running ts tickle_me in
    if elsewhere me t
    then (other, t ∷ later, tickle_other)
    else if is_busy running t
    then (got, t ∷ rest, tickle)
    else (some t, ts, true)

pub record Scheduler : Type 0 where
  pub thread_count : ℕ
  pub use_caller : Bool
  pub root_fiber : Bool
  pub threads : List ℕ
  pub thread_ids : List ℕ
  pub tasks : List Task
  pub active : ℕ
  pub idle : ℕ
  pub stopping : Bool

-- The constructor; `none` is a failed assertion, `has` whether the thread has a scheduler already, and
-- `id` the thread's number.
unfoldable pub new_scheduler : ℕ → Bool → Bool → ℕ → Option Scheduler
new_scheduler zero use_caller has id = none
new_scheduler (suc threads) use_caller has id =
    if use_caller && has
    then none
    else some (record {
      thread_count = (if use_caller then threads else suc threads);
      use_caller = use_caller;
      root_fiber = use_caller;
      threads = [];
      thread_ids = (if use_caller then id ∷ [] else []);
      tasks = [];
      active = 0;
      idle = 0;
      stopping = false;
    })

-- The threads that Start makes, with the numbers they get
unfoldable pub make_threads : (ℕ → ℕ) → ℕ → ℕ → List ℕ
make_threads id zero i = []
make_threads id (suc n) i = id i ∷ make_threads id n (suc i)

-- Start; `none` is a failed assertion.
unfoldable pub start : (ℕ → ℕ) → Scheduler → Option Scheduler
start id s =
    if s.stopping
    then some s
    else if empty s.threads
    then some (record s {
      threads = make_threads id s.thread_count 0;
      thread_ids = s.thread_ids ++ make_threads id s.thread_count 0;
    })
    else none

unfoldable pub is_stopping : Scheduler → Bool
is_stopping s = s.stopping && (empty s.tasks && s.active == 0)

-- Stop up to where it waits: how often it tickles, whether it runs the root fiber, the threads that it
-- joins, and the scheduler; `none` is a failed assertion, `mine` whether the thread's scheduler is this one.
unfoldable pub stop : Bool → Scheduler → Option (ℕ × Bool × List ℕ × Scheduler)
stop mine s =
    if is_stopping s
    then some (0, false, [], s)
    else if (if s.use_caller then mine else not mine)
    then some (
      s.thread_count + (if s.root_fiber then 1 else 0),
      s.root_fiber,
      s.threads,
      record s { stopping = true; threads = [] },
    )
    else none

-- What a turn of Run does with the task it took, or without one: `idle_over` is whether the idle fiber has
-- ended.
pub data Turn : Type 0 where
  resume_fiber : ℕ → Turn
  run_callback : ℕ → Turn
  leave : Turn
  resume_idle : Turn

unfoldable pub turn : Option Task → Bool → Turn
turn none idle_over = if idle_over then leave else resume_idle
turn (some t) idle_over =
    if not (t.fiber == 0)
    then resume_fiber t.fiber
    else if not (t.callback == 0)
    then run_callback t.callback
    else if idle_over
    then leave
    else resume_idle
