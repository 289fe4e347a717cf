-- ===== src/Scheduler/Steps.antt =====
-- The workers of gudov/scheduler.cpp at one queue: each step is what a thread does under the lock, or the end
-- of a resumed task. The tasks scheduled and the tasks done are the history of the queue.
use gudov.Common.{Option, ℕ, suc, ◌+◌, ◌-◌, ◌≡◌, Bool, true, false, some, List, [], ◌∷◌, ◌++◌}
use gudov.Scheduler.{Task, schedule_no_lock, take_task}

pub record Work : Type 0 where
  pub tasks : List Task
  pub active : ℕ
  pub taken : List (ℕ × Task)
  pub stopping : Bool
  pub scheduled : List Task
  pub done : List Task

unfoldable pub fresh : Work
fresh = record { tasks = []; active = 0; taken = []; stopping = false; scheduled = []; done = [] }

-- Schedule is called with a fiber, with a callback or with a null pointer, and the history is what the
-- callers asked for, whatever the queue then has; a worker takes a task; the task of a worker is over; Stop is called.
pub data Step : Work → Work → Type 0 where
  schedules_fiber :
      (w : Work) (f : ℕ) (thread : Option ℕ)
      → Step w (
          let t : Task = record { fiber = suc f; callback = 0; thread = thread } in
          record w { tasks = (schedule_no_lock t w.tasks).1; scheduled = w.scheduled ++ t ∷ [] })
  schedules_callback :
      (w : Work) (f : ℕ) (thread : Option ℕ)
      → Step w (
          let t : Task = record { fiber = 0; callback = suc f; thread = thread } in
          record w { tasks = (schedule_no_lock t w.tasks).1; scheduled = w.scheduled ++ t ∷ [] })
  schedules_nothing :
      (w : Work) (thread : Option ℕ)
      → Step w (
          let t : Task = record { fiber = 0; callback = 0; thread = thread } in
          record w { tasks = (schedule_no_lock t w.tasks).1 })
  takes :
      (w : Work) (me : ℕ) (running : ℕ → Bool) (t : Task) (rest : List Task) (tickle : Bool)
      → take_task me running w.tasks false ≡ (some t, rest, tickle)
      → Step w (record w { tasks = rest; active = w.active + 1; taken = (me, t) ∷ w.taken })
  ends :
      (w : Work) (before after : List (ℕ × Task)) (me : ℕ) (t : Task)
      → w.taken ≡ before ++ (me, t) ∷ after
      → Step w (record w { active = w.active - 1; taken = before ++ after; done = t ∷ w.done })
  stops : (w : Work) → Step w (record w { stopping = true })

pub data Reach : Work → Type 0 where
  at_start : Reach fresh
  after_step : (v w : Work) → Reach v → Step v w → Reach w
