-- ===== src/Scheduler/Tests.antt =====
-- Runs of the theorems about gudov/scheduler.cpp at concrete inputs.
use gudov.Common.{ℕ, ◌≡◌, refl, arith, not, if◌then◌else◌, Bool, true, false, none, some, [], ◌∷◌}
use gudov.Scheduler.{Task, Scheduler, schedule_no_lock, elsewhere, is_busy, take_task, is_stopping}
use gudov.Scheduler.Steps.{
  Work, fresh, schedules_fiber, takes, ends, stops, Reach, at_start, after_step,
}
use gudov.Scheduler.Reach.{count, Accounts, Reach-Accounts, scheduler_of, Reach-is_stopping}
use gudov.Scheduler.Drain.{drain, ended, is_over, all_resume, keep, may_run, drain-keep}

abbrev task : Task
task = record { fiber = 1; callback = 0; thread = none }

abbrev pinned : Task
pinned = record { fiber = 0; callback = 4; thread = some 7 }

abbrev any : Task → Bool
any t = true

abbrev quiet : ℕ → Bool
quiet n = false

abbrev any_fiber : ℕ → Bool
any_fiber n = true

abbrev queued : Work
queued = record {
  tasks = task ∷ [];
  active = 0;
  taken = [];
  stopping = false;
  scheduled = task ∷ [];
  done = [];
}

abbrev busy : Work
busy = record {
  tasks = [];
  active = 1;
  taken = (5, task) ∷ [];
  stopping = false;
  scheduled = task ∷ [];
  done = [];
}

abbrev over : Work
over = record {
  tasks = [];
  active = 0;
  taken = [];
  stopping = false;
  scheduled = task ∷ [];
  done = task ∷ [];
}

busy-Reach : Reach busy
unfolding fresh schedule_no_lock take_task elsewhere is_busy
busy-Reach =
    after_step queued busy (after_step fresh queued at_start (schedules_fiber fresh 0 none))
      (takes queued 5 quiet task [] true refl)

over-Reach : Reach (record over { stopping = true })
over-Reach =
    after_step over (record over { stopping = true })
      (after_step busy over busy-Reach (ends busy [] [] 5 task refl)) (stops over)

Reach-Accounts_example : Accounts any busy
Reach-Accounts_example = Reach-Accounts any busy busy-Reach

abbrev scheduler : Scheduler
scheduler = record {
  thread_count = 1;
  use_caller = false;
  root_fiber = false;
  threads = [];
  thread_ids = [];
  tasks = [];
  active = 0;
  idle = 0;
  stopping = false;
}

Reach-is_stopping_example :
    count any (record over { stopping = true }).done
    ≡ count any (record over { stopping = true }).scheduled
unfolding is_stopping scheduler_of
Reach-is_stopping_example =
    Reach-is_stopping any (record over { stopping = true }) scheduler over-Reach refl

-- The fiber ends when it is resumed, and has not ended before.
drain-keep_example : drain 3 5 quiet any_fiber quiet (pinned ∷ task ∷ task ∷ []) ≡ (
    if all_resume any_fiber quiet (keep (may_run 5 quiet) (pinned ∷ task ∷ task ∷ []))
    then some (
      keep (may_run 5 quiet) (pinned ∷ task ∷ task ∷ []),
      keep (λ t. not (may_run 5 quiet t)) (pinned ∷ task ∷ task ∷ []),
    )
    else none)
drain-keep_example = drain-keep 3 5 quiet any_fiber quiet (pinned ∷ task ∷ task ∷ []) (omega arith)

-- Queued twice, it makes the worker abort; once, it runs.
drains : drain 3 5 quiet any_fiber quiet (pinned ∷ task ∷ task ∷ []) ≡ none
unfolding drain take_task elsewhere is_busy is_over ended
drains = refl

drains_once : drain 3 5 quiet any_fiber quiet (pinned ∷ task ∷ []) ≡ some (task ∷ [], pinned ∷ [])
unfolding drain take_task elsewhere is_busy is_over ended
drains_once = refl
