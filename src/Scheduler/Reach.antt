-- ===== src/Scheduler/Reach.antt =====
-- What holds of the workers of gudov/scheduler.cpp in every state that they reach.
use gudov.Common.{
  ℕ, suc, ◌+◌, ◌==◌, ◌≡◌, refl, subst, ap, ◌∙◌, arith, Bool, true, false, ◌&&◌, if◌then◌else◌,
}
use gudov.Common.{Option, none, some, List, [], ◌∷◌, ◌++◌, length}
use gudov.Scheduler.{
  Task, runs, schedule_no_lock, elsewhere, is_busy, take_task, empty, is_stopping, Scheduler,
}
use gudov.Scheduler.Steps.{
  Work, fresh, Step, schedules_fiber, schedules_callback, schedules_nothing, takes, ends, stops,
  Reach, at_start, after_step,
}

-- How many tasks of a list pass a test
unfoldable pub count : (Task → Bool) → List Task → ℕ
count p [] = 0
count p (t ∷ ts) = (if p t then 1 else 0) + count p ts

unfoldable pub count_taken : (Task → Bool) → List (ℕ × Task) → ℕ
count_taken p [] = 0
count_taken p ((me, t) ∷ ts) = (if p t then 1 else 0) + count_taken p ts

count-append : (p : Task → Bool) (xs ys : List Task) → count p (xs ++ ys) ≡ count p xs + count p ys
unfolding count
count-append p [] ys = omega arith
count-append p (t ∷ xs) ys = omega (arith, count-append p xs ys)

count_taken-remove :
    (p : Task → Bool) (before after : List (ℕ × Task)) (me : ℕ) (t : Task)
    → count_taken p (before ++ (me, t) ∷ after)
      ≡ (if p t then 1 else 0) + count_taken p (before ++ after)
unfolding count_taken
count_taken-remove p [] after me t = refl
count_taken-remove p ((m, u) ∷ before) after me t =
    omega (arith, count_taken-remove p before after me t)

-- A task that is taken leaves the queue, and nothing else does.
abbrev pub Took : (Task → Bool) → List Task → Option Task × List Task × Bool → Type 0
Took p tasks (none, rest, tickle) = rest ≡ tasks
Took p tasks (some t, rest, tickle) = (count p tasks ≡ (if p t then 1 else 0) + count p rest)

take_task-Took :
    (p : Task → Bool) (me : ℕ) (running : ℕ → Bool) (tasks : List Task) (tickle : Bool)
    → Took p tasks (take_task me running tasks tickle)
unfolding take_task
take_task-Took p me running [] tickle = refl
take_task-Took p me running (t ∷ ts) tickle =
    cases (elsewhere me t) (is_busy running t) (take_task me running ts true)
      (take_task-Took p me running ts true) (take_task me running ts tickle)
      (take_task-Took p me running ts tickle)
  where
    skip : (r : Option Task × List Task × Bool) → Took p ts r → Took p (t ∷ ts) (r.0, t ∷ r.1, r.2)
    skip (none, rest, k) h = ap (λ l. t ∷ l) h
    skip (some u, rest, k) h = unfold count in omega arith

    cases :
        (away busy : Bool) (r : Option Task × List Task × Bool)
        → Took p ts r
        → (q : Option Task × List Task × Bool) → Took p ts q
        → Took p (t ∷ ts) (
            if away
            then (r.0, t ∷ r.1, r.2)
            else if busy
            then (q.0, t ∷ q.1, q.2)
            else (some t, ts, true))
    cases true busy r h q g = skip r h
    cases false true r h q g = skip q g
    cases false false r h q g = unfold count in refl

-- The tasks in the queue, those taken and those done are the tasks scheduled, and the count of active
-- threads is that of the tasks taken.
abbrev pub Accounts : (Task → Bool) → Work → Type 0
Accounts p w =
    (count p w.scheduled ≡ count p w.tasks + (count_taken p w.taken + count p w.done))
    × (w.active ≡ length w.taken)

schedule-count :
    (p : Task → Bool) (t : Task) (tasks : List Task)
    → count p (schedule_no_lock t tasks).1 ≡ count p tasks + (if runs t && p t then 1 else 0)
unfolding schedule_no_lock
schedule-count p t tasks = cases (runs t) (p t) refl
  where
    cases :
        (r q : Bool)
        → p t ≡ q
        → count p (if r then tasks ++ t ∷ [] else tasks) ≡ count p tasks + (if r && q then 1 else 0)
    cases false q e = omega arith
    cases true true e =
        unfold count in (count-append p tasks (t ∷ []) ∙ unfold count in rw e (omega arith))
    cases true false e =
        unfold count in (count-append p tasks (t ∷ []) ∙ unfold count in rw e (omega arith))

-- A task that was asked for and is in the queue is accounted for.
asked-counts :
    (p : Task → Bool) (t : Task) (v : Work)
    → runs t ≡ true
    → count p v.scheduled ≡ count p v.tasks + (count_taken p v.taken + count p v.done)
    → count p (v.scheduled ++ t ∷ [])
      ≡ count p (schedule_no_lock t v.tasks).1 + (count_taken p v.taken + count p v.done)
asked-counts p t v e h =
    let a : count p (schedule_no_lock t v.tasks).1 ≡ count p v.tasks + (if p t then 1 else 0) =
      schedule-count p t v.tasks ∙ rw e refl in
    let b : count p (v.scheduled ++ t ∷ []) ≡ count p v.scheduled + ((if p t then 1 else 0) + 0) =
      count-append p v.scheduled (t ∷ []) ∙ unfold count in refl in
    omega arith

Step-Accounts : (p : Task → Bool) (v w : Work) → Step v w → Accounts p v → Accounts p w
Step-Accounts p v w (schedules_fiber u f thread) h =
    let t : Task = record { fiber = suc f; callback = 0; thread = thread } in
    (asked-counts p t v (ground arith) h.0, h.1)
Step-Accounts p v w (schedules_callback u f thread) h =
    let t : Task = record { fiber = 0; callback = suc f; thread = thread } in
    (asked-counts p t v (ground arith) h.0, h.1)
Step-Accounts p v w (schedules_nothing u thread) h =
    let t : Task = record { fiber = 0; callback = 0; thread = thread } in
    let a : count p (schedule_no_lock t v.tasks).1 ≡ count p v.tasks + 0 =
      schedule-count p t v.tasks in
    (omega arith, h.1)
Step-Accounts p v w (takes u me running t rest tickle e) h =
    let a : Took p v.tasks (some t, rest, tickle) =
      subst (λ r. Took p v.tasks r) e (take_task-Took p me running v.tasks false) in
    (unfold count_taken in omega arith, omega arith)
Step-Accounts p v w (ends u before after me t e) h =
    let a : count_taken p v.taken ≡ (if p t then 1 else 0) + count_taken p (before ++ after) =
      ap (count_taken p) e ∙ count_taken-remove p before after me t in
    let b : length v.taken ≡ suc (length (before ++ after)) = ap length e ∙ longer before in
    (unfold count in omega arith, omega arith)
  where
    longer : (xs : List (ℕ × Task)) → length (xs ++ (me, t) ∷ after) ≡ suc (length (xs ++ after))
    longer [] = refl
    longer (x ∷ xs) = ap suc (longer xs)
Step-Accounts p v w (stops u) h = h

-- In every state that the workers reach, each task that a caller scheduled, be it a fiber or a callback, is
-- in the queue, with a worker or done, as often as it was scheduled and no more often; and active_thread_count_ is the number of the tasks
-- that workers have.
pub Reach-Accounts : (p : Task → Bool) (w : Work) → Reach w → Accounts p w
Reach-Accounts p w at_start = unfold fresh count count_taken in (refl, refl)
Reach-Accounts p w (after_step u v r s) = Step-Accounts p u v s (Reach-Accounts p u r)

-- The scheduler whose queue and counts these are
unfoldable pub scheduler_of : Work → Scheduler → Scheduler
scheduler_of w s = record s { tasks = w.tasks; active = w.active; stopping = w.stopping }

-- Where Stopping answers true, every task that a caller scheduled is done, as often as it was scheduled.
pub Reach-is_stopping :
    (p : Task → Bool) (w : Work) (s : Scheduler)
    → Reach w
    → is_stopping (scheduler_of w s) ≡ true
    → count p w.done ≡ count p w.scheduled
unfolding is_stopping scheduler_of
Reach-is_stopping p w s r h =
    finish w.stopping w.tasks w.taken (Reach-Accounts p w r).0 (Reach-Accounts p w r).1 h
  where
    finish :
        (stop : Bool) (tasks : List Task) (taken : List (ℕ × Task))
        → count p w.scheduled ≡ count p tasks + (count_taken p taken + count p w.done)
        → w.active ≡ length taken
        → (stop && (empty tasks && w.active == 0)) ≡ true
        → count p w.done ≡ count p w.scheduled
    finish false tasks taken a b k = absurd (cc)
    finish true (t ∷ tasks) taken a b k = absurd (cc)
    finish true [] (x ∷ taken) a b k = absurd (ground arith)
    finish true [] [] a b k = unfold count count_taken in omega arith
