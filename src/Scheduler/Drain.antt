-- ===== src/Scheduler/Drain.antt =====
-- A worker of gudov/scheduler.cpp that runs the tasks of a queue to which nothing is added.
use gudov.Common.{
  ℕ, zero, suc, ◌≤◌, ◌≡◌, refl, ap, inl, inr, arith, Bool, true, false, not, ◌&&◌, ◌||◌, ◌==◌,
  Bool-cases, if◌then◌else◌,
}
use gudov.Common.{Option, none, some, List, [], ◌∷◌, length}
use gudov.Scheduler.{Task, elsewhere, is_busy, take_task}

-- The fibers that have ended, when a task has run: `ends` says of which fiber the function returns, and
-- does not yield, when it is resumed.
unfoldable pub ended : (ℕ → Bool) → Task → (ℕ → Bool) → ℕ → Bool
ended ends t over f = (f == t.fiber && ends f) || over f

-- The assertion of Resume: the fiber has not ended. A callback gets a new fiber, or one that is reset.
unfoldable pub is_over : (ℕ → Bool) → Task → Bool
is_over over t = not (t.fiber == 0) && over t.fiber

abbrev pub ran_first : Task → Option (List Task × List Task) → Option (List Task × List Task)
ran_first t none = none
ran_first t (some (ran, left)) = some (t ∷ ran, left)

-- The turns of Run that take a task, each resumed: the tasks in the order they run, and the queue that is
-- left; `none` is the failed assertion of Resume. The tasks schedule nothing and change the state of no
-- fiber but their own.
unfoldable pub drain :
    ℕ → ℕ → (ℕ → Bool) → (ℕ → Bool) → (ℕ → Bool) → List Task → Option (List Task × List Task)
drain zero me running ends over tasks = some ([], tasks)
drain (suc fuel) me running ends over tasks =
    let (got, rest, tickle) = take_task me running tasks false in
    elim got [
      | none ↦ some ([], rest)
      | some t ↦
          let next = drain fuel me running ends (ended ends t over) rest in
          if is_over over t then none else ran_first t next
    ]

-- The worker may run the task: it is for any thread or for this one, and its fiber is not running.
abbrev pub may_run : ℕ → (ℕ → Bool) → Task → Bool
may_run me running t = not (elsewhere me t) && not (is_busy running t)

unfoldable pub keep : (Task → Bool) → List Task → List Task
keep p [] = []
keep p (t ∷ ts) = if p t then t ∷ keep p ts else keep p ts

abbrev pub Served : (Task → Bool) → List Task → Option Task × List Task × Bool → Type 0
Served p tasks (none, rest, k) = (keep p tasks ≡ []) × (keep (λ t. not (p t)) tasks ≡ rest)
Served p tasks (some t, rest, k) =
    (keep p tasks ≡ t ∷ keep p rest)
    × (keep (λ u. not (p u)) tasks ≡ keep (λ u. not (p u)) rest)
    × (length tasks ≡ suc (length rest))

take_task-Served :
    (me : ℕ) (running : ℕ → Bool) (tasks : List Task) (tickle : Bool)
    → Served (may_run me running) tasks (take_task me running tasks tickle)
unfolding take_task keep
take_task-Served me running [] tickle = (refl, refl)
take_task-Served me running (t ∷ ts) tickle = elim (Bool-cases (elsewhere me t)) [
  | inl a ↦
      rw a (skip (rw a refl) (take_task me running ts true) (take_task-Served me running ts true))
  | inr a ↦ elim (Bool-cases (is_busy running t)) [
    | inl b ↦
        rw (a, b)
          (skip (rw (a, b) refl) (take_task me running ts tickle)
            (take_task-Served me running ts tickle))
    | inr b ↦
        let m : may_run me running t ≡ true = rw (a, b) refl in
        rw (a, b) (rw m refl, rw m refl, refl)
  ]
]
  where
    skip :
        may_run me running t ≡ false
        → (r : Option Task × List Task × Bool) → Served (may_run me running) ts r
        → Served (may_run me running) (t ∷ ts) (r.0, t ∷ r.1, r.2)
    skip b (none, rest, k) h = unfold keep in rw b (h.0, ap (λ l. t ∷ l) h.1)
    skip b (some u, rest, k) h = unfold keep in rw b (h.0, ap (λ l. t ∷ l) h.1, ap suc h.2)

-- No task of a list is for a fiber that has ended, before or by an earlier task of the list.
unfoldable pub all_resume : (ℕ → Bool) → (ℕ → Bool) → List Task → Bool
all_resume ends over [] = true
all_resume ends over (t ∷ ts) =
    let later = all_resume ends (ended ends t over) ts in if is_over over t then false else later

-- A worker runs every task of the queue that it may run, in their order, and leaves the others in theirs, in
-- as many turns as there are tasks or more, if no fiber among them has ended when its turn comes; if one has,
-- the assertion of Resume fails. It may run a task that is for any thread or for its own, and whose fiber is
-- not running. The tasks schedule nothing and change no other fiber, and nothing else happens meanwhile.
pub drain-keep :
    (fuel me : ℕ) (running ends over : ℕ → Bool) (tasks : List Task)
    → length tasks ≤ fuel
    → drain fuel me running ends over tasks ≡ (
        if all_resume ends over (keep (may_run me running) tasks)
        then some (keep (may_run me running) tasks, keep (λ t. not (may_run me running t)) tasks)
        else none)
unfolding drain
drain-keep zero me running ends over [] h = unfold keep all_resume in refl
drain-keep zero me running ends over (t ∷ ts) h = absurd (omega arith)
drain-keep (suc fuel) me running ends over tasks h =
    go (take_task me running tasks false) (take_task-Served me running tasks false)
      (λ o rest k. drain-keep fuel me running ends o rest k)
  where
    step :
        (t : Task) (xs ys : List Task) (b c : Bool)
        → (if b then none else ran_first t (if c then some (xs, ys) else none))
          ≡ (if (if b then false else c) then some (t ∷ xs, ys) else none)
    step t xs ys true c = refl
    step t xs ys false true = refl
    step t xs ys false false = refl

    go :
        (r : Option Task × List Task × Bool)
        → Served (may_run me running) tasks r
        → ((o : ℕ → Bool) (rest : List Task)
            → length rest ≤ fuel
            → drain fuel me running ends o rest ≡ (
                if all_resume ends o (keep (may_run me running) rest)
                then some
                    (keep (may_run me running) rest, keep (λ t. not (may_run me running t)) rest)
                else none))
        → elim r.0 as (λ _. Option (List Task × List Task)) [
          | none ↦ some ([], r.1)
          | some t ↦
              (if is_over over t
                then none
                else ran_first t (drain fuel me running ends (ended ends t over) r.1))
        ]
          ≡ (if all_resume ends over (keep (may_run me running) tasks)
              then some
                  (keep (may_run me running) tasks, keep (λ t. not (may_run me running t)) tasks)
              else none)
    go (none, rest, k) s f = rw (s.0, s.1) (unfold all_resume in refl)
    go (some t, rest, k) s f =
        rw (s.0, s.1, f (ended ends t over) rest (omega arith))
          (unfold all_resume in
            step t (keep (may_run me running) rest) (keep (λ u. not (may_run me running u)) rest)
              (is_over over t)
              (all_resume ends (ended ends t over) (keep (may_run me running) rest)))
