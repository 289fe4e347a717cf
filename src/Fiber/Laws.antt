-- ===== src/Fiber/Laws.antt =====
-- Whose code runs after Resume and Yield (gudov/fiber.cpp) of the fibers of one thread.
use gudov.Common.{
  ℕ, ◌≡◌, refl, ap, ◌∙◌, arith, inl, inr, Bool-cases, true, ◌||◌, false, some, ◌==◌, ==_refl, ==→eq,
  if◌then◌else◌,
}
use gudov.Fiber.{State, term, running, ready, Thread, continues, put_fiber, put_saved, swapcontext}
use gudov.Fiber.{other_side, resume, yield, yielded, is_state}

-- The thread after Resume of `f`, whose other side is `s`
abbrev resumed : Thread → ℕ → ℕ → Thread
resumed t f s =
    swapcontext s f
      (record (put_fiber f (record (t.fibers f) { state = running }) t) { running_fiber = some f })

-- The thread after Yield of `f`, which it leaves in a state
abbrev left_in : State → Thread → ℕ → ℕ → Thread
left_in state t f s =
    swapcontext f s (record (put_fiber f (record (t.fibers f) { state = state }) t) {
      running_fiber = t.thread_fiber;
    })

abbrev left_by : Thread → ℕ → ℕ → Thread
left_by = left_in ready

resume-resumed :
    (t : Thread) (f s : ℕ)
    → (t.fibers f).state ≡ ready
    → other_side f t ≡ some s
    → resume f t ≡ continues (resumed t f s)
unfolding resume
resume-resumed t f s e o = rw (e, o, resume) refl

yield-left_by :
    (t : Thread) (f s : ℕ)
    → (t.fibers f).state ≡ running
    → other_side f t ≡ some s
    → yield f t ≡ continues (left_by t f s)
unfolding yield yielded
yield-left_by t f s e o =
    let may : (is_state (t.fibers f).state running || is_state (t.fibers f).state term) ≡ true =
      rw e refl in
    let done : yield f t ≡ continues (left_in (yielded (t.fibers f).state) t f s) =
      rw (may, o, yield) refl in
    done ∙ ap (λ st. continues (left_in st t f s)) (ap yielded e)

state_self :
    (t : Thread) (f : ℕ) (state : State)
    → ((put_fiber f (record (t.fibers f) { state = state }) t).fibers f).state ≡ state
unfolding put_fiber
state_self t f state = rw (==_refl f) refl

state_other :
    (t : Thread) (f g : ℕ) (state : State)
    → (g == f) ≡ false
    → ((put_fiber f (record (t.fibers f) { state = state }) t).fibers g).state ≡ (t.fibers g).state
unfolding put_fiber
state_other t f g state h = rw h refl

-- A change of state leaves the side of every fiber.
other_side-put_fiber :
    (t : Thread) (f g : ℕ) (state : State)
    → other_side g (put_fiber f (record (t.fibers f) { state = state }) t) ≡ other_side g t
unfolding put_fiber other_side
other_side-put_fiber t f g state = elim (Bool-cases (g == f)) [
  | inl e ↦ rw (e, ==→eq g f e) refl
  | inr e ↦ rw e refl
]

other_side-resumed : (t : Thread) (f s g : ℕ) → other_side g (resumed t f s) ≡ other_side g t
unfolding swapcontext put_saved other_side
other_side-resumed t f s g = other_side-put_fiber t f g running

other_side-left_by : (t : Thread) (f s g : ℕ) → other_side g (left_by t f s) ≡ other_side g t
unfolding swapcontext put_saved other_side
other_side-left_by t f s g = other_side-put_fiber t f g ready

control-resumed :
    (t : Thread) (f s : ℕ) → (resumed t f s).control ≡ (if f == s then t.control else t.saved f)
unfolding put_fiber swapcontext put_saved
control-resumed t f s = refl

saved-resumed :
    (t : Thread) (f s g : ℕ) → (resumed t f s).saved g ≡ (if g == s then t.control else t.saved g)
unfolding put_fiber swapcontext put_saved
saved-resumed t f s g = refl

control-left_by :
    (t : Thread) (f s : ℕ) → (left_by t f s).control ≡ (if s == f then t.control else t.saved s)
unfolding put_fiber swapcontext put_saved
control-left_by t f s = refl

saved-left_by :
    (t : Thread) (f s g : ℕ) → (left_by t f s).saved g ≡ (if g == f then t.control else t.saved g)
unfolding put_fiber swapcontext put_saved
saved-left_by t f s g = refl

-- What the other side's context continues after Resume: the code that called it
saved-resumed_side : (t : Thread) (f s : ℕ) → (resumed t f s).saved s ≡ t.control
saved-resumed_side t f s = saved-resumed t f s s ∙ rw (==_refl s) refl

-- Resume of a ready fiber continues the code that its context was left at, whoever calls it; and when the
-- fiber then yields, control comes back to the code that called Resume, be that the other side of the fiber
-- or another fiber, and the context of the fiber is left at the code that yielded, for the next Resume. The
-- other side must be another fiber than the one resumed.
pub yield-resume :
    (t : Thread) (f s : ℕ)
    → (t.fibers f).state ≡ ready
    → other_side f t ≡ some s
    → (s == f) ≡ false
    → (t1 : Thread) × (t2 : Thread) × (resume f t ≡ continues t1)
      × (t1.control ≡ t.saved f)
      × (yield f t1 ≡ continues t2)
      × (t2.control ≡ t.control)
      × (t2.saved f ≡ t1.control)
      × ((t2.fibers f).state ≡ ready)
yield-resume t f s e o apart =
    let t1 = resumed t f s in
    let back : (f == s) ≡ false = ground arith in
    (
      t1,
      left_by t1 f s,
      resume-resumed t f s e o,
      control-resumed t f s ∙ rw back refl,
      yield-left_by t1 f s (unfold swapcontext put_saved in state_self t f running)
          (other_side-resumed t f s f ∙ o),
      control-left_by t1 f s ∙ rw apart (saved-resumed_side t f s),
      saved-left_by t1 f s f ∙ rw (==_refl f) refl,
      unfold swapcontext put_saved in state_self t1 f ready,
    )

-- A fiber that resumes another one with the same other side does not come back to its own resumer: the
-- second Resume overwrites the context that the first one saved for it. When the inner fiber has yielded,
-- and the outer one yields then, control is at the code of the outer one again, where it had resumed the
-- inner one.
yield-resume_nested :
    (t : Thread) (f g s : ℕ)
    → (t.fibers f).state ≡ ready
    → (t.fibers g).state ≡ ready
    → other_side f t ≡ some s
    → other_side g t ≡ some s
    → (s == f) ≡ false
    → (s == g) ≡ false
    → (g == f) ≡ false
    → (t1 : Thread) × (t2 : Thread) × (t3 : Thread) × (t4 : Thread) × (resume f t ≡ continues t1)
      × (resume g t1 ≡ continues t2)
      × (yield g t2 ≡ continues t3)
      × (t3.control ≡ t1.control)
      × (yield f t3 ≡ continues t4)
      × (t4.control ≡ t1.control)
yield-resume_nested t f g s e e' o o' a b c =
    let d : (f == g) ≡ false = ground arith in
    let t1 = resumed t f s in
    let t2 = resumed t1 g s in
    let t3 = left_by t2 g s in
    let side1 = other_side-resumed t f s in
    let side2 : (h : ℕ) → other_side h t2 ≡ other_side h t =
      λ h. other_side-resumed t1 g s h ∙ side1 h in
    (
      t1,
      t2,
      t3,
      left_by t3 f s,
      resume-resumed t f s e o,
      resume-resumed t1 g s (unfold swapcontext put_saved in (state_other t f g running c ∙ e'))
          (side1 g ∙ o'),
      yield-left_by t2 g s (unfold swapcontext put_saved in state_self t1 g running) (side2 g ∙ o'),
      control-left_by t2 g s ∙ rw b (saved-resumed_side t1 g s),
      yield-left_by t3 f s
          (unfold swapcontext put_saved in
            (state_other t2 g f ready d ∙ state_other t1 g f running d ∙ state_self t f running))
          (other_side-left_by t2 g s f ∙ side2 f ∙ o),
      control-left_by t3 f s ∙ rw a (saved-left_by t2 g s s ∙ rw b (saved-resumed_side t1 g s)),
    )
