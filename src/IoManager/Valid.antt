-- ===== src/IoManager/Valid.antt =====
-- The invariant of an IOManager's contexts (gudov/iomanager.cpp), and what TriggerEvent does to it.
use gudov.Common.{ℕ, suc, ◌+◌, ◌^◌, ◌≤◌, ◌<◌, ◌≡◌, refl, ap, subst, arith}
use gudov.Common.{Bool, true, false, some, none, List, [], ◌∷◌, ◌++◌, length, get_elem?, set, All}
use gudov.Common.{sub64, sub64-eq_sub, All-set, All-get_elem?, get_elem?-set_self, zero}
use gudov.IoManager.{
  Event, no_event, read_event, write_event, EventContext, FdContext, IoManager, Task, returns,
}
use gudov.IoManager.{
  no_context, has_event, without_event, get_context, put_context, task_of, trigger_event, trigger,
}

-- Whether the context says what to run.
unfoldable pub runnable : EventContext → Bool
runnable e = elim e.callback [
  | some f ↦ true
  | none ↦ elim e.fiber [ some f ↦ true | none ↦ false ]
]

-- A registered event has a scheduler and something to run; one that is not registered has nothing.
abbrev pub Slot : Bool → EventContext → Type 0
Slot true e = (s : ℕ) × (e.scheduler ≡ some s) × (runnable e ≡ true)
Slot false e = e ≡ no_context

pub record Coherent (c : FdContext) : Type 0 where
  pub reads : Slot c.has_read c.read
  pub writes : Slot c.has_write c.write

unfoldable pub bit : Bool → ℕ
bit true = 1
bit false = 0

-- The number of registered events.
unfoldable pub count : FdContext → ℕ
count c = bit c.has_read + bit c.has_write

abbrev pub total : List FdContext → ℕ
total [] = 0
total (c ∷ cs) = count c + total cs

-- Each context is coherent, and pending_event_cnt_ counts the registered events.
pub record IsValid (m : IoManager) : Type 0 where
  pub coherent : All Coherent m.fd_contexts
  pub pending_lem : m.pending_event_cnt ≡ total m.fd_contexts
  pub fits : m.pending_event_cnt < 2 ^ 64

total-set :
    (cs : List FdContext) (i : ℕ) (c c' : FdContext)
    → get_elem? cs i ≡ some c
    → total (set cs i c') + count c ≡ total cs + count c'
total-set [] i c c' e = absurd (cc)
total-set (x ∷ cs) zero c c' e = let same : count x ≡ count c = ap count (cc) in omega (arith, same)
total-set (x ∷ cs) (suc i) c c' e = omega (arith, total-set cs i c c' e)

-- One context is changed, and the count with it.
pub put-IsValid :
    (m : IoManager) (fd : ℕ) (c c' : FdContext) (n : ℕ) (tasks : List Task)
    → IsValid m
    → get_elem? m.fd_contexts fd ≡ some c
    → Coherent c'
    → n + count c ≡ m.pending_event_cnt + count c'
    → n < 2 ^ 64
    → IsValid (record m {
      fd_contexts = set m.fd_contexts fd c';
      pending_event_cnt = n;
      scheduled = tasks;
    })
put-IsValid m fd c c' n tasks v g h e b = record {
  coherent = All-set Coherent m.fd_contexts fd c' v.coherent h;
  pending_lem = omega (arith, total-set m.fd_contexts fd c c' g, v.pending_lem);
  fits = b;
}

pub Coherent-at :
    (m : IoManager) (fd : ℕ) (c : FdContext)
    → IsValid m
    → get_elem? m.fd_contexts fd ≡ some c
    → Coherent c
Coherent-at m fd c v g = All-get_elem? Coherent m.fd_contexts fd c g v.coherent

pub count-le-total :
    (cs : List FdContext) (i : ℕ) (c : FdContext) → get_elem? cs i ≡ some c → count c ≤ total cs
count-le-total [] i c e = absurd (cc)
count-le-total (x ∷ cs) zero c e =
    let same : count x ≡ count c = ap count (cc) in omega (arith, same)
count-le-total (x ∷ cs) (suc i) c e = omega (arith, count-le-total cs i c e)

-- The context after its event is taken away.
abbrev pub cleared : Event → FdContext → FdContext
cleared event c = put_context event no_context (without_event event c)

pub cleared-Coherent : (event : Event) (c : FdContext) → Coherent c → Coherent (cleared event c)
unfolding put_context without_event
cleared-Coherent no_event c h = h
cleared-Coherent read_event c h = record { reads = refl; writes = h.writes }
cleared-Coherent write_event c h = record { reads = h.reads; writes = refl }

pub count-cleared :
    (event : Event) (c : FdContext)
    → has_event event c ≡ true
    → suc (count (cleared event c)) ≡ count c
unfolding has_event put_context without_event count bit
count-cleared no_event c e = absurd (cc)
count-cleared read_event c e = rw e (omega arith)
count-cleared write_event c e = rw e (omega arith)

-- The scheduler and the task of a registered event.
pub record Armed (event : Event) (c : FdContext) : Type 0 where
  pub slot : EventContext
  pub scheduler : ℕ
  pub at : get_context event c ≡ some slot
  pub bound : slot.scheduler ≡ some scheduler
  pub runs : runnable slot ≡ true

armed : (event : Event) (c : FdContext) → Coherent c → has_event event c ≡ true → Armed event c
unfolding has_event get_context
armed no_event c h e = absurd (cc)
armed read_event c h e =
    let (s, b, r) = subst (λ t. Slot t c.read) e h.reads in
    record { slot = c.read; scheduler = s; at = refl; bound = b; runs = r }
armed write_event c h e =
    let (s, b, r) = subst (λ t. Slot t c.write) e h.writes in
    record { slot = c.write; scheduler = s; at = refl; bound = b; runs = r }

get_context-without_event :
    (event : Event) (c : FdContext)
    → get_context event (without_event event c) ≡ get_context event c
unfolding get_context without_event
get_context-without_event no_event c = refl
get_context-without_event read_event c = refl
get_context-without_event write_event c = refl

-- TriggerEvent of a registered event of a coherent context.
trigger_event-returns :
    (event : Event) (c : FdContext)
    → has_event event c ≡ true
    → (a : Armed event c)
    → trigger_event event c ≡ returns (cleared event c, task_of a.scheduler a.slot)
unfolding trigger_event task_of
trigger_event-returns event c e a = rw (e, get_context-without_event event c, a.at, a.bound) refl

trigger-returns :
    (m : IoManager) (fd : ℕ) (event : Event) (c : FdContext)
    → has_event event c ≡ true
    → (a : Armed event c)
    → trigger fd event c m
      ≡ returns (
        record m {
          fd_contexts = set m.fd_contexts fd (cleared event c);
          pending_event_cnt = sub64 m.pending_event_cnt 1;
          scheduled = m.scheduled ++ (task_of a.scheduler a.slot ∷ []);
        },
        cleared event c,
      )
unfolding trigger
trigger-returns m fd event c e a = rw (trigger_event-returns event c e a, trigger) refl

pub record Triggered (m : IoManager) (fd : ℕ) (event : Event) (c : FdContext) : Type 0 where
  pub state : IoManager
  pub task : Task
  pub runs : trigger fd event c m ≡ returns (state, cleared event c)
  pub valid : IsValid state
  pub at : get_elem? state.fd_contexts fd ≡ some (cleared event c)
  pub scheduled : state.scheduled ≡ m.scheduled ++ (task ∷ [])
  pub pending : state.pending_event_cnt + 1 ≡ m.pending_event_cnt

pub triggered :
    (m : IoManager) (fd : ℕ) (event : Event) (c : FdContext)
    → IsValid m
    → get_elem? m.fd_contexts fd ≡ some c
    → has_event event c ≡ true
    → Triggered m fd event c
triggered m fd event c v g e =
    let h = Coherent-at m fd c v g in
    let a = armed event c h e in
    let fewer = count-cleared event c e in
    let some_pending : 1 ≤ m.pending_event_cnt =
      omega (arith, fewer, count-le-total m.fd_contexts fd c g, v.pending_lem) in
    let less_one = sub64-eq_sub m.pending_event_cnt 1 some_pending v.fits in
    record {
      state = _;
      task = task_of a.scheduler a.slot;
      runs = trigger-returns m fd event c e a;
      valid =
          put-IsValid m fd c (cleared event c) (sub64 m.pending_event_cnt 1) _ v g
            (cleared-Coherent event c h) (omega (arith, less_one, fewer))
            (omega (arith, less_one, v.fits));
      at = get_elem?-set_self m.fd_contexts fd (cleared event c) (within m.fd_contexts fd c g);
      scheduled = refl;
      pending = omega (arith, less_one);
    }
  where
    within : (cs : List FdContext) (i : ℕ) (x : FdContext) → get_elem? cs i ≡ some x → i < length cs
    within [] i x k = absurd (cc)
    within (y ∷ ys) zero x k = omega arith
    within (y ∷ ys) (suc i) x k = omega (arith, within ys i x k)
