-- ===== src/IoManager.antt =====
-- gudov/iomanager.h, gudov/iomanager.cpp: the contexts of the file descriptors and their events.
-- `events` of an FdContext is its two bits, READ and WRITE. What ctx.scheduler->Schedule is given is
-- appended to `scheduled`. epoll_ctl is an argument of each call, which answers whether it failed. A
-- method holds the locks it needs, so it is one step; a file descriptor is not negative. The assertions of
-- AddEvent stop the process before the table has 2 ^ 31 contexts, so that the others find in it what its
-- length says.
pub mod Valid
pub mod Laws
pub mod Loop
pub mod Add
pub mod Tests
use gudov.Common.{
  ℕ, ◌+◌, ◌-◌, ◌/◌, ◌%◌, ◌^◌, Bool, true, false, not, ◌&&◌, ◌||◌, Option, none, some,
}
use gudov.Common.{
  List, [], ◌∷◌, ◌++◌, length, get_elem?, set, take, replicate, ltb, leb, if◌then◌else◌, sub64,
}

pub data Event : Type 0 where
  no_event read_event write_event : Event

pub data EpollOp : Type 0 where
  epoll_ctl_add epoll_ctl_mod epoll_ctl_del : EpollOp

pub record EventContext : Type 0 where
  pub scheduler : Option ℕ
  pub fiber : Option ℕ
  pub callback : Option ℕ

pub record FdContext : Type 0 where
  pub read : EventContext
  pub write : EventContext
  pub has_read : Bool
  pub has_write : Bool

-- What a scheduler is given to run.
pub data Task : Type 0 where
  run_callback : ℕ → ℕ → Task
  run_fiber : ℕ → Option ℕ → Task

pub record IoManager : Type 0 where
  pub fd_contexts : List FdContext
  pub pending_event_cnt : ℕ
  pub scheduled : List Task

-- A call returns, or an assertion fails, or a null scheduler is used.
pub data Outcome {ℓ} (A : Type ℓ) : Type ℓ where
  returns : A → Outcome A
  assert_failed : Outcome A
  null_deref : Outcome A

-- epoll_ctl(epfd_, op, fd, {READ, WRITE}) failed.
abbrev pub EpollCtl : Type 0
EpollCtl = EpollOp → ℕ → Bool → Bool → Bool

abbrev pub no_context : EventContext
no_context = record { scheduler = none; fiber = none; callback = none }

abbrev pub new_context : FdContext
new_context = record { read = no_context; write = no_context; has_read = false; has_write = false }

-- `events & event`, `events | event`, `events & ~event`
unfoldable pub has_event : Event → FdContext → Bool
has_event no_event c = false
has_event read_event c = c.has_read
has_event write_event c = c.has_write

unfoldable pub with_event : Event → FdContext → FdContext
with_event no_event c = c
with_event read_event c = record c { has_read = true }
with_event write_event c = record c { has_write = true }

unfoldable pub without_event : Event → FdContext → FdContext
without_event no_event c = c
without_event read_event c = record c { has_read = false }
without_event write_event c = record c { has_write = false }

unfoldable pub any_event : FdContext → Bool
any_event c = c.has_read || c.has_write

-- GetContext; `none` is its failing assertion.
unfoldable pub get_context : Event → FdContext → Option EventContext
get_context no_event c = none
get_context read_event c = some c.read
get_context write_event c = some c.write

unfoldable pub put_context : Event → EventContext → FdContext → FdContext
put_context no_event e c = c
put_context read_event e c = record c { read = e }
put_context write_event e c = record c { write = e }

-- `if (ctx.callback) … else …` of TriggerEvent
unfoldable pub task_of : ℕ → EventContext → Task
task_of s e = elim e.callback [ none ↦ run_fiber s e.fiber | some f ↦ run_callback s f ]

unfoldable pub trigger_event : Event → FdContext → Outcome (FdContext × Task)
trigger_event event c =
    if has_event event c
    then elim (get_context event (without_event event c)) [
      | none ↦ assert_failed
      | some e ↦ elim e.scheduler [
        | none ↦ null_deref
        | some s ↦ returns (put_context event no_context (without_event event c), task_of s e)
      ]
    ]
    else assert_failed

unfoldable pub context_resize : ℕ → List FdContext → List FdContext
context_resize size cs = take size cs ++ replicate (size - length cs) new_context

-- The contexts that the constructor makes.
unfoldable pub new_io_manager : IoManager
new_io_manager = record {
  fd_contexts = context_resize 32 [];
  pending_event_cnt = 0;
  scheduled = [];
}

-- `(int)size > fd`: the lowest 32 bits of the size, which are a negative int from 2 ^ 31 on
unfoldable pub above : ℕ → ℕ → Bool
above size fd = let low : ℕ = size % 2 ^ 32 in if ltb low (2 ^ 31) then ltb fd low else false

-- The table with a context for `fd`, after ContextResize(fd * 1.5) if it has none; `none` is the failed
-- assertion behind it.
unfoldable pub context_for : ℕ → List FdContext → Option (List FdContext)
context_for fd cs =
    let grown = context_resize (fd + fd / 2) cs in
    if above (length cs) fd then some cs else if above (length grown) fd then some grown else none

unfoldable pub is_empty : EventContext → Bool
is_empty e = elim e.scheduler [
  | some s ↦ false
  | none ↦ elim e.fiber [ some f ↦ false | none ↦ elim e.callback [ some c ↦ false | none ↦ true ] ]
]

-- The context that AddEvent fills, with the callback or else the running fiber.
unfoldable pub filled : Option ℕ → ℕ → Option ℕ → EventContext
filled s running callback = elim callback [
  | some f ↦ record { scheduler = s; fiber = none; callback = some f }
  | none ↦ record { scheduler = s; fiber = some running; callback = none }
]

-- The last assertion of AddEvent, which it makes without a callback: that the fiber is Running
abbrev pub may_wait : Bool → Option ℕ → Bool
may_wait is_running none = is_running
may_wait is_running (some f) = true

-- AddEvent(fd, event, callback) in fiber `running`, whose state is Running or not; `s` is what
-- Scheduler::GetScheduler() answers, `none` being a null pointer. The result true is 0, false is -1.
unfoldable pub add_event_to :
    EpollCtl
    → ℕ
    → Event
    → Option ℕ
    → ℕ
    → Bool
    → Option ℕ
    → FdContext
    → IoManager
    → Outcome (IoManager × Bool)
add_event_to epoll_ctl fd event s running is_running callback c m =
    if has_event event c
    then assert_failed
    else if epoll_ctl (if any_event c then epoll_ctl_mod else epoll_ctl_add) fd
        (with_event event c).has_read (with_event event c).has_write
    then returns (m, false)
    else elim (get_context event c) [
      | none ↦ assert_failed
      | some e ↦
          if is_empty e && may_wait is_running callback
          then returns (
            record m {
              fd_contexts =
                  set m.fd_contexts fd
                    (put_context event (filled s running callback) (with_event event c));
              pending_event_cnt = (m.pending_event_cnt + 1) % 2 ^ 64;
            },
            true,
          )
          else assert_failed
    ]

unfoldable pub add_event :
    EpollCtl → ℕ → Event → Option ℕ → ℕ → Bool → Option ℕ → IoManager → Outcome (IoManager × Bool)
add_event epoll_ctl fd event s running is_running callback m = elim (context_for fd m.fd_contexts) [
  | none ↦ assert_failed
  | some cs ↦ elim (get_elem? cs fd) [
    | none ↦ assert_failed
    | some c ↦
        add_event_to epoll_ctl fd event s running is_running callback c
          (record m { fd_contexts = cs })
  ]
]

-- `new_events ? EPOLL_CTL_MOD : EPOLL_CTL_DEL`
unfoldable pub op_left : FdContext → EpollOp
op_left c = if any_event c then epoll_ctl_mod else epoll_ctl_del

unfoldable pub del_event : EpollCtl → ℕ → Event → IoManager → Outcome (IoManager × Bool)
del_event epoll_ctl fd event m = elim (get_elem? m.fd_contexts fd) [
  | none ↦ returns (m, false)
  | some c ↦
      let left = without_event event c in
      if not (has_event event c)
      then returns (m, false)
      else if epoll_ctl (op_left left) fd left.has_read left.has_write
      then returns (m, false)
      else returns (
        record m {
          fd_contexts = set m.fd_contexts fd (put_context event no_context left);
          pending_event_cnt = sub64 m.pending_event_cnt 1;
        },
        true,
      )
]

-- TriggerEvent(event) on the context of `fd`, and `--pending_event_cnt_`
unfoldable pub trigger : ℕ → Event → FdContext → IoManager → Outcome (IoManager × FdContext)
trigger fd event c m = elim (trigger_event event c) [
  | returns (c', t) ↦ returns (
    record m {
      fd_contexts = set m.fd_contexts fd c';
      pending_event_cnt = sub64 m.pending_event_cnt 1;
      scheduled = m.scheduled ++ (t ∷ []);
    },
    c',
  )
  | assert_failed ↦ assert_failed
  | null_deref ↦ null_deref
]

-- `if (mask & event) { TriggerEvent(event); --pending_event_cnt_; }`
unfoldable pub trigger_if :
    Bool → ℕ → Event → IoManager × FdContext → Outcome (IoManager × FdContext)
trigger_if true fd event (m, c) = trigger fd event c m
trigger_if false fd event (m, c) = returns (m, c)

abbrev pub and_then {ℓ κ} : {A : Type ℓ} {B : Type κ} → Outcome A → (A → Outcome B) → Outcome B
and_then (returns a) f = f a
and_then assert_failed f = assert_failed
and_then null_deref f = null_deref

unfoldable pub cancel_event : EpollCtl → ℕ → Event → IoManager → Outcome (IoManager × Bool)
cancel_event epoll_ctl fd event m = elim (get_elem? m.fd_contexts fd) [
  | none ↦ returns (m, false)
  | some c ↦
      let left = without_event event c in
      if not (has_event event c)
      then returns (m, false)
      else if epoll_ctl (op_left left) fd left.has_read left.has_write
      then returns (m, false)
      else and_then (trigger fd event c m) (λ (m', c'). returns (m', true))
]

unfoldable pub cancel_all : EpollCtl → ℕ → IoManager → Outcome (IoManager × Bool)
cancel_all epoll_ctl fd m = elim (get_elem? m.fd_contexts fd) [
  | none ↦ returns (m, false)
  | some c ↦
      if not (any_event c)
      then returns (m, false)
      else if epoll_ctl epoll_ctl_del fd false false
      then returns (m, false)
      else and_then (trigger_if c.has_read fd read_event (m, c)) (λ p.
        and_then (trigger_if p.1.has_write fd write_event p)
          (λ (m', c'). if any_event c' then assert_failed else returns (m', true)))
]

-- What epoll_wait reports of a file descriptor.
pub record Reported : Type 0 where
  pub epoll_in : Bool
  pub epoll_out : Bool
  pub epoll_err : Bool
  pub epoll_hup : Bool

-- `real_events`, with the events that an error adds
unfoldable pub real_read : Reported → FdContext → Bool
real_read r c = r.epoll_in || ((r.epoll_err || r.epoll_hup) && c.has_read)

unfoldable pub real_write : Reported → FdContext → Bool
real_write r c = r.epoll_out || ((r.epoll_err || r.epoll_hup) && c.has_write)

-- One round of the loop of Idle over the reported events, for a file descriptor's context
unfoldable pub handle_event : EpollCtl → ℕ → Reported → FdContext → IoManager → Outcome IoManager
handle_event epoll_ctl fd r c m =
    let left_read = c.has_read && not (real_read r c) in
    let left_write = c.has_write && not (real_write r c) in
    if not ((c.has_read && real_read r c) || (c.has_write && real_write r c))
    then returns m
    else if epoll_ctl (if left_read || left_write then epoll_ctl_mod else epoll_ctl_del) fd
        left_read left_write
    then returns m
    else and_then (trigger_if (real_read r c) fd read_event (m, c))
        (λ p. and_then (trigger_if (real_write r c) fd write_event p) (λ (m', c'). returns m'))
