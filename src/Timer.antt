-- ===== src/Timer.antt =====
-- gudov/timer.h, gudov/timer.cpp: timers and the manager that keeps them ordered.
-- A Timer::ptr is an address of `heap`, where the timers are shared and changed; `timers` is the
-- std::set of addresses, in the order of Timer::Comparator. The clock is an argument of each call, and
-- an address for a new timer is chosen by the caller. Each method runs under the manager's lock.
pub mod Order
pub mod Valid
pub mod Expiry
pub mod Laws
pub mod Tests
use gudov.Common.{ℕ, zero, suc, ◌+◌, ◌-◌, ◌*◌, ◌%◌, ◌^◌, Bool, true, false, not, ◌&&◌, ◌||◌}
use gudov.Common.{Option, none, some, List, [], ◌∷◌, ◌++◌, ltb, leb, ◌==◌, if◌then◌else◌, sub64}

-- A std::function; AddConditionTimer binds OnTimer to a weak pointer and a callback.
pub data Callback : Type 0 where
  plain : ℕ → Callback
  conditional : ℕ → ℕ → Callback

pub record Timer : Type 0 where
  pub recurring : Bool
  pub ms : ℕ
  pub next : ℕ
  pub callback : Option Callback

abbrev pub Heap : Type 0
Heap = ℕ → Timer

pub record TimerManager : Type 0 where
  pub heap : Heap
  pub timers : List ℕ
  pub tickled : Bool
  pub previous_time : ℕ

-- A call returns, or erases the end iterator, which is undefined.
pub data Result {ℓ} (A : Type ℓ) : Type ℓ where
  ok : A → Result A
  erase_end : Result A

abbrev pub update : Heap → ℕ → Timer → Heap
update h a t x = if x == a then t else h x

-- Timer::Comparator on pointers that are not null: by the time, then by the address.
unfoldable pub less : Heap → ℕ → ℕ → Bool
less h a b =
    if ltb (h a).next (h b).next then true else if ltb (h b).next (h a).next then false else ltb a b

-- std::set::insert: nothing is inserted beside an equivalent element.
unfoldable pub insert : Heap → ℕ → List ℕ → List ℕ
insert h a [] = a ∷ []
insert h a (x ∷ xs) =
    if less h a x then a ∷ x ∷ xs else if less h x a then x ∷ insert h a xs else x ∷ xs

-- std::set::find, as the test against end()
unfoldable pub found : Heap → ℕ → List ℕ → Bool
found h a [] = false
found h a (x ∷ xs) = if less h x a then found h a xs else not (less h a x)

-- std::set::erase of what find returned
unfoldable pub erase : Heap → ℕ → List ℕ → List ℕ
erase h a [] = []
erase h a (x ∷ xs) = if less h x a then x ∷ erase h a xs else if less h a x then x ∷ xs else xs

-- `it == timers_.begin()` for the element that insert returned
unfoldable pub is_first : ℕ → List ℕ → Bool
is_first a [] = false
is_first a (x ∷ xs) = x == a

-- AddTimer(val, lock): the manager, and whether OnTimerInsertedAtFront is called
unfoldable pub insert_timer : ℕ → TimerManager → TimerManager × Bool
insert_timer a m =
    let timers = insert m.heap a m.timers in
    let at_front = is_first a timers && not m.tickled in
    (record m { timers = timers; tickled = at_front || m.tickled }, at_front)

-- new Timer(ms, callback, recurring, manager)
unfoldable pub new_timer : ℕ → ℕ → Option Callback → Bool → Timer
new_timer now ms callback recurring = record {
  recurring = recurring;
  ms = ms;
  next = (now + ms) % 2 ^ 64;
  callback = callback;
}

-- AddTimer(ms, callback, recurring) with the new timer at address `a`
unfoldable pub add_timer : ℕ → ℕ → ℕ → Option Callback → Bool → TimerManager → TimerManager × Bool
add_timer now a ms callback recurring m =
    insert_timer a (record m { heap = update m.heap a (new_timer now ms callback recurring) })

unfoldable pub add_condition_timer : ℕ → ℕ → ℕ → ℕ → ℕ → Bool → TimerManager → TimerManager × Bool
add_condition_timer now a ms callback weak_cond recurring m =
    add_timer now a ms (some (conditional weak_cond callback)) recurring m

-- What running a callback calls, `alive` being what lock() finds of a weak pointer.
unfoldable pub fire : (ℕ → Bool) → Callback → Option ℕ
fire alive (plain c) = some c
fire alive (conditional w c) = if alive w then some c else none

unfoldable pub has_callback : Timer → Bool
has_callback t = elim t.callback [ none ↦ false | some c ↦ true ]

-- Timer::Cancel
unfoldable pub cancel : ℕ → TimerManager → Result (TimerManager × Bool)
cancel a m =
    if has_callback (m.heap a)
    then (let heap = update m.heap a (record (m.heap a) { callback = none }) in
        if found heap a m.timers
        then ok (record m { heap = heap; timers = erase heap a m.timers }, true)
        else erase_end)
    else ok (m, false)

-- Timer::Refresh
unfoldable pub refresh : ℕ → ℕ → TimerManager → TimerManager × Bool
refresh now a m =
    if has_callback (m.heap a) && found m.heap a m.timers
    then (let heap =
          update m.heap a (record (m.heap a) { next = (now + (m.heap a).ms) % 2 ^ 64 }) in
        (record m { heap = heap; timers = insert heap a (erase m.heap a m.timers) }, true))
    else (m, false)

-- Timer::Reset: the manager, the result, and whether OnTimerInsertedAtFront is called
unfoldable pub reset : ℕ → ℕ → ℕ → Bool → TimerManager → TimerManager × Bool × Bool
reset now a ms from_now m =
    if ms == (m.heap a).ms && not from_now
    then (m, true, false)
    else if has_callback (m.heap a) && found m.heap a m.timers
    then (let start = if from_now then now else sub64 (m.heap a).next (m.heap a).ms in
        let heap = update m.heap a (record (m.heap a) { ms = ms; next = (start + ms) % 2 ^ 64 }) in
        let (m', front) =
          insert_timer a (record m { heap = heap; timers = erase m.heap a m.timers }) in
        (m', true, front))
    else (m, false, false)

-- ~0ull
abbrev pub no_timeout : ℕ
no_timeout = 2 ^ 64 - 1

unfoldable pub get_next_timeout : ℕ → TimerManager → TimerManager × ℕ
get_next_timeout now m = (
  record m { tickled = false },
  elim m.timers [
    | [] ↦ no_timeout
    | a ∷ rest ↦ if leb (m.heap a).next now then 0 else (m.heap a).next - now
  ],
)

unfoldable pub has_timer : TimerManager → Bool
has_timer m = elim m.timers [ [] ↦ false | a ∷ rest ↦ true ]

-- DetectClockRollover; `previous_time_ - 60 * 60 * 1000` wraps.
unfoldable pub rolled_over : ℕ → ℕ → Bool
rolled_over now previous = ltb now previous && ltb now (sub64 previous 3600000)

unfoldable pub detect_clock_rollover : ℕ → TimerManager → TimerManager × Bool
detect_clock_rollover now m = (record m { previous_time = now }, rolled_over now m.previous_time)

-- timers_.lower_bound(now_timer) cuts the set in two; `a` is the address of now_timer.
unfoldable pub before_bound : Heap → ℕ → ℕ → List ℕ → List ℕ
before_bound h now a [] = []
before_bound h now a (x ∷ xs) =
    if ltb (h x).next now || ((h x).next == now && ltb x a) then x ∷ before_bound h now a xs else []

unfoldable pub from_bound : Heap → ℕ → ℕ → List ℕ → List ℕ
from_bound h now a [] = []
from_bound h now a (x ∷ xs) =
    if ltb (h x).next now || ((h x).next == now && ltb x a) then from_bound h now a xs else x ∷ xs

-- `while (it != timers_.end() && (*it)->next_ == now_ms) ++it;`
unfoldable pub while_at : Heap → ℕ → List ℕ → List ℕ
while_at h now [] = []
while_at h now (x ∷ xs) = if (h x).next == now then x ∷ while_at h now xs else []

unfoldable pub after_at : Heap → ℕ → List ℕ → List ℕ
after_at h now [] = []
after_at h now (x ∷ xs) = if (h x).next == now then after_at h now xs else x ∷ xs

-- The loop over the expired timers: the callbacks in order, the heap and the set.
pub record Rearmed : Type 0 where
  pub callbacks : List (Option Callback)
  pub heap : Heap
  pub timers : List ℕ

-- One timer of the loop: a recurring one is armed again and put back, another loses its callback.
unfoldable pub rearmed : ℕ → Timer → Timer
rearmed now t =
    if t.recurring then record t { next = (now + t.ms) % 2 ^ 64 } else record t { callback = none }

unfoldable pub rearm_heap : ℕ → Heap → ℕ → Heap
rearm_heap now h x = update h x (rearmed now (h x))

unfoldable pub rearm_set : ℕ → Heap → List ℕ → ℕ → List ℕ
rearm_set now h set x = if (h x).recurring then insert (rearm_heap now h x) x set else set

unfoldable pub rearm : ℕ → Heap → List ℕ → List ℕ → Rearmed
rearm now h set [] = record { callbacks = []; heap = h; timers = set }
rearm now h set (x ∷ xs) =
    let rest = rearm now (rearm_heap now h x) (rearm_set now h set x) xs in
    record rest { callbacks = (h x).callback ∷ rest.callbacks }

unfoldable pub is_due : Heap → ℕ → List ℕ → Bool
is_due h now [] = false
is_due h now (x ∷ xs) = leb (h x).next now

-- What is taken out of the set, and what stays.
unfoldable pub expired : Heap → ℕ → ℕ → Bool → List ℕ → List ℕ
expired h now a roll_over xs =
    if roll_over then xs else before_bound h now a xs ++ while_at h now (from_bound h now a xs)

unfoldable pub kept : Heap → ℕ → ℕ → Bool → List ℕ → List ℕ
kept h now a roll_over xs = if roll_over then [] else after_at h now (from_bound h now a xs)

unfoldable pub expire : ℕ → ℕ → Bool → TimerManager → TimerManager × List (Option Callback)
expire now a roll_over m =
    let r =
      rearm now m.heap (kept m.heap now a roll_over m.timers)
        (expired m.heap now a roll_over m.timers) in
    (record m { heap = r.heap; timers = r.timers }, r.callbacks)

-- ListExpiredCallbacks, with now_timer at address `a`
unfoldable pub list_expired_callbacks : ℕ → ℕ → TimerManager → TimerManager × List (Option Callback)
list_expired_callbacks now a m =
    let (m1, roll_over) = detect_clock_rollover now m in
    if not (has_timer m)
    then (m, [])
    else if roll_over || is_due m.heap now m.timers
    then expire now a roll_over m1
    else (m1, [])
