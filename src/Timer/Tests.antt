-- ===== src/Timer/Tests.antt =====
-- The theorems about the timers (gudov/timer.cpp) at a concrete manager.
use gudov.Common.{◌≡◌, refl, arith, [], some, none}
use gudov.Common.{true, false, sub64-eq_sub}
use gudov.Timer.{TimerManager, plain, conditional, has_callback}
use gudov.Timer.{add_timer, insert_timer}
use gudov.Timer.{list_expired_callbacks, rolled_over}
use gudov.Timer.Valid.{IsValid, add_timer-IsValid}
use gudov.Timer.Laws.Expire.{list_expired_callbacks-IsValid}

abbrev bare : TimerManager
bare = record {
  heap = λ a. record { recurring = false; ms = 0; next = 0; callback = none };
  timers = [];
  tickled = false;
  previous_time = 5000000;
}

bare-IsValid : IsValid bare
unfolding has_callback
bare-IsValid = record { sorted = tt; live = λ a i. absurd i; registered = λ a e. absurd (cc) }

-- A timer that recurs, and one that does not.
abbrev one : TimerManager
one = (add_timer 5000000 1 50 (some (plain 7)) true bare).0

abbrev two : TimerManager
two = (add_timer 5000000 2 20 (some (conditional 3 8)) false one).0

one-IsValid : IsValid one
unfolding has_callback
one-IsValid = (add_timer-IsValid bare 5000000 1 50 (plain 7) true bare-IsValid refl).0

second_free : has_callback (one.heap 2) ≡ false
unfolding has_callback add_timer insert_timer
second_free = refl

two-IsValid : IsValid two
two-IsValid = (add_timer-IsValid one 5000000 2 20 (conditional 3 8) false one-IsValid second_free).0

list_expired_callbacks-IsValid_example : IsValid (list_expired_callbacks 5000060 9 two).0
list_expired_callbacks-IsValid_example = list_expired_callbacks-IsValid two 5000060 9 two-IsValid

gone_back : rolled_over 1000000 two.previous_time ≡ true
unfolding rolled_over add_timer insert_timer
gone_back = rw (sub64-eq_sub 5000000 3600000 (omega arith) (omega arith)) refl
