-- ===== src/Timer/Laws.antt =====
-- The timers that are due and those that are not, for ListExpiredCallbacks (gudov/timer.cpp).
pub mod Expire
pub mod Timeout
use gudov.Common.{
  ℕ, zero, suc, ◌+◌, ◌-◌, ◌%◌, ◌^◌, ◌≤◌, ◌<◌, ◌≡◌, ◌≢◌, ◌⊎◌, inl, inr, refl, sym, ap, subst, arith,
  ◌∙◌,
}
use gudov.Common.{
  Bool, true, false, not, ◌&&◌, ◌||◌, List, [], ◌∷◌, ◌++◌, map, All, ltb, leb, ◌==◌, if◌then◌else◌,
}
use gudov.Common.{Bool-cases, Option, some, none, sub64}
use gudov.Timer.{
  Timer, Heap, TimerManager, Callback, less, has_callback, rearm, rearmed, expired, kept, expire,
}
use gudov.Timer.{list_expired_callbacks, detect_clock_rollover, rolled_over, is_due, has_timer}
use gudov.Timer.{get_next_timeout, no_timeout}
use gudov.Timer.Order.{In, Sorted, All-In, less_irrefl}
use gudov.Timer.Valid.{IsValid}
use gudov.Timer.Expiry.{due, later, cut_due, Distinct, Pending, rearm-Pending, rearm-callbacks}
use gudov.Timer.Expiry.{rearm_other, rearm_fate, less-next, Sorted-From}

later-All : (P : ℕ → Type 0) (h : Heap) (now : ℕ) (xs : List ℕ) → All P xs → All P (later h now xs)
unfolding later
later-All P h now [] a = tt
later-All P h now (x ∷ xs) a = elim (Bool-cases (leb (h x).next now)) [
  | inl t ↦ rw t (later-All P h now xs a.1)
  | inr t ↦ rw t (a.0, later-All P h now xs a.1)
]

later-Sorted : (h : Heap) (now : ℕ) (xs : List ℕ) → Sorted h xs → Sorted h (later h now xs)
unfolding later
later-Sorted h now [] s = tt
later-Sorted h now (x ∷ xs) s = elim (Bool-cases (leb (h x).next now)) [
  | inl t ↦ rw t (later-Sorted h now xs s.1)
  | inr t ↦ rw t (later-All (λ y. less h x y ≡ true) h now xs s.0, later-Sorted h now xs s.1)
]

-- Every timer is due or not, and stands on one side only.
In-due : (h : Heap) (now b : ℕ) (xs : List ℕ) → In b (due h now xs) → In b xs × ((h b).next ≤ now)
unfolding due
In-due h now b [] i = absurd i
In-due h now b (x ∷ xs) i = elim (Bool-cases (leb (h x).next now)) [
  | inl t ↦
      let j : (x ≡ b) ⊎ In b (due h now xs) = rw t at i in
      elim j [
        | inl e ↦ (inl e, subst (λ c. (h c).next ≤ now) e (ground arith))
        | inr k ↦ let (l, le) = In-due h now b xs k in (inr l, le)
      ]
  | inr t ↦
      let j : In b (due h now xs) = rw t at i in let (l, le) = In-due h now b xs j in (inr l, le)
]

In-later :
    (h : Heap) (now b : ℕ) (xs : List ℕ) → In b (later h now xs) → In b xs × (now < (h b).next)
unfolding later
In-later h now b [] i = absurd i
In-later h now b (x ∷ xs) i = elim (Bool-cases (leb (h x).next now)) [
  | inl t ↦
      let j : In b (later h now xs) = rw t at i in
      let (l, lt) = In-later h now b xs j in (inr l, lt)
  | inr t ↦
      let j : (x ≡ b) ⊎ In b (later h now xs) = rw t at i in
      elim j [
        | inl e ↦ (inl e, subst (λ c. now < (h c).next) e (ground arith))
        | inr k ↦ let (l, lt) = In-later h now b xs k in (inr l, lt)
      ]
]

due_or_later :
    (h : Heap) (now b : ℕ) (xs : List ℕ)
    → In b xs
    → (In b (due h now xs) × ((h b).next ≤ now)) ⊎ (In b (later h now xs) × (now < (h b).next))
unfolding due later
due_or_later h now b [] i = absurd i
due_or_later h now b (x ∷ xs) (inl e) = elim (Bool-cases (leb (h x).next now)) [
  | inl t ↦ rw t (inl (inl e, subst (λ c. (h c).next ≤ now) e (ground arith)))
  | inr t ↦ rw t (inr (inl e, subst (λ c. now < (h c).next) e (ground arith)))
]
due_or_later h now b (x ∷ xs) (inr i) = elim (Bool-cases (leb (h x).next now)) [
  | inl t ↦
      rw t (elim (due_or_later h now b xs i) [ inl (j, le) ↦ inl (inr j, le) | inr k ↦ inr k ])
  | inr t ↦
      rw t (elim (due_or_later h now b xs i) [ inl k ↦ inl k | inr (j, lt) ↦ inr (inr j, lt) ])
]

Distinct-due : (h : Heap) (now : ℕ) (xs : List ℕ) → Sorted h xs → Distinct (due h now xs)
unfolding due
Distinct-due h now [] s = tt
Distinct-due h now (x ∷ xs) s = elim (Bool-cases (leb (h x).next now)) [
  | inl t ↦ rw t (alone, Distinct-due h now xs s.1)
  | inr t ↦ rw t (Distinct-due h now xs s.1)
]
  where
    alone : ¬ In x (due h now xs)
    alone i = cc (less_irrefl h x, All-In (λ y. less h x y ≡ true) xs x s.0 (In-due h now x xs i).0)

Sorted-Distinct : (h : Heap) (xs : List ℕ) → Sorted h xs → Distinct xs
Sorted-Distinct h [] s = tt
Sorted-Distinct h (x ∷ xs) s = (
  (λ i. cc (less_irrefl h x, All-In (λ y. less h x y ≡ true) xs x s.0 i)),
  Sorted-Distinct h xs s.1,
)

pub start :
    (m : TimerManager) (now : ℕ)
    → IsValid m
    → Pending m.heap (later m.heap now m.timers) (due m.heap now m.timers)
start m now v = record {
  sorted = later-Sorted m.heap now m.timers v.sorted;
  distinct = Distinct-due m.heap now m.timers v.sorted;
  apart = λ b i j.
      let (_, le) = In-due m.heap now b m.timers i in
      let (_, lt) = In-later m.heap now b m.timers j in absurd (omega arith);
  live = λ b j. v.live b (In-later m.heap now b m.timers j).0;
  waiting = λ b i. v.live b (In-due m.heap now b m.timers i).0;
  registered = λ b c. elim (due_or_later m.heap now b m.timers (v.registered b c)) [
    | inl (i, _) ↦ inr i
    | inr (j, _) ↦ inl j
  ];
}

pub start_all : (m : TimerManager) → IsValid m → Pending m.heap [] m.timers
start_all m v = record {
  sorted = tt;
  distinct = Sorted-Distinct m.heap m.timers v.sorted;
  apart = λ b i j. j;
  live = λ b j. absurd j;
  waiting = v.live;
  registered = λ b c. inr (v.registered b c);
}

pub finished :
    (m : TimerManager) (h : Heap) (xs : List ℕ)
    → Pending h xs []
    → IsValid (record m { heap = h; timers = xs })
finished m h xs p = record {
  sorted = p.sorted;
  live = p.live;
  registered = λ b c. elim (p.registered b c) [ inl j ↦ j | inr k ↦ absurd k ];
}
