-- ===== src/Timer/Laws/Expire.antt =====
-- What TimerManager::ListExpiredCallbacks (gudov/timer.cpp) does to the timers.
use gudov.Common.{ℕ, ◌≡◌, ◌⊎◌, inl, inr, refl, sym, ap, subst, arith, ◌∙◌}
use gudov.Common.{Bool, true, false, ◌||◌, List, [], ◌∷◌, map, if◌then◌else◌}
use gudov.Common.{Bool-cases, Option, ◌==◌, ==→eq}
use gudov.Timer.{Heap, TimerManager, Callback, rearm, rearmed, expired, kept, expire}
use gudov.Timer.{list_expired_callbacks, detect_clock_rollover, rolled_over, is_due, has_timer}
use gudov.Timer.Order.{In}
use gudov.Timer.Valid.{IsValid}
use gudov.Timer.Expiry.{
  due, later, cut_due, Pending, rearm-Pending, rearm-callbacks, rearm_other, rearm_fate,
}
use gudov.Timer.Laws.{start, start_all, finished}

expired-due :
    (m : TimerManager) (now a : ℕ)
    → IsValid m
    → expired m.heap now a false m.timers ≡ due m.heap now m.timers
unfolding expired
expired-due m now a v = (cut_due m.heap now a m.timers v.sorted).0

kept-later :
    (m : TimerManager) (now a : ℕ)
    → IsValid m
    → kept m.heap now a false m.timers ≡ later m.heap now m.timers
unfolding kept
kept-later m now a v = (cut_due m.heap now a m.timers v.sorted).1

-- The two ways the loop is entered.
expire-due :
    (m : TimerManager) (now a : ℕ)
    → IsValid m
    → expire now a false m ≡ (
        let r = rearm now m.heap (later m.heap now m.timers) (due m.heap now m.timers) in
        (record m { heap = r.heap; timers = r.timers }, r.callbacks))
unfolding expire
expire-due m now a v = rw (expired-due m now a v, kept-later m now a v)

expire_all :
    (m : TimerManager) (now a : ℕ)
    → expire now a true m ≡ (
        let r = rearm now m.heap [] m.timers in
        (record m { heap = r.heap; timers = r.timers }, r.callbacks))
unfolding expire expired kept
expire_all m now a = refl

stamped : (m : TimerManager) (now : ℕ) → IsValid m → IsValid (record m { previous_time = now })
stamped m now v = record { sorted = v.sorted; live = v.live; registered = v.registered }

expire-IsValid :
    (m : TimerManager) (now a : ℕ) (roll_over : Bool)
    → IsValid m
    → IsValid (expire now a roll_over m).0
expire-IsValid m now a true v =
    subst (λ (r : TimerManager × List (Option Callback)). IsValid r.0) (sym (expire_all m now a))
      (finished m _ _ (rearm-Pending now m.heap [] m.timers (start_all m v)))
expire-IsValid m now a false v =
    subst (λ (r : TimerManager × List (Option Callback)). IsValid r.0) (sym (expire-due m now a v))
      (finished m _ _ (
        rearm-Pending now m.heap (later m.heap now m.timers) (due m.heap now m.timers)
          (start m now v)))

-- ListExpiredCallbacks keeps the manager valid, also when the clock has gone back and every timer is
-- taken out.
pub list_expired_callbacks-IsValid :
    (m : TimerManager) (now a : ℕ) → IsValid m → IsValid (list_expired_callbacks now a m).0
unfolding list_expired_callbacks detect_clock_rollover
list_expired_callbacks-IsValid m now a v = elim (Bool-cases (has_timer m)) [
  | inr t ↦ rw t v
  | inl t ↦ elim (Bool-cases (rolled_over now m.previous_time || is_due m.heap now m.timers)) [
    | inl u ↦
        rw (t, u) (expire-IsValid (record m { previous_time = now }) now a _ (stamped m now v))
    | inr u ↦ rw (t, u) (stamped m now v)
  ]
]

no_timers : (m : TimerManager) → has_timer m ≡ false → m.timers ≡ []
unfolding has_timer
no_timers m e = empty m.timers e
  where
    empty : (xs : List ℕ) → (elim xs [ [] ↦ false | x ∷ ys ↦ true ]) ≡ false → xs ≡ []
    empty [] d = refl
    empty (x ∷ ys) d = absurd (cc)

-- The Boolean test of membership, to say which timers a call changes.
unfoldable pub member : ℕ → List ℕ → Bool
member b [] = false
member b (x ∷ xs) = if x == b then true else member b xs

member-cases :
    (b : ℕ) (xs : List ℕ) → ((member b xs ≡ true) × In b xs) ⊎ ((member b xs ≡ false) × (¬ In b xs))
unfolding member
member-cases b [] = inr (refl, λ i. i)
member-cases b (x ∷ xs) = elim (Bool-cases (x == b)) [
  | inl t ↦ inl (rw t refl, inl (==→eq x b t))
  | inr t ↦ elim (member-cases b xs) [
    | inl (e, i) ↦ inl (rw t e, inr i)
    | inr (e, n) ↦ inr (
      rw t e,
      λ i. elim i [
        | inl d ↦ absurd (let f : (x == b) ≡ true = ground (arith, d) in cc (f, t))
        | inr k ↦ n k
      ],
    )
  ]
]

-- What becomes of the timers `xs` that a call takes out of the set, and of the others.
pub record Fired (now : ℕ) (m m' : TimerManager) (callbacks : List (Option Callback)) (xs : List ℕ)
    : Type 0 where
  pub ran : callbacks ≡ map (λ b. (m.heap b).callback) xs
  pub fate : (b : ℕ) → m'.heap b ≡ (if member b xs then rearmed now (m.heap b) else m.heap b)

Fired-none :
    (m : TimerManager) (now previous : ℕ)
    → Fired now m (record m { previous_time = previous }) [] []
Fired-none m now previous = record { ran = refl; fate = λ b. unfold member in refl }

Fired-rearm :
    (m m' : TimerManager) (now : ℕ) (set xs : List ℕ)
    → Pending m.heap set xs
    → m'.heap ≡ (rearm now m.heap set xs).heap
    → Fired now m m' (rearm now m.heap set xs).callbacks xs
Fired-rearm m m' now set xs p e = record {
  ran = rearm-callbacks now m.heap set xs p;
  fate = λ b. ap (λ (h : Heap). h b) e ∙ elim (member-cases b xs) [
    | inl (t, i) ↦ rw t (rearm_fate now m.heap set xs b p.distinct i)
    | inr (t, n) ↦ rw t (rearm_other now m.heap set xs b n)
  ];
}

-- When the clock of a valid manager has rolled over, ListExpiredCallbacks returns the callbacks of all
-- the timers in the set; each of them is armed again or loses its callback, and every other timer is
-- left as it was.
list_expired_callbacks_rollover :
    (m : TimerManager) (now a : ℕ)
    → IsValid m
    → rolled_over now m.previous_time ≡ true
    → Fired now m (list_expired_callbacks now a m).0 (list_expired_callbacks now a m).1 m.timers
unfolding list_expired_callbacks detect_clock_rollover
list_expired_callbacks_rollover m now a v r = elim (Bool-cases (has_timer m)) [
  | inr t ↦ rw t (subst (Fired now m m []) (sym (no_timers m t)) (Fired-none m now m.previous_time))
  | inl t ↦
      rw (t, r)
        (subst (λ (p : TimerManager × List (Option Callback)). Fired now m p.0 p.1 m.timers)
          (sym (expire_all (record m { previous_time = now }) now a))
          (Fired-rearm m _ now [] m.timers (start_all m v) refl))
]
