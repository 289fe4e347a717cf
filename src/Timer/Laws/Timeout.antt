-- ===== src/Timer/Laws/Timeout.antt =====
-- TimerManager::GetNextTimeout and DetectClockRollover (gudov/timer.cpp).
use gudov.Common.{ℕ, ◌+◌, ◌-◌, ◌^◌, ◌≤◌, ◌<◌, ◌≡◌, ◌⊎◌, inl, inr, refl, arith}
use gudov.Common.{
  All, List, [], ◌∷◌, ltb, leb, if◌then◌else◌, Bool-cases, sub64-eq_sub, sub64_wraps,
}
use gudov.Timer.{Heap, TimerManager, get_next_timeout, no_timeout, rolled_over}
use gudov.Timer.Order.{In, Sorted}
use gudov.Timer.Valid.{IsValid}
use gudov.Timer.Expiry.{Sorted-From}

no_less :
    (h : Heap) (now t : ℕ) (xs : List ℕ) (k : ℕ)
    → t ≤ k - now
    → All (λ y. k ≤ (h y).next) xs
    → All (λ c. t ≤ (h c).next - now) xs
no_less h now t [] k e f = tt
no_less h now t (x ∷ xs) k e f = (omega (arith, f.0), no_less h now t xs k e f.1)

-- In a valid manager GetNextTimeout answers ~0ull when there is no timer; otherwise it is the time to
-- the earliest timer: some timer's remaining time (0 when it is past) is the answer, and no timer has
-- less left.
get_next_timeout_least :
    (m : TimerManager) (now : ℕ)
    → IsValid m
    → ((m.timers ≡ []) × ((get_next_timeout now m).1 ≡ no_timeout))
      ⊎ ((b : ℕ) × In b m.timers
          × ((get_next_timeout now m).1 ≡ (m.heap b).next - now)
          × All (λ c. (get_next_timeout now m).1 ≤ (m.heap c).next - now) m.timers)
unfolding get_next_timeout
get_next_timeout_least m now v = least m.timers v.sorted
  where
    least :
        (xs : List ℕ)
        → Sorted m.heap xs
        → ((xs ≡ [])
            × ((elim xs [
              | [] ↦ no_timeout
              | a ∷ rest ↦ if leb (m.heap a).next now then 0 else (m.heap a).next - now
            ])
                ≡ no_timeout))
          ⊎ ((b : ℕ) × In b xs
              × ((elim xs [
                | [] ↦ no_timeout
                | a ∷ rest ↦ if leb (m.heap a).next now then 0 else (m.heap a).next - now
              ])
                  ≡ (m.heap b).next - now)
              × All
                  (λ c.
                    (elim xs [
                      | [] ↦ no_timeout
                      | a ∷ rest ↦ if leb (m.heap a).next now then 0 else (m.heap a).next - now
                    ])
                    ≤ (m.heap c).next - now)
                  xs)
    least [] s = inl (refl, refl)
    least (x ∷ xs) s = inr (
      x,
      inl refl,
      ground arith,
      (
        ground arith,
        no_less m.heap now (if leb (m.heap x).next now then 0 else (m.heap x).next - now) xs
            (m.heap x).next (ground arith)
            (Sorted-From m.heap x (m.heap x).next xs (omega arith) s),
      ),
    )

-- DetectClockRollover, for clocks below 2 ^ 64: when the previous time is an hour or more it sees a
-- rollover exactly when the clock went back by more than an hour; when it is less than an hour, the
-- subtraction wraps and any step back counts as one.
rolled_over-lt :
    (now previous : ℕ)
    → previous < 2 ^ 64
    → ((3600000 ≤ previous) × (rolled_over now previous ≡ ltb (now + 3600000) previous))
      ⊎ ((previous < 3600000) × (rolled_over now previous ≡ ltb now previous))
unfolding rolled_over
rolled_over-lt now previous b = elim (Bool-cases (leb 3600000 previous)) [
  | inl t ↦
      let le : 3600000 ≤ previous = ground arith in
      inl (le, ground (arith, sub64-eq_sub previous 3600000 le b))
  | inr t ↦
      let lt : previous < 3600000 = ground arith in
      inr (lt, ground (arith, sub64_wraps previous 3600000 lt (omega arith)))
]
