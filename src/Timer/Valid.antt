-- ===== src/Timer/Valid.antt =====
-- The invariant of a TimerManager (gudov/timer.cpp) and the methods of Timer: the set is ordered, and holds
-- exactly the timers that have a callback.
use gudov.Common.{ℕ, ◌+◌, ◌%◌, ◌^◌, ◌≡◌, ◌≢◌, ◌⊎◌, inl, inr, refl, sym, ap, subst, arith, ◌∙◌}
use gudov.Common.{Bool, true, false, not, ◌&&◌, ◌||◌, List, [], ◌∷◌, All, ◌==◌, Bool-cases}
use gudov.Common.{some, none, ==_refl, ==→eq}
use gudov.Timer.{Timer, Heap, TimerManager, Callback, ok, update, insert, erase}
use gudov.Timer.{has_callback, insert_timer, new_timer, add_timer, cancel, refresh, reset}
use gudov.Timer.Order.{In, Sorted, Sorted-update, Sorted-same, insert-Sorted, In-insert_self}
use gudov.Timer.Order.{In-insert, In-insert_inv, found-In, erase-Sorted, In-erase, In-erase_inv}

pub record IsValid (m : TimerManager) : Type 0 where
  pub sorted : Sorted m.heap m.timers
  pub live : (a : ℕ) → In a m.timers → has_callback (m.heap a) ≡ true
  pub registered : (a : ℕ) → has_callback (m.heap a) ≡ true → In a m.timers

pub update_self : (h : Heap) (a : ℕ) (t : Timer) → update h a t a ≡ t
update_self h a t = rw (==_refl a)

pub update_ne : (h : Heap) (a b : ℕ) (t : Timer) → b ≢ a → update h a t b ≡ h b
update_ne h a b t n = ground arith

-- Putting back a timer that is not in the set, with a new state of its own.
rearmed-IsValid :
    (m : TimerManager) (a : ℕ) (t : Timer) (xs : List ℕ) (tickled : Bool)
    → Sorted m.heap xs
    → ¬ In a xs
    → ((b : ℕ) → In b xs → has_callback (m.heap b) ≡ true)
    → ((b : ℕ) → has_callback (m.heap b) ≡ true → (b ≡ a) ⊎ In b xs)
    → has_callback t ≡ true
    → IsValid (record m {
      heap = update m.heap a t;
      timers = insert (update m.heap a t) a xs;
      tickled = tickled;
    })
rearmed-IsValid m a t xs tickled sorted out live registered some_callback =
    let h = update m.heap a t in
    record {
      sorted = insert-Sorted h a xs (Sorted-update m.heap a t xs out sorted);
      live = λ b i. elim (In-insert_inv h a b xs i) [
        | inl e ↦ subst (λ c. has_callback (h c) ≡ true) e (self h refl)
        | inr j ↦
            let n : b ≢ a = λ e. out (subst (λ c. In c xs) e j) in
            ap has_callback (update_ne m.heap a b t n) ∙ live b j
      ];
      registered = λ b c. elim (Bool-cases (b == a)) [
        | inl e ↦ subst (λ d. In d (insert h a xs)) (sym (==→eq b a e)) (In-insert_self h a xs)
        | inr n ↦
            let apart : b ≢ a = ground arith in
            elim (registered b (ap has_callback (sym (update_ne m.heap a b t apart)) ∙ c)) [
              | inl e ↦ absurd (apart e)
              | inr j ↦ In-insert h a b xs j
            ]
      ];
    }
  where
    self : (h : Heap) → h ≡ update m.heap a t → has_callback (h a) ≡ true
    self h e = rw e (ap has_callback (update_self m.heap a t) ∙ some_callback)

-- AddTimer keeps the manager valid; the new timer's address must not be in use, and its callback not
-- be empty.
pub add_timer-IsValid :
    (m : TimerManager) (now a ms : ℕ) (c : Callback) (recurring : Bool)
    → IsValid m
    → has_callback (m.heap a) ≡ false
    → IsValid (add_timer now a ms (some c) recurring m).0
      × In a (add_timer now a ms (some c) recurring m).0.timers
unfolding add_timer insert_timer
add_timer-IsValid m now a ms c recurring v fresh =
    let t = new_timer now ms (some c) recurring in
    (
      rearmed-IsValid m a t m.timers _ v.sorted (λ i. cc (v.live a i, fresh)) v.live
          (λ b e. inr (v.registered b e)) (unfold new_timer has_callback in refl),
      In-insert_self (update m.heap a t) a m.timers,
    )

-- Taking a timer out of the set leaves the rest of it as it was.
erase_out : (m : TimerManager) (a : ℕ) → IsValid m → ¬ In a (erase m.heap a m.timers)
erase_out m a v i = (In-erase_inv m.heap a a m.timers v.sorted i).1 refl

-- Refresh and Reset: a registered timer is taken out, changed, and put back.
put_back-IsValid :
    (m : TimerManager) (a : ℕ) (t : Timer) (tickled : Bool)
    → IsValid m
    → has_callback t ≡ true
    → IsValid (record m {
      heap = update m.heap a t;
      timers = insert (update m.heap a t) a (erase m.heap a m.timers);
      tickled = tickled;
    })
put_back-IsValid m a t tickled v e =
    rearmed-IsValid m a t (erase m.heap a m.timers) tickled
      (erase-Sorted m.heap a m.timers v.sorted) (erase_out m a v)
      (λ b i. v.live b (In-erase_inv m.heap a b m.timers v.sorted i).0)
      (λ b c. elim (Bool-cases (b == a)) [
        | inl same ↦ inl (==→eq b a same)
        | inr n ↦ inr (In-erase m.heap a b m.timers (v.registered b c) (ground arith))
      ])
      e

-- Refresh of a timer of a valid manager leaves a valid manager and returns whether the timer has a
-- callback. If it has, it is armed at now plus its period; if not, nothing is changed.
refresh-IsValid :
    (m : TimerManager) (now a : ℕ)
    → IsValid m
    → IsValid (refresh now a m).0
      × ((refresh now a m).1 ≡ has_callback (m.heap a))
      × (((has_callback (m.heap a) ≡ true)
            × (((refresh now a m).0.heap a).next ≡ (now + (m.heap a).ms) % 2 ^ 64))
          ⊎ ((has_callback (m.heap a) ≡ false) × ((refresh now a m).0 ≡ m)))
unfolding refresh
refresh-IsValid m now a v = elim (Bool-cases (has_callback (m.heap a))) [
  | inl t ↦
      rw (t, found-In m.heap a m.timers v.sorted (v.registered a t))
        (
          put_back-IsValid m a _ m.tickled v (unfold has_callback in t),
          refl,
          inl (refl, ap (λ (u : Timer). u.next) (update_self m.heap a _)),
        )
  | inr t ↦ rw t (v, refl, inr (refl, refl))
]

-- Reset gives a registered timer the new period, counted from now or from when it was armed, and
-- keeps the set ordered. It returns whether the timer is registered, and true where nothing changes.
reset-IsValid :
    (m : TimerManager) (now a ms : ℕ) (from_now : Bool)
    → IsValid m
    → IsValid (reset now a ms from_now m).0
      × ((reset now a ms from_now m).1
          ≡ ((ms == (m.heap a).ms && not from_now) || has_callback (m.heap a)))
unfolding reset insert_timer
reset-IsValid m now a ms from_now v = elim (Bool-cases (ms == (m.heap a).ms && not from_now)) [
  | inl same ↦ rw same (v, refl)
  | inr other ↦ elim (Bool-cases (has_callback (m.heap a))) [
    | inl t ↦
        rw (other, t, found-In m.heap a m.timers v.sorted (v.registered a t))
          (put_back-IsValid m a _ _ v (unfold has_callback in t), refl)
    | inr t ↦ rw (other, t) (v, refl)
  ]
]

In-All : {P : ℕ → Type 0} (xs : List ℕ) → ((b : ℕ) → In b xs → P b) → All P xs
In-All [] f = tt
In-All (x ∷ xs) f = (f x (inl refl), In-All xs (λ b i. f b (inr i)))

-- Cancel on a valid manager never erases the end of the set: it returns whether the timer had a
-- callback and leaves a valid manager whose set has every timer but that one.
cancel-IsValid :
    (m : TimerManager) (a : ℕ)
    → IsValid m
    → (m' : TimerManager) × (cancel a m ≡ ok (m', has_callback (m.heap a)))
      × IsValid m'
      × (¬ In a m'.timers)
      × All (λ b. (b ≡ a) ⊎ In b m'.timers) m.timers
unfolding cancel
cancel-IsValid m a v = elim (Bool-cases (has_callback (m.heap a))) [
  | inl t ↦
      rw (t, found-In h a m.timers sorted (v.registered a t))
        (
          record m { heap = h; timers = erase h a m.timers },
          refl,
          taken,
          gone,
          In-All m.timers kept_in,
        )
  | inr t ↦ rw t (m, refl, v, (λ i. cc (v.live a i, t)), In-All m.timers (λ b i. inr i))
]
  where
    t' : Timer
    t' = record (m.heap a) { callback = none }

    h : Heap
    h = update m.heap a t'

    sorted : Sorted h m.timers
    sorted = Sorted-same m.heap a t' m.timers refl v.sorted

    gone : ¬ In a (erase h a m.timers)
    gone i = (In-erase_inv h a a m.timers sorted i).1 refl

    others : (b : ℕ) → b ≢ a → In b m.timers → In b (erase h a m.timers)
    others b n i = In-erase h a b m.timers i n

    kept_in : (b : ℕ) → In b m.timers → (b ≡ a) ⊎ In b (erase h a m.timers)
    kept_in b i = elim (Bool-cases (b == a)) [
      | inl e ↦ inl (==→eq b a e)
      | inr n ↦ inr (others b (ground arith) i)
    ]

    taken : IsValid (record m { heap = h; timers = erase h a m.timers })
    taken = record {
      sorted = erase-Sorted h a m.timers sorted;
      live = λ b i.
          let (j, n) = In-erase_inv h a b m.timers sorted i in
          ap has_callback (update_ne m.heap a b t' n) ∙ v.live b j;
      registered = λ b c. elim (Bool-cases (b == a)) [
        | inl e ↦
            let none_left : has_callback t' ≡ false = unfold has_callback in refl in
            let at : h b ≡ t' = ap h (==→eq b a e) ∙ update_self m.heap a t' in
            let f : false ≡ true = sym none_left ∙ ap has_callback (sym at) ∙ c in cc
        | inr n ↦
            let apart : b ≢ a = ground arith in
            others b apart
              (v.registered b (ap has_callback (sym (update_ne m.heap a b t' apart)) ∙ c))
      ];
    }
