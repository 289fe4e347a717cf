-- ===== src/Timer/Expiry.antt =====
-- ListExpiredCallbacks (gudov/timer.cpp): what is due, and what becomes of it.
use gudov.Common.{ℕ, suc, ◌≤◌, ◌≡◌, ◌≢◌, ◌⊎◌, inl, inr, refl, sym, ap, subst, arith, ◌∙◌}
use gudov.Common.{
  true, false, ◌&&◌, ◌||◌, List, [], ◌∷◌, ◌++◌, map, All, ltb, leb, ◌==◌, if◌then◌else◌,
}
use gudov.Common.{Bool-cases, ==→eq}
use gudov.Timer.{Timer, Heap, insert, less, has_callback, rearm}
use gudov.Timer.{rearmed, rearm_heap, rearm_set, before_bound, from_bound, while_at, after_at}
use gudov.Timer.Order.{In, Sorted, Sorted-update, insert-Sorted, In-insert_self}
use gudov.Timer.Order.{In-insert, In-insert_inv}
use gudov.Timer.Valid.{update_self, update_ne}

-- The timers whose time has come, and the others, in order.
unfoldable pub due : Heap → ℕ → List ℕ → List ℕ
due h now [] = []
due h now (x ∷ xs) = if leb (h x).next now then x ∷ due h now xs else due h now xs

unfoldable pub later : Heap → ℕ → List ℕ → List ℕ
later h now [] = []
later h now (x ∷ xs) = if leb (h x).next now then later h now xs else x ∷ later h now xs

pub less-next : (h : Heap) (a b : ℕ) → less h a b ≡ true → (h a).next ≤ (h b).next
unfolding less
less-next h a b e = ground arith

abbrev pub From : Heap → ℕ → List ℕ → Type 0
From h t = All (λ y. t ≤ (h y).next)

pub Sorted-From :
    (h : Heap) (x t : ℕ) (xs : List ℕ) → t ≤ (h x).next → Sorted h (x ∷ xs) → From h t xs
Sorted-From h x t [] le s = tt
Sorted-From h x t (y ∷ ys) le s =
    let le' : t ≤ (h y).next = omega (arith, less-next h x y s.0.0) in
    (le', Sorted-From h y t ys le' s.1)

pub nothing_due :
    (h : Heap) (now : ℕ) (xs : List ℕ)
    → From h (suc now) xs
    → (due h now xs ≡ []) × (later h now xs ≡ xs)
unfolding due later
nothing_due h now [] f = (refl, refl)
nothing_due h now (x ∷ xs) f =
    let rest = nothing_due h now xs f.1 in
    let not_yet : leb (h x).next now ≡ false = ground (arith, f.0) in
    rw not_yet (rest.0, ap (◌∷◌ x) rest.1)

-- The walk past the timers of exactly `now`.
walk_due :
    (h : Heap) (now : ℕ) (xs : List ℕ)
    → Sorted h xs
    → From h now xs
    → (while_at h now xs ≡ due h now xs) × (after_at h now xs ≡ later h now xs)
unfolding while_at after_at due later
walk_due h now [] s f = (refl, refl)
walk_due h now (x ∷ xs) s f = elim (Bool-cases ((h x).next == now)) [
  | inl t ↦
      let rest = walk_due h now xs s.1 f.1 in
      let at : leb (h x).next now ≡ true = ground arith in rw (t, at) (ap (◌∷◌ x) rest.0, rest.1)
  | inr t ↦
      let past : suc now ≤ (h x).next = ground (arith, f.0) in
      let none_left = nothing_due h now xs (Sorted-From h x (suc now) xs past s) in
      let not_yet : leb (h x).next now ≡ false = ground arith in
      rw (t, not_yet) (sym none_left.0, ap (◌∷◌ x) (sym none_left.1))
]

-- lower_bound and the walk behind it cut an ordered set into what is due and what is not, whatever
-- address the temporary timer has.
pub cut_due :
    (h : Heap) (now a : ℕ) (xs : List ℕ)
    → Sorted h xs
    → (before_bound h now a xs ++ while_at h now (from_bound h now a xs) ≡ due h now xs)
      × (after_at h now (from_bound h now a xs) ≡ later h now xs)
unfolding before_bound from_bound due later
cut_due h now a [] s = unfold while_at after_at in (refl, refl)
cut_due h now a (x ∷ xs) s =
    elim (Bool-cases (ltb (h x).next now || ((h x).next == now && ltb x a))) [
      | inl t ↦
          let rest = cut_due h now a xs s.1 in
          let early : leb (h x).next now ≡ true = ground arith in
          rw (t, early) (ap (◌∷◌ x) rest.0, rest.1)
      | inr t ↦
          let reached : now ≤ (h x).next = ground arith in
          let walk = walk_due h now (x ∷ xs) s (reached, Sorted-From h x now xs reached s) in
          rw t (unfold due later in walk)
    ]

abbrev pub Distinct : List ℕ → Type 0
Distinct [] = Unit {0}
Distinct (x ∷ xs) = (¬ In x xs) × Distinct xs

-- The state of the loop over the expired timers: `set` is ordered, `xs` are still to come.
pub record Pending (h : Heap) (set xs : List ℕ) : Type 0 where
  pub sorted : Sorted h set
  pub distinct : Distinct xs
  pub apart : (b : ℕ) → In b xs → ¬ In b set
  pub live : (b : ℕ) → In b set → has_callback (h b) ≡ true
  pub waiting : (b : ℕ) → In b xs → has_callback (h b) ≡ true
  pub registered : (b : ℕ) → has_callback (h b) ≡ true → In b set ⊎ In b xs

rearm_heap_self : (now : ℕ) (h : Heap) (x : ℕ) → rearm_heap now h x x ≡ rearmed now (h x)
unfolding rearm_heap
rearm_heap_self now h x = update_self h x _

rearm_heap_ne : (now : ℕ) (h : Heap) (x b : ℕ) → b ≢ x → rearm_heap now h x b ≡ h b
unfolding rearm_heap
rearm_heap_ne now h x b n = update_ne h x b _ n

module _ (now : ℕ) (h : Heap) (set xs : List ℕ) (x : ℕ) (p : Pending h set (x ∷ xs)) where
  not_x : (b : ℕ) → In b xs → b ≢ x
  not_x b i e = p.distinct.0 (subst (λ c. In c xs) e i)

  not-In-set : (b : ℕ) → In b set → b ≢ x
  not-In-set b i e = p.apart x (inl refl) (subst (λ c. In c set) e i)

  same_callback : (b : ℕ) → b ≢ x → has_callback (rearm_heap now h x b) ≡ has_callback (h b)
  same_callback b n = ap has_callback (rearm_heap_ne now h x b n)

  still-Sorted : Sorted (rearm_heap now h x) set
  still-Sorted = unfold rearm_heap in Sorted-update h x _ set (p.apart x (inl refl)) p.sorted

  rearm_recurring : (h x).recurring ≡ true → Pending (rearm_heap now h x) (rearm_set now h set x) xs
  unfolding rearm_set
  rearm_recurring r =
      let h' = rearm_heap now h x in
      let at : has_callback (h' x) ≡ true =
        ap has_callback (rearm_heap_self now h x)
        ∙ unfold rearmed in rw r (unfold has_callback in p.waiting x (inl refl)) in
      rw r (record {
        sorted = insert-Sorted h' x set still-Sorted;
        distinct = p.distinct.1;
        apart = λ b i j. elim (In-insert_inv h' x b set j) [
          | inl e ↦ not_x b i (sym e)
          | inr k ↦ p.apart b (inr i) k
        ];
        live = λ b j. elim (In-insert_inv h' x b set j) [
          | inl e ↦ subst (λ c. has_callback (h' c) ≡ true) e at
          | inr k ↦ same_callback b (not-In-set b k) ∙ p.live b k
        ];
        waiting = λ b i. same_callback b (not_x b i) ∙ p.waiting b (inr i);
        registered = λ b c. elim (Bool-cases (b == x)) [
          | inl e ↦
              inl
                (subst (λ d. In d (insert h' x set)) (sym (==→eq b x e)) (In-insert_self h' x set))
          | inr n ↦
              let apart : b ≢ x = ground arith in
              elim (p.registered b (sym (same_callback b apart) ∙ c)) [
                | inl j ↦ inl (In-insert h' x b set j)
                | inr (inl e) ↦ absurd (apart (sym e))
                | inr (inr k) ↦ inr k
              ]
        ];
      })

  rearm_once : (h x).recurring ≡ false → Pending (rearm_heap now h x) (rearm_set now h set x) xs
  unfolding rearm_set
  rearm_once r =
      let h' = rearm_heap now h x in
      let at : has_callback (h' x) ≡ false =
        ap has_callback (rearm_heap_self now h x)
        ∙ unfold rearmed in rw r (unfold has_callback in refl) in
      rw r (record {
        sorted = still-Sorted;
        distinct = p.distinct.1;
        apart = λ b i. p.apart b (inr i);
        live = λ b k. same_callback b (not-In-set b k) ∙ p.live b k;
        waiting = λ b i. same_callback b (not_x b i) ∙ p.waiting b (inr i);
        registered = λ b c. elim (Bool-cases (b == x)) [
          | inl e ↦
              let there : has_callback (h' x) ≡ true =
                subst (λ d. has_callback (h' d) ≡ true) (==→eq b x e) c in
              cc (at, there)
          | inr n ↦
              let apart : b ≢ x = ground arith in
              elim (p.registered b (sym (same_callback b apart) ∙ c)) [
                | inl j ↦ inl j
                | inr (inl e) ↦ absurd (apart (sym e))
                | inr (inr k) ↦ inr k
              ]
        ];
      })

  -- One round keeps the loop's invariant.
  rearm_step : Pending (rearm_heap now h x) (rearm_set now h set x) xs
  rearm_step = elim (Bool-cases (h x).recurring) [
    | inl r ↦ rearm_recurring r
    | inr r ↦ rearm_once r
  ]

-- The loop ends with an ordered set of all the timers that have a callback.
pub rearm-Pending :
    (now : ℕ) (h : Heap) (set xs : List ℕ)
    → Pending h set xs
    → Pending (rearm now h set xs).heap (rearm now h set xs).timers []
unfolding rearm
rearm-Pending now h set [] p = p
rearm-Pending now h set (x ∷ xs) p =
    rearm-Pending now (rearm_heap now h x) (rearm_set now h set x) xs (rearm_step now h set xs x p)

-- It collects the callbacks that the timers had before it, in their order.
pub rearm-callbacks :
    (now : ℕ) (h : Heap) (set xs : List ℕ)
    → Pending h set xs
    → (rearm now h set xs).callbacks ≡ map (λ a. (h a).callback) xs
unfolding rearm
rearm-callbacks now h set [] p = refl
rearm-callbacks now h set (x ∷ xs) p = ap (◌∷◌ (h x).callback) (
    rearm-callbacks now (rearm_heap now h x) (rearm_set now h set x) xs
      (rearm_step now h set xs x p)
    ∙ same xs p.distinct.0)
  where
    same :
        (ys : List ℕ)
        → ¬ In x ys
        → map (λ a. (rearm_heap now h x a).callback) ys ≡ map (λ a. (h a).callback) ys
    same [] n = refl
    same (y ∷ ys) n =
        let first : (rearm_heap now h x y).callback ≡ (h y).callback =
          ap (λ (t : Timer). t.callback) (rearm_heap_ne now h x y (λ e. n (inl e))) in
        ap (λ c. c ∷ map (λ a. (rearm_heap now h x a).callback) ys) first
        ∙ ap (◌∷◌ (h y).callback) (same ys (λ i. n (inr i)))

-- A timer that is not among them is left alone.
pub rearm_other :
    (now : ℕ) (h : Heap) (set xs : List ℕ) (b : ℕ) → ¬ In b xs → (rearm now h set xs).heap b ≡ h b
unfolding rearm
rearm_other now h set [] b n = refl
rearm_other now h set (x ∷ xs) b n =
    rearm_other now (rearm_heap now h x) (rearm_set now h set x) xs b (λ i. n (inr i))
    ∙ rearm_heap_ne now h x b (λ e. n (inl (sym e)))

-- What becomes of a timer among them.
pub rearm_fate :
    (now : ℕ) (h : Heap) (set xs : List ℕ) (b : ℕ)
    → Distinct xs
    → In b xs
    → (rearm now h set xs).heap b ≡ rearmed now (h b)
unfolding rearm
rearm_fate now h set [] b d i = absurd i
rearm_fate now h set (x ∷ xs) b d (inl e) =
    rearm_other now (rearm_heap now h x) (rearm_set now h set x) xs b
      (λ i. d.0 (subst (λ c. In c xs) (sym e) i))
    ∙ subst (λ c. rearm_heap now h x c ≡ rearmed now (h c)) e (rearm_heap_self now h x)
rearm_fate now h set (x ∷ xs) b d (inr i) =
    let n : b ≢ x = λ e. d.0 (subst (λ c. In c xs) e i) in
    rearm_fate now (rearm_heap now h x) (rearm_set now h set x) xs b d.1 i
    ∙ ap (rearmed now) (rearm_heap_ne now h x b n)
