-- ===== src/Timer/Order.antt =====
-- The order of the timers (Timer::Comparator, gudov/timer.cpp) and the set operations on it.
use gudov.Common.{ℕ, ◌≡◌, ◌≢◌, ◌⊎◌, inl, inr, refl, sym, subst, arith, ◌∙◌}
use gudov.Common.{true, false, List, [], ◌∷◌, All, Bool-cases}
use gudov.Timer.{Timer, Heap, update, less, insert, found, erase}

less_trans : (h : Heap) (a b c : ℕ) → less h a b ≡ true → less h b c ≡ true → less h a c ≡ true
unfolding less
less_trans h a b c p q = ground arith

less_asym : (h : Heap) (a b : ℕ) → less h a b ≡ true → less h b a ≡ false
unfolding less
less_asym h a b p = ground arith

pub less_irrefl : (h : Heap) (a : ℕ) → less h a a ≡ false
unfolding less
less_irrefl h a = ground arith

less_total : (h : Heap) (a b : ℕ) → less h a b ≡ false → less h b a ≡ false → a ≡ b
unfolding less
less_total h a b p q = ground arith

-- A change of one timer leaves the order of the others.
less-update :
    (h : Heap) (x : ℕ) (t : Timer) (a b : ℕ) → a ≢ x → b ≢ x → less (update h x t) a b ≡ less h a b
unfolding less
less-update h x t a b p q = ground arith

abbrev pub In : ℕ → List ℕ → Type 0
In a [] = ⊥
In a (x ∷ xs) = (x ≡ a) ⊎ In a xs

-- Strictly ascending, so no timer is in the set twice.
abbrev pub Sorted : Heap → List ℕ → Type 0
Sorted h [] = Unit {0}
Sorted h (x ∷ xs) = All (λ y. less h x y ≡ true) xs × Sorted h xs

pub All-In : (P : ℕ → Type 0) (xs : List ℕ) (b : ℕ) → All P xs → In b xs → P b
All-In P [] b h i = absurd i
All-In P (x ∷ xs) b h (inl e) = subst P e h.0
All-In P (x ∷ xs) b h (inr i) = All-In P xs b h.1 i

All-map : (P Q : ℕ → Type 0) (xs : List ℕ) → ((x : ℕ) → In x xs → P x → Q x) → All P xs → All Q xs
All-map P Q [] f h = tt
All-map P Q (x ∷ xs) f h = (f x (inl refl) h.0, All-map P Q xs (λ y i. f y (inr i)) h.1)

pub Sorted-update :
    (h : Heap) (x : ℕ) (t : Timer) (xs : List ℕ)
    → ¬ In x xs
    → Sorted h xs
    → Sorted (update h x t) xs
Sorted-update h x t [] n s = tt
Sorted-update h x t (y ∷ ys) n s = (
  All-map (λ z. less h y z ≡ true) (λ z. less (update h x t) y z ≡ true) ys
      (λ z i p.
        less-update h x t y z (λ e. n (inl e)) (λ e. n (inr (subst (λ w. In w ys) e i))) ∙ p)
      s.0,
  Sorted-update h x t ys (λ i. n (inr i)) s.1,
)

-- Nor does a change that keeps the timer's time.
less_same :
    (h : Heap) (x : ℕ) (t : Timer) (a b : ℕ)
    → t.next ≡ (h x).next
    → less (update h x t) a b ≡ less h a b
unfolding less
less_same h x t a b e = ground arith

pub Sorted-same :
    (h : Heap) (x : ℕ) (t : Timer) (xs : List ℕ)
    → t.next ≡ (h x).next
    → Sorted h xs
    → Sorted (update h x t) xs
Sorted-same h x t [] e s = tt
Sorted-same h x t (y ∷ ys) e s = (
  All-map (λ z. less h y z ≡ true) (λ z. less (update h x t) y z ≡ true) ys
      (λ z i p. less_same h x t y z e ∙ p) s.0,
  Sorted-same h x t ys e s.1,
)

insert-All :
    (P : ℕ → Type 0) (h : Heap) (a : ℕ) (xs : List ℕ) → P a → All P xs → All P (insert h a xs)
unfolding insert
insert-All P h a [] p q = (p, tt)
insert-All P h a (x ∷ xs) p q = elim (Bool-cases (less h a x)) [
  | inl t ↦ rw t (p, q)
  | inr t ↦ elim (Bool-cases (less h x a)) [
    | inl u ↦ rw (t, u) (q.0, insert-All P h a xs p q.1)
    | inr u ↦ rw (t, u) q
  ]
]

pub insert-Sorted : (h : Heap) (a : ℕ) (xs : List ℕ) → Sorted h xs → Sorted h (insert h a xs)
unfolding insert
insert-Sorted h a [] s = (tt, tt)
insert-Sorted h a (x ∷ xs) s = elim (Bool-cases (less h a x)) [
  | inl t ↦ rw t (
    (
      t,
      All-map (λ y. less h x y ≡ true) (λ y. less h a y ≡ true) xs (λ y i p. less_trans h a x y t p)
          s.0,
    ),
    s,
  )
  | inr t ↦ elim (Bool-cases (less h x a)) [
    | inl u ↦ rw (t, u) (insert-All (λ y. less h x y ≡ true) h a xs u s.0, insert-Sorted h a xs s.1)
    | inr u ↦ rw (t, u) s
  ]
]

-- What is in the set after an insertion.
pub In-insert_self : (h : Heap) (a : ℕ) (xs : List ℕ) → In a (insert h a xs)
unfolding insert
In-insert_self h a [] = inl refl
In-insert_self h a (x ∷ xs) = elim (Bool-cases (less h a x)) [
  | inl t ↦ rw t (inl refl)
  | inr t ↦ elim (Bool-cases (less h x a)) [
    | inl u ↦ rw (t, u) (inr (In-insert_self h a xs))
    | inr u ↦ rw (t, u) (inl (less_total h x a u t))
  ]
]

pub In-insert : (h : Heap) (a b : ℕ) (xs : List ℕ) → In b xs → In b (insert h a xs)
unfolding insert
In-insert h a b [] i = absurd i
In-insert h a b (x ∷ xs) i = elim (Bool-cases (less h a x)) [
  | inl t ↦ rw t (inr i)
  | inr t ↦ elim (Bool-cases (less h x a)) [
    | inl u ↦ rw (t, u) (elim i [ inl e ↦ inl e | inr j ↦ inr (In-insert h a b xs j) ])
    | inr u ↦ rw (t, u) i
  ]
]

pub In-insert_inv : (h : Heap) (a b : ℕ) (xs : List ℕ) → In b (insert h a xs) → (a ≡ b) ⊎ In b xs
unfolding insert
In-insert_inv h a b [] i = i
In-insert_inv h a b (x ∷ xs) i = elim (Bool-cases (less h a x)) [
  | inl t ↦ rw t at i
  | inr t ↦ elim (Bool-cases (less h x a)) [
    | inl u ↦
        let j : (x ≡ b) ⊎ In b (insert h a xs) = rw (t, u) at i in
        elim j [
          | inl e ↦ inr (inl e)
          | inr k ↦ elim (In-insert_inv h a b xs k) [ inl e ↦ inl e | inr l ↦ inr (inr l) ]
        ]
    | inr u ↦ let j : (x ≡ b) ⊎ In b xs = rw (t, u) at i in inr j
  ]
]

-- find works on an ordered set.
pub found-In : (h : Heap) (a : ℕ) (xs : List ℕ) → Sorted h xs → In a xs → found h a xs ≡ true
unfolding found
found-In h a [] s i = absurd i
found-In h a (x ∷ xs) s (inl e) = rw (e, less_irrefl h a)
found-In h a (x ∷ xs) s (inr i) =
    rw (All-In (λ y. less h x y ≡ true) xs a s.0 i) (found-In h a xs s.1 i)

In-found : (h : Heap) (a : ℕ) (xs : List ℕ) → found h a xs ≡ true → In a xs
unfolding found
In-found h a [] e = absurd (cc)
In-found h a (x ∷ xs) e = elim (Bool-cases (less h x a)) [
  | inl t ↦ inr (In-found h a xs (rw t at e))
  | inr t ↦ elim (Bool-cases (less h a x)) [
    | inl u ↦ absurd (let f : false ≡ true = rw (t, u) at e in cc)
    | inr u ↦ inl (less_total h x a t u)
  ]
]

-- What is in the set after an erasure.
erase-All : (P : ℕ → Type 0) (h : Heap) (a : ℕ) (xs : List ℕ) → All P xs → All P (erase h a xs)
unfolding erase
erase-All P h a [] q = tt
erase-All P h a (x ∷ xs) q = elim (Bool-cases (less h x a)) [
  | inl t ↦ rw t (q.0, erase-All P h a xs q.1)
  | inr t ↦ elim (Bool-cases (less h a x)) [ inl u ↦ rw (t, u) q | inr u ↦ rw (t, u) q.1 ]
]

pub erase-Sorted : (h : Heap) (a : ℕ) (xs : List ℕ) → Sorted h xs → Sorted h (erase h a xs)
unfolding erase
erase-Sorted h a [] s = tt
erase-Sorted h a (x ∷ xs) s = elim (Bool-cases (less h x a)) [
  | inl t ↦ rw t (erase-All (λ y. less h x y ≡ true) h a xs s.0, erase-Sorted h a xs s.1)
  | inr t ↦ elim (Bool-cases (less h a x)) [ inl u ↦ rw (t, u) s | inr u ↦ rw (t, u) s.1 ]
]

pub In-erase : (h : Heap) (a b : ℕ) (xs : List ℕ) → In b xs → b ≢ a → In b (erase h a xs)
unfolding erase
In-erase h a b [] i n = absurd i
In-erase h a b (x ∷ xs) i n = elim (Bool-cases (less h x a)) [
  | inl t ↦ rw t (elim i [ inl e ↦ inl e | inr j ↦ inr (In-erase h a b xs j n) ])
  | inr t ↦ elim (Bool-cases (less h a x)) [
    | inl u ↦ rw (t, u) i
    | inr u ↦ rw (t, u) (elim i [ inl e ↦ absurd (n (sym e ∙ less_total h x a t u)) | inr j ↦ j ])
  ]
]

pub In-erase_inv :
    (h : Heap) (a b : ℕ) (xs : List ℕ) → Sorted h xs → In b (erase h a xs) → In b xs × (b ≢ a)
unfolding erase
In-erase_inv h a b [] s i = absurd i
In-erase_inv h a b (x ∷ xs) s i = elim (Bool-cases (less h x a)) [
  | inl t ↦
      let j : (x ≡ b) ⊎ In b (erase h a xs) = rw t at i in
      elim j [
        | inl e ↦ (inl e, λ d. let same : x ≡ a = e ∙ d in different same t)
        | inr k ↦ let (l, n) = In-erase_inv h a b xs s.1 k in (inr l, n)
      ]
  | inr t ↦ elim (Bool-cases (less h a x)) [
    | inl u ↦
        let j : (x ≡ b) ⊎ In b xs = rw (t, u) at i in
        (j, λ d. not_here t u (subst (λ c. (x ≡ c) ⊎ In c xs) d j))
    | inr u ↦
        let j : In b xs = rw (t, u) at i in
        (
          inr j,
          λ d.
              let below : less h x b ≡ true = All-In (λ y. less h x y ≡ true) xs b s.0 j in
              let below_a : less h x a ≡ true = subst (λ c. less h x c ≡ true) d below in
              let f : false ≡ true = sym t ∙ below_a in cc,
        )
  ]
]
  where
    different : x ≡ a → less h x a ≡ true → ⊥
    different e t =
        let f : less h a a ≡ true = subst (λ y. less h y a ≡ true) e t in cc (f, less_irrefl h a)

    not_here : less h x a ≡ false → less h a x ≡ true → (x ≡ a) ⊎ In a xs → ⊥
    not_here t u (inl e) =
        let f : less h a a ≡ true = subst (λ y. less h a y ≡ true) e u in cc (f, less_irrefl h a)
    not_here t u (inr j) = cc (t, All-In (λ y. less h x y ≡ true) xs a s.0 j)
