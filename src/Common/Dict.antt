-- ===== src/Common/Dict.antt =====
-- std::map with text keys: a list in the order of the keys. `fold` is what the comparison sees of a key:
-- the key itself, or its lower-case form under CaseInsensitiveLess.
use gudov.Common.Tests.{if◌then◌else◌, Bool-cases}
use gudov.Common.Text.{Bytes, bytes_eq, bytes_eq→eq, lex}
use mathlib.Core.Path.{◌≡◌, refl}
use mathlib.Core.Logic.{inl, inr}
use mathlib.Core.Bool.{Bool, false}
use mathlib.Core.List.{List, [], ◌∷◌}
use mathlib.Core.Option.{Option, none, some}

abbrev pub Dict {ℓ} : Type ℓ → Type ℓ
Dict V = List (Bytes × V)

-- The keys of std::map with operator<
abbrev pub exact : Bytes → Bytes
exact s = s

abbrev pub same_key : (Bytes → Bytes) → Bytes → Bytes → Bool
same_key fold j k = bytes_eq (fold j) (fold k)

module _ {ℓ} {V : Type ℓ} (fold : Bytes → Bytes) where
  -- find
  unfoldable pub find : Bytes → Dict V → Option V
  find k [] = none
  find k ((j, v) ∷ m) = if same_key fold j k then some v else find k m

  -- `m[k] = v`: a key that is there stays as it is spelled.
  unfoldable pub put : Bytes → V → Dict V → Dict V
  put k v [] = (k, v) ∷ []
  put k v ((j, w) ∷ m) =
      if same_key fold j k
      then (j, v) ∷ m
      else if lex (fold k) (fold j)
      then (k, v) ∷ (j, w) ∷ m
      else (j, w) ∷ put k v m

  -- erase of a key
  unfoldable pub remove : Bytes → Dict V → Dict V
  remove k [] = []
  remove k ((j, w) ∷ m) = if same_key fold j k then remove k m else (j, w) ∷ remove k m

  pub find-put :
      (k j : Bytes) (v : V) (m : Dict V)
      → find j (put k v m) ≡ (if same_key fold k j then some v else find j m)
  unfolding find put
  find-put k j v [] = refl
  find-put k j v ((i, w) ∷ m) = elim (Bool-cases (same_key fold i k)) [
    | inl t ↦
        let e : fold i ≡ fold k = bytes_eq→eq (fold i) (fold k) t in
        rw (t, e) (elim (Bool-cases (same_key fold k j)) [ inl u ↦ rw u refl | inr u ↦ rw u refl ])
    | inr t ↦ elim (Bool-cases (lex (fold k) (fold i))) [
      | inl u ↦ rw (t, u) refl
      | inr u ↦ rw (t, u, find-put k j v m) (apart t)
    ]
  ]
    where
      apart :
          same_key fold i k ≡ false
          → (if same_key fold i j then some w else (if same_key fold k j then some v else find j m))
            ≡ (if same_key fold k j
                then some v
                else (if same_key fold i j then some w else find j m))
      apart t = elim (Bool-cases (same_key fold k j)) [
        | inr u ↦ rw u refl
        | inl u ↦
            let e : fold k ≡ fold j = bytes_eq→eq (fold k) (fold j) u in
            let f : same_key fold i j ≡ false = rw (← e) t in rw (u, f) refl
      ]

  pub find-remove :
      (k j : Bytes) (m : Dict V)
      → find j (remove k m) ≡ (if same_key fold k j then none else find j m)
  unfolding find remove
  find-remove k j [] = elim (Bool-cases (same_key fold k j)) [
    | inl u ↦ rw u refl
    | inr u ↦ rw u refl
  ]
  find-remove k j ((i, w) ∷ m) = elim (Bool-cases (same_key fold i k)) [
    | inl t ↦
        let e : fold i ≡ fold k = bytes_eq→eq (fold i) (fold k) t in
        rw (t, e, find-remove k j m)
          (elim (Bool-cases (same_key fold k j)) [ inl u ↦ rw u refl | inr u ↦ rw u refl ])
    | inr t ↦ elim (Bool-cases (same_key fold k j)) [
      | inl u ↦
          let e : fold k ≡ fold j = bytes_eq→eq (fold k) (fold j) u in
          let f : same_key fold i j ≡ false = rw (← e) t in rw (t, f, find-remove k j m, u) refl
      | inr u ↦ rw (t, find-remove k j m, u) refl
    ]
  ]
