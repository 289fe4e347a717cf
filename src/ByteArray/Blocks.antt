-- ===== src/ByteArray/Blocks.antt =====
-- Lemmas on memory seen flat: the blocks of a ByteArray (gudov/bytearray.h) one after the other.
use gudov.Common.{ℕ, zero, suc, ◌+◌, ◌*◌, ◌≤◌, ◌<◌, ◌≡◌, refl, ap, sym, ◌∙◌, arith}
use gudov.Common.{some, List, [], ◌∷◌, ◌++◌, append_assoc}
use gudov.Common.{length, get_elem?, set, take, drop, All, length-append}
use gudov.ByteArray.{Cell, Node}
use gudov.ByteArray.Cursor.{overwrite}

module _ {ℓ} {A : Type ℓ} where
  pub length-overwrite :
      (xs : List A) (k : ℕ) (bs : List A) → length (overwrite xs k bs) ≡ length xs
  unfolding overwrite
  length-overwrite [] k bs = refl
  length-overwrite (x ∷ xs) zero [] = refl
  length-overwrite (x ∷ xs) zero (b ∷ bs) = ap suc (length-overwrite xs zero bs)
  length-overwrite (x ∷ xs) (suc k) bs = ap suc (length-overwrite xs k bs)

  overwrite_nothing : (xs : List A) (k : ℕ) → overwrite xs k [] ≡ xs
  unfolding overwrite
  overwrite_nothing [] k = refl
  overwrite_nothing (x ∷ xs) zero = refl
  overwrite_nothing (x ∷ xs) (suc k) = ap (◌∷◌ x) (overwrite_nothing xs k)

  -- Two writes one behind the other are one.
  pub overwrite-overwrite :
      (xs : List A) (p q : ℕ) (cs bs : List A)
      → q ≡ p + length cs
      → overwrite (overwrite xs p cs) q bs ≡ overwrite xs p (cs ++ bs)
  unfolding overwrite
  overwrite-overwrite [] p q cs bs e = refl
  overwrite-overwrite (x ∷ xs) zero zero [] bs e = refl
  overwrite-overwrite (x ∷ xs) zero (suc q) [] bs e = absurd (omega arith)
  overwrite-overwrite (x ∷ xs) zero zero (a ∷ cs) bs e = absurd (omega arith)
  overwrite-overwrite (x ∷ xs) zero (suc q) (a ∷ cs) bs e =
      ap (◌∷◌ a) (overwrite-overwrite xs zero q cs bs (omega arith))
  overwrite-overwrite (x ∷ xs) (suc p) zero cs bs e = absurd (omega arith)
  overwrite-overwrite (x ∷ xs) (suc p) (suc q) cs bs e =
      ap (◌∷◌ x) (overwrite-overwrite xs p q cs bs (omega arith))

  overwrite-append_left :
      (xs ys : List A) (k : ℕ) (bs : List A)
      → k + length bs ≤ length xs
      → overwrite (xs ++ ys) k bs ≡ overwrite xs k bs ++ ys
  unfolding overwrite
  overwrite-append_left [] ys zero [] h = overwrite_nothing ys zero
  overwrite-append_left [] ys zero (b ∷ bs) h = absurd (omega arith)
  overwrite-append_left [] ys (suc k) bs h = absurd (omega arith)
  overwrite-append_left (x ∷ xs) ys zero [] h = refl
  overwrite-append_left (x ∷ xs) ys zero (b ∷ bs) h =
      ap (◌∷◌ b) (overwrite-append_left xs ys zero bs (omega arith))
  overwrite-append_left (x ∷ xs) ys (suc k) bs h =
      ap (◌∷◌ x) (overwrite-append_left xs ys k bs (omega arith))

  overwrite-append_right :
      (xs ys : List A) (k q : ℕ) (bs : List A)
      → q ≡ length xs + k
      → overwrite (xs ++ ys) q bs ≡ xs ++ overwrite ys k bs
  unfolding overwrite
  overwrite-append_right [] ys k q bs e = ap (λ t. overwrite ys t bs) (omega arith)
  overwrite-append_right (x ∷ xs) ys k zero bs e = absurd (omega arith)
  overwrite-append_right (x ∷ xs) ys k (suc q) bs e =
      ap (◌∷◌ x) (overwrite-append_right xs ys k q bs (omega arith))

  pub take-add : (m n : ℕ) (xs : List A) → take (m + n) xs ≡ take m xs ++ take n (drop m xs)
  take-add zero n xs = ap (λ t. take t xs) (omega arith)
  take-add (suc m) n [] = rw (take_nil n, take_nil (suc m + n))
    where
      take_nil : (k : ℕ) → take k (let e : List A = [] in e) ≡ []
      take_nil zero = refl
      take_nil (suc k) = refl
  take-add (suc m) n (x ∷ xs) = ap (λ t. take t (x ∷ xs)) suc_out ∙ ap (◌∷◌ x) (take-add m n xs)
    where
      suc_out : suc m + n ≡ suc (m + n)
      suc_out = omega arith

  pub drop-drop : (m n k : ℕ) (xs : List A) → k ≡ m + n → drop n (drop m xs) ≡ drop k xs
  drop-drop zero n k xs e = ap (λ t. drop t xs) (omega arith)
  drop-drop (suc m) n zero xs e = absurd (omega arith)
  drop-drop (suc m) zero (suc k) [] e = refl
  drop-drop (suc m) (suc n) (suc k) [] e = refl
  drop-drop (suc m) n (suc k) (x ∷ xs) e = drop-drop m n k xs (omega arith)

  take-drop-append_left :
      (xs ys : List A) (k n : ℕ)
      → k + n ≤ length xs
      → take n (drop k (xs ++ ys)) ≡ take n (drop k xs)
  take-drop-append_left xs ys k zero h = refl
  take-drop-append_left [] ys k (suc n) h = absurd (omega arith)
  take-drop-append_left (x ∷ xs) ys zero (suc n) h =
      ap (◌∷◌ x) (take-drop-append_left xs ys zero n (omega arith))
  take-drop-append_left (x ∷ xs) ys (suc k) (suc n) h =
      take-drop-append_left xs ys k (suc n) (omega arith)

  drop-append_right : (xs ys : List A) (k q : ℕ) → q ≡ length xs + k → drop q (xs ++ ys) ≡ drop k ys
  drop-append_right [] ys k q e = ap (λ t. drop t ys) (omega arith)
  drop-append_right (x ∷ xs) ys k zero e = absurd (omega arith)
  drop-append_right (x ∷ xs) ys k (suc q) e = drop-append_right xs ys k q (omega arith)

  pub take-append_left : (s : ℕ) (xs ys : List A) → s ≤ length xs → take s (xs ++ ys) ≡ take s xs
  take-append_left zero xs ys h = refl
  take-append_left (suc s) [] ys h = absurd (omega arith)
  take-append_left (suc s) (x ∷ xs) ys h = ap (◌∷◌ x) (take-append_left s xs ys (omega arith))

  pub take-drop-take :
      (s k n : ℕ) (xs : List A) → k + n ≤ s → take n (drop k (take s xs)) ≡ take n (drop k xs)
  take-drop-take s k zero xs h = refl
  take-drop-take zero k (suc n) xs h = absurd (omega arith)
  take-drop-take (suc s) zero (suc n) [] h = refl
  take-drop-take (suc s) (suc k) (suc n) [] h = refl
  take-drop-take (suc s) zero (suc n) (x ∷ xs) h =
      ap (◌∷◌ x) (take-drop-take s zero n xs (omega arith))
  take-drop-take (suc s) (suc k) (suc n) (x ∷ xs) h = take-drop-take s k (suc n) xs (omega arith)

-- A block holds as many bytes as its size says, and all blocks have the base size.
abbrev pub IsBlock : ℕ → Node → Type 0
IsBlock base n = (n.size ≡ base) × (length n.ptr ≡ base)

abbrev pub flat : List Node → List Cell
flat [] = []
flat (n ∷ ns) = n.ptr ++ flat ns

pub flat-append : (ms ns : List Node) → flat (ms ++ ns) ≡ flat ms ++ flat ns
flat-append [] ns = refl
flat-append (m ∷ ms) ns = ap (◌++◌ m.ptr) (flat-append ms ns) ∙ sym (append_assoc m.ptr _ _)

pub length-flat :
    (base : ℕ) (ns : List Node) → All (IsBlock base) ns → length (flat ns) ≡ length ns * base
length-flat base [] h = omega arith
length-flat base (n ∷ ns) h = omega (arith, length-append n.ptr (flat ns), length-flat base ns h.1)

-- A block below the end leaves room for itself.
pub mul_below : (i k base : ℕ) → i < k → i * base + base ≤ k * base
mul_below i k base h = grind arith

module _ (base : ℕ) where
  -- Writing into block `i` writes into the flat memory.
  pub flat-set :
      (ns : List Node) (i npos p : ℕ) (n : Node) (bs : List Cell)
      → All (IsBlock base) ns
      → get_elem? ns i ≡ some n
      → npos + length bs ≤ base
      → p ≡ i * base + npos
      → flat (set ns i (record n { ptr = overwrite n.ptr npos bs })) ≡ overwrite (flat ns) p bs
  flat-set [] i npos p n bs h e l d = absurd (cc)
  flat-set (m ∷ ns) zero npos p n bs h e l d =
      let same : m ≡ n = cc in
      let at : npos ≡ p = omega arith in
      rw (← same, ← at) (sym (overwrite-append_left m.ptr (flat ns) npos bs (omega arith)))
  flat-set (m ∷ ns) (suc i) npos p n bs h e l d =
      ap (◌++◌ m.ptr) (flat-set ns i npos (i * base + npos) n bs h.1 e l refl)
      ∙ sym (overwrite-append_right m.ptr (flat ns) (i * base + npos) p bs (omega arith))

  -- Reading from block `i` reads from the flat memory.
  pub flat-get :
      (ns : List Node) (i npos p k : ℕ) (n : Node)
      → All (IsBlock base) ns
      → get_elem? ns i ≡ some n
      → npos + k ≤ base
      → p ≡ i * base + npos
      → take k (drop npos n.ptr) ≡ take k (drop p (flat ns))
  flat-get [] i npos p k n h e l d = absurd (cc)
  flat-get (m ∷ ns) zero npos p k n h e l d =
      let same : m ≡ n = cc in
      let at : npos ≡ p = omega arith in
      rw (← same, ← at) (sym (take-drop-append_left m.ptr (flat ns) npos k (omega arith)))
  flat-get (m ∷ ns) (suc i) npos p k n h e l d =
      flat-get ns i npos (i * base + npos) k n h.1 e l refl
      ∙ ap (take k) (sym (drop-append_right m.ptr (flat ns) (i * base + npos) p (omega arith)))
