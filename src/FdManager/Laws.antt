-- ===== src/FdManager/Laws.antt =====
-- What FdManager and FdCtx (gudov/fdmanager.cpp) promise.
use gudov.Common.{
  ℕ, zero, suc, ◌+◌, ◌-◌, ◌/◌, ◌%◌, ◌^◌, ◌≤◌, ◌<◌, ◌≡◌, ◌⊎◌, inl, inr, refl, sym, ap, subst, arith,
  ◌∙◌,
}
use gudov.Common.{Bool, true, false, Option, none, some, [], ◌∷◌, ◌++◌, length, set, replicate}
use gudov.Common.{
  leb, ltb, ◌==◌, ==→eq, if◌then◌else◌, Bool-cases, Option-cases, get_elem?-ge, get_elem?-set_self,
  get_elem?-set_ne,
}
use gudov.Common.{length-append, length-replicate, length-take, take, take_all}
use gudov.Common.Int.{pos}
use gudov.FdManager.{
  FdCtx, Fstat, FdTable, new_fd_ctx, set_timeout, get_timeout, at_fd, resize, reaches, grow_to,
  create, get, del,
}

-- GetTimeout after SetTimeout: the value that was set, for the same of the two timeouts, and otherwise
-- what it was.
get_timeout-set_timeout :
    (so_rcvtimeo type type' v : ℕ) (c : FdCtx)
    → get_timeout so_rcvtimeo type' (set_timeout so_rcvtimeo type v c) ≡ (
        if (if type == so_rcvtimeo
          then type' == so_rcvtimeo
          else (if type' == so_rcvtimeo then false else true))
        then v
        else get_timeout so_rcvtimeo type' c)
unfolding get_timeout set_timeout
get_timeout-set_timeout so_rcvtimeo type type' v c = elim (Bool-cases (type == so_rcvtimeo)) [
  | inl t ↦ elim (Bool-cases (type' == so_rcvtimeo)) [
    | inl u ↦ rw (t, u) refl
    | inr u ↦ rw (t, u) refl
  ]
  | inr t ↦ elim (Bool-cases (type' == so_rcvtimeo)) [
    | inl u ↦ rw (t, u) refl
    | inr u ↦ rw (t, u) refl
  ]
]

at_fd-none : (j n : ℕ) → at_fd j (replicate n none) ≡ none
unfolding at_fd
at_fd-none j zero = refl
at_fd-none zero (suc n) = refl
at_fd-none (suc j) (suc n) = at_fd-none j n

at_fd-append : (j n : ℕ) (table : FdTable) → at_fd j (table ++ replicate n none) ≡ at_fd j table
unfolding at_fd
at_fd-append j n [] = at_fd-none j n
at_fd-append zero n (x ∷ xs) = refl
at_fd-append (suc j) n (x ∷ xs) = at_fd-append j n xs

at_fd-out : (fd : ℕ) (table : FdTable) → length table ≤ fd → at_fd fd table ≡ none
unfolding at_fd
at_fd-out fd table h = rw (get_elem?-ge table fd h, at_fd) refl

at_fd-set :
    (table : FdTable) (fd j : ℕ) (e : Option FdCtx)
    → fd < length table
    → at_fd j (set table fd e) ≡ (if j == fd then e else at_fd j table)
unfolding at_fd
at_fd-set table fd j e h = elim (Bool-cases (j == fd)) [
  | inl t ↦ rw (t, ==→eq j fd t, get_elem?-set_self table fd e h, at_fd) refl
  | inr t ↦ rw (t, get_elem?-set_ne table fd j e (ground arith), at_fd) refl
]

-- Below 2 ^ 31 the cast keeps the size.
reaches_small : (fd size : ℕ) → size < 2 ^ 31 → reaches fd size ≡ leb size fd
unfolding reaches
reaches_small fd size h =
    let low : size % 2 ^ 32 ≡ size = omega arith in
    let small : ltb size (2 ^ 31) ≡ true = ground arith in rw (low, small) refl

length-resize : (n : ℕ) (table : FdTable) → length (resize n table) ≡ n
unfolding resize
length-resize n table = omega (
  arith,
  length-append (take n table) (replicate (n - length table) none),
  length-replicate {A = Option FdCtx} (n - length table) none,
  length-take n table,
)

-- Two rounds of the loop are enough from a table of two entries, where fd * 1.5 is below 2 ^ 31.
grow_to-some :
    (fd : ℕ) (table : FdTable)
    → 2 ≤ length table
    → length table < 2 ^ 31
    → fd < 1431655766
    → (n : ℕ) × (grow_to 2 fd table ≡ some (table ++ replicate n none))
      × (fd < length (table ++ replicate n none))
unfolding grow_to resize
grow_to-some fd table two small bound = elim (Bool-cases (leb (length table) fd)) [
  | inl t ↦
      let n = fd + fd / 2 - length table in
      let past : length table ≤ fd = ground arith in
      let whole = take_all table (fd + fd / 2) (omega arith) in
      let long : fd < length (table ++ replicate n none) = omega (
        arith,
        length-append table (replicate n none),
        length-replicate {A = Option FdCtx} n none,
      ) in
      let size : length (table ++ replicate n none) ≡ fd + fd / 2 = omega (
        arith,
        length-append table (replicate n none),
        length-replicate {A = Option FdCtx} n none,
      ) in
      let first : reaches fd (length table) ≡ true = reaches_small fd (length table) small ∙ t in
      let second : reaches fd (length (table ++ replicate n none)) ≡ false =
        reaches_small fd _ (omega (arith, size)) ∙ ground (arith, long) in
      (n, rw (first, whole, second) refl, long)
  | inr t ↦ (
    0,
    rw (reaches_small fd (length table) small, t) (ap some (sym (nil table))),
    omega (arith, nil_length table, short t),
  )
]
  where
    nil : (xs : FdTable) → xs ++ [] ≡ xs
    nil [] = refl
    nil (x ∷ xs) = ap (◌∷◌ x) (nil xs)

    nil_length : (xs : FdTable) → length (xs ++ []) ≡ length xs
    nil_length xs = ap length (nil xs)

    short : leb (length table) fd ≡ false → fd < length table
    short t = ground arith

-- The context that Get makes is the one that the table has for the file descriptor afterwards; every
-- other entry stays.
pub record Created (fstat : Fstat) (fd : ℕ) (table : FdTable)
    (out : Option (Option FdCtx × FdTable)) : Type 0 where
  pub left : FdTable
  pub runs : out ≡ some (some (new_fd_ctx fstat fd), left)
  pub entries :
      (j : ℕ) → at_fd j left ≡ (if j == fd then some (new_fd_ctx fstat fd) else at_fd j table)

created :
    (fstat : Fstat) (fd : ℕ) (table : FdTable)
    → 2 ≤ length table
    → length table < 2 ^ 31
    → fd < 1431655766
    → Created fstat fd table (create fstat fd table)
unfolding create
created fstat fd table two small bound =
    let (n, e, h) = grow_to-some fd table two small bound in
    record {
      left = set (table ++ replicate n none) fd (some (new_fd_ctx fstat fd));
      runs = rw (e, create) refl;
      entries = λ j.
          at_fd-set (table ++ replicate n none) fd j _ h
          ∙ ap (λ o. if j == fd then some (new_fd_ctx fstat fd) else o) (at_fd-append j n table);
    }

-- Get of a file descriptor from a table of two entries or more ends, where the size of the table and fd *
-- 1.5 are below 2 ^ 31, as fd is below 1431655766: the loop that grows the table needs at most one round. A context that is there is returned and the table stays; one that is not is
-- made and stored when auto_create is set, every other entry staying as it was, and nothing is
-- returned and changed otherwise.
pub get_cases :
    (fstat : Fstat) (fd : ℕ) (auto_create : Bool) (table : FdTable)
    → 2 ≤ length table
    → length table < 2 ^ 31
    → fd < 1431655766
    → ((c : FdCtx) × (at_fd fd table ≡ some c)
        × (get fstat (pos fd) auto_create table ≡ some (some c, table)))
      ⊎ (((at_fd fd table ≡ none)
            × (auto_create ≡ false)
            × (get fstat (pos fd) auto_create table ≡ some (none, table)))
          ⊎ ((at_fd fd table ≡ none)
              × (auto_create ≡ true)
              × Created fstat fd table (get fstat (pos fd) auto_create table)))
unfolding get
get_cases fstat fd auto_create table two small bound = elim (Bool-cases (leb (length table) fd)) [
  | inl t ↦
      let out : at_fd fd table ≡ none = at_fd-out fd table (ground arith) in
      absent auto_create t out
  | inr t ↦ elim (Option-cases (at_fd fd table)) [
    | inr (c, e) ↦ inl (c, e, rw (t, e, get) refl)
    | inl e ↦ empty auto_create t e
  ]
]
  where
    absent :
        (auto : Bool)
        → leb (length table) fd ≡ true
        → at_fd fd table ≡ none
        → ((c : FdCtx) × (at_fd fd table ≡ some c)
            × (get fstat (pos fd) auto table ≡ some (some c, table)))
          ⊎ (((at_fd fd table ≡ none)
                × (auto ≡ false)
                × (get fstat (pos fd) auto table ≡ some (none, table)))
              ⊎ ((at_fd fd table ≡ none)
                  × (auto ≡ true)
                  × Created fstat fd table (get fstat (pos fd) auto table)))
    absent false t e = inr (inl (e, refl, rw (t, get) refl))
    absent true t e = inr (
        inr (
          e,
          refl,
          subst (Created fstat fd table) (rw (t, get) refl)
              (created fstat fd table two small bound),
        ))

    empty :
        (auto : Bool)
        → leb (length table) fd ≡ false
        → at_fd fd table ≡ none
        → ((c : FdCtx) × (at_fd fd table ≡ some c)
            × (get fstat (pos fd) auto table ≡ some (some c, table)))
          ⊎ (((at_fd fd table ≡ none)
                × (auto ≡ false)
                × (get fstat (pos fd) auto table ≡ some (none, table)))
              ⊎ ((at_fd fd table ≡ none)
                  × (auto ≡ true)
                  × Created fstat fd table (get fstat (pos fd) auto table)))
    empty false t e = inr (inl (e, refl, rw (t, e, get) refl))
    empty true t e = inr (
        inr (
          e,
          refl,
          subst (Created fstat fd table) (rw (t, e, get) refl)
              (created fstat fd table two small bound),
        ))

never_stops :
    (fuel fd : ℕ) (table : FdTable)
    → 1431655765 < fd
    → fd < 2 ^ 31
    → reaches fd (length table) ≡ true
    → grow_to fuel fd table ≡ none
unfolding grow_to
never_stops zero fd table h b t = refl
never_stops (suc fuel) fd table h b t = rw t (
    never_stops fuel fd (resize (fd + fd / 2) table) h b
      (ap (reaches fd) (length-resize (fd + fd / 2) table) ∙ negative))
  where
    negative : reaches fd (fd + fd / 2) ≡ true
    negative =
        unfold reaches in
        (let low : (fd + fd / 2) % 2 ^ 32 ≡ fd + fd / 2 = omega arith in
          let big : ltb (fd + fd / 2) (2 ^ 31) ≡ false = ground arith in rw (low, big) refl)

-- For a file descriptor from 1431655766 on that is past the end of the table, the loop with which Get grows
-- the table never ends, whatever the bound on its rounds: fd * 1.5 is a negative int, in every round.
pub grow_to-none :
    (fuel fd : ℕ) (table : FdTable)
    → 1431655765 < fd
    → fd < 2 ^ 31
    → length table ≤ fd
    → grow_to fuel fd table ≡ none
grow_to-none fuel fd table h b past =
    never_stops fuel fd table h b (reaches_small fd (length table) (omega arith) ∙ ground arith)

-- After Del of a file descriptor the table has no context for it, and every other entry is as it was.
at_fd-del :
    (fd j : ℕ) (table : FdTable)
    → at_fd j (del fd table) ≡ (if j == fd then none else at_fd j table)
unfolding del
at_fd-del fd j table = elim (Bool-cases (leb (length table) fd)) [
  | inr t ↦ rw t (at_fd-set table fd j none (ground arith))
  | inl t ↦ elim (Bool-cases (j == fd)) [
    | inl u ↦ rw (t, u, ==→eq j fd u) (at_fd-out fd table (ground arith))
    | inr u ↦ rw (t, u) refl
  ]
]
