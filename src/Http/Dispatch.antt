-- ===== src/Http/Dispatch.antt =====
-- Which servlet ServletDispatch (gudov/http/servlet.cpp) picks after its operations.
use gudov.Common.{◌≡◌, refl, ap, ◌∙◌, inl, inr, arith}
use gudov.Common.{Bool, true, false, Bool-cases, if◌then◌else◌, Option, none, some, [], ◌∷◌, ◌++◌}
use gudov.Common.Text.{Bytes, bytes_eq, bytes_eq→eq, bytes_eq_refl, bytes_eq_sym}
use gudov.Common.Dict.{exact, Dict, find, find-put, find-remove}
use gudov.Http.Servlet.{ServletDispatch, erase_first, add_servlet, add_glob_servlet, del_servlet}
use gudov.Http.Servlet.{
  del_glob_servlet, glob_named, get_glob_servlet, first_match, get_matched_servlet,
}

module _ {ℓ} {S : Type ℓ} where
  -- No two globs are registered for the same text.
  abbrev pub Distinct : Dict S → Type ℓ
  Distinct [] = Unit
  Distinct ((k, s) ∷ m) = (glob_named k m ≡ none) × Distinct m

  glob_named-erase_first :
      (u k : Bytes) (m : Dict S)
      → Distinct m
      → glob_named k (erase_first u m) ≡ (if bytes_eq u k then none else glob_named k m)
  unfolding glob_named erase_first
  glob_named-erase_first u k [] h = elim (Bool-cases (bytes_eq u k)) [
    | inl t ↦ rw t refl
    | inr t ↦ rw t refl
  ]
  glob_named-erase_first u k ((j, s) ∷ m) h = elim (Bool-cases (bytes_eq j u)) [
    | inl t ↦ elim (Bool-cases (bytes_eq u k)) [
      | inl v ↦
          let e : j ≡ k = bytes_eq→eq j u t ∙ bytes_eq→eq u k v in
          let f : glob_named k m ≡ none = rw (← e) h.0 in rw (t, v) f
      | inr v ↦
          let e : j ≡ u = bytes_eq→eq j u t in
          let f : bytes_eq j k ≡ false = rw e v in rw (t, v, f) refl
    ]
    | inr t ↦ elim (Bool-cases (bytes_eq u k)) [
      | inl v ↦
          let e : u ≡ k = bytes_eq→eq u k v in
          let f : bytes_eq j k ≡ false = rw (← e) t in
          rw (t, v, f, glob_named-erase_first u k m h.1, v) refl
      | inr v ↦ rw (t, v, glob_named-erase_first u k m h.1, v) refl
    ]
  ]

  glob_named-append :
      (k u : Bytes) (s : S) (m : Dict S)
      → glob_named k (m ++ (u, s) ∷ [])
        ≡ elim (glob_named k m) [ none ↦ (if bytes_eq u k then some s else none) | some v ↦ some v ]
  unfolding glob_named
  glob_named-append k u s [] = refl
  glob_named-append k u s ((j, w) ∷ m) = elim (Bool-cases (bytes_eq j k)) [
    | inl t ↦ rw t refl
    | inr t ↦ rw (t, glob_named-append k u s m) refl
  ]

  erase_first-Distinct : (u : Bytes) (m : Dict S) → Distinct m → Distinct (erase_first u m)
  unfolding erase_first
  erase_first-Distinct u [] h = tt
  erase_first-Distinct u ((j, s) ∷ m) h = elim (Bool-cases (bytes_eq j u)) [
    | inl t ↦ rw t h.1
    | inr t ↦ rw t (
      glob_named-erase_first u j m h.1
          ∙ elim (Bool-cases (bytes_eq u j)) [ inl v ↦ rw v refl | inr v ↦ rw (v, h.0) refl ],
      erase_first-Distinct u m h.1,
    )
  ]

  append-Distinct :
      (u : Bytes) (s : S) (m : Dict S)
      → glob_named u m ≡ none
      → Distinct m
      → Distinct (m ++ (u, s) ∷ [])
  unfolding glob_named
  append-Distinct u s [] n h = (refl, tt)
  append-Distinct u s ((j, w) ∷ m) n h = elim (Bool-cases (bytes_eq j u)) [
    | inl t ↦ absurd (ground arith)
    | inr t ↦
        let v : bytes_eq u j ≡ false = bytes_eq_sym u j ∙ t in
        let later : glob_named u m ≡ none = ground arith in
        (glob_named-append j u s m ∙ rw (h.0, v) refl, append-Distinct u s m later h.1)
  ]

  erased : (u : Bytes) (m : Dict S) → Distinct m → glob_named u (erase_first u m) ≡ none
  erased u m h = glob_named-erase_first u u m h ∙ rw (bytes_eq_refl u) refl

  -- Registering a glob, which takes the place of one registered for the same text, and unregistering one
  -- keep the globs registered for different texts.
  add_glob_servlet-Distinct :
      (u : Bytes) (s : S) (d : ServletDispatch S)
      → Distinct d.globs
      → Distinct (add_glob_servlet u s d).globs × Distinct (del_glob_servlet u d).globs
  unfolding add_glob_servlet del_glob_servlet
  add_glob_servlet-Distinct u s d h = (
    append-Distinct u s (erase_first u d.globs) (erased u d.globs h)
        (erase_first-Distinct u d.globs h),
    erase_first-Distinct u d.globs h,
  )

  -- When globs are registered for different texts, the servlet of a glob registered is found under its text
  -- and that of a glob unregistered is not, while every other text finds what it found before.
  get_glob_servlet-add_glob_servlet :
      (u k : Bytes) (s : S) (d : ServletDispatch S)
      → Distinct d.globs
      → (get_glob_servlet k (add_glob_servlet u s d)
          ≡ (if bytes_eq u k then some s else get_glob_servlet k d))
        × (get_glob_servlet k (del_glob_servlet u d)
            ≡ (if bytes_eq u k then none else get_glob_servlet k d))
  unfolding get_glob_servlet add_glob_servlet del_glob_servlet
  get_glob_servlet-add_glob_servlet u k s d h = (
    glob_named-append k u s (erase_first u d.globs)
        ∙ rw (glob_named-erase_first u k d.globs h) (found (glob_named k d.globs) (bytes_eq u k)),
    glob_named-erase_first u k d.globs h,
  )
    where
      found :
          (old : Option S) (same : Bool)
          → (elim (if same then none else old) [
            | none ↦ (if same then some s else none)
            | some v ↦ some v
          ])
            ≡ (if same then some s else old)
      found old true = refl
      found none false = refl
      found (some v) false = refl

module _ {ℓ} {S : Type ℓ} (fnmatch : Bytes → Bytes → Bool) where
  -- Registering a servlet decides its own path, whatever globs match it, and no other path; unregistering
  -- it leaves its path to the globs and the default, and every other path as it was.
  get_matched_servlet-add_servlet :
      (u p : Bytes) (s : S) (d : ServletDispatch S)
      → (get_matched_servlet fnmatch p (add_servlet u s d)
          ≡ (if bytes_eq u p then s else get_matched_servlet fnmatch p d))
        × (get_matched_servlet fnmatch p (del_servlet u d) ≡ (
            if bytes_eq u p
            then first_match fnmatch p d.globs d.default
            else get_matched_servlet fnmatch p d))
  unfolding get_matched_servlet add_servlet del_servlet
  get_matched_servlet-add_servlet u p s d = elim (Bool-cases (bytes_eq u p)) [
    | inl t ↦ (
      rw (find-put exact u p s d.datas, t, get_matched_servlet) refl,
      rw (find-remove exact u p d.datas, t, get_matched_servlet) refl,
    )
    | inr t ↦ (
      rw (find-put exact u p s d.datas, t, get_matched_servlet) refl,
      rw (find-remove exact u p d.datas, t, get_matched_servlet) refl,
    )
  ]

  first_match-append :
      (p u : Bytes) (s default : S) (m : Dict S)
      → first_match fnmatch p (m ++ (u, s) ∷ []) default
        ≡ first_match fnmatch p m (if fnmatch u p then s else default)
  unfolding first_match
  first_match-append p u s default [] = refl
  first_match-append p u s default ((j, w) ∷ m) = elim (Bool-cases (fnmatch j p)) [
    | inl t ↦ rw t refl
    | inr t ↦ rw (t, first_match-append p u s default m) refl
  ]

  -- A glob that is registered comes last: it decides the paths that it matches and that neither a servlet
  -- nor another glob decides, in place of the default, and no other path.
  pub get_matched_servlet-add_glob_servlet :
      (u p : Bytes) (s : S) (d : ServletDispatch S)
      → get_matched_servlet fnmatch p (add_glob_servlet u s d)
        ≡ get_matched_servlet fnmatch p
            (record (del_glob_servlet u d) { default = (if fnmatch u p then s else d.default) })
  unfolding get_matched_servlet add_glob_servlet del_glob_servlet
  get_matched_servlet-add_glob_servlet u p s d =
      ap (λ t. elim (find exact p d.datas) [ none ↦ t | some w ↦ w ])
        (first_match-append p u s d.default (erase_first u d.globs))
