-- ===== src/Config/Laws.antt =====
-- What looking up and loading variables (gudov/config.h, gudov/config.cpp) leaves.
use gudov.Common.{
  ℕ, zero, suc, ◌==◌, ◌≡◌, refl, ap, ◌∙◌, inl, inr, arith, Bool, true, false, not, if◌then◌else◌,
  ◌&&◌, Bool-cases,
}
use gudov.Common.{Option, none, some, List, [], ◌∷◌, All, All-append}
use gudov.Common.Text.{Bytes, is_nil, lower, to_lower, bytes_eq, bytes_eq_refl, bytes_eq→eq}
use gudov.Common.Dict.{Dict, exact, find, put, find-put}
use gudov.Config.{
  ConfigVar, new_config_var, set_value, from_string, is_name_byte, valid_name, lookup_base,
}
use gudov.Config.{
  lookup_from, lookup, all_members, list_all_member, load_var, load_nodes, load_from_yaml,
}

module _ {ℓ} {V : Type ℓ} where
  lookup_from-again :
      (o : Option (ConfigVar V)) (type : ℕ) (name : Bytes) (v w : V) (d e : Bytes)
      (datas : Dict (ConfigVar V))
      → find exact name datas ≡ o
      → lookup type name w e (lookup_from o type name v d datas).1
        ≡ lookup_from o type name v d datas
  unfolding lookup lookup_from new_config_var
  lookup_from-again (some c) type name v w d e datas h = elim (Bool-cases (c.type == type)) [
    | inl t ↦ rw (t, h, t) refl
    | inr t ↦ rw (t, h, t) refl
  ]
  lookup_from-again none type name v w d e datas h = elim (Bool-cases (valid_name name)) [
    | inr t ↦ rw (t, h, t) refl
    | inl t ↦
        let new = new_config_var type name v d in
        let f : find exact name (put exact name new datas) ≡ some new =
          find-put exact name name new datas ∙ rw (bytes_eq_refl name) refl in
        let z : (type == type) ≡ true = ground arith in rw (t, f, z) refl
  ]

  lookup_from-others :
      (o : Option (ConfigVar V)) (type : ℕ) (name k : Bytes) (v : V) (d : Bytes)
      (datas : Dict (ConfigVar V))
      → bytes_eq name k ≡ false
      → find exact k (lookup_from o type name v d datas).1 ≡ find exact k datas
  unfolding lookup_from
  lookup_from-others (some c) type name k v d datas h = elim (Bool-cases (c.type == type)) [
    | inl t ↦ rw t refl
    | inr t ↦ rw t refl
  ]
  lookup_from-others none type name k v d datas h = elim (Bool-cases (valid_name name)) [
    | inl t ↦ rw t (find-put exact name k (new_config_var type name v d) datas ∙ rw h refl)
    | inr t ↦ rw t refl
  ]

  -- Looking a variable up again, with whatever default, gives what the first look-up gave, be it the
  -- variable, a null pointer for another type, or the exception for a name with other bytes than letters,
  -- digits, dots and underscores, and changes nothing; and no look-up changes what any other name finds.
  pub lookup-lookup :
      (type : ℕ) (name k : Bytes) (v w : V) (d e : Bytes) (datas : Dict (ConfigVar V))
      → bytes_eq name k ≡ false
      → (lookup type name w e (lookup type name v d datas).1 ≡ lookup type name v d datas)
        × (find exact k (lookup type name v d datas).1 ≡ find exact k datas)
  unfolding lookup
  lookup-lookup type name k v w d e datas h = (
    unfold lookup in lookup_from-again (find exact name datas) type name v w d e datas refl,
    lookup_from-others (find exact name datas) type name k v d datas h,
  )

name_byte : (c : ℕ) → is_name_byte c ≡ true → to_lower c ≡ c
unfolding to_lower
name_byte c h = ground arith

valid_name-lower : (s : Bytes) → valid_name s ≡ true → lower s ≡ s
unfolding valid_name lower
valid_name-lower [] h = refl
valid_name-lower (c ∷ s) h = elim (Bool-cases (is_name_byte c)) [
  | inr t ↦ absurd (never t)
  | inl t ↦
      let rest : valid_name s ≡ true = rw t at h in rw (name_byte c t, valid_name-lower s rest) refl
]
  where
    never : is_name_byte c ≡ false → ⊥
    never t = let f : (false && valid_name s) ≡ true = rw t at h in cc f

module _ {ℓ} {N : Type ℓ} (members : N → List (Bytes × N)) where
  all_members-All :
      (P : Bytes × N → Type 0) (each : Bytes → N → List (Bytes × N)) (prefix : Bytes)
      (ms : List (Bytes × N))
      → ((p : Bytes) (n : N) → All P (each p n))
      → All P (all_members members each prefix ms)
  unfolding all_members
  all_members-All P each prefix [] h = tt
  all_members-All P each prefix ((k, n) ∷ ms) h =
      All-append P _ (all_members members each prefix ms) (h _ n)
        (all_members-All P each prefix ms h)

  -- Every name that LoadFromYaml looks up is listed in lower case already, since a name with any other
  -- letter is refused before it is put into lower case.
  list_all_member-lower :
      (depth : ℕ) (prefix : Bytes) (node : N)
      → All (λ x. lower x.0 ≡ x.0) (list_all_member members depth prefix node)
  unfolding list_all_member
  list_all_member-lower zero prefix node = tt
  list_all_member-lower (suc depth) prefix node =
      let below =
        all_members-All (λ x. lower x.0 ≡ x.0) (list_all_member members depth) prefix (members node)
          (λ p n. list_all_member-lower depth p n) in
      elim (Bool-cases (valid_name prefix)) [
        | inl t ↦ rw t (valid_name-lower prefix t, below)
        | inr t ↦ rw t tt
      ]

abbrev pub get_or {ℓ} : {V : Type ℓ} → V → Option V → V
get_or v none = v
get_or v (some w) = w

-- The value of a variable of a type when the nodes of its key have been read: each that converts sets it.
unfoldable pub last_value {ℓ} :
    {N V : Type ℓ} → (ℕ → N → Option V) → ℕ → Bytes → List (Bytes × N) → V → V
last_value convert type k [] v = v
last_value convert type k ((j, node) ∷ nodes) v =
    let named : Bool = not (is_nil j) && bytes_eq (lower j) k in
    last_value convert type k nodes (if named then get_or v (convert type node) else v)

-- A variable with that value, and otherwise as it was
abbrev pub with_last {ℓ} :
    {N V : Type ℓ}
    → (ℕ → N → Option V)
    → Bytes
    → List (Bytes × N)
    → Option (ConfigVar V)
    → Option (ConfigVar V)
with_last convert k nodes none = none
with_last convert k nodes (some c) =
    some (record c { value = last_value convert c.type k nodes c.value })

module _ {ℓ} {N : Type ℓ} {V : Type ℓ} (members : N → List (Bytes × N)) (same : V → V → Bool)
    (convert : ℕ → N → Option V) (same_eq : (v w : V) → same v w ≡ true → v ≡ w) where
  from_string-value :
      (o : Option V) (c : ConfigVar V)
      → (from_string same o c).2 ≡ record c { value = get_or c.value o }
  unfolding from_string set_value
  from_string-value none c = refl
  from_string-value (some v) c = elim (Bool-cases (same v c.value)) [
    | inl t ↦ let e = same_eq v c.value t in rw (t, e) refl
    | inr t ↦ rw t refl
  ]

  -- What a node does to one name
  assigned : Bool → N → Option (ConfigVar V) → Option (ConfigVar V)
  assigned false node o = o
  assigned true node none = none
  assigned true node (some c) = some (record c { value = get_or c.value (convert c.type node) })

  load_var-assigned :
      (o : Option (ConfigVar V)) (key k : Bytes) (node : N) (datas : Dict (ConfigVar V))
      → find exact key datas ≡ o
      → find exact k (load_var members same convert o key node datas).1
        ≡ assigned (bytes_eq key k) node (find exact k datas)
  unfolding load_var assigned
  load_var-assigned none key k node datas h = elim (Bool-cases (bytes_eq key k)) [
    | inl t ↦ let f : find exact k datas ≡ none = rw (← bytes_eq→eq key k t) h in rw (t, f) refl
    | inr t ↦ rw t refl
  ]
  load_var-assigned (some c) key k node datas h = elim (Bool-cases (bytes_eq key k)) [
    | inl t ↦
        let f : find exact k datas ≡ some c = rw (← bytes_eq→eq key k t) h in
        find-put exact key k (from_string same (convert c.type node) c).2 datas
        ∙ rw (t, f) (ap some (from_string-value (convert c.type node) c))
    | inr t ↦ find-put exact key k (from_string same (convert c.type node) c).2 datas ∙ rw t refl
  ]

  with_last-step :
      (o : Option (ConfigVar V)) (j k : Bytes) (node : N) (nodes : List (Bytes × N))
      → is_nil j ≡ false
      → with_last convert k nodes (assigned (bytes_eq (lower j) k) node o)
        ≡ with_last convert k ((j, node) ∷ nodes) o
  with_last-step o j k node nodes h = by_name (bytes_eq (lower j) k) o refl
    where
      by_name :
          (b : Bool) (x : Option (ConfigVar V))
          → bytes_eq (lower j) k ≡ b
          → with_last convert k nodes (assigned b node x)
            ≡ with_last convert k ((j, node) ∷ nodes) x
      by_name false none e = unfold assigned in refl
      by_name true none e = unfold assigned in refl
      by_name false (some c) e = unfold assigned last_value in rw (h, e) refl
      by_name true (some c) e = unfold assigned last_value in rw (h, e) refl

  with_last-skip :
      (o : Option (ConfigVar V)) (j k : Bytes) (node : N) (nodes : List (Bytes × N))
      → is_nil j ≡ true
      → with_last convert k nodes o ≡ with_last convert k ((j, node) ∷ nodes) o
  unfolding last_value
  with_last-skip none j k node nodes h = refl
  with_last-skip (some c) j k node nodes h = rw h refl

  find-load_nodes :
      (nodes : List (Bytes × N)) (k : Bytes) (datas : Dict (ConfigVar V))
      → find exact k (load_nodes members same convert nodes datas).1
        ≡ with_last convert k nodes (find exact k datas)
  unfolding load_nodes lookup_base
  find-load_nodes [] k datas = unfold last_value in by_case (find exact k datas)
    where
      by_case : (o : Option (ConfigVar V)) → o ≡ with_last convert k [] o
      by_case none = refl
      by_case (some c) = unfold last_value in refl
  find-load_nodes ((j, node) ∷ nodes) k datas = elim (Bool-cases (is_nil j)) [
    | inl t ↦
        rw t (find-load_nodes nodes k datas ∙ with_last-skip (find exact k datas) j k node nodes t)
    | inr t ↦
        let set = load_var members same convert (find exact (lower j) datas) (lower j) node datas in
        rw t (
          find-load_nodes nodes k set.1
          ∙ ap (with_last convert k nodes)
              (load_var-assigned (find exact (lower j) datas) (lower j) k node datas refl)
          ∙ with_last-step (find exact k datas) j k node nodes t)
  ]

  -- After a YAML file is loaded, a name has a variable exactly if it had one before, with the value that the
  -- last node listed for the name in lower case gives that converts to the variable's type, and its old value
  -- if there is none; its type, description and listeners are as they were. The comparison of SetValue must
  -- tell unequal values apart.
  pub find-load_from_yaml :
      (depth : ℕ) (root : N) (k : Bytes) (datas : Dict (ConfigVar V))
      → find exact k (load_from_yaml members same convert depth root datas).1
        ≡ with_last convert k (list_all_member members depth [] root) (find exact k datas)
  unfolding load_from_yaml
  find-load_from_yaml depth root k datas =
      find-load_nodes (list_all_member members depth [] root) k datas
