-- ===== src/Env/Options.antt =====
-- What the arguments of gudov/env.cpp set, and where its paths lead.
use gudov.Common.{◌==◌, ◌≡◌, refl, ◌∙◌, inl, inr, Bool, true, false, Bool-cases, if◌then◌else◌}
use gudov.Common.{Option, none, some, List, [], ◌∷◌, ◌++◌, append-nil, drop, All}
use gudov.Common.Text.{Bytes, codes, is_nil, bytes_eq, bytes_eq→eq}
use gudov.Env.{
  Env, add, get, erase_help, remove_help, add_help, before_last_slash, has_slash, is_dash,
  close_key,
}
use gudov.Env.{read_args, init, is_absolute, get_absolute_path, get_config_path}

-- An option of the command line: its key, and its value if it has one
abbrev pub Setting : Type 0
Setting = Bytes × Option Bytes

-- The arguments that stand for options
unfoldable pub command_line : List Setting → List Bytes
command_line [] = []
command_line ((k, none) ∷ os) = (b'-' ∷ k) ∷ command_line os
command_line ((k, some v) ∷ os) = (b'-' ∷ k) ∷ v ∷ command_line os

abbrev pub value_of : Option Bytes → Bytes
value_of none = []
value_of (some v) = v

-- The options set one after the other
unfoldable pub set_all : List Setting → Env → Env
set_all [] e = e
set_all ((k, v) ∷ os) e = set_all os (add k (value_of v) e)

-- A key is not empty; a value does not begin with a dash.
abbrev pub Plain : Setting → Type 0
Plain (k, v) = (is_nil k ≡ false) × (is_dash (value_of v) ≡ false)

read_args-command_line :
    (os : List Setting) (e : Env)
    → All Plain os
    → (read_args none (command_line os) e ≡ (true, set_all os e))
      × ((k : Bytes) → read_args (some k) (command_line os) e ≡ (true, set_all os (add k [] e)))
unfolding command_line read_args set_all close_key
read_args-command_line [] e h = (refl, λ k. refl)
read_args-command_line ((j, none) ∷ os) e h =
    let rest = read_args-command_line os in
    (rw h.0.0 ((rest e h.1).1 j), λ k. rw h.0.0 ((rest (add k [] e) h.1).1 j))
read_args-command_line ((j, some v) ∷ os) e h =
    let rest = read_args-command_line os in
    (
      rw (h.0.0, h.0.1) ((rest (add j v e) h.1).0),
      λ k. rw (h.0.0, h.0.1) ((rest (add j v (add k [] e)) h.1).0),
    )

-- Init takes a command line of options with keys that are not empty, and values that do not begin with a
-- dash or are left out, and sets each of them in order, one without a value to the empty text; the program's
-- path and directory are set before.
pub init-command_line :
    (os : List Setting) (path program : Bytes) (e : Env)
    → All Plain os
    → init (some path) program (command_line os) e ≡ (
      true,
      set_all os
          (record e { exe = path; cwd = before_last_slash path ++ codes "/"; program = program }),
    )
unfolding init
init-command_line os path program e h =
    (read_args-command_line os
      (record e { exe = path; cwd = before_last_slash path ++ codes "/"; program = program }) h).0

-- The descriptions that the help has for a key
unfoldable pub described : Bytes → List (Bytes × Bytes) → List Bytes
described key [] = []
described key ((k, d) ∷ helps) =
    if bytes_eq k key then d ∷ described key helps else described key helps

described-erase_help :
    (key k : Bytes) (helps : List (Bytes × Bytes))
    → described k (erase_help key helps) ≡ (if bytes_eq key k then [] else described k helps)
unfolding described erase_help
described-erase_help key k [] = elim (Bool-cases (bytes_eq key k)) [
  | inl t ↦ rw t refl
  | inr t ↦ rw t refl
]
described-erase_help key k ((j, d) ∷ helps) = elim (Bool-cases (bytes_eq j key)) [
  | inl t ↦
      let e : j ≡ key = bytes_eq→eq j key t in
      rw (t, e, described-erase_help key k helps)
        (elim (Bool-cases (bytes_eq key k)) [ inl u ↦ rw u refl | inr u ↦ rw u refl ])
  | inr t ↦ elim (Bool-cases (bytes_eq key k)) [
    | inl u ↦
        let e : key ≡ k = bytes_eq→eq key k u in
        let f : bytes_eq j k ≡ false = rw (← e) t in
        rw (t, f, described-erase_help key k helps, u) refl
    | inr u ↦ rw (t, described-erase_help key k helps, u) refl
  ]
]

described-append :
    (key k d : Bytes) (helps : List (Bytes × Bytes))
    → described k (helps ++ (key, d) ∷ [])
      ≡ described k helps ++ (if bytes_eq key k then d ∷ [] else [])
unfolding described
described-append key k d [] = refl
described-append key k d ((j, w) ∷ helps) = elim (Bool-cases (bytes_eq j k)) [
  | inl t ↦ rw (t, described-append key k d helps) refl
  | inr t ↦ rw (t, described-append key k d helps) refl
]

-- AddHelp leaves one description for its key, the new one, whatever stood there; RemoveHelp leaves none;
-- and both keep the descriptions of every other key.
described-add_help :
    (key desc k : Bytes) (e : Env)
    → (described k (add_help key desc e).helps
        ≡ (if bytes_eq key k then desc ∷ [] else described k e.helps))
      × (described k (remove_help key e).helps
          ≡ (if bytes_eq key k then [] else described k e.helps))
unfolding add_help remove_help
described-add_help key desc k e = (
  described-append key k desc (erase_help key e.helps)
      ∙ rw (described-erase_help key k e.helps) (both (described k e.helps) (bytes_eq key k)),
  described-erase_help key k e.helps,
)
  where
    both :
        (old : List Bytes) (same : Bool)
        → (if same then [] else old) ++ (if same then desc ∷ [] else [])
          ≡ (if same then desc ∷ [] else old)
    both old true = refl
    both old false = append-nil old

close_key-cwd : (k : Option Bytes) (e : Env) → (close_key k e).cwd ≡ e.cwd
unfolding close_key add
close_key-cwd none e = refl
close_key-cwd (some k) e = refl

read_args-cwd :
    (k : Option Bytes) (args : List Bytes) (e : Env) → (read_args k args e).1.cwd ≡ e.cwd
unfolding read_args add
read_args-cwd k [] e = close_key-cwd k e
read_args-cwd none (a ∷ args) e =
    turn (is_dash a) (is_nil (drop 1 a)) (read_args-cwd (some (drop 1 a)) args e)
  where
    turn :
        (dash empty : Bool)
        → (read_args (some (drop 1 a)) args e).1.cwd ≡ e.cwd
        → (if dash
            then (if empty then (false, e) else read_args (some (drop 1 a)) args e)
            else (false, e)).1.cwd
          ≡ e.cwd
    turn false empty h = refl
    turn true true h = refl
    turn true false h = h
read_args-cwd (some k) (a ∷ args) e =
    turn (is_dash a) (is_nil (drop 1 a)) (read_args-cwd (some (drop 1 a)) args (add k [] e))
      (read_args-cwd none args (add k a e))
  where
    turn :
        (dash empty : Bool)
        → (read_args (some (drop 1 a)) args (add k [] e)).1.cwd ≡ e.cwd
        → (read_args none args (add k a e)).1.cwd ≡ e.cwd
        → (if dash
            then (if empty then (false, e) else read_args (some (drop 1 a)) args (add k [] e))
            else read_args none args (add k a e)).1.cwd
          ≡ e.cwd
    turn false empty h g = g
    turn true true h g = refl
    turn true false h g = h

rooted :
    (path : Bytes)
    → is_absolute path ≡ true
    → is_absolute (before_last_slash path ++ codes "/") ≡ true
unfolding before_last_slash
rooted [] h = absurd (cc)
rooted (c ∷ s) h = elim (Bool-cases (has_slash s)) [ inl t ↦ rw (h, t) h | inr t ↦ rw (h, t) refl ]

-- Once Init has found an absolute path of the program, every path that GetAbsolutePath gives is absolute,
-- that of the configuration among them, whatever the arguments were and whether they were right or not.
pub get_absolute_path-init :
    (path program file : Bytes) (args : List Bytes) (e : Env)
    → is_absolute path ≡ true
    → (is_absolute (get_absolute_path file (init (some path) program args e).1) ≡ true)
      × (is_absolute (get_config_path (init (some path) program args e).1) ≡ true)
unfolding init get_config_path
get_absolute_path-init path program file args e h =
    let start : Env = record e {
      exe = path;
      cwd = before_last_slash path ++ codes "/";
      program = program;
    } in
    let end = (read_args none args start).1 in
    let dir : is_absolute end.cwd ≡ true = rw (read_args-cwd none args start) (rooted path h) in
    (from end file dir, from end (get (codes "c") (codes "conf") end) dir)
  where
    onto : (dir file : Bytes) → is_absolute dir ≡ true → is_absolute (dir ++ file) ≡ true
    onto [] file g = absurd (cc)
    onto (c ∷ dir) file g = g

    from :
        (f : Env) (file : Bytes)
        → is_absolute f.cwd ≡ true
        → is_absolute (get_absolute_path file f) ≡ true
    from f [] g = unfold get_absolute_path in refl
    from f (c ∷ file) g =
        unfold get_absolute_path in
        elim (Bool-cases (c == b'/')) [ inl t ↦ rw t t | inr t ↦ rw t (onto f.cwd (c ∷ file) g) ]
