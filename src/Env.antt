-- ===== src/Env.antt =====
-- gudov/env.h, gudov/env.cpp: the program's arguments, its help texts and its paths. The locks are left
-- out: an operation holds the lock to its end.
pub mod Options
mod Tests
use gudov.Common.{
  ℕ, ◌==◌, Bool, true, false, if◌then◌else◌, Option, none, some, List, [], ◌∷◌, ◌++◌, drop,
}
use gudov.Common.Text.{Bytes, codes, is_nil, bytes_eq}
use gudov.Common.Dict.{Dict, exact, find, put, remove}

pub record Env : Type 0 where
  pub args : Dict Bytes
  pub helps : List (Bytes × Bytes)
  pub program : Bytes
  pub exe : Bytes
  pub cwd : Bytes

unfoldable pub add : Bytes → Bytes → Env → Env
add key val e = record e { args = put exact key val e.args }

unfoldable pub has : Bytes → Env → Bool
has key e = elim (find exact key e.args) [ none ↦ false | some v ↦ true ]

unfoldable pub del : Bytes → Env → Env
del key e = record e { args = remove exact key e.args }

unfoldable pub get : Bytes → Bytes → Env → Bytes
get key default_value e = elim (find exact key e.args) [ none ↦ default_value | some v ↦ v ]

-- The loop of RemoveHelp
unfoldable pub erase_help : Bytes → List (Bytes × Bytes) → List (Bytes × Bytes)
erase_help key [] = []
erase_help key ((k, d) ∷ helps) =
    if bytes_eq k key then erase_help key helps else (k, d) ∷ erase_help key helps

unfoldable pub remove_help : Bytes → Env → Env
remove_help key e = record e { helps = erase_help key e.helps }

unfoldable pub add_help : Bytes → Bytes → Env → Env
add_help key desc e = let f = remove_help key e in record f { helps = f.helps ++ (key, desc) ∷ [] }

-- What PrintHelp prints, a line for each entry
unfoldable pub help_lines : List (Bytes × Bytes) → Bytes
help_lines [] = []
help_lines ((k, d) ∷ helps) =
    codes "    -" ++ (k ++ (codes " : " ++ (d ++ (10 ∷ help_lines helps))))

unfoldable pub print_help : Env → Bytes
print_help e = codes "Usage: " ++ (e.program ++ (codes " [options]" ++ (10 ∷ help_lines e.helps)))

abbrev pub has_slash : Bytes → Bool
has_slash [] = false
has_slash (c ∷ s) = if c == b'/' then true else has_slash s

-- `exe.substr(0, exe.find_last_of("/"))`: all of it when there is no slash
unfoldable pub before_last_slash : Bytes → Bytes
before_last_slash [] = []
before_last_slash (c ∷ s) =
    let rest = before_last_slash s in
    if c == b'/' then (if has_slash s then c ∷ rest else []) else c ∷ rest

abbrev pub is_dash : Bytes → Bool
is_dash [] = false
is_dash (c ∷ s) = c == b'-'

-- `if (now_key) Add(now_key, "")`
unfoldable pub close_key : Option Bytes → Env → Env
close_key none e = e
close_key (some k) e = add k [] e

-- The loop over the arguments behind the first, with now_key: whether they are right, and what they set
unfoldable pub read_args : Option Bytes → List Bytes → Env → Bool × Env
read_args now_key [] e = (true, close_key now_key e)
read_args none (arg ∷ args) e =
    let opened = read_args (some (drop 1 arg)) args e in
    if is_dash arg then (if is_nil (drop 1 arg) then (false, e) else opened) else (false, e)
read_args (some k) (arg ∷ args) e =
    let opened = read_args (some (drop 1 arg)) args (add k [] e) in
    let valued = read_args none args (add k arg e) in
    if is_dash arg then (if is_nil (drop 1 arg) then (false, e) else opened) else valued

-- Init; `link` is what readlink gives for the program's own file, `none` when it fails.
unfoldable pub init : Option Bytes → Bytes → List Bytes → Env → Bool × Env
init none program args e = (false, e)
init (some path) program args e =
    read_args none args
      (record e { exe = path; cwd = before_last_slash path ++ codes "/"; program = program })

abbrev pub is_absolute : Bytes → Bool
is_absolute [] = false
is_absolute (c ∷ s) = c == b'/'

unfoldable pub get_absolute_path : Bytes → Env → Bytes
get_absolute_path path e =
    if is_nil path then codes "/" else if is_absolute path then path else e.cwd ++ path

-- GetAbsoluteWorkPath, with the value of server.work_path
unfoldable pub get_absolute_work_path : Bytes → Bytes → Bytes
get_absolute_work_path work_path path =
    if is_nil path
    then codes "/"
    else if is_absolute path
    then path
    else work_path ++ (codes "/" ++ path)

unfoldable pub get_config_path : Env → Bytes
get_config_path e = get_absolute_path (get (codes "c") (codes "conf") e) e
