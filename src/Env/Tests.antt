-- ===== src/Env/Tests.antt =====
-- Runs of the theorems about gudov/env.cpp at concrete inputs.
use gudov.Common.{◌≡◌, refl, true, none, some, List, [], ◌∷◌, ◌++◌}
use gudov.Common.Text.{codes}
use gudov.Env.{Env, before_last_slash, init, is_absolute, get_absolute_path, get_config_path}
use gudov.Env.Options.{Setting, command_line, set_all, init-command_line, get_absolute_path-init}

abbrev env : Env
env = record { args = []; helps = []; program = []; exe = []; cwd = [] }

abbrev settings : List Setting
settings = (codes "d", none) ∷ (codes "c", some (codes "conf")) ∷ []

init-command_line_example : init (some (codes "/bin/x")) (codes "x") (command_line settings) env ≡ (
  true,
  set_all settings (record env {
    exe = codes "/bin/x";
    cwd = before_last_slash (codes "/bin/x") ++ codes "/";
    program = codes "x";
  }),
)
init-command_line_example =
    init-command_line settings (codes "/bin/x") (codes "x") env ((refl, refl), ((refl, refl), tt))

get_absolute_path-init_example :
    (is_absolute (
        get_absolute_path
          (codes "log")
          (init (some (codes "/bin/x")) (codes "x") (codes "v" ∷ []) env).1)
      ≡ true)
    × (is_absolute
          (get_config_path (init (some (codes "/bin/x")) (codes "x") (codes "v" ∷ []) env).1)
        ≡ true)
get_absolute_path-init_example =
    get_absolute_path-init (codes "/bin/x") (codes "x") (codes "log") (codes "v" ∷ []) env refl
