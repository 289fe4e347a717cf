-- ===== src/Config/Tests.antt =====
-- Runs of the theorems about gudov/config.h and gudov/config.cpp at concrete inputs.
use gudov.Common.{
  ℕ, ◌==◌, ◌≡◌, arith, true, false, refl, if◌then◌else◌, Option, some, List, [], ◌∷◌,
}
use gudov.Common.Text.{Bytes, codes, bytes_eq}
use gudov.Common.Dict.{Dict, exact, find}
use gudov.Config.{ConfigVar, new_config_var, lookup, list_all_member, load_from_yaml}
use gudov.Config.Laws.{lookup-lookup, with_last, find-load_from_yaml}

apart : bytes_eq (codes "tcp.port") (codes "log") ≡ false
unfolding bytes_eq
apart = refl

abbrev datas : Dict (ConfigVar ℕ)
datas = (codes "log", new_config_var 1 (codes "log") 5 []) ∷ []

lookup-lookup_example :
    (lookup 1 (codes "tcp.port") 9 [] (lookup 1 (codes "tcp.port") 80 [] datas).1
      ≡ lookup 1 (codes "tcp.port") 80 [] datas)
    × (find exact (codes "log") (lookup 1 (codes "tcp.port") 80 [] datas).1
        ≡ find exact (codes "log") datas)
lookup-lookup_example = lookup-lookup 1 (codes "tcp.port") (codes "log") 80 9 [] [] datas apart

-- A map with one number under "log"
abbrev members : ℕ → List (Bytes × ℕ)
members node = if node == 0 then (codes "log", 7) ∷ [] else []

abbrev convert : ℕ → ℕ → Option ℕ
convert type node = some node

decided : (a b : ℕ) → (a == b) ≡ true → a ≡ b
decided a b h = ground arith

find-load_from_yaml_example :
    find exact (codes "log") (load_from_yaml members (λ a b. a == b) convert 3 0 datas).1
    ≡ with_last convert
        (codes "log")
        (list_all_member members 3 [] 0)
        (find exact (codes "log") datas)
find-load_from_yaml_example =
    find-load_from_yaml members (λ a b. a == b) convert decided 3 0 (codes "log") datas
