-- ===== src/Config.antt =====
-- gudov/config.h, gudov/config.cpp: ConfigVar and Config. The type of a variable is named by a number; its
-- values, their equality and their reading from text are parameters, and so is what the YAML library says of
-- a node: the members of a map (none for any other node) and the text of a node. The locks are left out. The
-- unordered map of the variables is an association list, since only its look-ups are used.
pub mod Laws
mod Tests
use gudov.Common.{ℕ, zero, suc, ◌==◌, ltb, leb, Bool, true, false, not, ◌&&◌, ◌||◌, if◌then◌else◌}
use gudov.Common.{Option, none, some, List, [], ◌∷◌, ◌++◌, map}
use gudov.Common.Text.{Bytes, codes, is_nil, lower}
use gudov.Common.Dict.{Dict, exact, find, put}

pub record ConfigVar {ℓ} (V : Type ℓ) : Type ℓ where
  pub name : Bytes
  pub description : Bytes
  pub type : ℕ
  pub value : V
  pub callbacks : List (ℕ × ℕ)

-- `callbacks_[key] = callback`, in the order of the keys
unfoldable pub put_listener : ℕ → ℕ → List (ℕ × ℕ) → List (ℕ × ℕ)
put_listener key callback [] = (key, callback) ∷ []
put_listener key callback ((j, c) ∷ m) =
    let rest = put_listener key callback m in
    if key == j
    then (key, callback) ∷ m
    else if ltb key j
    then (key, callback) ∷ (j, c) ∷ m
    else (j, c) ∷ rest

unfoldable pub erase_listener : ℕ → List (ℕ × ℕ) → List (ℕ × ℕ)
erase_listener key [] = []
erase_listener key ((j, c) ∷ m) = if key == j then m else (j, c) ∷ erase_listener key m

unfoldable pub find_listener : ℕ → List (ℕ × ℕ) → Option ℕ
find_listener key [] = none
find_listener key ((j, c) ∷ m) = if key == j then some c else find_listener key m

module _ {ℓ} {V : Type ℓ} where
  unfoldable pub new_config_var : ℕ → Bytes → V → Bytes → ConfigVar V
  new_config_var type name default_value description = record {
    name = lower name;
    description = description;
    type = type;
    value = default_value;
    callbacks = [];
  }

  -- AddListener: s_fun_id, which is the listener's key, and the variable
  unfoldable pub add_listener : ℕ → ℕ → ConfigVar V → ℕ × ConfigVar V
  add_listener fun_id callback c =
      (suc fun_id, record c { callbacks = put_listener (suc fun_id) callback c.callbacks })

  unfoldable pub del_listener : ℕ → ConfigVar V → ConfigVar V
  del_listener key c = record c { callbacks = erase_listener key c.callbacks }

  unfoldable pub get_listener : ℕ → ConfigVar V → Option ℕ
  get_listener key c = find_listener key c.callbacks

  unfoldable pub clear_listener : ConfigVar V → ConfigVar V
  clear_listener c = record c { callbacks = [] }

  -- SetValue: the calls of the listeners, each with the old and the new value, and the variable
  unfoldable pub set_value : (V → V → Bool) → V → ConfigVar V → List (ℕ × V × V) × ConfigVar V
  set_value same v c =
      if same v c.value
      then ([], c)
      else (map (λ i. (i.1, c.value, v)) c.callbacks, record c { value = v })

  -- fromString of what the conversion makes of the text, `none` being its exception: the result, the calls
  -- and the variable
  unfoldable pub from_string :
      (V → V → Bool) → Option V → ConfigVar V → Bool × List (ℕ × V × V) × ConfigVar V
  from_string same none c = (false, [], c)
  from_string same (some v) c = (false, (set_value same v c).0, (set_value same v c).1)

abbrev pub is_name_byte : ℕ → Bool
is_name_byte c =
    (leb b'a' c && leb c b'z') || ((leb b'0' c && leb c b'9') || (c == b'.' || c == b'_'))

-- find_first_not_of finds nothing
unfoldable pub valid_name : Bytes → Bool
valid_name [] = true
valid_name (c ∷ s) = is_name_byte c && valid_name s

-- What Lookup gives: a variable, a null pointer, or std::invalid_argument
pub data Found {ℓ} (A : Type ℓ) : Type ℓ where
  found : A → Found A
  null : Found A
  invalid : Found A

module _ {ℓ} {V : Type ℓ} where
  unfoldable pub lookup_base : Bytes → Dict (ConfigVar V) → Option (ConfigVar V)
  lookup_base name datas = find exact name datas

  -- Lookup with a default, of the variable that is there or of none
  unfoldable pub lookup_from :
      Option (ConfigVar V)
      → ℕ
      → Bytes
      → V
      → Bytes
      → Dict (ConfigVar V)
      → Found (ConfigVar V) × Dict (ConfigVar V)
  lookup_from (some c) type name default_value description datas =
      if c.type == type then (found c, datas) else (null, datas)
  lookup_from none type name default_value description datas =
      let v = new_config_var type name default_value description in
      if valid_name name then (found v, put exact name v datas) else (invalid, datas)

  unfoldable pub lookup :
      ℕ → Bytes → V → Bytes → Dict (ConfigVar V) → Found (ConfigVar V) × Dict (ConfigVar V)
  lookup type name default_value description datas =
      lookup_from (find exact name datas) type name default_value description datas

  -- Lookup without a default
  unfoldable pub lookup_only : ℕ → Bytes → Dict (ConfigVar V) → Option (ConfigVar V)
  lookup_only type name datas = elim (find exact name datas) [
    | none ↦ none
    | some c ↦ (if c.type == type then some c else none)
  ]

module _ {ℓ} {N : Type ℓ} (members : N → List (Bytes × N)) where
  -- The loop of ListAllMember, `each` being the call for a member
  unfoldable pub all_members :
      (Bytes → N → List (Bytes × N)) → Bytes → List (Bytes × N) → List (Bytes × N)
  all_members each prefix [] = []
  all_members each prefix ((k, n) ∷ ms) =
      each (if is_nil prefix then k else prefix ++ (b'.' ∷ k)) n ++ all_members each prefix ms

  -- ListAllMember to a depth
  unfoldable pub list_all_member : ℕ → Bytes → N → List (Bytes × N)
  list_all_member zero prefix node = []
  list_all_member (suc depth) prefix node =
      let below = all_members (list_all_member depth) prefix (members node) in
      if valid_name prefix then (prefix, node) ∷ below else []

  module _ {V : Type ℓ} (same : V → V → Bool) (convert : ℕ → N → Option V) where
    -- A variable that a node sets: the calls of its listeners, which do not throw, and the variables
    unfoldable pub load_var :
        Option (ConfigVar V)
        → Bytes
        → N
        → Dict (ConfigVar V)
        → List (ℕ × V × V) × Dict (ConfigVar V)
    load_var none key node datas = ([], datas)
    load_var (some c) key node datas =
        let (result, calls, var) = from_string same (convert c.type node) c in
        (calls, put exact key var datas)

    -- The loop of LoadFromYaml
    unfoldable pub load_nodes :
        List (Bytes × N) → Dict (ConfigVar V) → List (ℕ × V × V) × Dict (ConfigVar V)
    load_nodes [] datas = ([], datas)
    load_nodes ((k, node) ∷ nodes) datas =
        let skipped = load_nodes nodes datas in
        let (calls, set) = load_var (lookup_base (lower k) datas) (lower k) node datas in
        let (more, loaded) = load_nodes nodes set in
        if is_nil k then skipped else (calls ++ more, loaded)

    unfoldable pub load_from_yaml :
        ℕ → N → Dict (ConfigVar V) → List (ℕ × V × V) × Dict (ConfigVar V)
    load_from_yaml depth root datas = load_nodes (list_all_member depth [] root) datas
