-- ===== src/Log/Config.antt =====
-- gudov/log.cpp: LogConfig, LogAppenderConfig and the listener of LogIniter on the "logs" variable. A
-- std::set of configurations is the list of its elements; the number of an object that the listener makes is
-- drawn from a counter.
use gudov.Common.{
  ℕ, suc, ◌==◌, Bool, true, false, ◌&&◌, ◌||◌, if◌then◌else◌, Option, none, some, List, [], ◌∷◌,
}
use gudov.Common.Text.{Bytes, is_nil, bytes_eq}
use gudov.Common.Dict.{exact, put}
use gudov.Log.Level.{Level, unknown, value}
use gudov.Log.Pattern.{new_formatter}
use gudov.Log.Logger.{
  Kind, file_appender, stdout_appender, Appender, new_appender, Logger, set_pattern, add_appender,
}
use gudov.Log.Logger.{clear_appenders, LoggerManager, get_logger}

-- type is 1 for a file and 2 for the standard output.
pub record LogAppenderConfig : Type 0 where
  pub type : ℕ
  pub level : Level
  pub formatter : Bytes
  pub file : Bytes

pub record LogConfig : Type 0 where
  pub name : Bytes
  pub level : Level
  pub formatter : Bytes
  pub appenders : List LogAppenderConfig

abbrev pub same_appender : LogAppenderConfig → LogAppenderConfig → Bool
same_appender a b =
    a.type == b.type
    && (value a.level == value b.level
        && (bytes_eq a.formatter b.formatter && bytes_eq a.file b.file))

-- `appenders == appenders`: the list of one side with itself
unfoldable pub same_appenders : List LogAppenderConfig → List LogAppenderConfig → Bool
same_appenders [] [] = true
same_appenders [] (b ∷ bs) = false
same_appenders (a ∷ xs) [] = false
same_appenders (a ∷ xs) (b ∷ bs) = same_appender a b && same_appenders xs bs

-- LogConfig::operator==
unfoldable pub same_config : LogConfig → LogConfig → Bool
same_config a b =
    bytes_eq a.name b.name
    && (value a.level == value b.level
        && (bytes_eq a.formatter b.formatter && same_appenders a.appenders a.appenders))

-- std::set::find: the elements are told apart by their names.
unfoldable pub find_config : Bytes → List LogConfig → Option LogConfig
find_config name [] = none
find_config name (c ∷ cs) = if bytes_eq c.name name then some c else find_config name cs

-- The class that a configuration's type stands for
unfoldable pub kind_of : LogAppenderConfig → Option Kind
kind_of c =
    if c.type == 1
    then some (file_appender c.file)
    else if c.type == 2
    then some stdout_appender
    else none

-- The appender that a configuration makes, with its level and formatter; `none` is a null pointer.
unfoldable pub make_appender : ℕ → LogAppenderConfig → Option Kind → Option Appender
make_appender name c none = none
make_appender name c (some k) =
    let fmt = new_formatter c.formatter in
    some (record (new_appender name k) {
      level = c.level;
      formatter = (if is_nil c.formatter || fmt.error then none else some fmt);
    })

-- The loop over the appenders of one configuration, with the counter
unfoldable pub add_all : ℕ → List LogAppenderConfig → Logger → Option (ℕ × Logger)
add_all n [] l = some (n, l)
add_all n (c ∷ cs) l = elim (make_appender n c (kind_of c)) [
  | none ↦ none
  | some a ↦ add_all (suc n) cs (add_appender a l)
]

-- What the listener does to the logger of a configuration
unfoldable pub configure : ℕ → LogConfig → Logger → Option (ℕ × Logger)
configure n c l =
    let levelled : Logger = record l { level = c.level } in
    let formatted = if is_nil c.formatter then levelled else set_pattern c.formatter levelled in
    add_all n c.appenders (clear_appenders formatted)

-- Whether the first loop leaves its pointer null for a configuration
unfoldable pub unchanged : List LogConfig → LogConfig → Bool
unchanged old c = elim (find_config c.name old) [ none ↦ false | some d ↦ same_config c d ]

-- The loop over the new configurations; `none` is the use of a null pointer.
unfoldable pub apply_new :
    List LogConfig → ℕ → List LogConfig → LoggerManager → Option (ℕ × LoggerManager)
apply_new old n [] m = some (n, m)
apply_new old n (c ∷ cs) m =
    let (l, m1) = get_logger c.name m in
    if unchanged old c then none else elim (configure n c l) [
      | none ↦ none
      | some r ↦ apply_new old r.0 cs (put exact c.name r.1 m1)
    ]

-- The loop over the old configurations
unfoldable pub drop_old : List LogConfig → List LogConfig → LoggerManager → LoggerManager
drop_old new [] m = m
drop_old new (c ∷ cs) m =
    let (l, m1) = get_logger c.name m in
    let rest = drop_old new cs m in
    let dropped =
      drop_old new cs (put exact c.name (clear_appenders (record l { level = unknown })) m1) in
    elim (find_config c.name new) [ none ↦ dropped | some d ↦ rest ]

-- The listener
unfoldable pub on_change :
    List LogConfig → List LogConfig → ℕ → LoggerManager → Option (ℕ × LoggerManager)
on_change old new n m = elim (apply_new old n new m) [
  | none ↦ none
  | some r ↦ some (r.0, drop_old new old r.1)
]
