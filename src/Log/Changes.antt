-- ===== src/Log/Changes.antt =====
-- LoggerManager::GetLogger and the listener on the configuration (gudov/log.cpp).
use gudov.Common.{
  ℕ, suc, ◌==◌, ◌≡◌, refl, ◌∙◌, inl, inr, arith, Bool, true, false, not, ◌&&◌, ◌||◌, Bool-cases,
  if◌then◌else◌,
}
use gudov.Common.{Option, none, some, List, [], ◌∷◌, ◌++◌}
use gudov.Common.Text.{Bytes, bytes_eq, bytes_eq_refl, bytes_eq→eq}
use gudov.Common.Dict.{exact, find, put, find-put}
use gudov.Log.Logger.{Kind, stdout_appender, Appender, Logger, new_logger, add_appender}
use gudov.Log.Logger.{LoggerManager, get_logger}
use gudov.Log.Config.{
  LogAppenderConfig, LogConfig, same_appenders, same_config, find_config, kind_of, make_appender,
  add_all,
}
use gudov.Log.Config.{configure, unchanged, apply_new, drop_old, on_change}
use gudov.Log.Laws.{present}

registered :
    (name : Bytes) (m : LoggerManager) (l : Logger)
    → find exact name m ≡ some l
    → get_logger name m ≡ (l, m)
unfolding get_logger
registered name m l e = rw (e, get_logger) refl

made : Bytes → Logger
made name = record (new_logger name) { has_root = true }

unregistered :
    (name : Bytes) (m : LoggerManager)
    → find exact name m ≡ none
    → get_logger name m ≡ (made name, put exact name (made name) m)
unfolding get_logger made
unregistered name m e = rw (e, get_logger) refl

-- GetLogger gives the logger that is registered for the name from then on, and leaves every other name as
-- it was; asking again gives the same logger and changes nothing.
get_logger-find :
    (name k : Bytes) (m : LoggerManager)
    → (find exact k (get_logger name m).1
        ≡ (if bytes_eq name k then some (get_logger name m).0 else find exact k m))
      × (get_logger name (get_logger name m).1 ≡ get_logger name m)
get_logger-find name k m = cases (find exact name m) refl
  where
    cases :
        (o : Option Logger)
        → find exact name m ≡ o
        → (find exact k (get_logger name m).1
            ≡ (if bytes_eq name k then some (get_logger name m).0 else find exact k m))
          × (get_logger name (get_logger name m).1 ≡ get_logger name m)
    cases (some l) e =
        let g : get_logger name m ≡ (l, m) = registered name m l e in
        rw g (
          elim (Bool-cases (bytes_eq name k)) [
            | inl t ↦
                let same : name ≡ k = bytes_eq→eq name k t in
                let f : find exact k m ≡ some l = rw (← same) e in rw (t, f) refl
            | inr t ↦ rw t refl
          ],
          g,
        )
    cases none e =
        let fresh = made name in
        let g : get_logger name m ≡ (fresh, put exact name fresh m) = unregistered name m e in
        let found : find exact name (put exact name fresh m) ≡ some fresh =
          find-put exact name name fresh m ∙ rw (bytes_eq_refl name) refl in
        let again : get_logger name (put exact name fresh m) ≡ (fresh, put exact name fresh m) =
          registered name (put exact name fresh m) fresh found in
        rw g (find-put exact name k fresh m, again)

-- The listener gets through a set of configurations.
unfoldable pub all_types : List LogAppenderConfig → Bool
all_types [] = true
all_types (c ∷ cs) = (c.type == 1 || c.type == 2) && all_types cs

unfoldable pub accepted : List LogConfig → List LogConfig → Bool
accepted old [] = true
accepted old (c ∷ cs) = (not (unchanged old c) && all_types c.appenders) && accepted old cs

made_present :
    (n : ℕ) (c : LogAppenderConfig) (k : Option Kind) → present (make_appender n c k) ≡ present k
unfolding make_appender
made_present n c none = refl
made_present n c (some k) = refl

kind_of-present : (c : LogAppenderConfig) → present (kind_of c) ≡ (c.type == 1 || c.type == 2)
unfolding kind_of
kind_of-present c = elim (Bool-cases (c.type == 1)) [
  | inl t ↦ rw t refl
  | inr t ↦ rw t (last (c.type == 2))
]
  where
    last : (b : Bool) → present (if b then some stdout_appender else none) ≡ b
    last true = refl
    last false = refl

add_all-present :
    (n : ℕ) (cs : List LogAppenderConfig) (l : Logger) → present (add_all n cs l) ≡ all_types cs
unfolding add_all all_types
add_all-present n [] l = refl
add_all-present n (c ∷ cs) l =
    cases (make_appender n c (kind_of c)) (made_present n c (kind_of c) ∙ kind_of-present c)
      (λ a. add_all-present (suc n) cs (add_appender a l))
  where
    cases :
        (o : Option Appender)
        → present o ≡ (c.type == 1 || c.type == 2)
        → ((a : Appender) → present (add_all (suc n) cs (add_appender a l)) ≡ all_types cs)
        → present (elim o as (λ _. Option (ℕ × Logger)) [
          | none ↦ none
          | some a ↦ add_all (suc n) cs (add_appender a l)
        ])
          ≡ ((c.type == 1 || c.type == 2) && all_types cs)
    cases none e h = rw (← e) refl
    cases (some a) e h = rw (← e) (h a)

configure-present :
    (n : ℕ) (c : LogConfig) (l : Logger) → present (configure n c l) ≡ all_types c.appenders
unfolding configure
configure-present n c l = add_all-present n c.appenders _

apply_new-present :
    (old : List LogConfig) (n : ℕ) (new : List LogConfig) (m : LoggerManager)
    → present (apply_new old n new m) ≡ accepted old new
unfolding apply_new accepted
apply_new-present old n [] m = refl
apply_new-present old n (c ∷ cs) m =
    let l = (get_logger c.name m).0 in
    cases (unchanged old c) (configure n c l) (configure-present n c l)
      (λ r. apply_new-present old r.0 cs (put exact c.name r.1 (get_logger c.name m).1))
  where
    cases :
        (same : Bool) (o : Option (ℕ × Logger))
        → present o ≡ all_types c.appenders
        → ((r : ℕ × Logger)
            → present (apply_new old r.0 cs (put exact c.name r.1 (get_logger c.name m).1))
              ≡ accepted old cs)
        → present (
            if same then none else elim o as (λ _. Option (ℕ × LoggerManager)) [
              | none ↦ none
              | some r ↦ apply_new old r.0 cs (put exact c.name r.1 (get_logger c.name m).1)
            ])
          ≡ ((not same && all_types c.appenders) && accepted old cs)
    cases true o e h = refl
    cases false none e h = rw (← e) refl
    cases false (some r) e h = rw (← e) (h r)

-- The listener gets through a change, and uses no null pointer, exactly when no new configuration equals
-- the old one of its name by operator== and every appender's type is 1 or 2.
pub on_change-accepted :
    (old new : List LogConfig) (n : ℕ) (m : LoggerManager)
    → present (on_change old new n m) ≡ accepted old new
unfolding on_change
on_change-accepted old new n m = cases (apply_new old n new m) (apply_new-present old n new m)
  where
    cases :
        (o : Option (ℕ × LoggerManager))
        → present o ≡ accepted old new
        → present (elim o as (λ _. Option (ℕ × LoggerManager)) [
          | none ↦ none
          | some r ↦ some (r.0, drop_old new old r.1)
        ])
          ≡ accepted old new
    cases none e = e
    cases (some r) e = e

same_appenders_refl : (xs : List LogAppenderConfig) → same_appenders xs xs ≡ true
unfolding same_appenders
same_appenders_refl [] = refl
same_appenders_refl (a ∷ xs) =
    rw (bytes_eq_refl a.formatter, bytes_eq_refl a.file, same_appenders_refl xs) (ground arith)

refused :
    (old before after : List LogConfig) (c : LogConfig)
    → unchanged old c ≡ true
    → accepted old (before ++ c ∷ after) ≡ false
unfolding accepted
refused old [] after c h = rw h refl
refused old (d ∷ before) after c h =
    rw (refused old before after c h) (ends (not (unchanged old d) && all_types d.appenders))
  where
    ends : (b : Bool) → (b && false) ≡ false
    ends true = refl
    ends false = refl

-- A change that keeps the level and the formatter of a logger makes the listener use a null pointer, also
-- one that changes its appenders: operator== compares the appenders of one side with themselves, so that
-- such a configuration counts as the old one, and no logger is looked up for it.
pub on_change-same_config :
    (old before after : List LogConfig) (c d : LogConfig) (n : ℕ) (m : LoggerManager)
    → find_config c.name old ≡ some d
    → c.name ≡ d.name
    → c.level ≡ d.level
    → c.formatter ≡ d.formatter
    → present (on_change old (before ++ c ∷ after) n m) ≡ false
unfolding unchanged
on_change-same_config old before after c d n m h p q r =
    let same : same_config c d ≡ true =
      unfold same_config in
      rw (same_appenders_refl c.appenders, p, q, r, bytes_eq_refl d.name, bytes_eq_refl d.formatter)
        (ground arith) in
    let u : unchanged old c ≡ true = rw (h, unchanged) same in
    on_change-accepted old (before ++ c ∷ after) n m ∙ refused old before after c u
