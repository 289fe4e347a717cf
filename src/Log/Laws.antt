-- ===== src/Log/Laws.antt =====
-- What the loggers of gudov/log.cpp write, and that they have what they need for it.
use gudov.Common.{
  ℕ, ◌==◌, ◌≡◌, refl, inl, inr, Bool, true, false, not, ◌&&◌, Bool-cases, if◌then◌else◌,
}
use gudov.Common.{Option, none, some, List, [], ◌∷◌, map, All, All-append}
use gudov.Common.Text.{Bytes}
use gudov.Log.Level.{at_least}
use gudov.Log.Pattern.{LogFormatter, new_formatter}
use gudov.Log.Event.{LogEvent, format}
use gudov.Log.Logger.{
  kept_or, file_appender, stdout_appender, Appender, Logger, fill_formatter, set_formatter,
  set_pattern, add_appender, erase_appender,
}
use gudov.Log.Logger.{del_appender, clear_appenders}

abbrev pub present {ℓ} : {A : Type ℓ} → Option A → Bool
present none = false
present (some x) = true

-- A logger with a formatter, and one in each of its appenders
abbrev pub Formatted : Logger → Type 0
Formatted l = (present l.formatter ≡ true) × All (λ a. present a.formatter ≡ true) l.appenders

fill_formatter-present :
    (f : Option LogFormatter) (a : Appender)
    → present f ≡ true
    → present (fill_formatter f a).formatter ≡ true
unfolding fill_formatter
fill_formatter-present f a h = kept a.formatter
  where
    kept : (g : Option LogFormatter) → present (kept_or g f) ≡ true
    kept none = h
    kept (some x) = refl

map-present :
    (f : Option LogFormatter) (xs : List Appender)
    → present f ≡ true
    → All (λ a. present a.formatter ≡ true) (map (fill_formatter f) xs)
map-present f [] h = tt
map-present f (a ∷ xs) h = (fill_formatter-present f a h, map-present f xs h)

erase_appender-All :
    (P : Appender → Type 0) (n : ℕ) (xs : List Appender) → All P xs → All P (erase_appender n xs)
unfolding erase_appender
erase_appender-All P n [] h = tt
erase_appender-All P n (a ∷ xs) h = elim (Bool-cases (a.name == n)) [
  | inl t ↦ rw t h.1
  | inr t ↦ rw t (h.0, erase_appender-All P n xs h.1)
]

set_formatter-Formatted : (f : LogFormatter) (l : Logger) → Formatted (set_formatter f l)
unfolding set_formatter
set_formatter-Formatted f l = (refl, map-present (some f) l.appenders refl)

-- A logger keeps a formatter in itself and in each of its appenders: when an appender is added, with or
-- without one of its own, or erased, when all are cleared, and when a formatter or a pattern is set, also
-- one that is refused.
pub logger-Formatted :
    (a : Appender) (n : ℕ) (f : LogFormatter) (pattern : Bytes) (l : Logger)
    → Formatted l
    → Formatted (add_appender a l)
      × Formatted (del_appender n l)
      × Formatted (clear_appenders l)
      × Formatted (set_formatter f l)
      × Formatted (set_pattern pattern l)
unfolding add_appender del_appender clear_appenders set_pattern
logger-Formatted a n f pattern l h = (
  (
    h.0,
    All-append (λ x. present x.formatter ≡ true) l.appenders (fill_formatter l.formatter a ∷ []) h.1
        (fill_formatter-present l.formatter a h.0, tt),
  ),
  (h.0, erase_appender-All (λ x. present x.formatter ≡ true) n l.appenders h.1),
  (h.0, tt),
  set_formatter-Formatted f l,
  either (new_formatter pattern).error l (set_formatter (new_formatter pattern) l) h
      (set_formatter-Formatted (new_formatter pattern) l),
)
  where
    either : (b : Bool) (x y : Logger) → Formatted x → Formatted y → Formatted (if b then x else y)
    either true x y p q = p
    either false x y p q = q

-- The appenders that an event reaches: those of the logger that takes it, or else those of the root
unfoldable pub reached : Logger → Logger → LogEvent → List Appender
reached root l e = if not (at_least e.level l.level) then [] else elim l.appenders [
  | a ∷ appenders ↦ a ∷ appenders
  | [] ↦ (if l.has_root && at_least e.level root.level then root.appenders else [])
]

-- A file appender always writes, one to the standard output when the level is not below its own.
abbrev pub speaks : LogEvent → Appender → Bool
speaks e a = elim a.kind [ file_appender f ↦ true | stdout_appender ↦ at_least e.level a.level ]

-- The text of an event in the format of an appender
abbrev pub text_of : (LogFormatter → Bytes) → Option LogFormatter → Bytes
text_of form none = []
text_of form (some m) = form m

-- Each appender with the event in its own format, where it writes
unfoldable pub reports : (Bytes → ℕ → Bytes) → LogEvent → List Appender → List (ℕ × Option Bytes)
reports strftime e xs =
    map
      (λ a. (
        a.name,
        if speaks e a then some (text_of (λ m. format strftime m e) a.formatter) else none,
      ))
      xs
