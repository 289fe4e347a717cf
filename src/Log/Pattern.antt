-- ===== src/Log/Pattern.antt =====
-- gudov/log.cpp: LogFormatter::Init. The position in the pattern is the text from it on. isalpha is that of
-- the C locale.
use gudov.Common.{ℕ, zero, suc, ◌==◌, leb, Bool, true, false, not, ◌&&◌, ◌||◌, if◌then◌else◌}
use gudov.Common.{List, [], ◌∷◌, ◌++◌, length, Option, none, some}
use gudov.Common.Text.{Bytes, codes, is_nil, bytes_eq}

-- An entry of `vec`: its type is 0, or 1 with the format.
pub data Piece : Type 0 where
  literal : Bytes → Piece
  directive : Bytes → Bytes → Piece

abbrev pub is_alpha : ℕ → Bool
is_alpha c = (leb b'A' c && leb c b'Z') || (leb b'a' c && leb c b'z')

-- The loop behind '{': the format, whether it was closed, and the text behind it
unfoldable pub scan_format : Bytes → Bytes → Bytes × Bool × Bytes
scan_format fmt [] = ([], false, [])
scan_format fmt (c ∷ rest) =
    let more = scan_format (fmt ++ c ∷ []) rest in if c == b'}' then (fmt, true, rest) else more

-- The loop behind '%': the name, the format, whether it is well formed, and the text behind it
unfoldable pub scan : Bytes → Bytes → Bytes × Bytes × Bool × Bytes
scan name [] = (name, [], true, [])
scan name (c ∷ rest) =
    let (fmt, closed, behind) = scan_format [] rest in
    let more = scan (name ++ c ∷ []) rest in
    if not (is_alpha c) && (not (c == b'{') && not (c == b'}'))
    then (name, [], true, c ∷ rest)
    else if c == b'{'
    then (name, fmt, closed, behind)
    else more

-- `if (!nstr.empty()) vec.push_back(...)`
abbrev pub flush : Bytes → List Piece
flush nstr = if is_nil nstr then [] else literal nstr ∷ []

abbrev pub starts_with_percent : Bytes → Bool
starts_with_percent [] = false
starts_with_percent (c ∷ s) = c == b'%'

-- The outer loop, with `nstr`: the entries, and error_
unfoldable pub init_loop : ℕ → Bytes → Bytes → List Piece × Bool
init_loop zero nstr s = (flush nstr, false)
init_loop (suc fuel) nstr [] = (flush nstr, false)
init_loop (suc fuel) nstr (c ∷ rest) =
    let plain = init_loop fuel (nstr ++ c ∷ []) rest in
    let (name, fmt, fine, behind) = scan [] rest in
    let (pieces, bad) = init_loop fuel [] behind in
    let (kept, broken) = init_loop fuel nstr rest in
    if not (c == b'%') || starts_with_percent rest
    then plain
    else if fine
    then (flush nstr ++ directive name fmt ∷ pieces, bad)
    else (literal (codes "<<pattern_error>>") ∷ kept, true)

-- A FormatItem, one constructor for each class
pub data FormatItem : Type 0 where
  message_item : FormatItem
  level_item : FormatItem
  elapse_item : FormatItem
  name_item : FormatItem
  thread_id_item : FormatItem
  new_line_item : FormatItem
  date_time_item : Bytes → FormatItem
  filename_item : FormatItem
  line_item : FormatItem
  tab_item : FormatItem
  fiber_id_item : FormatItem
  string_item : Bytes → FormatItem

-- DateTimeFormatItem's constructor
unfoldable pub date_time : Bytes → FormatItem
date_time fmt = date_time_item (if is_nil fmt then codes "%Y-%m-%d %H:%M:%S" else fmt)

-- s_format_items.find
unfoldable pub format_item : Bytes → Bytes → Option FormatItem
format_item name fmt =
    if bytes_eq name (codes "m")
    then some message_item
    else if bytes_eq name (codes "p")
    then some level_item
    else if bytes_eq name (codes "r")
    then some elapse_item
    else if bytes_eq name (codes "c")
    then some name_item
    else if bytes_eq name (codes "t")
    then some thread_id_item
    else if bytes_eq name (codes "n")
    then some new_line_item
    else if bytes_eq name (codes "d")
    then some (date_time fmt)
    else if bytes_eq name (codes "f")
    then some filename_item
    else if bytes_eq name (codes "l")
    then some line_item
    else if bytes_eq name (codes "T")
    then some tab_item
    else if bytes_eq name (codes "F")
    then some fiber_id_item
    else none

-- The loop over `vec`: items_, and error_
unfoldable pub items_of : List Piece → Bool → List FormatItem × Bool
items_of [] bad = ([], bad)
items_of (literal s ∷ pieces) bad =
    let (items, e) = items_of pieces bad in (string_item s ∷ items, e)
items_of (directive name fmt ∷ pieces) bad =
    let (items, e) = items_of pieces bad in
    elim (format_item name fmt) [
      | none ↦ (string_item (codes "<<error_format %" ++ (name ++ codes ">>")) ∷ items, true)
      | some i ↦ (i ∷ items, e)
    ]

pub record LogFormatter : Type 0 where
  pub pattern : Bytes
  pub items : List FormatItem
  pub error : Bool

-- The constructor, with Init
unfoldable pub new_formatter : Bytes → LogFormatter
new_formatter pattern =
    let (pieces, bad) = init_loop (length pattern) [] pattern in
    let (items, e) = items_of pieces bad in record { pattern = pattern; items = items; error = e }
