-- ===== src/Log/Event.antt =====
-- gudov/log.h, gudov/log.cpp: LogEvent and the FormatItems. The text that strftime makes of a format and a
-- time is a parameter.
use gudov.Common.{ℕ, List, [], ◌∷◌, ◌++◌}
use gudov.Common.Text.{Bytes, decimal}
use gudov.Log.Level.{Level, to_string}
use gudov.Log.Pattern.{
  FormatItem, message_item, level_item, elapse_item, name_item, thread_id_item, new_line_item,
}
use gudov.Log.Pattern.{
  date_time_item, filename_item, line_item, tab_item, fiber_id_item, string_item, LogFormatter,
}

-- The logger of an event, by its name, is what the items read of it; line_ is not negative.
pub record LogEvent : Type 0 where
  pub file : Bytes
  pub line : ℕ
  pub elapse : ℕ
  pub thread_id : ℕ
  pub fiber_id : ℕ
  pub time : ℕ
  pub content : Bytes
  pub logger : Bytes
  pub level : Level

module _ (strftime : Bytes → ℕ → Bytes) where
  -- FormatItem::format of each class
  unfoldable pub format_one : FormatItem → LogEvent → Bytes
  format_one message_item e = e.content
  format_one level_item e = to_string e.level
  format_one elapse_item e = decimal e.elapse
  format_one name_item e = e.logger
  format_one thread_id_item e = decimal e.thread_id
  format_one new_line_item e = 10 ∷ []
  format_one (date_time_item fmt) e = strftime fmt e.time
  format_one filename_item e = e.file
  format_one line_item e = decimal e.line
  format_one tab_item e = 9 ∷ []
  format_one fiber_id_item e = decimal e.fiber_id
  format_one (string_item s) e = s

  -- LogFormatter::format
  unfoldable pub format_items : List FormatItem → LogEvent → Bytes
  format_items [] e = []
  format_items (i ∷ items) e = format_one i e ++ format_items items e

  unfoldable pub format : LogFormatter → LogEvent → Bytes
  format f e = format_items f.items e
