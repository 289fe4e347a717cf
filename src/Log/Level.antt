-- ===== src/Log/Level.antt =====
-- gudov/log.h, gudov/log.cpp: LogLevel.
use gudov.Common.{ℕ, leb, Bool, if◌then◌else◌}
use gudov.Common.Text.{Bytes, codes, bytes_eq}

pub data Level : Type 0 where
  unknown : Level
  debug : Level
  info : Level
  warn : Level
  error : Level
  fatal : Level

-- The enumeration's values, by which levels compare
abbrev pub value : Level → ℕ
value unknown = 0
value debug = 1
value info = 2
value warn = 3
value error = 4
value fatal = 5

-- `a >= b`
abbrev pub at_least : Level → Level → Bool
at_least a b = leb (value b) (value a)

unfoldable pub to_string : Level → Bytes
to_string debug = codes "DEBUG"
to_string info = codes "INFO"
to_string warn = codes "WARN"
to_string error = codes "ERROR"
to_string fatal = codes "FATAL"
to_string unknown = codes "UNKNOWN"

unfoldable pub from_string : Bytes → Level
from_string str =
    if bytes_eq str (codes "debug")
    then debug
    else if bytes_eq str (codes "info")
    then info
    else if bytes_eq str (codes "warn")
    then warn
    else if bytes_eq str (codes "error")
    then error
    else if bytes_eq str (codes "fatal")
    then fatal
    else if bytes_eq str (codes "DEBUG")
    then debug
    else if bytes_eq str (codes "INFO")
    then info
    else if bytes_eq str (codes "WARN")
    then warn
    else if bytes_eq str (codes "ERROR")
    then error
    else if bytes_eq str (codes "FATAL")
    then fatal
    else unknown
