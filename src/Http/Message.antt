-- ===== src/Http/Message.antt =====
-- gudov/http/http.h, gudov/http/http.cpp: the maps of a message. Headers, parameters and cookies are
-- std::map under CaseInsensitiveLess.
use gudov.Common.{Bool, true, false, Option, some, none}
use gudov.Common.Text.{Bytes, lower, bytes_eq}
use gudov.Common.Dict.{Dict, find}
use gudov.Http.Method.{c_str}

-- What strcasecmp compares.
unfoldable pub folded : Bytes → Bytes
folded s = lower (c_str s)

-- strcasecmp(s, t) == 0
abbrev pub same_text : Bytes → Bytes → Bool
same_text s t = bytes_eq (folded s) (folded t)

-- The template GetAs; `cast` is boost::lexical_cast, and `none` its exception.
unfoldable pub get_as {ℓ} : {T : Type ℓ} → (Bytes → Option T) → Dict Bytes → Bytes → T → T
get_as cast m key def = elim (find folded key m) [
  | none ↦ def
  | some v ↦ elim (cast v) [ none ↦ def | some t ↦ t ]
]

-- The template CheckGetAs: what it writes to `val`, and whether it succeeded
unfoldable pub check_get_as {ℓ} :
    {T : Type ℓ} → (Bytes → Option T) → Dict Bytes → Bytes → T → T × Bool
check_get_as cast m key def = elim (find folded key m) [
  | none ↦ (def, false)
  | some v ↦ elim (cast v) [ none ↦ (def, false) | some t ↦ (t, true) ]
]

-- `it == m.end() ? def : it->second`
unfoldable pub get_or_def : Dict Bytes → Bytes → Bytes → Bytes
get_or_def m key def = elim (find folded key m) [ none ↦ def | some v ↦ v ]
