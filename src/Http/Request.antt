-- ===== src/Http/Request.antt =====
-- gudov/http/http.h, gudov/http/http.cpp: HttpRequest. Its status_ is never written or read, and is left
-- out. The setters and getters of one field are the record's fields.
use gudov.Common.{ℕ, Bool, true, false, if◌then◌else◌, Option, []}
use gudov.Common.Text.{Bytes, is_nil, codes}
use gudov.Common.Dict.{Dict, find, put, remove}
use gudov.Http.Method.{HttpMethod, get}
use gudov.Http.Message.{folded, same_text, get_or_def, get_as, check_get_as}

pub record HttpRequest : Type 0 where
  pub method : HttpMethod
  pub version : ℕ
  pub close : Bool
  pub path : Bytes
  pub query : Bytes
  pub fragment : Bytes
  pub body : Bytes
  pub headers : Dict Bytes
  pub params : Dict Bytes
  pub cookies : Dict Bytes

unfoldable pub new_request : ℕ → Bool → HttpRequest
new_request version close = record {
  method = get;
  version = version;
  close = close;
  path = codes "/";
  query = [];
  fragment = [];
  body = [];
  headers = [];
  params = [];
  cookies = [];
}

unfoldable pub get_header : Bytes → Bytes → HttpRequest → Bytes
get_header key def r = get_or_def r.headers key def

unfoldable pub get_param : Bytes → Bytes → HttpRequest → Bytes
get_param key def r = get_or_def r.params key def

unfoldable pub get_cookie : Bytes → Bytes → HttpRequest → Bytes
get_cookie key def r = get_or_def r.cookies key def

unfoldable pub set_header : Bytes → Bytes → HttpRequest → HttpRequest
set_header key val r = record r { headers = put folded key val r.headers }

unfoldable pub set_param : Bytes → Bytes → HttpRequest → HttpRequest
set_param key val r = record r { params = put folded key val r.params }

unfoldable pub set_cookie : Bytes → Bytes → HttpRequest → HttpRequest
set_cookie key val r = record r { cookies = put folded key val r.cookies }

unfoldable pub del_header : Bytes → HttpRequest → HttpRequest
del_header key r = record r { headers = remove folded key r.headers }

unfoldable pub del_param : Bytes → HttpRequest → HttpRequest
del_param key r = record r { params = remove folded key r.params }

unfoldable pub del_cookie : Bytes → HttpRequest → HttpRequest
del_cookie key r = record r { cookies = remove folded key r.cookies }

-- HasHeader, HasParam, HasCookie: `none` is false, and otherwise the value that `val` gets.
unfoldable pub has_header : Bytes → HttpRequest → Option Bytes
has_header key r = find folded key r.headers

unfoldable pub has_param : Bytes → HttpRequest → Option Bytes
has_param key r = find folded key r.params

unfoldable pub has_cookie : Bytes → HttpRequest → Option Bytes
has_cookie key r = find folded key r.cookies

unfoldable pub init : HttpRequest → HttpRequest
init r =
    let conn = get_header (codes "connection") [] r in
    if is_nil conn
    then r
    else if same_text conn (codes "keep-alive")
    then record r { close = false }
    else record r { close = true }

-- The templates that convert a header, a parameter or a cookie
unfoldable pub check_get_header_as {ℓ} :
    {T : Type ℓ} → (Bytes → Option T) → Bytes → T → HttpRequest → T × Bool
check_get_header_as cast key def r = check_get_as cast r.headers key def

unfoldable pub get_header_as {ℓ} : {T : Type ℓ} → (Bytes → Option T) → Bytes → T → HttpRequest → T
get_header_as cast key def r = get_as cast r.headers key def

unfoldable pub check_get_param_as {ℓ} :
    {T : Type ℓ} → (Bytes → Option T) → Bytes → T → HttpRequest → T × Bool
check_get_param_as cast key def r = check_get_as cast r.params key def

unfoldable pub get_param_as {ℓ} : {T : Type ℓ} → (Bytes → Option T) → Bytes → T → HttpRequest → T
get_param_as cast key def r = get_as cast r.params key def

unfoldable pub check_get_cookie_as {ℓ} :
    {T : Type ℓ} → (Bytes → Option T) → Bytes → T → HttpRequest → T × Bool
check_get_cookie_as cast key def r = check_get_as cast r.cookies key def

unfoldable pub get_cookie_as {ℓ} : {T : Type ℓ} → (Bytes → Option T) → Bytes → T → HttpRequest → T
get_cookie_as cast key def r = get_as cast r.cookies key def
