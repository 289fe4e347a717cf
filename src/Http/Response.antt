-- ===== src/Http/Response.antt =====
-- gudov/http/http.h, gudov/http/http.cpp: HttpResponse.
use gudov.Common.{ℕ, Bool, []}
use gudov.Common.Text.{Bytes}
use gudov.Common.Dict.{Dict, put, remove}
use gudov.Http.Message.{folded, get_or_def}

pub record HttpResponse : Type 0 where
  pub status : ℕ
  pub version : ℕ
  pub close : Bool
  pub body : Bytes
  pub reason : Bytes
  pub headers : Dict Bytes

unfoldable pub new_response : ℕ → Bool → HttpResponse
new_response version close = record {
  status = 200;
  version = version;
  close = close;
  body = [];
  reason = [];
  headers = [];
}

unfoldable pub get_header : Bytes → Bytes → HttpResponse → Bytes
get_header key def r = get_or_def r.headers key def

unfoldable pub set_header : Bytes → Bytes → HttpResponse → HttpResponse
set_header key val r = record r { headers = put folded key val r.headers }

unfoldable pub del_header : Bytes → HttpResponse → HttpResponse
del_header key r = record r { headers = remove folded key r.headers }
