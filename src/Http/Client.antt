-- ===== src/Http/Client.antt =====
-- gudov/http/http_connection.h, gudov/http/http_connection.cpp: the requests that HttpConnection::DoRequest
-- and HttpConnectionPool::doRequest make, and the results that they have. Uri, sockets and the reading of a
-- response are not modelled here: what each of their calls answers is an argument. The texts of the errors
-- are left out.
use gudov.Common.{
  ℕ, suc, zero, Bool, true, false, not, ◌&&◌, if◌then◌else◌, Option, none, some, List, [], ◌∷◌,
  ◌++◌,
}
use gudov.Common.Int.{ℤ, pos, negsuc}
use gudov.Common.Text.{Bytes, codes, is_nil}
use gudov.Common.Dict.{Dict}
use gudov.Http.Method.{HttpMethod}
use gudov.Http.Message.{same_text}
use gudov.Http.Print.{marked}
use gudov.Http.Request.{HttpRequest, new_request, set_header}
use gudov.Http.Response.{HttpResponse}
use gudov.Http.Pool.{Conn, Pool, Opening, get_connection, release_ptr}

-- HttpResult::Error
pub data Error : Type 0 where
  ok : Error
  invalid_url : Error
  invalid_host : Error
  connect_fail : Error
  send_close_by_peer : Error
  send_socket_error : Error
  timeout : Error
  create_socket_error : Error
  pool_get_connection : Error
  pool_invalid_connection : Error

abbrev pub HttpResult : Type 0
HttpResult = Error × Option HttpResponse

-- The loop over the headers of the caller: `has_host` and the request.
unfoldable pub copy_headers : Dict Bytes → Bool → HttpRequest → Bool × HttpRequest
copy_headers [] has_host req = (has_host, req)
copy_headers ((key, val) ∷ headers) has_host req =
    let skipped =
      copy_headers headers has_host
        (if same_text val (codes "keep-alive") then record req { close = false } else req) in
    let copied =
      copy_headers headers
        (if not has_host && same_text key (codes "host") then not (is_nil val) else has_host)
        (set_header key val req) in
    if same_text key (codes "connection") then skipped else copied

-- The headers, the Host header and the body of a request
unfoldable pub fill : Dict Bytes → Bytes → Bytes → HttpRequest → HttpRequest
fill headers host body req =
    let (has_host, filled) = copy_headers headers false req in
    record (if has_host then filled else set_header (codes "Host") host filled) { body = body }

-- HttpConnection::DoRequest of a method and the parts of a Uri
unfoldable pub make_request :
    HttpMethod → Bytes → Bytes → Bytes → Bytes → Dict Bytes → Bytes → HttpRequest
make_request method path query fragment host headers body =
    fill headers host body (record (new_request 17 true) {
      path = path;
      query = query;
      fragment = fragment;
      method = method;
    })

-- HttpConnectionPool::doRequest of a method and a text
unfoldable pub make_pool_request :
    Bytes → Bytes → HttpMethod → Bytes → Dict Bytes → Bytes → HttpRequest
make_pool_request host vhost method url headers body =
    fill headers (if is_nil vhost then host else vhost) body
      (record (new_request 17 true) { path = url; method = method; close = false })

-- The text that the pool makes of a Uri
unfoldable pub uri_text : Bytes → Bytes → Bytes → Bytes
uri_text path query fragment = path ++ (marked (codes "?") query ++ marked (codes "#") fragment)

-- SendRequest's result, and then RecvResponse's
unfoldable pub exchanged : ℤ → Option HttpResponse → HttpResult
exchanged (pos zero) rsp = (send_close_by_peer, none)
exchanged (negsuc n) rsp = (send_socket_error, none)
exchanged (pos (suc n)) none = (timeout, none)
exchanged (pos (suc n)) (some r) = (ok, some r)

-- HttpConnection::DoRequest of a request: whether the Uri has an address, whether a socket is made and
-- connects, what the sending returns, and the response.
unfoldable pub do_request : Bool → Bool → Bool → ℤ → Option HttpResponse → HttpResult
do_request has_addr has_sock connects rt rsp =
    if not has_addr
    then (invalid_host, none)
    else if not has_sock
    then (create_socket_error, none)
    else if not connects
    then (connect_fail, none)
    else exchanged rt rsp

-- DoRequest of a text: `none` is a text that is no Uri.
unfoldable pub do_request_url : Option HttpResult → HttpResult
do_request_url none = (invalid_url, none)
do_request_url (some r) = r

-- HttpConnectionPool::doRequest of a request, behind GetConnection. The connection goes back to the pool
-- when the call ends, with the clock and the sockets as they are then.
unfoldable pub with_connection :
    Bool
    → ℤ
    → Option HttpResponse
    → ℕ
    → (ℕ → Bool)
    → List Conn × Option Conn × Pool
    → HttpResult × Pool
with_connection has_sock rt rsp later connected (gone, none, q) = ((pool_get_connection, none), q)
with_connection has_sock rt rsp later connected (gone, some c, q) = (
  (if not has_sock then (pool_invalid_connection, none) else exchanged rt rsp),
  release_ptr later connected c q,
)

unfoldable pub pool_request :
    ℕ
    → (ℕ → Bool)
    → Opening
    → Bool
    → ℤ
    → Option HttpResponse
    → ℕ
    → (ℕ → Bool)
    → Pool
    → HttpResult × Pool
pool_request now connected opening has_sock rt rsp later connected_later p =
    with_connection has_sock rt rsp later connected_later (get_connection now connected opening p)
