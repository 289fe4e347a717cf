-- ===== src/Http/ClientLaws.antt =====
-- The requests and the results of gudov/http/http_connection.cpp.
use gudov.Common.{◌⊎◌, ◌||◌, ℕ, suc, zero, ◌+◌, ◌≡◌, ◌≢◌, refl, ◌∙◌, inl, inr, arith}
use gudov.Common.{
  Bool, true, false, Bool-cases, if◌then◌else◌, Option, none, some, List, [], ◌∷◌, All,
}
use gudov.Common.Int.{ℤ, pos, negsuc}
use gudov.Common.Text.{lower, to_lower, Bytes, codes, is_nil, bytes_eq, bytes_eq_refl}
use gudov.Common.Dict.{Dict, find, find-put, same_key}
use gudov.Http.Method.{HttpMethod}
use gudov.Http.Message.{folded, same_text}
use gudov.Http.Request.{HttpRequest, new_request, set_header}
use gudov.Http.Response.{HttpResponse}
use gudov.Http.Pool.{Conn, Pool, Opening, get_connection}
use gudov.Http.PoolLaws.{Counts, handed, get_connection-Counts, release_ptr-Counts}
use gudov.Http.Client.{
  ok, HttpResult, copy_headers, fill, with_connection, make_request, make_pool_request, exchanged,
  do_request, pool_request,
}

-- The result says `ok` when it has a response, and another error when it has none.
abbrev pub Answered : HttpResult → Type 0
Answered (e, none) = e ≢ ok
Answered (e, some r) = e ≡ ok

with_connection-Counts :
    (out later : ℕ) (connected : ℕ → Bool) (has_sock : Bool) (rt : ℤ) (rsp : Option HttpResponse)
    (r : List Conn × Option Conn × Pool)
    → Counts (out + handed r.1) r.2
    → Counts out (with_connection has_sock rt rsp later connected r).1
unfolding with_connection
with_connection-Counts out later connected has_sock rt rsp (gone, none, q) h = omega arith
with_connection-Counts out later connected has_sock rt rsp (gone, some c, q) h =
    release_ptr-Counts later out connected c q (omega arith)

-- A request through the pool leaves its count right: however it ends, the connection that it took has gone
-- back or been deleted, and as many as before are out.
pub pool_request-Counts :
    (now out later : ℕ) (connected connected_later : ℕ → Bool) (opening : Opening) (has_sock : Bool)
    (rt : ℤ) (rsp : Option HttpResponse) (p : Pool)
    → Counts out p
    → Counts out (pool_request now connected opening has_sock rt rsp later connected_later p).1
unfolding pool_request
pool_request-Counts now out later connected connected_later opening has_sock rt rsp p h =
    with_connection-Counts out later connected_later has_sock rt rsp
      (get_connection now connected opening p) (get_connection-Counts now out connected opening p h)

exchanged-Answered : (rt : ℤ) (rsp : Option HttpResponse) → Answered (exchanged rt rsp)
unfolding exchanged
exchanged-Answered (pos zero) rsp = λ e. absurd (cc e)
exchanged-Answered (negsuc n) rsp = λ e. absurd (cc e)
exchanged-Answered (pos (suc n)) none = λ e. absurd (cc e)
exchanged-Answered (pos (suc n)) (some r) = refl

do_request-Answered :
    (has_addr has_sock connects : Bool) (rt : ℤ) (rsp : Option HttpResponse)
    → Answered (do_request has_addr has_sock connects rt rsp)
unfolding do_request
do_request-Answered false has_sock connects rt rsp = λ e. absurd (cc e)
do_request-Answered true false connects rt rsp = λ e. absurd (cc e)
do_request-Answered true true false rt rsp = λ e. absurd (cc e)
do_request-Answered true true true rt rsp = exchanged-Answered rt rsp

with_connection-Answered :
    (later : ℕ) (connected : ℕ → Bool) (has_sock : Bool) (rt : ℤ) (rsp : Option HttpResponse)
    (r : List Conn × Option Conn × Pool)
    → Answered (with_connection has_sock rt rsp later connected r).0
unfolding with_connection
with_connection-Answered later connected has_sock rt rsp (gone, none, q) = λ e. absurd (cc e)
with_connection-Answered later connected false rt rsp (gone, some c, q) = λ e. absurd (cc e)
with_connection-Answered later connected true rt rsp (gone, some c, q) = exchanged-Answered rt rsp

-- A request, of its own or through the pool, has a result whose error is `ok` exactly when it has a
-- response, whatever the address, the sockets, the sending and the answer are.
request-Answered :
    (now later : ℕ) (connected connected_later : ℕ → Bool) (opening : Opening)
    (has_addr has_sock connects : Bool) (rt : ℤ) (rsp : Option HttpResponse) (p : Pool)
    → Answered (do_request has_addr has_sock connects rt rsp)
      × Answered (pool_request now connected opening has_sock rt rsp later connected_later p).0
unfolding pool_request
request-Answered now later connected connected_later opening has_addr has_sock connects rt rsp p = (
  do_request-Answered has_addr has_sock connects rt rsp,
  with_connection-Answered later connected_later has_sock rt rsp
      (get_connection now connected opening p),
)

abbrev connection : Bytes
connection = codes "connection"

copy_headers-connection :
    (headers : Dict Bytes) (has_host : Bool) (req : HttpRequest)
    → find folded connection (copy_headers headers has_host req).1.headers
      ≡ find folded connection req.headers
unfolding copy_headers
copy_headers-connection [] has_host req = refl
copy_headers-connection ((key, val) ∷ headers) has_host req =
    elim (Bool-cases (same_text key connection)) [
      | inl t ↦
          rw t
            (copy_headers-connection headers has_host _ ∙ kept (same_text val (codes "keep-alive")))
      | inr t ↦ rw t (
          copy_headers-connection headers _ (set_header key val req)
          ∙ unfold set_header in (find-put folded key connection val req.headers ∙ rw t refl))
    ]
  where
    kept :
        (b : Bool)
        → find folded connection (if b then record req { close = false } else req).headers
          ≡ find folded connection req.headers
    kept true = refl
    kept false = refl

-- No header of the caller is for the host.
abbrev Hostless : Dict Bytes → Type 0
Hostless = All (λ kv. same_text kv.0 (codes "host") ≡ false)

copy_headers-has_host :
    (headers : Dict Bytes) (req : HttpRequest)
    → Hostless headers
    → (copy_headers headers false req).0 ≡ false
unfolding copy_headers
copy_headers-has_host [] req h = refl
copy_headers-has_host ((key, val) ∷ headers) req h = elim (Bool-cases (same_text key connection)) [
  | inl t ↦ rw t (copy_headers-has_host headers _ h.1)
  | inr t ↦ rw (t, h.0) (copy_headers-has_host headers _ h.1)
]

unlike : same_key folded (codes "Host") connection ≡ false
unfolding folded lower gudov.Http.Method.c_str to_lower bytes_eq
unlike = refl

alike : same_key folded (codes "Host") (codes "Host") ≡ true
alike = bytes_eq_refl (folded (codes "Host"))

fill-connection :
    (headers : Dict Bytes) (host body : Bytes) (req : HttpRequest)
    → find folded connection (fill headers host body req).headers
      ≡ find folded connection req.headers
unfolding fill
fill-connection headers host body req = elim (Bool-cases (copy_headers headers false req).0) [
  | inl t ↦ rw t (copy_headers-connection headers false req)
  | inr t ↦ rw t (
      unfold set_header in
      (find-put folded (codes "Host") connection host (copy_headers headers false req).1.headers
        ∙ rw unlike (copy_headers-connection headers false req)))
]

fill-host :
    (headers : Dict Bytes) (host body : Bytes) (req : HttpRequest)
    → Hostless headers
    → find folded (codes "Host") (fill headers host body req).headers ≡ some host
unfolding fill
fill-host headers host body req h = rw (copy_headers-has_host headers req h) (
    unfold set_header in
    (find-put folded (codes "Host") (codes "Host") host (copy_headers headers false req).1.headers
      ∙ rw alike refl))

-- Whether the caller's headers name a host, in any spelling
abbrev pub names_host : Dict Bytes → Bool
names_host [] = false
names_host (kv ∷ headers) = same_text kv.0 (codes "host") || names_host headers

names_host-Hostless : (headers : Dict Bytes) → names_host headers ≡ false → Hostless headers
names_host-Hostless [] h = tt
names_host-Hostless (kv ∷ headers) h = elim (Bool-cases (same_text kv.0 (codes "host"))) [
  | inl t ↦ absurd (cc)
  | inr t ↦ (t, names_host-Hostless headers (rw t at h))
]

-- The requests that a connection and a pool make have no header "connection" in any spelling, so that the
-- only one printed is the one for their close flag; and where the caller's headers name no host, their Host
-- header is that of the Uri, or the pool's virtual host and its host if that is empty.
pub make_request-find :
    (method : HttpMethod) (path query fragment host vhost body : Bytes) (headers : Dict Bytes)
    → ((find folded
            (codes "connection")
            (make_request method path query fragment host headers body).headers
          ≡ none)
        × (find folded
              (codes "connection")
              (make_pool_request host vhost method path headers body).headers
            ≡ none))
      × ((names_host headers ≡ true)
          ⊎ ((find folded
                  (codes "Host")
                  (make_request method path query fragment host headers body).headers
                ≡ some host)
              × (find folded
                    (codes "Host")
                    (make_pool_request host vhost method path headers body).headers
                  ≡ some (if is_nil vhost then host else vhost))))
unfolding make_request make_pool_request
make_request-find method path query fragment host vhost body headers =
    let alone : HttpRequest = record (new_request 17 true) {
      path = path;
      query = query;
      fragment = fragment;
      method = method;
    } in
    let pooled : HttpRequest = record (new_request 17 true) {
      path = path;
      method = method;
      close = false;
    } in
    let name = if is_nil vhost then host else vhost in
    (
      (
        fill-connection headers host body alone ∙ unfold new_request find in refl,
        fill-connection headers name body pooled ∙ unfold new_request find in refl,
      ),
      elim (Bool-cases (names_host headers)) [
        | inl t ↦ inl t
        | inr t ↦
            let h = names_host-Hostless headers t in
            inr (fill-host headers host body alone h, fill-host headers name body pooled h)
      ],
    )
