-- ===== src/Http/Tests.antt =====
-- Runs of the theorems about gudov/http at concrete inputs.
use gudov.Common.{◌⊎◌, ℕ, ◌≡◌, refl, Bool, true, false, if◌then◌else◌, none, some, List, [], ◌∷◌}
use gudov.Common.Int.{pos}
use gudov.Common.Text.{Bytes, codes, bytes_eq}
use gudov.Common.Dict.{find}
use gudov.Http.Method
use gudov.Http.Message.{folded}
use gudov.Http.Request.{HttpRequest}
use gudov.Http.Servlet.{ServletDispatch, add_glob_servlet, del_glob_servlet, get_matched_servlet}
use gudov.Http.Dispatch.{get_matched_servlet-add_glob_servlet}
use gudov.Http.Pool.{Conn, Pool, opened, new_conn, passed_over, get_connection}
use gudov.Http.PoolLaws.{Counts, Picked, get_connection-Picked}
use gudov.Http.Client.{make_request, make_pool_request, pool_request}
use gudov.Http.ClientLaws.{names_host, pool_request-Counts, make_request-find}

abbrev request : HttpRequest
request = record {
  method = Method.post;
  version = 17;
  close = false;
  path = codes "/a";
  query = codes "x=1";
  fragment = [];
  body = codes "hi";
  headers = (codes "Host", codes "h") ∷ [];
  params = [];
  cookies = [];
}

abbrev dispatch : ServletDispatch ℕ
dispatch = record { datas = []; globs = (codes "/a*", 1) ∷ []; default = 0 }

get_matched_servlet-add_glob_servlet_example :
    get_matched_servlet bytes_eq (codes "/b") (add_glob_servlet (codes "/b") 2 dispatch)
    ≡ get_matched_servlet bytes_eq (codes "/b") (record (del_glob_servlet (codes "/b") dispatch) {
      default = (if bytes_eq (codes "/b") (codes "/b") then 2 else dispatch.default);
    })
get_matched_servlet-add_glob_servlet_example =
    get_matched_servlet-add_glob_servlet bytes_eq (codes "/b") (codes "/b") 2 dispatch

abbrev idle : Conn
idle = record { name = 3; create_time = 0; request = 1 }

abbrev pool : Pool
pool = record { max_size = 10; max_alive_time = 5; max_request = 3; conns = idle ∷ []; total = 1 }

abbrev up : ℕ → Bool
up n = true

get_connection-Picked_example :
    Picked
      (passed_over 5 10 up)
      (idle ∷ [])
      (new_conn (opened 9))
      (get_connection 10 up (opened 9) pool)
get_connection-Picked_example = get_connection-Picked 10 up (opened 9) pool

pool_request-Counts_example :
    Counts 0 (pool_request 10 up (opened 9) true (pos 4) none 11 up pool).1
pool_request-Counts_example =
    pool_request-Counts 10 0 11 up up (opened 9) true (pos 4) none pool refl

abbrev opened_pool : Pool
opened_pool = record { max_size = 1; max_alive_time = 5; max_request = 3; conns = []; total = 1 }

abbrev nine : Conn
nine = record { name = 9; create_time = 0; request = 0 }

abbrev accept : List (Bytes × Bytes)
accept = (codes "Accept", codes "*") ∷ []

make_request-find_example :
    ((find folded
          (codes "connection")
          (make_request Method.get (codes "/") [] [] (codes "h") accept []).headers
        ≡ none)
      × (find folded
            (codes "connection")
            (make_pool_request (codes "h") [] Method.get (codes "/") accept []).headers
          ≡ none))
    × ((names_host accept ≡ true)
        ⊎ ((find folded
                (codes "Host")
                (make_request Method.get (codes "/") [] [] (codes "h") accept []).headers
              ≡ some (codes "h"))
            × (find folded
                  (codes "Host")
                  (make_pool_request (codes "h") [] Method.get (codes "/") accept []).headers
                ≡ some (codes "h"))))
make_request-find_example = make_request-find Method.get (codes "/") [] [] (codes "h") [] [] accept
