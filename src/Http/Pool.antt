-- ===== src/Http/Pool.antt =====
-- gudov/http/http_connection.h, gudov/http/http_connection.cpp: HttpConnectionPool::GetConnection and
-- ReleasePtr. A connection is named by the number of its object. What the socket says (IsConnected), what
-- opening a connection meets and the clock are arguments; the total is the 32 bits of the atomic int32_t.
use gudov.Common.{ℕ, ◌+◌, ◌-◌, ◌%◌, Bool, not, ◌||◌, ltb, leb, if◌then◌else◌}
use gudov.Common.{Option, none, some, List, [], ◌∷◌, ◌++◌, length}

-- HttpConnection: its create_time_ and request_
pub record Conn : Type 0 where
  pub name : ℕ
  pub create_time : ℕ
  pub request : ℕ

pub record Pool : Type 0 where
  pub max_size : ℕ
  pub max_alive_time : ℕ
  pub max_request : ℕ
  pub conns : List Conn
  pub total : ℕ

unfoldable pub new_pool : ℕ → ℕ → ℕ → Pool
new_pool max_size max_alive_time max_request = record {
  max_size = max_size;
  max_alive_time = max_alive_time;
  max_request = max_request;
  conns = [];
  total = 0;
}

-- uint64_t
abbrev pub word : ℕ → ℕ
word n = n % 18446744073709551616

-- `total_ += n` and `total_ -= n` on 32 bits
abbrev pub add32 : ℕ → ℕ → ℕ
add32 a n = (a + n) % 4294967296

abbrev pub sub32 : ℕ → ℕ → ℕ
sub32 a n = (a + (4294967296 - n % 4294967296)) % 4294967296

-- Whether the loop of GetConnection passes a connection over
unfoldable pub passed_over : ℕ → ℕ → (ℕ → Bool) → Conn → Bool
passed_over max_alive_time now connected c =
    not (connected c.name) || ltb now (word (c.create_time + max_alive_time))

-- The loop: the connections it passed over, the one it took, and those it left
unfoldable pub take_conn : (Conn → Bool) → List Conn → List Conn × Option Conn × List Conn
take_conn pass [] = ([], none, [])
take_conn pass (c ∷ cs) =
    let (gone, got, rest) = take_conn pass cs in
    if pass c then (c ∷ gone, got, rest) else ([], some c, cs)

-- LookupAnyIPAddress, CreateTCP and Connect, up to the first that fails; a new HttpConnection otherwise.
pub data Opening : Type 0 where
  lookup_fails : Opening
  create_fails : Opening
  connect_fails : Opening
  opened : ℕ → Opening

unfoldable pub new_conn : Opening → Option Conn
new_conn lookup_fails = none
new_conn create_fails = none
new_conn connect_fails = none
new_conn (opened n) = some (record { name = n; create_time = 0; request = 0 })

-- GetConnection behind the loop: the connections deleted, the result, and the pool.
unfoldable pub settled :
    Pool → Option Conn → List Conn × Option Conn × List Conn → List Conn × Option Conn × Pool
settled p fresh (gone, some c, rest) =
    (gone, some c, record p { conns = rest; total = sub32 p.total (length gone) })
settled p none (gone, none, rest) =
    (gone, none, record p { conns = rest; total = sub32 p.total (length gone) })
settled p (some c) (gone, none, rest) =
    (gone, some c, record p { conns = rest; total = add32 (sub32 p.total (length gone)) 1 })

unfoldable pub get_connection : ℕ → (ℕ → Bool) → Opening → Pool → List Conn × Option Conn × Pool
get_connection now connected opening p =
    settled p (new_conn opening) (take_conn (passed_over p.max_alive_time now connected) p.conns)

-- Whether ReleasePtr deletes the connection, its request counted
unfoldable pub spent : Pool → ℕ → (ℕ → Bool) → Conn → Bool
spent p now connected c =
    not (connected c.name)
    || (leb now (word (c.create_time + p.max_alive_time)) || leb p.max_request c.request)

unfoldable pub counted : Conn → Conn
counted c = record c { request = word (c.request + 1) }

unfoldable pub release_ptr : ℕ → (ℕ → Bool) → Conn → Pool → Pool
release_ptr now connected c p =
    if spent p now connected (counted c)
    then record p { total = sub32 p.total 1 }
    else record p { conns = p.conns ++ counted c ∷ [] }
