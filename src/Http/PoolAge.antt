-- ===== src/Http/PoolAge.antt =====
-- What the age tests of HttpConnectionPool (gudov/http/http_connection.cpp) come to.
use gudov.Common.{ℕ, ◌≡◌, Bool, All, List, [], ◌∷◌, ◌++◌}
use gudov.Http.Pool.{Conn, Pool, new_pool, Opening}
use gudov.Http.Pool.{get_connection, release_ptr}
use gudov.Http.PoolLaws.{listed}

-- The pools that calls of GetConnection and the releases of what it handed out lead to, with the connections
-- that are out
pub data Reach : Pool → List Conn → Type 0 where
  at_start :
      (max_size max_alive_time max_request : ℕ)
      → Reach (new_pool max_size max_alive_time max_request) []
  gets :
      (now : ℕ) (connected : ℕ → Bool) (opening : Opening) (p : Pool) (out : List Conn)
      → Reach p out
      → Reach
          (get_connection now connected opening p).2
          (listed (get_connection now connected opening p).1 ++ out)
  releases :
      (now : ℕ) (connected : ℕ → Bool) (p : Pool) (before : List Conn) (c : Conn)
      (after : List Conn)
      → Reach p (before ++ c ∷ after)
      → Reach (release_ptr now connected c p) (before ++ after)

abbrev Ageless : List Conn → Type 0
Ageless = All (λ c. c.create_time ≡ 0)
