-- ===== src/Http/PoolLaws.antt =====
-- What HttpConnectionPool (gudov/http/http_connection.cpp) hands out, deletes and counts.
use gudov.Common.{ℕ, suc, ◌+◌, ◌%◌, ◌≡◌, ◌⊎◌, refl, sym, ap, ◌∙◌, inl, inr, arith}
use gudov.Common.{Bool, true, false, leb, Bool-cases, All, All-append}
use gudov.Common.{Option, none, some, List, [], ◌∷◌, ◌++◌, length, length-append, append-nil}
use gudov.Http.Pool.{Conn, Pool, passed_over, take_conn, Opening}
use gudov.Http.Pool.{new_conn, settled, get_connection, spent, counted, release_ptr}

-- The connection taken, as a list
abbrev pub listed : Option Conn → List Conn
listed none = []
listed (some c) = c ∷ []

-- What the loop leaves when it took nothing: nothing
abbrev pub left_by : Option Conn → List Conn → List Conn
left_by none rest = []
left_by (some c) rest = rest

-- What the loop did with a list of idle connections
abbrev pub Taken : (Conn → Bool) → List Conn → List Conn × Option Conn × List Conn → Type 0
Taken pass cs (gone, got, rest) =
    (gone ++ (listed got ++ rest) ≡ cs)
    × All (λ c. pass c ≡ true) gone
    × All (λ c. pass c ≡ false) (listed got)
    × (left_by got rest ≡ rest)

take_conn-Taken : (pass : Conn → Bool) (cs : List Conn) → Taken pass cs (take_conn pass cs)
unfolding take_conn
take_conn-Taken pass [] = (refl, tt, tt, refl)
take_conn-Taken pass (c ∷ cs) =
    let h = take_conn-Taken pass cs in
    elim (Bool-cases (pass c)) [
      | inl t ↦ rw t (ap (λ l. c ∷ l) h.0, (t, h.1), h.2, h.3)
      | inr t ↦ rw t (refl, tt, (t, tt), refl)
    ]

-- The total counts the idle connections and those handed out, on 32 bits.
abbrev pub Counts : ℕ → Pool → Type 0
Counts out p = (p.total ≡ (length p.conns + out) % 4294967296)

abbrev pub handed : Option Conn → ℕ
handed none = 0
handed (some c) = 1

settled-Counts :
    (pass : Conn → Bool) (out : ℕ) (p : Pool) (fresh : Option Conn)
    (r : List Conn × Option Conn × List Conn)
    → Counts out p
    → Taken pass p.conns r
    → Counts (out + handed (settled p fresh r).1) (settled p fresh r).2
unfolding settled
settled-Counts pass out p fresh (gone, some c, rest) h t =
    let a = length-append gone (c ∷ rest) in
    let b : length (gone ++ c ∷ rest) ≡ length p.conns = ap length t.0 in omega arith
settled-Counts pass out p none (gone, none, rest) h t =
    let a = length-append gone rest in
    let b : length (gone ++ rest) ≡ length p.conns = ap length t.0 in omega arith
settled-Counts pass out p (some c) (gone, none, rest) h t =
    let a = length-append gone rest in
    let b : length (gone ++ rest) ≡ length p.conns = ap length t.0 in omega arith

-- GetConnection keeps the total equal to the number of idle connections and of those handed out: one more
-- is out exactly when it has a result, whether it takes an idle one or opens one, and however many it
-- deletes.
pub get_connection-Counts :
    (now out : ℕ) (connected : ℕ → Bool) (opening : Opening) (p : Pool)
    → Counts out p
    → Counts
        (out + handed (get_connection now connected opening p).1)
        (get_connection now connected opening p).2
unfolding get_connection
get_connection-Counts now out connected opening p h =
    let pass = passed_over p.max_alive_time now connected in
    settled-Counts pass out p (new_conn opening) (take_conn pass p.conns) h
      (take_conn-Taken pass p.conns)

-- ReleasePtr keeps the total equal to the number of idle connections and of those handed out, of which the
-- one released is no longer one.
pub release_ptr-Counts :
    (now out : ℕ) (connected : ℕ → Bool) (c : Conn) (p : Pool)
    → Counts (suc out) p
    → Counts out (release_ptr now connected c p)
unfolding release_ptr
release_ptr-Counts now out connected c p h = elim (Bool-cases (spent p now connected (counted c))) [
  | inl t ↦ rw t (omega arith)
  | inr t ↦ let a = length-append p.conns (counted c ∷ []) in rw t (omega arith)
]

-- The result of GetConnection: the idle connections in front that it passes over are deleted, and either
-- the first other one is its result and leaves the pool, or every one is deleted and its result is the one
-- it opens, if any.
abbrev pub Picked :
    (Conn → Bool) → List Conn → Option Conn → List Conn × Option Conn × Pool → Type 0
Picked pass idle fresh (gone, got, q) =
    All (λ c. pass c ≡ true) gone
    × (((c : Conn) × (got ≡ some c) × (pass c ≡ false) × (gone ++ c ∷ q.conns ≡ idle))
        ⊎ ((gone ≡ idle) × (q.conns ≡ []) × (got ≡ fresh)))

settled-Picked :
    (pass : Conn → Bool) (p : Pool) (fresh : Option Conn) (r : List Conn × Option Conn × List Conn)
    → Taken pass p.conns r
    → Picked pass p.conns fresh (settled p fresh r)
unfolding settled
settled-Picked pass p fresh (gone, some c, rest) t = (t.1, inl (c, refl, t.2.0, t.0))
settled-Picked pass p none (gone, none, rest) t =
    (t.1, inr (sym (append-nil gone) ∙ ap (λ l. gone ++ l) t.3 ∙ t.0, sym t.3, refl))
settled-Picked pass p (some c) (gone, none, rest) t =
    (t.1, inr (sym (append-nil gone) ∙ ap (λ l. gone ++ l) t.3 ∙ t.0, sym t.3, refl))

-- GetConnection deletes the idle connections in front that are not connected or fail its age test, and
-- hands out the first other one, which leaves the pool; only when every idle one is deleted does it open a
-- connection, and it has no result exactly when that fails.
pub get_connection-Picked :
    (now : ℕ) (connected : ℕ → Bool) (opening : Opening) (p : Pool)
    → Picked
        (passed_over p.max_alive_time now connected)
        p.conns
        (new_conn opening)
        (get_connection now connected opening p)
unfolding get_connection
get_connection-Picked now connected opening p =
    let pass = passed_over p.max_alive_time now connected in
    settled-Picked pass p (new_conn opening) (take_conn pass p.conns) (take_conn-Taken pass p.conns)

-- An idle connection may carry another request.
abbrev pub Fresh : ℕ → List Conn → Type 0
Fresh max_request = All (λ c. leb max_request c.request ≡ false)

-- A connection that ReleasePtr puts back is connected and has carried fewer than max_request requests, so
-- that the pool never hands out one that has used up its requests.
release_ptr-Fresh :
    (now : ℕ) (connected : ℕ → Bool) (c : Conn) (p : Pool)
    → Fresh p.max_request p.conns
    → Fresh (release_ptr now connected c p).max_request (release_ptr now connected c p).conns
unfolding release_ptr
release_ptr-Fresh now connected c p h = elim (Bool-cases (spent p now connected (counted c))) [
  | inl t ↦ rw t h
  | inr t ↦ rw t (
      All-append (λ x. leb p.max_request x.request ≡ false) p.conns (counted c ∷ []) h
        (unfold spent in ground arith, tt))
]
