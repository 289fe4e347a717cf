-- ===== src/Http/Dump.antt =====
-- A printed request or response (Dump of gudov/http/http.cpp), read back line by line.
use gudov.Common.{ℕ, ◌/◌, ◌%◌, ◌≡◌, inl, refl, ap, arith}
use gudov.Common.{Bool, true, false, if◌then◌else◌, ◌==◌, [], ◌∷◌, ◌++◌, length, All, All-append}
use gudov.Common.Text.{decimal, Bytes, codes}
use gudov.Common.Dict.{Dict}
use gudov.Http.Request.{HttpRequest}
use gudov.Http.Response.{HttpResponse}
use gudov.Http.Print.{crlf, version_text, header_lines, connection_line, body_part, marked}
use gudov.Http.Reader.{length_header, connection_value}
use gudov.Http.RoundTrip.{Lacks, lines_onto, Fits, Clean}
use gudov.Http.RoundTrip.{header_lines-lines_onto, decimal-Lacks, lacks→Lacks}

lines_onto-append :
    (pad tail : Bytes) (m n : Dict Bytes)
    → lines_onto pad (m ++ n) tail ≡ lines_onto pad m (lines_onto pad n tail)
lines_onto-append pad tail [] n = refl
lines_onto-append pad tail ((k, v) ∷ m) n =
    ap (λ t. k ++ ((58 ∷ pad) ++ (v ++ (crlf ++ t)))) (lines_onto-append pad tail m n)

body_part-lines_onto :
    (body : Bytes) → body_part body ≡ lines_onto [] (length_header (codes " ") body) (crlf ++ body)
unfolding body_part length_header
body_part-lines_onto [] = refl
body_part-lines_onto (x ∷ body) = refl

body_part-lines_onto_gap :
    (body : Bytes) → body_part body ≡ lines_onto (codes " ") (length_header [] body) (crlf ++ body)
unfolding body_part length_header
body_part-lines_onto_gap [] = refl
body_part-lines_onto_gap (x ∷ body) = refl

pub apart : (c : ℕ) (xs ys : Bytes) → Lacks c xs → Lacks c ys → Lacks c (xs ++ ys)
apart c = All-append (λ y. (y == c) ≡ false)

pub length_header-Fits : (gap body : Bytes) → Lacks 13 gap → All Fits (length_header gap body)
unfolding length_header
length_header-Fits gap [] h = tt
length_header-Fits gap (x ∷ body) h =
    let name = codes "content-length" in
    let digits = decimal-Lacks 13 (length (x ∷ body)) (inl (omega arith)) in
    (
      (
        lacks→Lacks 13 name refl,
        lacks→Lacks 58 name refl,
        apart 13 gap (decimal (length (x ∷ body))) h digits,
      ),
      tt,
    )

connection_value-Lacks : (close : Bool) → Lacks 13 (connection_value close)
unfolding connection_value
connection_value-Lacks true = lacks→Lacks 13 (codes "close") refl
connection_value-Lacks false = lacks→Lacks 13 (codes "keep-alive") refl

pub connection-Fits :
    (gap : Bytes) (close : Bool)
    → Lacks 13 gap
    → Fits (codes "connection", gap ++ connection_value close)
connection-Fits gap close h =
    let name = codes "connection" in
    (
      lacks→Lacks 13 name refl,
      lacks→Lacks 58 name refl,
      apart 13 gap (connection_value close) h (connection_value-Lacks close),
    )

pub marked-Lacks : (mark s : Bytes) → Lacks 13 mark → Lacks 13 s → Lacks 13 (marked mark s)
unfolding marked
marked-Lacks mark [] h k = tt
marked-Lacks mark (x ∷ s) h k = apart 13 mark (x ∷ s) h k

pub version_text-Lacks : (version : ℕ) → Lacks 13 (version_text version)
unfolding version_text
version_text-Lacks version =
    let half = λ (n : ℕ). decimal-Lacks 13 n (inl (omega arith)) in
    apart 13 (codes "HTTP/") (decimal (version / 16) ++ (codes "." ++ decimal (version % 16)))
      (lacks→Lacks 13 (codes "HTTP/") refl)
      (apart 13 (decimal (version / 16)) (codes "." ++ decimal (version % 16)) (half (version / 16))
        (refl, half (version % 16)))

-- The block behind the first line of a request, as the lines that it holds.
pub request_block :
    (r : HttpRequest)
    → All Clean r.headers
    → connection_line r.close ++ (header_lines (codes ":") r.headers ++ body_part r.body)
      ≡ lines_onto []
          ((codes "connection", codes " " ++ connection_value r.close)
            ∷ (r.headers ++ length_header (codes " ") r.body))
          (crlf ++ r.body)
unfolding connection_line connection_value
request_block r h =
    let tail = lines_onto [] (length_header (codes " ") r.body) (crlf ++ r.body) in
    rw
      (
        body_part-lines_onto r.body,
        header_lines-lines_onto [] tail r.headers h,
        lines_onto-append [] (crlf ++ r.body) r.headers (length_header (codes " ") r.body),
      )
      (flag r.close _)
  where
    flag :
        (close : Bool) (tail : Bytes)
        → (codes "connection: " ++ ((if close then codes "close" else codes "keep-alive") ++ crlf))
            ++ tail
          ≡ codes "connection"
            ++ ((58 ∷ [])
                ++ ((codes " " ++ (if close then codes "close" else codes "keep-alive"))
                    ++ (crlf ++ tail)))
    flag true tail = refl
    flag false tail = refl

-- The block behind the first line of a response.
pub response_block :
    (r : HttpResponse)
    → All Clean r.headers
    → header_lines (codes ": ") r.headers ++ (connection_line r.close ++ body_part r.body)
      ≡ lines_onto
          (codes " ")
          (r.headers ++ ((codes "connection", connection_value r.close) ∷ length_header [] r.body))
          (crlf ++ r.body)
unfolding connection_line connection_value
response_block r h =
    let tail = lines_onto (codes " ") (length_header [] r.body) (crlf ++ r.body) in
    rw
      (
        body_part-lines_onto_gap r.body,
        flag r.close tail,
        header_lines-lines_onto (codes " ")
            (lines_onto (codes " ") ((codes "connection", connection_value r.close) ∷ []) tail)
            r.headers h,
        lines_onto-append (codes " ") (crlf ++ r.body) r.headers
            ((codes "connection", connection_value r.close) ∷ length_header [] r.body),
      )
      refl
  where
    flag :
        (close : Bool) (tail : Bytes)
        → (codes "connection: " ++ ((if close then codes "close" else codes "keep-alive") ++ crlf))
            ++ tail
          ≡ codes "connection"
            ++ ((58 ∷ codes " ")
                ++ ((if close then codes "close" else codes "keep-alive") ++ (crlf ++ tail)))
    flag true tail = refl
    flag false tail = refl
