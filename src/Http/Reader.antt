-- ===== src/Http/Reader.antt =====
-- An independent reader of the header block of a message, against which Dump is read back.
use gudov.Common.{ℕ, zero, suc, ◌==◌, if◌then◌else◌, Bool, [], ◌∷◌, ◌++◌, length, drop}
use gudov.Common.Text.{decimal, Bytes, is_nil, codes}
use gudov.Http.Method.{http_method_to_string}
use gudov.Http.Status.{http_status_to_string}
use gudov.Http.Request.{HttpRequest}
use gudov.Http.Response.{HttpResponse}
use gudov.Http.Print.{marked, version_text}
use gudov.Common.Dict.{Dict}

-- What stands before the first byte `c`, and what stands behind it.
unfoldable pub read_until : ℕ → Bytes → Bytes × Bytes
read_until c [] = ([], [])
read_until c (x ∷ s) =
    let (front, back) = read_until c s in if x == c then ([], s) else (x ∷ front, back)

-- A line, without the carriage return and the line feed that end it
unfoldable pub read_line : Bytes → Bytes × Bytes
read_line s = let (line, rest) = read_until 13 s in (line, drop 1 rest)

-- Header lines up to an empty line, `gap` bytes standing behind each colon; then the rest.
unfoldable pub read_headers : ℕ → ℕ → Bytes → Dict Bytes × Bytes
read_headers gap zero s = ([], s)
read_headers gap (suc fuel) s =
    let (line, rest) = read_line s in
    let (more, end) = read_headers gap fuel rest in
    let (key, val) = read_until 58 line in
    if is_nil line then ([], rest) else ((key, drop gap val) ∷ more, end)

-- The content-length header of a body, `gap` being what stands before the number
unfoldable pub length_header : Bytes → Bytes → Dict Bytes
length_header gap body =
    if is_nil body then [] else (codes "content-length", gap ++ decimal (length body)) ∷ []

-- The value of the connection header
unfoldable pub connection_value : Bool → Bytes
connection_value close = if close then codes "close" else codes "keep-alive"

-- The first line of a request, and of a response
unfoldable pub request_line : HttpRequest → Bytes
request_line r =
    http_method_to_string r.method
    ++ (codes " "
        ++ (r.path
            ++ (marked (codes "?") r.query
                ++ (marked (codes "#") r.fragment ++ (codes " " ++ version_text r.version)))))

unfoldable pub status_line : HttpResponse → Bytes
status_line r =
    version_text r.version
    ++ (codes " "
        ++ (decimal r.status
            ++ (codes " "
                ++ (if is_nil r.reason then http_status_to_string r.status else r.reason))))

-- A whole message: its first line, its headers and its body
unfoldable pub read_message : ℕ → ℕ → Bytes → Bytes × Dict Bytes × Bytes
read_message gap fuel s =
    let (line, rest) = read_line s in
    let (headers, body) = read_headers gap fuel rest in (line, headers, body)
