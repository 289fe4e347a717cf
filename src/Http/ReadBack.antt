-- ===== src/Http/ReadBack.antt =====
-- A printed request or response (Dump of gudov/http/http.cpp) read back as a message.
use gudov.Common.{ℕ, ◌+◌, ◌<◌, ◌≡◌, inl, refl, arith, if◌then◌else◌, [], ◌∷◌, ◌++◌, length}
use gudov.Common.{All, All-append, append_assoc, length-append}
use gudov.Common.Text.{decimal, Bytes, codes, is_nil}
use gudov.Http.Method
use gudov.Http.Status.{http_status_to_string}
use gudov.Http.Response.{HttpResponse}
use gudov.Http.Print.{crlf, version_text, header_lines, connection_line, body_part, dump_response}
use gudov.Http.Reader.{length_header, connection_value, status_line, read_message}
use gudov.Http.RoundTrip.{
  Lacks, lines_onto, Fits, Clean, read_line-append, read_headers-lines_onto, All-Fits,
  decimal-Lacks,
}
use gudov.Http.Dump.{version_text-Lacks, response_block, connection-Fits, length_header-Fits, apart}

length_header-bound : (gap body : Bytes) → length (length_header gap body) < 2
unfolding length_header
length_header-bound gap [] = omega arith
length_header-bound gap (x ∷ body) = omega arith

dump_response-line :
    (r : HttpResponse)
    → dump_response r
      ≡ status_line r
        ++ (crlf
            ++ (header_lines (codes ": ") r.headers
                ++ (connection_line r.close ++ body_part r.body)))
unfolding dump_response status_line
dump_response-line r = simp append_assoc

status_line-Lacks :
    (r : HttpResponse)
    → Lacks 13 (if is_nil r.reason then http_status_to_string r.status else r.reason)
    → Lacks 13 (status_line r)
unfolding status_line
status_line-Lacks r h =
    let number = decimal-Lacks 13 r.status (inl (omega arith)) in
    apart 13 (version_text r.version) _ (version_text-Lacks r.version)
      (refl, apart 13 (decimal r.status) _ number (refl, h))

-- A response is printed so that a reader of lines gets back the status line, the headers in their order,
-- the connection header that stands for the close flag, the length of a body, and the body: for every
-- response whose reason (or the text of its status) has no carriage return, whose headers have none
-- either, no colon in a key and no key "connection", with fuel for the headers and three lines.
read_message-dump_response :
    (r : HttpResponse) (fuel : ℕ)
    → Lacks 13 (if is_nil r.reason then http_status_to_string r.status else r.reason)
    → All Clean r.headers
    → length r.headers + 2 < fuel
    → read_message 1 fuel (dump_response r) ≡ (
      status_line r,
      r.headers ++ ((codes "connection", connection_value r.close) ∷ length_header [] r.body),
      r.body,
    )
unfolding read_message
read_message-dump_response r fuel hr hh lt =
    let more = (codes "connection", connection_value r.close) ∷ length_header [] r.body in
    let fits : All Fits (r.headers ++ more) =
      All-append Fits r.headers more (All-Fits r.headers hh)
        (connection-Fits [] r.close tt, length_header-Fits [] r.body tt) in
    let few : length (r.headers ++ more) < fuel =
      let a = length-append r.headers more in
      let b = length_header-bound [] r.body in omega arith in
    rw
      (
        dump_response-line r,
        response_block r hh,
        read_line-append (status_line r)
            (lines_onto (codes " ") (r.headers ++ more) (crlf ++ r.body)) (status_line-Lacks r hr),
        read_headers-lines_onto (codes " ") (r.headers ++ more) r.body fuel (refl, tt) fits few,
      )
      refl
