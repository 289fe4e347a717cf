-- ===== src/Http/Print.antt =====
-- gudov/http/http.cpp: Dump and ToString of requests and responses.
use gudov.Common.{ℕ, ◌/◌, ◌%◌, Bool, if◌then◌else◌, [], ◌∷◌, ◌++◌, length}
use gudov.Common.Text.{decimal, Bytes, is_nil, codes}
use gudov.Common.Dict.{Dict}
use gudov.Http.Method.{http_method_to_string}
use gudov.Http.Status.{http_status_to_string}
use gudov.Http.Message.{same_text}
use gudov.Http.Request.{HttpRequest}
use gudov.Http.Response.{HttpResponse}

abbrev pub crlf : Bytes
crlf = 13 ∷ 10 ∷ []

-- "HTTP/" and the two halves of the version
unfoldable pub version_text : ℕ → Bytes
version_text version =
    codes "HTTP/" ++ (decimal (version / 16) ++ (codes "." ++ decimal (version % 16)))

-- The loop over the headers; `sep` stands between a key and its value.
unfoldable pub header_lines : Bytes → Dict Bytes → Bytes
header_lines sep [] = []
header_lines sep ((k, v) ∷ m) =
    let rest = header_lines sep m in
    if same_text k (codes "connection") then rest else k ++ (sep ++ (v ++ (crlf ++ rest)))

unfoldable pub connection_line : Bool → Bytes
connection_line close =
    codes "connection: " ++ ((if close then codes "close" else codes "keep-alive") ++ crlf)

-- The end of a message: its length, the empty line and the body
unfoldable pub body_part : Bytes → Bytes
body_part body =
    if is_nil body
    then crlf
    else codes "content-length: " ++ (decimal (length body) ++ (crlf ++ (crlf ++ body)))

-- `(s.empty() ? "" : mark) << s`
unfoldable pub marked : Bytes → Bytes → Bytes
marked mark s = if is_nil s then [] else mark ++ s

unfoldable pub dump_request : HttpRequest → Bytes
dump_request r =
    http_method_to_string r.method
    ++ (codes " "
        ++ (r.path
            ++ (marked (codes "?") r.query
                ++ (marked (codes "#") r.fragment
                    ++ (codes " "
                        ++ (version_text r.version
                            ++ (crlf
                                ++ (connection_line r.close
                                    ++ (header_lines (codes ":") r.headers
                                        ++ body_part r.body)))))))))

unfoldable pub dump_response : HttpResponse → Bytes
dump_response r =
    version_text r.version
    ++ (codes " "
        ++ (decimal r.status
            ++ (codes " "
                ++ ((if is_nil r.reason then http_status_to_string r.status else r.reason)
                    ++ (crlf
                        ++ (header_lines (codes ": ") r.headers
                            ++ (connection_line r.close ++ body_part r.body)))))))
