-- ===== src/Http/Method.antt =====
-- gudov/http/http.h, gudov/http/http.cpp: the request methods. The texts are what `#string` makes of the
-- macro's third argument.
use gudov.Common.{Bool, true, false, ◌==◌, if◌then◌else◌, List, [], ◌∷◌}
use gudov.Common.Text.{Bytes, bytes_eq, codes}

pub data HttpMethod : Type 0 where
  delete get head post put connect options trace copy lock mkcol move propfind proppatch
        search_method unlock bind rebind unbind acl report mkactivity checkout merge msearch notify
        subscribe unsubscribe patch purge mkcalendar link unlink source invalid_method :
      HttpMethod

-- HttpMethodToString: the table, and its bound
unfoldable pub http_method_to_string : HttpMethod → Bytes
http_method_to_string delete = codes "DELETE"
http_method_to_string get = codes "GET"
http_method_to_string head = codes "HEAD"
http_method_to_string post = codes "POST"
http_method_to_string put = codes "PUT"
http_method_to_string connect = codes "CONNECT"
http_method_to_string options = codes "OPTIONS"
http_method_to_string trace = codes "TRACE"
http_method_to_string copy = codes "COPY"
http_method_to_string lock = codes "LOCK"
http_method_to_string mkcol = codes "MKCOL"
http_method_to_string move = codes "MOVE"
http_method_to_string propfind = codes "PROPFIND"
http_method_to_string proppatch = codes "PROPPATCH"
http_method_to_string search_method = codes "SEARCH"
http_method_to_string unlock = codes "UNLOCK"
http_method_to_string bind = codes "BIND"
http_method_to_string rebind = codes "REBIND"
http_method_to_string unbind = codes "UNBIND"
http_method_to_string acl = codes "ACL"
http_method_to_string report = codes "REPORT"
http_method_to_string mkactivity = codes "MKACTIVITY"
http_method_to_string checkout = codes "CHECKOUT"
http_method_to_string merge = codes "MERGE"
http_method_to_string msearch = codes "M - SEARCH"
http_method_to_string notify = codes "NOTIFY"
http_method_to_string subscribe = codes "SUBSCRIBE"
http_method_to_string unsubscribe = codes "UNSUBSCRIBE"
http_method_to_string patch = codes "PATCH"
http_method_to_string purge = codes "PURGE"
http_method_to_string mkcalendar = codes "MKCALENDAR"
http_method_to_string link = codes "LINK"
http_method_to_string unlink = codes "UNLINK"
http_method_to_string source = codes "SOURCE"
http_method_to_string invalid_method = codes "<unknown>"

-- The methods in the order of HTTP_METHOD_MAP
abbrev pub all_methods : List HttpMethod
all_methods =
    delete ∷ get ∷ head ∷ post ∷ put ∷ connect ∷ options ∷ trace ∷ copy ∷ lock ∷ mkcol ∷ move
    ∷ propfind ∷ proppatch ∷ search_method ∷ unlock ∷ bind ∷ rebind ∷ unbind ∷ acl ∷ report
    ∷ mkactivity ∷ checkout ∷ merge ∷ msearch ∷ notify ∷ subscribe ∷ unsubscribe ∷ patch ∷ purge
    ∷ mkcalendar ∷ link ∷ unlink ∷ source ∷ []

-- c_str(): up to the first zero byte
unfoldable pub c_str : Bytes → Bytes
c_str [] = []
c_str (c ∷ s) = if c == 0 then [] else c ∷ c_str s

-- strncmp(p, s, strlen(p)) == 0
unfoldable pub starts_with : Bytes → Bytes → Bool
starts_with [] s = true
starts_with (p ∷ ps) [] = false
starts_with (p ∷ ps) (c ∷ s) = if p == c then starts_with ps s else false

-- The chain of tests that the macro expands to
unfoldable pub first_method : (Bytes → Bool) → List HttpMethod → HttpMethod
first_method test [] = invalid_method
first_method test (m ∷ ms) = if test (http_method_to_string m) then m else first_method test ms

unfoldable pub string_to_http_method : Bytes → HttpMethod
string_to_http_method s = first_method (λ name. bytes_eq name (c_str s)) all_methods

unfoldable pub chars_to_http_method : Bytes → HttpMethod
chars_to_http_method s = first_method (λ name. starts_with name s) all_methods
