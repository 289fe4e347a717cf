-- ===== src/Http/Laws.antt =====
-- What the methods, headers and the connection flag of a message promise (gudov/http/http.cpp).
use gudov.Common.{
  ◌≡◌, ◌≢◌, ◌↔◌, inl, inr, refl, sym, Bool, true, if◌then◌else◌, Bool-cases, List, [], ◌∷◌, ◌++◌,
}
use gudov.Common.Text.{Bytes, codes, bytes_eq, bytes_eq→eq}
use gudov.Common.Dict.{Dict, remove, put, find-put, find-remove}
use gudov.Http.Method
use gudov.Http.Method.{
  HttpMethod, invalid_method, http_method_to_string, all_methods, c_str, starts_with, first_method,
}
use gudov.Http.Method.{string_to_http_method, chars_to_http_method}
use gudov.Http.Message.{folded, same_text, get_or_def}
use gudov.Http.Request.{HttpRequest, get_header, set_header, del_header}

-- CharsToHttpMethod finds every method that HttpMethodToString printed, whatever text follows.
chars_to_http_method-http_method_to_string :
    (m : HttpMethod) (rest : Bytes)
    → m ≢ invalid_method
    → chars_to_http_method (http_method_to_string m ++ rest) ≡ m
unfolding chars_to_http_method first_method starts_with http_method_to_string
chars_to_http_method-http_method_to_string Method.delete rest n = refl
chars_to_http_method-http_method_to_string Method.get rest n = refl
chars_to_http_method-http_method_to_string Method.head rest n = refl
chars_to_http_method-http_method_to_string Method.post rest n = refl
chars_to_http_method-http_method_to_string Method.put rest n = refl
chars_to_http_method-http_method_to_string Method.connect rest n = refl
chars_to_http_method-http_method_to_string Method.options rest n = refl
chars_to_http_method-http_method_to_string Method.trace rest n = refl
chars_to_http_method-http_method_to_string Method.copy rest n = refl
chars_to_http_method-http_method_to_string Method.lock rest n = refl
chars_to_http_method-http_method_to_string Method.mkcol rest n = refl
chars_to_http_method-http_method_to_string Method.move rest n = refl
chars_to_http_method-http_method_to_string Method.propfind rest n = refl
chars_to_http_method-http_method_to_string Method.proppatch rest n = refl
chars_to_http_method-http_method_to_string Method.search_method rest n = refl
chars_to_http_method-http_method_to_string Method.unlock rest n = refl
chars_to_http_method-http_method_to_string Method.bind rest n = refl
chars_to_http_method-http_method_to_string Method.rebind rest n = refl
chars_to_http_method-http_method_to_string Method.unbind rest n = refl
chars_to_http_method-http_method_to_string Method.acl rest n = refl
chars_to_http_method-http_method_to_string Method.report rest n = refl
chars_to_http_method-http_method_to_string Method.mkactivity rest n = refl
chars_to_http_method-http_method_to_string Method.checkout rest n = refl
chars_to_http_method-http_method_to_string Method.merge rest n = refl
chars_to_http_method-http_method_to_string Method.msearch rest n = refl
chars_to_http_method-http_method_to_string Method.notify rest n = refl
chars_to_http_method-http_method_to_string Method.subscribe rest n = refl
chars_to_http_method-http_method_to_string Method.unsubscribe rest n = refl
chars_to_http_method-http_method_to_string Method.patch rest n = refl
chars_to_http_method-http_method_to_string Method.purge rest n = refl
chars_to_http_method-http_method_to_string Method.mkcalendar rest n = refl
chars_to_http_method-http_method_to_string Method.link rest n = refl
chars_to_http_method-http_method_to_string Method.unlink rest n = refl
chars_to_http_method-http_method_to_string Method.source rest n = refl
chars_to_http_method-http_method_to_string Method.invalid_method rest n = absurd (n refl)

-- The chain of tests finds the first method that passes.
first_method-passes :
    (test : Bytes → Bool) (ms : List HttpMethod) (m : HttpMethod)
    → first_method test ms ≡ m
    → m ≢ invalid_method
    → test (http_method_to_string m) ≡ true
unfolding first_method
first_method-passes test [] m e n = absurd (n (sym e))
first_method-passes test (x ∷ ms) m e n = elim (Bool-cases (test (http_method_to_string x))) [
  | inl t ↦ let same : x ≡ m = rw t at e in rw (← same) t
  | inr t ↦ first_method-passes test ms m (rw t at e) n
]

-- StringToHttpMethod answers a method exactly for its text: for a method m that is not invalid, the
-- answer is m if and only if the text, up to its first zero byte, is what HttpMethodToString prints of m.
string_to_http_method_iff :
    (m : HttpMethod) (s : Bytes)
    → m ≢ invalid_method
    → (string_to_http_method s ≡ m) ↔ (c_str s ≡ http_method_to_string m)
unfolding string_to_http_method
string_to_http_method_iff m s n = (
  (λ e. sym (
      bytes_eq→eq (http_method_to_string m) (c_str s)
        (first_method-passes (λ name. bytes_eq name (c_str s)) all_methods m e n))),
  (λ e. rw e (own m n)),
)
  where
    own :
        (m : HttpMethod)
        → m ≢ invalid_method
        → first_method (λ name. bytes_eq name (http_method_to_string m)) all_methods ≡ m
    own Method.delete n = unfold first_method bytes_eq http_method_to_string in refl
    own Method.get n = unfold first_method bytes_eq http_method_to_string in refl
    own Method.head n = unfold first_method bytes_eq http_method_to_string in refl
    own Method.post n = unfold first_method bytes_eq http_method_to_string in refl
    own Method.put n = unfold first_method bytes_eq http_method_to_string in refl
    own Method.connect n = unfold first_method bytes_eq http_method_to_string in refl
    own Method.options n = unfold first_method bytes_eq http_method_to_string in refl
    own Method.trace n = unfold first_method bytes_eq http_method_to_string in refl
    own Method.copy n = unfold first_method bytes_eq http_method_to_string in refl
    own Method.lock n = unfold first_method bytes_eq http_method_to_string in refl
    own Method.mkcol n = unfold first_method bytes_eq http_method_to_string in refl
    own Method.move n = unfold first_method bytes_eq http_method_to_string in refl
    own Method.propfind n = unfold first_method bytes_eq http_method_to_string in refl
    own Method.proppatch n = unfold first_method bytes_eq http_method_to_string in refl
    own Method.search_method n = unfold first_method bytes_eq http_method_to_string in refl
    own Method.unlock n = unfold first_method bytes_eq http_method_to_string in refl
    own Method.bind n = unfold first_method bytes_eq http_method_to_string in refl
    own Method.rebind n = unfold first_method bytes_eq http_method_to_string in refl
    own Method.unbind n = unfold first_method bytes_eq http_method_to_string in refl
    own Method.acl n = unfold first_method bytes_eq http_method_to_string in refl
    own Method.report n = unfold first_method bytes_eq http_method_to_string in refl
    own Method.mkactivity n = unfold first_method bytes_eq http_method_to_string in refl
    own Method.checkout n = unfold first_method bytes_eq http_method_to_string in refl
    own Method.merge n = unfold first_method bytes_eq http_method_to_string in refl
    own Method.msearch n = unfold first_method bytes_eq http_method_to_string in refl
    own Method.notify n = unfold first_method bytes_eq http_method_to_string in refl
    own Method.subscribe n = unfold first_method bytes_eq http_method_to_string in refl
    own Method.unsubscribe n = unfold first_method bytes_eq http_method_to_string in refl
    own Method.patch n = unfold first_method bytes_eq http_method_to_string in refl
    own Method.purge n = unfold first_method bytes_eq http_method_to_string in refl
    own Method.mkcalendar n = unfold first_method bytes_eq http_method_to_string in refl
    own Method.link n = unfold first_method bytes_eq http_method_to_string in refl
    own Method.unlink n = unfold first_method bytes_eq http_method_to_string in refl
    own Method.source n = unfold first_method bytes_eq http_method_to_string in refl
    own Method.invalid_method n = absurd (n refl)

-- A text that begins with M-SEARCH, the UPnP method that `msearch` stands for, is no method:
-- the table has `M - SEARCH`.
chars_to_http_method_m_search :
    (rest : Bytes) → chars_to_http_method (codes "M-SEARCH" ++ rest) ≡ invalid_method
unfolding chars_to_http_method first_method starts_with http_method_to_string
chars_to_http_method_m_search rest = refl

get_or_def-put :
    (key key' val def : Bytes) (m : Dict Bytes)
    → get_or_def (put folded key val m) key' def
      ≡ (if same_text key key' then val else get_or_def m key' def)
unfolding get_or_def
get_or_def-put key key' val def m = elim (Bool-cases (same_text key key')) [
  | inl t ↦ rw (find-put folded key key' val m, t, get_or_def) refl
  | inr t ↦ rw (find-put folded key key' val m, t, get_or_def) refl
]

get_or_def-remove :
    (key key' def : Bytes) (m : Dict Bytes)
    → get_or_def (remove folded key m) key' def
      ≡ (if same_text key key' then def else get_or_def m key' def)
unfolding get_or_def
get_or_def-remove key key' def m = elim (Bool-cases (same_text key key')) [
  | inl t ↦ rw (find-remove folded key key' m, t, get_or_def) refl
  | inr t ↦ rw (find-remove folded key key' m, t, get_or_def) refl
]

-- GetHeader after SetHeader and DelHeader: the case of a key does not matter.
get_header-set_header :
    (r : HttpRequest) (key key' val def : Bytes)
    → (get_header key' def (set_header key val r)
        ≡ (if same_text key key' then val else get_header key' def r))
      × (get_header key' def (del_header key r)
          ≡ (if same_text key key' then def else get_header key' def r))
unfolding get_header set_header del_header
get_header-set_header r key key' val def =
    (get_or_def-put key key' val def r.headers, get_or_def-remove key key' def r.headers)
