-- ===== src/Http/Servlet.antt =====
-- gudov/http/servlet.h, gudov/http/servlet.cpp: ServletDispatch and NotFoundServlet. The locks are left out:
-- an operation holds the lock from its first line to its last. The unordered map datas_ is an association
-- list, since only its look-ups are used. A servlet is a type of its own, and fnmatch
-- of the C library is a parameter, true for a match (the function's result 0).
use gudov.Common.{ℕ, Bool, if◌then◌else◌, Option, none, some, [], ◌∷◌, ◌++◌}
use gudov.Common.Text.{Bytes, codes, bytes_eq}
use gudov.Common.Dict.{exact, Dict, find, put, remove}
use gudov.Http.Response.{HttpResponse, set_header}

pub record ServletDispatch {ℓ} (S : Type ℓ) : Type ℓ where
  pub datas : Dict S
  pub globs : Dict S
  pub default : S

-- `for (...) if (it->first == uri) { globs_.erase(it); break; }`
unfoldable pub erase_first {ℓ} : {S : Type ℓ} → Bytes → Dict S → Dict S
erase_first uri [] = []
erase_first uri ((k, s) ∷ m) = if bytes_eq k uri then m else (k, s) ∷ erase_first uri m

module _ {ℓ} {S : Type ℓ} where
  -- The constructor, with the NotFoundServlet it makes
  unfoldable pub new_dispatch : S → ServletDispatch S
  new_dispatch not_found = record { datas = []; globs = []; default = not_found }

  unfoldable pub add_servlet : Bytes → S → ServletDispatch S → ServletDispatch S
  add_servlet uri slt d = record d { datas = put exact uri slt d.datas }

  unfoldable pub add_glob_servlet : Bytes → S → ServletDispatch S → ServletDispatch S
  add_glob_servlet uri slt d = record d { globs = erase_first uri d.globs ++ (uri, slt) ∷ [] }

  unfoldable pub del_servlet : Bytes → ServletDispatch S → ServletDispatch S
  del_servlet uri d = record d { datas = remove exact uri d.datas }

  unfoldable pub del_glob_servlet : Bytes → ServletDispatch S → ServletDispatch S
  del_glob_servlet uri d = record d { globs = erase_first uri d.globs }

  unfoldable pub get_servlet : Bytes → ServletDispatch S → Option S
  get_servlet uri d = find exact uri d.datas

  unfoldable pub glob_named : Bytes → Dict S → Option S
  glob_named uri [] = none
  glob_named uri ((k, s) ∷ m) = if bytes_eq k uri then some s else glob_named uri m

  unfoldable pub get_glob_servlet : Bytes → ServletDispatch S → Option S
  get_glob_servlet uri d = glob_named uri d.globs

  module _ (fnmatch : Bytes → Bytes → Bool) where
    -- The first glob that matches, or else the default
    unfoldable pub first_match : Bytes → Dict S → S → S
    first_match uri [] default = default
    first_match uri ((k, s) ∷ m) default = if fnmatch k uri then s else first_match uri m default

    unfoldable pub get_matched_servlet : Bytes → ServletDispatch S → S
    get_matched_servlet uri d = elim (find exact uri d.datas) [
      | none ↦ first_match uri d.globs d.default
      | some s ↦ s
    ]

-- ServletDispatch::Handle: the servlet found runs, and its result is not passed on.
unfoldable pub handle {ℓ} :
    {A : Type ℓ} → (Bytes → Bytes → Bool) → Bytes → ServletDispatch (A → A) → A → A × ℕ
handle fnmatch path d x = (get_matched_servlet fnmatch path d x, 0)

abbrev pub rsp_body : Bytes
rsp_body =
    codes "<html><head><title>404 Not Found"
    ++ (codes "</title></head><body><center><h1>404 Not Found</h1></center>"
        ++ codes "<hr><center>gudov/1.0.0</center></body></html>")

-- NotFoundServlet::Handle
unfoldable pub not_found : HttpResponse → HttpResponse
not_found response =
    record (set_header (codes "Content-Type") (codes "text/html")
      (set_header (codes "Server") (codes "gudov/1.0.0") (record response { status = 404 }))) {
        body = rsp_body;
      }
