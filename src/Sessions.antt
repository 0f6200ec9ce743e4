-- ===== src/Sessions.antt =====
-- internal/transport/adminhttp/session.go: the sessions of the administration pages. A request comes with
-- its parsed form or the parser's error; the clock's reading and the two random tokens are arguments.
pub mod Bounded
pub mod Guarded
mod Tests
use Prim.Native.String.{len}
use kokekokkor.Common.{
  String, ℕ, ◌+◌, Bool, true, false, not, ◌&&◌, ◌||◌, Option, none, some, List, [], ◌∷◌, length,
  Result, ok, err, ltb, leb, ◌==◌, string_eq, ℕ_eq, if◌then◌else◌,
}
use kokekokkor.Common.Map.{Map, lookup, insert, delete}
use kokekokkor.Common.Expiring.{prune, evict_oldest as evict}

abbrev pub max_admin_sessions : ℕ
max_admin_sessions = 64

pub record AdminSession : Type 0 where
  pub csrf : String
  pub expires_at : ℕ

pub record SessionAuth : Type 0 where
  pub password : String
  pub ttl : ℕ
  pub sessions : Map String AdminSession

pub data FormError : Type 0 where
  too_large invalid : FormError

pub record AdminForm : Type 0 where
  pub password : String
  pub csrf_token : String

pub record AdminRequest : Type 0 where
  pub path : String
  pub method : String
  pub cookie : Option String
  pub csrf_header : String
  pub form : Result FormError AdminForm

-- What is answered: the login page, an error, a redirection that sets or clears the session cookie, or
-- what the pages answer with the session's CSRF token.
pub data Reply : Type 0 where
  login_page : ℕ → String → Reply
  status_only : ℕ → Reply
  http_error : ℕ → String → Reply
  redirected : String → Reply
  logged_in : String → ℕ → Reply
  logged_out : Reply
  passed_on : String → Reply

abbrev pub new_session_auth : String → ℕ → SessionAuth
new_session_auth password ttl = record { password = password; ttl = ttl; sessions = [] }

-- `!session.ExpiresAt.After(now)`.
unfoldable pub is_over : ℕ → AdminSession → Bool
is_over now session = leb session.expires_at now

abbrev pub prune_locked : ℕ → Map String AdminSession → Map String AdminSession
prune_locked now = prune (is_over now)

abbrev pub evict_oldest_locked : Map String AdminSession → Map String AdminSession
evict_oldest_locked = evict λ session. session.expires_at

unfoldable pub secret_equal : String → String → Bool
secret_equal got expected =
    if got == "" || expected == "" || not (len got == len expected) then false else got == expected

abbrev form_token : Result FormError AdminForm → String
form_token (err e) = ""
form_token (ok form) = form.csrf_token

unfoldable pub csrf_equal : AdminRequest → String → Bool
unfolding secret_equal
csrf_equal request expected =
    let got = request.csrf_header in
    secret_equal (if got == "" then form_token request.form else got) expected

abbrev pub form_reply : FormError → Reply
form_reply too_large = http_error 413 "admin request body too large"
form_reply invalid = http_error 400 "invalid admin form"

-- The session of the request's cookie; one that is over is deleted.
abbrev pub found_session :
    ℕ → SessionAuth → String → Option AdminSession → Option (String × AdminSession) × SessionAuth
found_session now a token none = (none, record a { sessions = delete token a.sessions })
found_session now a token (some session) =
    if is_over now session
    then (none, record a { sessions = delete token a.sessions })
    else (some (token, session), a)

abbrev pub session_of_cookie :
    ℕ → SessionAuth → Option String → Option (String × AdminSession) × SessionAuth
session_of_cookie now a none = (none, a)
session_of_cookie now a (some token) =
    if token == "" then (none, a) else found_session now a token (lookup token a.sessions)

-- The state after a login with these tokens.
unfoldable pub add_session : ℕ → String → String → SessionAuth → SessionAuth
unfolding prune evict
add_session now token csrf a =
    let pruned = prune_locked now a.sessions in
    let room =
      if leb max_admin_sessions (length pruned) then evict_oldest_locked pruned else pruned in
    record a { sessions = insert token (record { csrf = csrf; expires_at = now + a.ttl }) room }

-- `randomToken` may fail.
abbrev pub Tokens : Type 0
Tokens = Option String × Option String

abbrev pub finish_login : ℕ → Tokens → SessionAuth → Reply × SessionAuth
finish_login now (none, csrf) a = (http_error 500 "session unavailable", a)
finish_login now (some token, none) a = (http_error 500 "session unavailable", a)
finish_login now (some token, some csrf) a =
    (logged_in token (now + a.ttl), add_session now token csrf a)

abbrev pub login_form : ℕ → Tokens → Result FormError AdminForm → SessionAuth → Reply × SessionAuth
login_form now tokens (err e) a = (form_reply e, a)
login_form now tokens (ok form) a =
    if secret_equal form.password a.password
    then finish_login now tokens a
    else (login_page 401 "invalid password", a)

abbrev pub is_read : AdminRequest → Bool
is_read request = request.method == "GET" || request.method == "HEAD"

abbrev form_is_bad : Result FormError AdminForm → Option FormError
form_is_bad (err e) = some e
form_is_bad (ok form) = none

-- The form of a call that may change something.
abbrev pub bad_form : AdminRequest → Option FormError
bad_form request = if is_read request then none else form_is_bad request.form

abbrev pub serve_form :
    AdminRequest → String → AdminSession → Option FormError → SessionAuth → Reply × SessionAuth
serve_form request token session (some e) a = (form_reply e, a)
serve_form request token session none a =
    if request.path == "/admin/logout"
    then (if not (request.method == "POST")
        then (status_only 405, a)
        else if not (csrf_equal request session.csrf)
        then (http_error 403 "invalid CSRF token", a)
        else (logged_out, record a { sessions = delete token a.sessions }))
    else if not (is_read request) && not (csrf_equal request session.csrf)
    then (http_error 403 "invalid CSRF token", a)
    else (passed_on session.csrf, a)

abbrev pub serve_session :
    AdminRequest → Option (String × AdminSession) × SessionAuth → Reply × SessionAuth
serve_session request (none, a) = (
  if is_read request
      then redirected "/admin/login"
      else http_error 401 "admin authentication required",
  a,
)
serve_session request (some (token, session), a) =
    serve_form request token session (bad_form request) a

abbrev pub serve_login : ℕ → Tokens → AdminRequest → SessionAuth → Reply × SessionAuth
serve_login now tokens request a =
    if request.method == "GET"
    then (login_page 200 "", a)
    else if request.method == "POST"
    then login_form now tokens request.form a
    else (status_only 405, a)

unfoldable pub serve : ℕ → Tokens → AdminRequest → SessionAuth → Reply × SessionAuth
unfolding is_over secret_equal csrf_equal add_session
serve now tokens request a =
    if request.path == "/admin/login"
    then serve_login now tokens request a
    else serve_session request (session_of_cookie now a request.cookie)
