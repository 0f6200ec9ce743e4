-- ===== src/Sessions/Bounded.antt =====
-- How many sessions internal/transport/adminhttp/session.go keeps, whatever is requested.
use kokekokkor.Common.{
  String, ℕ, ◌+◌, ◌≤◌, ◌≡◌, refl, false, not, ◌&&◌, Option, none, some, length, Result, ok, err,
  leb, ◌==◌, string_eq, if◌then◌else◌, if_both, arith,
}
use kokekokkor.Common.Map.{
  Map, lookup, delete, IsUnique, insert-IsUnique, delete-IsUnique, length-delete-le,
}
use kokekokkor.Common.Expiring.{
  prune-IsUnique, prune-All, length-prune, delete-All, insert-All, IsKeyed, evict_oldest-kept,
  length-insert-evict_oldest,
}
use kokekokkor.Sessions.{
  max_admin_sessions, AdminSession, SessionAuth, FormError, AdminForm, AdminRequest, Reply, Tokens,
  new_session_auth, is_over, secret_equal, csrf_equal, prune_locked, evict_oldest_locked,
  found_session, session_of_cookie, add_session, finish_login, login_form, is_read, serve_form,
  serve_session, serve,
}

-- No token stands twice or is empty, and at most 64 sessions are kept.
pub record IsWell (a : SessionAuth) : Type 0 where
  pub unique : IsUnique a.sessions
  pub keyed : IsKeyed a.sessions
  pub bounded : length a.sessions ≤ max_admin_sessions

-- A random token is not empty.
abbrev pub IsRandom : Tokens → Type 0
IsRandom tokens = (token : String) → tokens.0 ≡ some token → (token == "") ≡ false

abbrev Keyed : String × AdminSession → Type 0
Keyed entry = (entry.0 == "") ≡ false

delete-IsWell :
    (token : String) (a : SessionAuth)
    → IsWell a
    → IsWell (record a { sessions = delete token a.sessions })
delete-IsWell token a well = record {
  unique = delete-IsUnique token a.sessions well.unique;
  keyed = delete-All Keyed token a.sessions well.keyed;
  bounded = omega (arith, length-delete-le token a.sessions, well.bounded);
}

add_session-IsWell :
    (now : ℕ) (token csrf : String) (a : SessionAuth)
    → (token == "") ≡ false
    → IsWell a
    → IsWell (add_session now token csrf a)
unfolding add_session
add_session-IsWell now token csrf a named well =
    let pruned = prune_locked now a.sessions in
    let added : AdminSession = record { csrf = csrf; expires_at = now + a.ttl } in
    let unique = prune-IsUnique (is_over now) a.sessions well.unique in
    let keyed = prune-All (is_over now) Keyed a.sessions well.keyed in
    let fewer = length-prune (is_over now) a.sessions in
    let room =
      if leb max_admin_sessions (length pruned) then evict_oldest_locked pruned else pruned in
    let Kept : Map String AdminSession → Type 0 = λ m. IsUnique m × IsKeyed m in
    let kept =
      if_both Kept (leb max_admin_sessions (length pruned))
        (evict_oldest-kept (λ s. s.expires_at) Keyed pruned unique keyed) (unique, keyed) in
    record {
      unique = insert-IsUnique token added room kept.0;
      keyed = insert-All Keyed token added room named kept.1;
      bounded =
          length-insert-evict_oldest (λ s. s.expires_at) token added pruned max_admin_sessions keyed
            (omega arith) (omega (arith, fewer, well.bounded));
    }

-- The same of what a call leaves.
pub record Keeps (out : Reply × SessionAuth) : Type 0 where
  pub well : IsWell (out.1)

keeps : (reply : Reply) (a : SessionAuth) → IsWell a → Keeps (reply, a)
keeps reply a well = record { well = well }

finish_login-Keeps :
    (now : ℕ) (tokens : Tokens) (a : SessionAuth)
    → IsRandom tokens
    → IsWell a
    → Keeps (finish_login now tokens a)
finish_login-Keeps now (none, csrf) a random well = keeps _ a well
finish_login-Keeps now (some token, none) a random well = keeps _ a well
finish_login-Keeps now (some token, some csrf) a random well =
    keeps _ _ (add_session-IsWell now token csrf a (random token refl) well)

login_form-Keeps :
    (now : ℕ) (tokens : Tokens) (form : Result FormError AdminForm) (a : SessionAuth)
    → IsRandom tokens
    → IsWell a
    → Keeps (login_form now tokens form a)
login_form-Keeps now tokens (err e) a random well = keeps _ a well
login_form-Keeps now tokens (ok form) a random well =
    if_both Keeps (secret_equal form.password a.password)
      (finish_login-Keeps now tokens a random well) (keeps _ a well)

serve_form-Keeps :
    (request : AdminRequest) (token : String) (session : AdminSession) (bad : Option FormError)
    (a : SessionAuth)
    → IsWell a
    → Keeps (serve_form request token session bad a)
serve_form-Keeps request token session (some e) a well = keeps _ a well
serve_form-Keeps request token session none a well =
    if_both Keeps (request.path == "/admin/logout")
      (if_both Keeps (not (request.method == "POST")) (keeps _ a well) (
        if_both Keeps (not (csrf_equal request session.csrf)) (keeps _ a well)
          (keeps _ _ (delete-IsWell token a well))))
      (if_both Keeps (not (is_read request) && not (csrf_equal request session.csrf))
        (keeps _ a well) (keeps _ a well))

-- The same of the search for the cookie's session.
pub record Finds (found : Option (String × AdminSession) × SessionAuth) : Type 0 where
  pub well : IsWell (found.1)

found_session-Finds :
    (now : ℕ) (a : SessionAuth) (token : String) (session : Option AdminSession)
    → IsWell a
    → Finds (found_session now a token session)
found_session-Finds now a token none well = record { well = delete-IsWell token a well }
found_session-Finds now a token (some session) well =
    if_both Finds (is_over now session) record { well = delete-IsWell token a well }
      record { well = well }

session_of_cookie-Finds :
    (now : ℕ) (a : SessionAuth) (cookie : Option String)
    → IsWell a
    → Finds (session_of_cookie now a cookie)
session_of_cookie-Finds now a none well = record { well = well }
session_of_cookie-Finds now a (some token) well =
    if_both Finds (token == "") record { well = well }
      (found_session-Finds now a token (lookup token a.sessions) well)

serve_session-Keeps :
    (request : AdminRequest) (found : Option (String × AdminSession) × SessionAuth)
    → Finds found
    → Keeps (serve_session request found)
serve_session-Keeps request (none, a) f = keeps _ a f.well
serve_session-Keeps request (some (token, session), a) f =
    serve_form-Keeps request token session _ a f.well

-- Every call keeps the sessions well-formed and within the bound.
pub serve-Keeps :
    (now : ℕ) (tokens : Tokens) (request : AdminRequest) (a : SessionAuth)
    → IsRandom tokens
    → IsWell a
    → Keeps (serve now tokens request a)
unfolding serve
serve-Keeps now tokens request a random well =
    if_both Keeps (request.path == "/admin/login")
      (if_both Keeps (request.method == "GET") (keeps _ a well) (
        if_both Keeps (request.method == "POST")
          (login_form-Keeps now tokens request.form a random well) (keeps _ a well)))
      (serve_session-Keeps request _ (session_of_cookie-Finds now a request.cookie well))

-- What calls make of a new session store, at any times; the random tokens are not empty.
pub data IsReached : SessionAuth → Type 0 where
  fresh : (password : String) (ttl : ℕ) → IsReached (new_session_auth password ttl)
  after_serve :
      (now : ℕ) (tokens : Tokens) (request : AdminRequest) (a : SessionAuth)
      → IsRandom tokens
      → IsReached a
      → IsReached (serve now tokens request a).1

-- Whatever calls were made, at any times, no token stands twice or is empty, and at most 64 sessions
-- are kept.
pub sessions_reached-IsWell : (a : SessionAuth) → IsReached a → IsWell a
sessions_reached-IsWell a (fresh password ttl) = record {
  unique = tt;
  keyed = tt;
  bounded = omega arith;
}
sessions_reached-IsWell a (after_serve now tokens request before random reached) =
    (serve-Keeps now tokens request before random (sessions_reached-IsWell before reached)).well
