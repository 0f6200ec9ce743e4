-- ===== src/Sessions/Guarded.antt =====
-- What internal/transport/adminhttp/session.go lets through to the administration pages.
use kokekokkor.Common.{
  String, ℕ, ◌≡◌, refl, Bool, true, false, not, ◌&&◌, Option, none, some, Result, ok, err, ◌⊎◌, inl,
  inr, if_split, ◌==◌, string_eq, if◌then◌else◌,
}
use kokekokkor.Common.Map.{lookup}
use kokekokkor.Sessions.{
  AdminSession, SessionAuth, FormError, too_large, invalid, AdminForm, AdminRequest, Reply,
  http_error, redirected, logged_in, logged_out, passed_on, Tokens, is_over, secret_equal,
  csrf_equal, form_reply, found_session, session_of_cookie, finish_login, login_form, is_read,
  bad_form, serve_form, serve_session, serve,
}

-- The request's cookie names a live session, and a request that may change something shows its token.
abbrev pub IsAuthenticated : ℕ → AdminRequest → SessionAuth → String → Type 0
IsAuthenticated now request a csrf =
    (token : String) × (session : AdminSession) × (request.cookie ≡ some token)
    × (lookup token a.sessions ≡ some session)
    × (is_over now session ≡ false)
    × (session.csrf ≡ csrf)
    × ((is_read request ≡ true) ⊎ (csrf_equal request session.csrf ≡ true))

-- A login with the password.
abbrev pub IsLogin : AdminRequest → SessionAuth → Type 0
IsLogin request a =
    (form : AdminForm) × (request.form ≡ ok form) × (secret_equal form.password a.password ≡ true)

-- What a reply says of the request and of the state before.
abbrev pub Shows : ℕ → AdminRequest → SessionAuth → Reply → Type 0
Shows now request a (passed_on csrf) = IsAuthenticated now request a csrf
Shows now request a (logged_in token expires) = IsLogin request a
Shows now request a logged_out =
    (csrf : String) × IsAuthenticated now request a csrf × (csrf_equal request csrf ≡ true)
Shows now request a _ = Unit

pub record IsShown (now : ℕ) (request : AdminRequest) (a : SessionAuth) (out : Reply × SessionAuth)
    : Type 0 where
  pub shown : Shows now request a (out.0)

-- A session that the search for the cookie's finds is a live one of the state before.
abbrev IsLive :
    ℕ → SessionAuth → Option String → Option (String × AdminSession) × SessionAuth → Type 0
IsLive now a cookie (none, left) = Unit
IsLive now a cookie (some (token, session), left) =
    (cookie ≡ some token) × (lookup token a.sessions ≡ some session) × (is_over now session ≡ false)

found_session-IsLive :
    (now : ℕ) (a : SessionAuth) (token : String) (session : Option AdminSession)
    → lookup token a.sessions ≡ session
    → IsLive now a (some token) (found_session now a token session)
found_session-IsLive now a token none same = tt
found_session-IsLive now a token (some session) same =
    if_split (IsLive now a (some token)) (is_over now session) (λ late. tt)
      λ live. (refl, same, live)

session_of_cookie-IsLive :
    (now : ℕ) (a : SessionAuth) (cookie : Option String)
    → IsLive now a cookie (session_of_cookie now a cookie)
session_of_cookie-IsLive now a none = tt
session_of_cookie-IsLive now a (some token) =
    if_split (IsLive now a (some token)) (token == "") (λ blank. tt)
      λ named. found_session-IsLive now a token (lookup token a.sessions) refl

not-false : (b : Bool) → not b ≡ false → b ≡ true
not-false true h = refl
not-false false h = cc

guard_passed : (b c : Bool) → (not b && not c) ≡ false → (b ≡ true) ⊎ (c ≡ true)
guard_passed true c h = inl refl
guard_passed false true h = inr refl
guard_passed false false h = cc

redirect-Shows :
    (now : ℕ) (request : AdminRequest) (a : SessionAuth) (read : Bool)
    → Shows now request a
        (if read then redirected "/admin/login" else http_error 401 "admin authentication required")
redirect-Shows now request a true = tt
redirect-Shows now request a false = tt

form_reply-Shows :
    (now : ℕ) (request : AdminRequest) (a : SessionAuth) (e : FormError)
    → Shows now request a (form_reply e)
form_reply-Shows now request a too_large = tt
form_reply-Shows now request a invalid = tt

finish_login-IsShown :
    (now : ℕ) (tokens : Tokens) (request : AdminRequest) (a : SessionAuth)
    → IsLogin request a
    → IsShown now request a (finish_login now tokens a)
finish_login-IsShown now (none, csrf) request a login = record { shown = tt }
finish_login-IsShown now (some token, none) request a login = record { shown = tt }
finish_login-IsShown now (some token, some csrf) request a login = record { shown = login }

login_form-IsShown :
    (now : ℕ) (tokens : Tokens) (request : AdminRequest) (form : Result FormError AdminForm)
    (a : SessionAuth)
    → request.form ≡ form
    → IsShown now request a (login_form now tokens form a)
login_form-IsShown now tokens request (err e) a same = record {
  shown = form_reply-Shows now request a e;
}
login_form-IsShown now tokens request (ok form) a same =
    if_split (IsShown now request a) (secret_equal form.password a.password)
      (λ right. finish_login-IsShown now tokens request a (form, same, right))
      λ wrong. record { shown = tt }

serve_form-IsShown :
    (now : ℕ) (request : AdminRequest) (before a : SessionAuth) (token : String)
    (session : AdminSession) (bad : Option FormError)
    → IsLive now before request.cookie (some (token, session), a)
    → IsShown now request before (serve_form request token session bad a)
serve_form-IsShown now request before a token session (some e) live = record {
  shown = form_reply-Shows now request before e;
}
serve_form-IsShown now request before a token session none (cookie, found, fresh) =
    let Shown : Reply × SessionAuth → Type 0 = IsShown now request before in
    if_split Shown (request.path == "/admin/logout")
      (λ logout.
        if_split Shown (not (request.method == "POST")) (λ other. record { shown = tt })
          λ post.
            if_split Shown (not (csrf_equal request session.csrf)) (λ wrong. record { shown = tt })
              λ right.
                (let good = not-false (csrf_equal request session.csrf) right in
                  record {
                    shown = (
                      session.csrf,
                      (token, session, cookie, found, fresh, refl, inr good),
                      good,
                    );
                  }))
      λ page.
        if_split Shown (not (is_read request) && not (csrf_equal request session.csrf))
          (λ wrong. record { shown = tt })
          λ right. record {
            shown = (
              token,
              session,
              cookie,
              found,
              fresh,
              refl,
              guard_passed (is_read request) (csrf_equal request session.csrf) right,
            );
          }

serve_session-IsShown :
    (now : ℕ) (request : AdminRequest) (before : SessionAuth)
    (found : Option (String × AdminSession) × SessionAuth)
    → IsLive now before request.cookie found
    → IsShown now request before (serve_session request found)
serve_session-IsShown now request before (none, a) live = record {
  shown = redirect-Shows now request before (is_read request);
}
serve_session-IsShown now request before (some (token, session), a) live =
    serve_form-IsShown now request before a token session (bad_form request) live

-- Whatever the request and the sessions: a request reaches the pages only with the cookie of a session
-- that is there and not over, and one that may change something only with that session's token, and so a
-- logout; a login needs the password.
pub serve-Shows :
    (now : ℕ) (tokens : Tokens) (request : AdminRequest) (a : SessionAuth)
    → Shows now request a ((serve now tokens request a).0)
unfolding serve
serve-Shows now tokens request a =
    let Shown : Reply × SessionAuth → Type 0 = IsShown now request a in
    let all : Shown (serve now tokens request a) =
      if_split Shown (request.path == "/admin/login")
        (λ login.
          if_split Shown (request.method == "GET") (λ get. record { shown = tt })
            λ other.
              if_split Shown (request.method == "POST")
                (λ post. login_form-IsShown now tokens request request.form a refl)
                λ odd. record { shown = tt })
        λ page.
          serve_session-IsShown now request a (session_of_cookie now a request.cookie)
            (session_of_cookie-IsLive now a request.cookie) in
    all.shown
