-- ===== src/Sessions/Tests.antt =====
-- Runs of the administrator's sessions.
use kokekokkor.Common.{
  String, ◌≡◌, refl, subst, false, Option, none, some, [], ◌∷◌, ok, ◌==◌, string_eq,
}
use kokekokkor.Common.Map.{lookup, insert, delete}
use kokekokkor.Common.Expiring.{prune}
use kokekokkor.Sessions.{
  AdminRequest, SessionAuth, Tokens, new_session_auth, http_error, logged_in, passed_on, serve,
}
use kokekokkor.Sessions.Bounded.{IsWell, fresh, after_serve, sessions_reached-IsWell}
use kokekokkor.Sessions.Guarded.{Shows, serve-Shows}

abbrev new_auth : SessionAuth
new_auth = new_session_auth "secret" 10

abbrev logging_in : AdminRequest
logging_in = record {
  path = "/admin/login";
  method = "POST";
  cookie = none;
  csrf_header = "";
  form = ok (record { password = "secret"; csrf_token = "" });
}

abbrev random : Tokens
random = (some "t", some "c")

abbrev with_session : SessionAuth
with_session = record new_auth { sessions = ("t", record { csrf = "c"; expires_at = 15 }) ∷ [] }

logs_in : serve 5 random logging_in new_auth ≡ (logged_in "t" 15, with_session)
unfolding serve lookup insert prune
logs_in = refl

abbrev editing : AdminRequest
editing = record {
  path = "/admin/providers";
  method = "POST";
  cookie = some "t";
  csrf_header = "c";
  form = ok (record { password = ""; csrf_token = "" });
}

edits : (serve 6 random editing with_session).0 ≡ passed_on "c"
unfolding serve lookup
edits = refl

refuses_other_token :
    (serve 6 random (record editing { csrf_header = "d" }) with_session).0
    ≡ http_error 403 "invalid CSRF token"
unfolding serve lookup
refuses_other_token = refl

refuses_late :
    (serve 15 random editing with_session).0 ≡ http_error 401 "admin authentication required"
unfolding serve lookup delete
refuses_late = refl

abbrev token_of : Option String → String
token_of none = ""
token_of (some token) = token

random_named : (token : String) → some "t" ≡ some token → (token == "") ≡ false
random_named token same = subst (λ o. (token_of o == "") ≡ false) same refl

serve-Shows_example : Shows 6 editing with_session (serve 6 random editing with_session).0
serve-Shows_example = serve-Shows 6 random editing with_session

sessions_reached-IsWell_example : IsWell (serve 5 random logging_in new_auth).1
sessions_reached-IsWell_example =
    sessions_reached-IsWell (serve 5 random logging_in new_auth).1
      (after_serve 5 random logging_in new_auth random_named (fresh "secret" 10))
