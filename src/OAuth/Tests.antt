-- ===== src/OAuth/Tests.antt =====
-- Runs of the OAuth model: a pending authorization is stored, taken once, and refused when it is late.
use kokekokkor.Common.{
  String, ℕ, suc, ap, ◌≡◌, refl, true, false, ◌⊎◌, Option, none, some, [], ◌∷◌, ok, err, ◌==◌,
  string_eq, arith,
}
use kokekokkor.Common.Map.{lookup, has_key, insert, delete}
use kokekokkor.Common.Text.{trim_space, is_space}
use kokekokkor.Catalog.{Url}
use kokekokkor.OAuth.{Provider, PendingAuthorization, TokenSet, is_secure, validate}
use kokekokkor.OAuth.States.{MemoryStates, new_states, state_expired, is_expired, put, consume}
use kokekokkor.Common.Expiring.{prune, is_older, oldest_from, evict_oldest}
use kokekokkor.OAuth.Bounded.{IsWell, fresh, after_put, after_consume, put-IsWell, reached-IsWell}
use kokekokkor.OAuth.Flow.{Dependencies, FlowError, store_tokens, exchange_code, complete}
use kokekokkor.OAuth.Resolver.{
  found, TokenRepository, RuntimeTokenResolver, is_fresh, keep_missing, store_refreshed,
  refresh_token_set, bearer_token, IsRefreshed, bearer_token_ok,
}
use kokekokkor.OAuth.Once.{IsAsked, IsExchanged, complete_once, complete_ok}

abbrev secure_url : String → Option Url
secure_url raw = some (record { scheme = "https"; host = raw })

abbrev claude : Provider
claude = record {
  id = "claude";
  authorization_url = "a";
  token_url = "t";
  client_id = "c";
  scopes = [];
  authorization_params = [];
}

abbrev waiting : PendingAuthorization
waiting = record {
  provider_id = "claude";
  state = "s1";
  code_verifier = "v1";
  redirect_uri = "r";
  created_at = 10;
  expires_at = 20;
}

abbrev later_one : PendingAuthorization
later_one = record waiting { state = "s2"; created_at = 11; expires_at = 21 }

abbrev one_place : MemoryStates
one_place = record { items = []; max_items = 1 }

-- A full repository gives up the oldest entry, or an expired one.
evicts :
    put 12 later_one (put 11 waiting one_place)
    ≡ record one_place { items = ("s2", later_one) ∷ [] }
unfolding put prune is_expired has_key insert delete evict_oldest oldest_from is_older
evicts = refl

takes_late : consume 20 "s1" (put 11 waiting new_states) ≡ (err state_expired, new_states)
unfolding put prune is_expired has_key insert delete consume lookup
takes_late = refl

-- The exchanger gives the verifier back as the access token; the world counts the stored sets.
abbrev counting : Dependencies ℕ ℕ
counting = record {
  exchange = λ p request w. (
    ok (record {
      access_token = request.code_verifier;
      refresh_token = "";
      token_type = "";
      scope = "";
      expires_at = 0;
    }),
    w,
  );
  put_tokens = λ id tokens w. (none, suc w);
}

abbrev issued : TokenSet
issued = record {
  access_token = "v1";
  refresh_token = "";
  token_type = "";
  scope = "";
  expires_at = 0;
}

abbrev holding : MemoryStates
holding = record { items = ("s1", waiting) ∷ []; max_items = 4 }

completes :
    complete secure_url (some counting) claude "s1" "code" "r" 12 holding 0
    ≡ (ok issued, record { items = []; max_items = 4 }, 1)
unfolding complete validate is_secure consume lookup delete is_expired exchange_code store_tokens
    trim_space is_space
completes = refl

claude-IsAsked : IsAsked secure_url claude "s1" "code"
unfolding validate is_secure trim_space is_space
claude-IsAsked = (refl, refl, refl)

one_place-IsWell : IsWell one_place
one_place-IsWell = record { unique = tt; filed = tt; limited = omega arith; bounded = omega arith }

put-IsWell_example :
    IsWell (put 11 waiting one_place)
    × (lookup "s1" (put 11 waiting one_place).items ≡ some waiting)
put-IsWell_example = put-IsWell 11 waiting one_place one_place-IsWell refl

reached-IsWell_example :
    IsWell (consume 15 "s1" (put 11 waiting new_states)).1
    × ((consume 15 "s1" (put 11 waiting new_states)).1.max_items ≡ 1024)
reached-IsWell_example =
    reached-IsWell (consume 15 "s1" (put 11 waiting new_states)).1 (
      after_consume 15 "s1" (put 11 waiting new_states)
        (after_put 11 waiting new_states refl fresh))

complete_once_example :
    (e : FlowError ℕ) × (complete secure_url
        (some counting)
        claude
        "s1"
        "other"
        "r"
        13
        (complete secure_url (some counting) claude "s1" "code" "r" 12 holding 0).1
        7
      ≡ (err e, (complete secure_url (some counting) claude "s1" "code" "r" 12 holding 0).1, 7))
complete_once_example =
    complete_once secure_url counting (some counting) claude claude "s1" "code" "other" "r" "r" 12
      13 holding 0 7 claude-IsAsked

complete_ok_example :
    (pending : PendingAuthorization) × (lookup "s1" holding.items ≡ some pending)
    × (is_expired 12 pending ≡ false)
    × (pending.provider_id ≡ "claude")
    × (pending.redirect_uri ≡ "r")
    × ((trim_space "v1" == "") ≡ false)
    × IsExchanged counting claude pending "code" 0 issued
        (complete secure_url (some counting) claude "s1" "code" "r" 12 holding 0).2
complete_ok_example =
    complete_ok secure_url counting claude "s1" "code" "r" 12 holding 0 issued
      (ap (λ out. out.0) completes)

abbrev aging : TokenSet
aging = record issued { refresh_token = "again"; expires_at = 50 }

-- The world is the set that is stored last.
abbrev one_set : TokenRepository TokenSet ℕ
one_set = record { get = λ id w. found w; put = λ id tokens w. (none, tokens) }

abbrev resolver : RuntimeTokenResolver TokenSet ℕ
resolver = record {
  tokens = some one_set;
  refresher = some (λ p old w. (ok (record issued { access_token = "v2"; expires_at = 90 }), w));
  providers = ("claude", claude) ∷ [];
  skew = 10;
}

-- With ten left to live the set is refreshed, and the old refresh token is kept.
refreshes :
    bearer_token resolver "claude" 40 aging
    ≡ (ok (some "v2"), record aging { access_token = "v2"; expires_at = 90 })
unfolding bearer_token refresh_token_set store_refreshed keep_missing is_fresh lookup
refreshes = refl

bearer_token_ok_example :
    (repository : TokenRepository TokenSet ℕ) × (old : TokenSet) × (some one_set ≡ some repository)
    × (repository.get "claude" aging ≡ found old)
    × ((old.access_token == "") ≡ false)
    × (((is_fresh 40 10 old ≡ true) × (old.access_token ≡ "v2"))
        ⊎ ((is_fresh 40 10 old ≡ false) × IsRefreshed resolver repository "claude" old aging "v2"))
bearer_token_ok_example =
    bearer_token_ok resolver "claude" 40 aging "v2" (ap (λ out. out.0) refreshes)
