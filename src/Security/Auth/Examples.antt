-- ===== src/Security/Auth/Examples.antt =====
-- The theorems on sessions, applied to a login and to a request behind it.
use uber_coder.Prelude.{◌≡◌, refl, ◌⊎◌, true, none, some, [], ◌∷◌, Text, arith}
use uber_coder.Security.Cookies.{
  unseal_cookie_value, split_last, check_signature, seal_cookie_value,
}
use uber_coder.Security.Auth.{
  AuthSessionRow, Config, Request, Random, delete_expired, touch, create_session,
}
use uber_coder.Security.Auth.Service.{
  authenticated, invalid_csrf_token, check_csrf, ensure_authenticated, get_or_bootstrap_session,
  get_session_from_cookie, or_bootstrap, check_request, login_with_password, logout,
}
use uber_coder.Security.Auth.Trust.{HasSession, HasLogin, ensure_authenticated-HasTrust}
use uber_coder.Security.Auth.Logins.{login_row, login_then_logout}

abbrev stamp : Text → Text
stamp t = 90 ∷ []

abbrev config : Config
config = record {
  trust_tailscale_headers = true;
  tailscale_allowed_user_login = none;
  session_ttl_ms = 1000;
}

abbrev drawn : Random
drawn = record { session_id = 7 ∷ []; csrf_token = 8 ∷ [] }

abbrev row : AuthSessionRow
row = login_row config 100 drawn

abbrev post : Request
post = record {
  cookie = some (7 ∷ 46 ∷ 90 ∷ []);
  csrf_header = some (8 ∷ []);
  login_header = none;
  name_header = none;
  remote_address = none;
  changes_state = true;
}

posted :
    (ensure_authenticated stamp config 500 drawn post ((7 ∷ [], row) ∷ [])).1
    ≡ authenticated (record row { last_seen_at = 500 })
unfolding ensure_authenticated get_or_bootstrap_session get_session_from_cookie delete_expired touch
    or_bootstrap check_request check_csrf unseal_cookie_value split_last check_signature
posted = refl

ensure_authenticated-HasTrust_example :
    (HasSession stamp 500 post ((7 ∷ [], row) ∷ []) (record row { last_seen_at = 500 })
      ⊎ HasLogin config post (record row { last_seen_at = 500 }))
    × (true ≡ true → post.csrf_header ≡ some row.csrf_token)
ensure_authenticated-HasTrust_example =
    ensure_authenticated-HasTrust stamp config 500 drawn post ((7 ∷ [], row) ∷ [])
      (record row { last_seen_at = 500 }) posted

login_cookie : some (7 ∷ 46 ∷ 90 ∷ []) ≡ some (login_with_password stamp config 100 drawn []).1
unfolding login_with_password seal_cookie_value create_session
login_cookie = refl

login_then_logout_example :
    ((ensure_authenticated stamp config 500 drawn post
        (login_with_password stamp config 100 drawn []).0).1
      ≡ authenticated (record row { last_seen_at = 500 }))
    × ((ensure_authenticated stamp config 500 drawn
          (record post { csrf_header = none })
          (login_with_password stamp config 100 drawn []).0).1
        ≡ invalid_csrf_token)
    × ((get_session_from_cookie stamp config 500 (some (7 ∷ 46 ∷ 90 ∷ [])) (
          logout stamp config
            (some (7 ∷ 46 ∷ 90 ∷ []))
            (login_with_password stamp config 100 drawn []).0)).1
        ≡ none)
login_then_logout_example =
    login_then_logout stamp config 100 500 drawn drawn post none [] (λ t. refl) refl refl
      (omega arith) login_cookie (λ h. refl) (λ h. cc)
