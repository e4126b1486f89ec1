-- ===== src/Security/Auth/Service.antt =====
-- The methods of `AuthService` of apps/server/src/security/auth-service.ts.
use uber_coder.Prelude.{
  ℕ, Bool, true, false, ◌||◌, Option, none, some, Text, ltb, if◌then◌else◌, same_text, remove_key,
}
use uber_coder.Security.Cookies.{seal_cookie_value, unseal_cookie_value}
use uber_coder.Security.Auth.{
  password, tailscale, AuthSessionRow, AuthSessions, delete_expired, Config, Request, Random,
  allowed_login, create_session, touch, find_row,
}

pub data AuthResult : Type 0 where
  unauthenticated invalid_csrf_token : AuthResult
  authenticated : AuthSessionRow → AuthResult

-- The check of the token.
unfoldable pub check_csrf : Bool → Option Text → AuthSessionRow → AuthResult
check_csrf false header row = authenticated row
check_csrf true none row = invalid_csrf_token
check_csrf true (some token) row =
    if same_text token row.csrf_token then authenticated row else invalid_csrf_token

unfoldable pub check_request : Request → Option AuthSessionRow → AuthResult
check_request request none = unauthenticated
check_request request (some row) = check_csrf request.changes_state request.csrf_header row

module _ (mac : Text → Text) (config : Config) where
  -- `getSessionFromCookie`
  unfoldable pub get_session_from_cookie :
      ℕ → Option Text → AuthSessions → AuthSessions × Option AuthSessionRow
  get_session_from_cookie now cookie rows =
      let kept = delete_expired now rows in
      touch now (find_row (unseal_cookie_value mac cookie) kept) kept

  unfoldable pub bootstrap :
      ℕ → Random → Request → Option Text → AuthSessions → AuthSessions × Option AuthSessionRow
  bootstrap now random request none rows = (rows, none)
  bootstrap now random request (some login) rows =
      let created =
        create_session config now random tailscale (some login) request.name_header rows in
      (created.0, some created.1)

  unfoldable pub or_bootstrap :
      ℕ
      → Random
      → Request
      → AuthSessions × Option AuthSessionRow
      → AuthSessions × Option AuthSessionRow
  or_bootstrap now random request (rows, some row) = (rows, some row)
  or_bootstrap now random request (rows, none) =
      bootstrap now random request
        (allowed_login config request.remote_address request.login_header) rows

  -- `getOrBootstrapSession`
  unfoldable pub get_or_bootstrap_session :
      ℕ → Random → Request → AuthSessions → AuthSessions × Option AuthSessionRow
  get_or_bootstrap_session now random request rows =
      or_bootstrap now random request (get_session_from_cookie now request.cookie rows)

  -- `ensureAuthenticated`, with the default for the token's check.
  unfoldable pub ensure_authenticated :
      ℕ → Random → Request → AuthSessions → AuthSessions × AuthResult
  ensure_authenticated now random request rows =
      let found = get_or_bootstrap_session now random request rows in
      (found.0, check_request request found.1)

  -- `loginWithPassword`, with the cookie that it sets.
  unfoldable pub login_with_password : ℕ → Random → AuthSessions → AuthSessions × Text
  login_with_password now random rows =
      let created = create_session config now random password none none rows in
      (created.0, seal_cookie_value mac created.1.id)

  unfoldable pub forget : Option Text → AuthSessions → AuthSessions
  forget none rows = rows
  forget (some id) rows = remove_key id rows

  -- `logout`
  unfoldable pub logout : Option Text → AuthSessions → AuthSessions
  logout cookie rows = forget (unseal_cookie_value mac cookie) rows

  abbrev is_live : ℕ → Option AuthSessionRow → Bool
  is_live now none = false
  is_live now (some row) = ltb now row.expires_at

  abbrev is_given : Option Text → Bool
  is_given none = false
  is_given (some t) = true

  -- `authenticateRawHeaders`, for the cookie that the header names.
  unfoldable pub authenticate_raw_headers : ℕ → Request → AuthSessions → Bool
  authenticate_raw_headers now request rows =
      is_live now (find_row (unseal_cookie_value mac request.cookie) rows)
      || is_given (allowed_login config request.remote_address request.login_header)
