-- ===== src/Security/Auth.antt =====
-- `AuthService` of apps/server/src/security/auth-service.ts and the table of
-- apps/server/src/db/repos/auth-sessions.ts. A time is the milliseconds of its ISO text; the random id and
-- token of a new session come with the request. `mac` is the HMAC under the configured secret.
pub mod Service
pub mod Trust
pub mod Logins
mod Examples
use uber_coder.Prelude.{
  ℕ, ◌+◌, Bool, true, false, not, ◌&&◌, ◌||◌, Option, none, some, List, [], ◌∷◌, ◌++◌, Text, String,
  str_eq, ltb, leb, if◌then◌else◌, same_text, is_empty, filter, lookup_key, remove_key,
}
use uber_coder.Security.Cookies.{seal_cookie_value, unseal_cookie_value}

pub data Via : Type 0 where
  password tailscale : Via

pub record AuthSessionRow : Type 0 where
  pub id : Text
  pub user_login : Option Text
  pub display_name : Option Text
  pub via : Via
  pub csrf_token : Text
  pub expires_at : ℕ
  pub created_at : ℕ
  pub last_seen_at : ℕ

-- The rows under their ids.
abbrev pub AuthSessions : Type 0
AuthSessions = List (Text × AuthSessionRow)

abbrev keep_created : Option AuthSessionRow → AuthSessionRow → AuthSessionRow
keep_created none row = row
keep_created (some old) row = record row { created_at = old.created_at }

-- `upsert`
unfoldable pub upsert : AuthSessionRow → AuthSessions → AuthSessions
upsert row rows = remove_key row.id rows ++ (row.id, keep_created (lookup_key row.id rows) row) ∷ []

-- `deleteExpired`
unfoldable pub delete_expired : ℕ → AuthSessions → AuthSessions
delete_expired now rows = filter (λ x. ltb now x.1.expires_at) rows

pub record Config : Type 0 where
  pub trust_tailscale_headers : Bool
  pub tailscale_allowed_user_login : Option Text
  pub session_ttl_ms : ℕ

-- Of a request what the service reads. A header that is no text is `none`.
pub record Request : Type 0 where
  pub cookie : Option Text
  pub csrf_header : Option Text
  pub login_header : Option Text
  pub name_header : Option Text
  pub remote_address : Option String
  -- Whether the method is none of GET, HEAD and OPTIONS.
  pub changes_state : Bool

-- `generateSessionId` and `generateCsrfToken`
pub record Random : Type 0 where
  pub session_id : Text
  pub csrf_token : Text

-- `isLoopbackAddress`
unfoldable pub is_loopback_address : Option String → Bool
is_loopback_address none = false
is_loopback_address (some a) = str_eq a "127.0.0.1" || str_eq a "::1" || str_eq a "::ffff:127.0.0.1"

-- `canTrustTailscaleHeaders`
unfoldable pub can_trust_tailscale_headers : Config → Option String → Bool
can_trust_tailscale_headers config address =
    config.trust_tailscale_headers && is_loopback_address address

-- The configured login, which a missing or empty one does not restrict.
unfoldable pub is_allowed_login : Option Text → Text → Bool
is_allowed_login none login = true
is_allowed_login (some allowed) login = is_empty allowed || same_text login allowed

-- The login that a header tells, if it is trusted and allowed.
unfoldable pub allowed_login : Config → Option String → Option Text → Option Text
allowed_login config address none = none
allowed_login config address (some login) =
    if can_trust_tailscale_headers config address
      && not (is_empty login)
      && is_allowed_login config.tailscale_allowed_user_login login
    then some login
    else none

-- `createSession`
unfoldable pub create_session :
    Config
    → ℕ
    → Random
    → Via
    → Option Text
    → Option Text
    → AuthSessions
    → AuthSessions × AuthSessionRow
create_session config now random via login name rows =
    let row : AuthSessionRow = record {
      id = random.session_id;
      user_login = login;
      display_name = name;
      via = via;
      csrf_token = random.csrf_token;
      expires_at = now + config.session_ttl_ms;
      created_at = now;
      last_seen_at = now;
    } in
    (upsert row (delete_expired now rows), row)

unfoldable pub touch :
    ℕ → Option AuthSessionRow → AuthSessions → AuthSessions × Option AuthSessionRow
touch now none rows = (rows, none)
touch now (some row) rows =
    if leb row.expires_at now
    then (remove_key row.id rows, none)
    else (upsert (record row { last_seen_at = now }) rows, some (record row { last_seen_at = now }))

abbrev pub find_row : Option Text → AuthSessions → Option AuthSessionRow
find_row none rows = none
find_row (some id) rows = lookup_key id rows
