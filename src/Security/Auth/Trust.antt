-- ===== src/Security/Auth/Trust.antt =====
-- Whom the server takes a request from.
use uber_coder.Prelude.{
  ℕ, ◌<◌, ◌≡◌, refl, sym, subst, ◌∙◌, ap, Bool, true, false, ◌⊎◌, inl, inr, Option, none, some, [],
  ◌∷◌, Text, String, ltb, ltb→lt, same_text, same_text_eq, filter, lookup_key, Bool-cases, arith,
}
use mathlib.Core.List.{Mem, mem-cons_self, mem-cons_of_mem}
use uber_coder.Security.Cookies.{unseal_cookie_value}
use uber_coder.Security.Auth.{
  AuthSessionRow, AuthSessions, Config, Request, Random, tailscale, delete_expired,
  can_trust_tailscale_headers, is_allowed_login, allowed_login, create_session, touch, find_row,
}
use uber_coder.Security.Auth.Service.{
  authenticated, check_csrf, check_request, get_session_from_cookie, bootstrap, or_bootstrap,
  get_or_bootstrap_session, ensure_authenticated,
}

-- A row that is found among the rows that a test keeps is one of them and passes the test.
lookup_key-filter :
    (p : Text × AuthSessionRow → Bool) (k : Text) (row : AuthSessionRow) (rows : AuthSessions)
    → lookup_key k (filter p rows) ≡ some row
    → Mem (k, row) rows × (p (k, row) ≡ true)
lookup_key-filter p k row [] h = cc
lookup_key-filter p k row ((j, other) ∷ rows) h = elim (Bool-cases (p (j, other))) [
  | inl q ↦ elim (Bool-cases (same_text j k)) [
    | inl s ↦
        let same : other ≡ row = (ground (arith, h, q, s)) in
        let entry : (j, other) ≡ (k, row) =
          (ap (λ i. (i, other)) (same_text_eq j k s) ∙ ap (λ r. (k, r)) same) in
        (subst (λ e. Mem e ((j, other) ∷ rows)) entry mem-cons_self, ap p (sym entry) ∙ q)
    | inr s ↦
        let found = lookup_key-filter p k row rows (ground (arith, h, q, s)) in
        (mem-cons_of_mem (j, other) found.0, found.1)
  ]
  | inr q ↦
      let found = lookup_key-filter p k row rows (ground (arith, h, q)) in
      (mem-cons_of_mem (j, other) found.0, found.1)
]

-- A stored session that has not expired, under the id that the cookie was sealed with.
abbrev pub HasSession : (Text → Text) → ℕ → Request → AuthSessions → AuthSessionRow → Type 0
HasSession mac now request rows row =
    (id : Text) × (old : AuthSessionRow) × (unseal_cookie_value mac request.cookie ≡ some id)
    × Mem (id, old) rows
    × (now < old.expires_at)
    × (row ≡ record old { last_seen_at = now })

-- A login that the proxy on this machine tells, where the configuration trusts it and allows the login.
abbrev pub HasLogin : Config → Request → AuthSessionRow → Type 0
HasLogin config request row =
    (login : Text) × (request.login_header ≡ some login)
    × (can_trust_tailscale_headers config request.remote_address ≡ true)
    × (is_allowed_login config.tailscale_allowed_user_login login ≡ true)
    × (row.user_login ≡ some login)
    × (row.via ≡ tailscale)

touched_row :
    (now : ℕ) (o : Option AuthSessionRow) (rows : AuthSessions) (row : AuthSessionRow)
    → (touch now o rows).1 ≡ some row
    → (old : AuthSessionRow) × (o ≡ some old) × (row ≡ record old { last_seen_at = now })
unfolding touch
touched_row now none rows row h = cc
touched_row now (some old) rows row h = (old, refl, ground (arith, h))

found_row :
    (o : Option Text) (old : AuthSessionRow) (rows : AuthSessions)
    → find_row o rows ≡ some old
    → (id : Text) × (o ≡ some id) × (lookup_key id rows ≡ some old)
found_row none old rows h = cc
found_row (some id) old rows h = (id, refl, h)

bootstrap_of :
    (mac : Text → Text) (config : Config) (now : ℕ) (random : Random) (request : Request)
    (o : Option Text) (rows : AuthSessions) (row : AuthSessionRow)
    → (bootstrap mac config now random request o rows).1 ≡ some row
    → (login : Text) × (o ≡ some login) × (row.user_login ≡ some login) × (row.via ≡ tailscale)
unfolding bootstrap create_session
bootstrap_of mac config now random request none rows row h = cc
bootstrap_of mac config now random request (some login) rows row h =
    (login, refl, ground (arith, h), ground (arith, h))

allowed_of :
    (config : Config) (address : Option String) (header : Option Text) (login : Text)
    → allowed_login config address header ≡ some login
    → (header ≡ some login)
      × (can_trust_tailscale_headers config address ≡ true)
      × (is_allowed_login config.tailscale_allowed_user_login login ≡ true)
unfolding allowed_login
allowed_of config address none login h = cc
allowed_of config address (some given) login h = ground (arith, h)

session_row :
    (mac : Text → Text) (config : Config) (now : ℕ) (request : Request) (rows : AuthSessions)
    (row : AuthSessionRow)
    → (get_session_from_cookie mac config now request.cookie rows).1 ≡ some row
    → HasSession mac now request rows row
unfolding get_session_from_cookie delete_expired
session_row mac config now request rows row h =
    let kept = delete_expired now rows in
    let cookie = unseal_cookie_value mac request.cookie in
    let (old, found, same) = touched_row now (find_row cookie kept) kept row h in
    let (id, unsealed, stored) = found_row cookie old kept found in
    let (member, live) = lookup_key-filter (λ x. ltb now x.1.expires_at) id old rows stored in
    (id, old, unsealed, member, ltb→lt now old.expires_at live, same)

or_bootstrap_of :
    (mac : Text → Text) (config : Config) (now : ℕ) (random : Random) (request : Request)
    (s : AuthSessions × Option AuthSessionRow) (row : AuthSessionRow)
    → (or_bootstrap mac config now random request s).1 ≡ some row
    → (s.1 ≡ some row) ⊎ HasLogin config request row
unfolding or_bootstrap
or_bootstrap_of mac config now random request (rows, some r) row h = inl h
or_bootstrap_of mac config now random request (rows, none) row h =
    let header = allowed_login config request.remote_address request.login_header in
    let (login, allowed, user, via) =
      bootstrap_of mac config now random request header rows row h in
    let (given, trusted, listed) =
      allowed_of config request.remote_address request.login_header login allowed in
    inr (login, given, trusted, listed, user, via)

csrf_of :
    (required : Bool) (header : Option Text) (r row : AuthSessionRow)
    → check_csrf required header r ≡ authenticated row
    → (r ≡ row) × (required ≡ true → header ≡ some row.csrf_token)
unfolding check_csrf
csrf_of false header r row h = (ground (arith, h), λ q. cc)
csrf_of true none r row h = cc
csrf_of true (some token) r row h = elim (Bool-cases (same_text token r.csrf_token)) [
  | inl s ↦
      let same : r ≡ row = (ground (arith, h, s)) in
      (same, λ q. ap some (same_text_eq token r.csrf_token s) ∙ ap (λ x. some x.csrf_token) same)
  | inr s ↦ ground (arith, h, s)
]

authenticated_row :
    (request : Request) (o : Option AuthSessionRow) (row : AuthSessionRow)
    → check_request request o ≡ authenticated row
    → (o ≡ some row) × (request.changes_state ≡ true → request.csrf_header ≡ some row.csrf_token)
unfolding check_request
authenticated_row request none row h = cc
authenticated_row request (some r) row h =
    let (same, token) = csrf_of request.changes_state request.csrf_header r row h in
    (ap some same, token)

-- A request is taken only with a stored session that has not expired, under an id that its cookie was
-- sealed with, or with an allowed login of the trusted proxy on this machine; and a request that changes
-- state only with the token of that session.
pub ensure_authenticated-HasTrust :
    (mac : Text → Text) (config : Config) (now : ℕ) (random : Random) (request : Request)
    (rows : AuthSessions) (row : AuthSessionRow)
    → (ensure_authenticated mac config now random request rows).1 ≡ authenticated row
    → (HasSession mac now request rows row ⊎ HasLogin config request row)
      × (request.changes_state ≡ true → request.csrf_header ≡ some row.csrf_token)
unfolding ensure_authenticated get_or_bootstrap_session
ensure_authenticated-HasTrust mac config now random request rows row h =
    let session = get_session_from_cookie mac config now request.cookie rows in
    let (found, token) =
      authenticated_row request (or_bootstrap mac config now random request session).1 row h in
    (trust (or_bootstrap_of mac config now random request session row found), token)
  where
    trust :
        ((get_session_from_cookie mac config now request.cookie rows).1 ≡ some row)
          ⊎ HasLogin config request row
        → HasSession mac now request rows row ⊎ HasLogin config request row
    trust (inl e) = inl (session_row mac config now request rows row e)
    trust (inr l) = inr l
