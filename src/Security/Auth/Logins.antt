-- ===== src/Security/Auth/Logins.antt =====
-- From a login to its logout.
use uber_coder.Prelude.{
  ℕ, ◌<◌, ◌+◌, ◌≡◌, refl, ◌∙◌, ap, Bool, true, false, inl, inr, Option, none, some, [], ◌∷◌, ◌++◌,
  Text, ltb, leb, lt→ltb, same_text, same_text_refl, is_empty, filter, lookup_key, remove_key,
  Bool-cases, arith, ◌≢◌, same_text_eq,
}
use uber_coder.Security.Cookies.{has_dot, unseal_cookie_value, unseal_cookie_value_iff}
use uber_coder.Security.Auth.{
  AuthSessionRow, AuthSessions, Config, Request, Random, password, delete_expired, create_session,
  upsert, touch,
}
use uber_coder.Security.Auth.Service.{
  authenticated, invalid_csrf_token, check_csrf, check_request, get_session_from_cookie,
  or_bootstrap, get_or_bootstrap_session, ensure_authenticated, login_with_password, logout, forget,
}

lookup_key-filter-none :
    (p : Text × AuthSessionRow → Bool) (k : Text) (rows : AuthSessions)
    → lookup_key k rows ≡ none
    → lookup_key k (filter p rows) ≡ none
lookup_key-filter-none p k [] h = refl
lookup_key-filter-none p k ((j, r) ∷ rows) h = ground (arith, lookup_key-filter-none p k rows)

remove_key_absent :
    (k : Text) (rows : AuthSessions) → lookup_key k rows ≡ none → remove_key k rows ≡ rows
remove_key_absent k [] h = refl
remove_key_absent k ((j, r) ∷ rows) h = elim (Bool-cases (same_text j k)) [
  | inl s ↦ ground (arith, h, s)
  | inr s ↦ rw s (ap (λ t. (j, r) ∷ t) (remove_key_absent k rows (ground (arith, h, s))))
]

lookup_key-filter-append :
    (p : Text × AuthSessionRow → Bool) (k : Text) (row : AuthSessionRow) (rows : AuthSessions)
    → lookup_key k rows ≡ none
    → p (k, row) ≡ true
    → lookup_key k (filter p (rows ++ (k, row) ∷ [])) ≡ some row
lookup_key-filter-append p k row [] h q = rw (q, same_text_refl k) refl
lookup_key-filter-append p k row ((j, r) ∷ rows) h q =
    ground (arith, lookup_key-filter-append p k row rows)

lookup_key-remove_key-append :
    (k : Text) (row : AuthSessionRow) (rows : AuthSessions)
    → lookup_key k rows ≡ none
    → lookup_key k (remove_key k (rows ++ (k, row) ∷ [])) ≡ none
lookup_key-remove_key-append k row [] h = rw (same_text_refl k) refl
lookup_key-remove_key-append k row ((j, r) ∷ rows) h =
    ground (arith, lookup_key-remove_key-append k row rows)

-- The row of a login.
abbrev pub login_row : Config → ℕ → Random → AuthSessionRow
login_row config now random = record {
  id = random.session_id;
  user_login = none;
  display_name = none;
  via = password;
  csrf_token = random.csrf_token;
  expires_at = now + config.session_ttl_ms;
  created_at = now;
  last_seen_at = now;
}

upsert_new :
    (row : AuthSessionRow) (rows : AuthSessions)
    → lookup_key row.id rows ≡ none
    → upsert row rows ≡ rows ++ (row.id, row) ∷ []
unfolding upsert
upsert_new row rows h = rw (remove_key_absent row.id rows h, h) refl

login_rows :
    (mac : Text → Text) (config : Config) (now : ℕ) (random : Random) (rows : AuthSessions)
    → lookup_key random.session_id rows ≡ none
    → (login_with_password mac config now random rows).0
      ≡ delete_expired now rows ++ (random.session_id, login_row config now random) ∷ []
unfolding login_with_password create_session delete_expired
login_rows mac config now random rows h =
    upsert_new (login_row config now random) (delete_expired now rows)
      (lookup_key-filter-none (λ x. ltb now x.1.expires_at) random.session_id rows h)

-- The sealed cookie of a login gives its id back.
login_cookie :
    (mac : Text → Text) (config : Config) (now : ℕ) (random : Random) (rows : AuthSessions)
    → ((t : Text) → has_dot (mac t) ≡ false)
    → is_empty random.session_id ≡ false
    → unseal_cookie_value mac (some (login_with_password mac config now random rows).1)
      ≡ some random.session_id
unfolding login_with_password create_session
login_cookie mac config now random rows dotless filled =
    (unseal_cookie_value_iff mac dotless _ random.session_id).1 (refl, filled)

-- The row found with a login's cookie, at a time before it expires.
login_found :
    (mac : Text → Text) (config : Config) (now later : ℕ) (random : Random) (rows : AuthSessions)
    → ((t : Text) → has_dot (mac t) ≡ false)
    → is_empty random.session_id ≡ false
    → lookup_key random.session_id rows ≡ none
    → later < now + config.session_ttl_ms
    → (get_session_from_cookie mac config later
        (some (login_with_password mac config now random rows).1)
        (login_with_password mac config now random rows).0).1
      ≡ some (record (login_row config now random) { last_seen_at = later })
unfolding get_session_from_cookie delete_expired touch
login_found mac config now later random rows dotless filled fresh early =
    let row = login_row config now random in
    let kept = delete_expired now rows in
    let found =
      lookup_key-filter-append (λ x. ltb later x.1.expires_at) random.session_id row kept
        (lookup_key-filter-none (λ x. ltb now x.1.expires_at) random.session_id rows fresh)
        (lt→ltb later row.expires_at early) in
    rw
      (
        login_cookie mac config now random rows dotless filled,
        login_rows mac config now random rows fresh,
        found,
        late,
      )
      refl
  where
    late : leb (now + config.session_ttl_ms) later ≡ false
    late = ground arith

logged_out :
    (mac : Text → Text) (config : Config) (now later : ℕ) (random : Random) (rows : AuthSessions)
    → ((t : Text) → has_dot (mac t) ≡ false)
    → is_empty random.session_id ≡ false
    → lookup_key random.session_id rows ≡ none
    → (get_session_from_cookie mac config later
        (some (login_with_password mac config now random rows).1)
        (logout mac config
          (some (login_with_password mac config now random rows).1)
          (login_with_password mac config now random rows).0)).1
      ≡ none
unfolding get_session_from_cookie delete_expired touch logout forget
logged_out mac config now later random rows dotless filled fresh =
    let row = login_row config now random in
    let id = random.session_id in
    let kept = delete_expired now rows in
    let gone =
      lookup_key-filter-none (λ x. ltb later x.1.expires_at) id
        (remove_key id (kept ++ (id, row) ∷ []))
        (lookup_key-remove_key-append id row kept
          (lookup_key-filter-none (λ x. ltb now x.1.expires_at) id rows fresh)) in
    rw
      (
        login_cookie mac config now random rows dotless filled,
        login_rows mac config now random rows fresh,
        gone,
      )
      refl

or_bootstrap_found :
    (mac : Text → Text) (config : Config) (now : ℕ) (random : Random) (request : Request)
    (s : AuthSessions × Option AuthSessionRow) (row : AuthSessionRow)
    → s.1 ≡ some row
    → (or_bootstrap mac config now random request s).1 ≡ some row
unfolding or_bootstrap
or_bootstrap_found mac config now random request (rows, some r) row h = h
or_bootstrap_found mac config now random request (rows, none) row h = cc

-- The token of the session is taken, and no other is.
check_csrf-token :
    (changes_state : Bool) (header : Option Text) (row : AuthSessionRow)
    → (changes_state ≡ true → header ≡ some row.csrf_token)
    → check_csrf changes_state header row ≡ authenticated row
unfolding check_csrf
check_csrf-token false header row h = refl
check_csrf-token true header row h = rw (h refl, same_text_refl row.csrf_token, check_csrf) refl

check_csrf-other :
    (header : Option Text) (row : AuthSessionRow)
    → header ≢ some row.csrf_token
    → check_csrf true header row ≡ invalid_csrf_token
unfolding check_csrf
check_csrf-other none row h = refl
check_csrf-other (some t) row h = elim (Bool-cases (same_text t row.csrf_token)) [
  | inl s ↦ absurd (h (ap (λ u. some u) (same_text_eq t row.csrf_token s)))
  | inr s ↦ rw s refl
]

-- A login's cookie authenticates as the login's session until that expires: for every request that has
-- the session's token or does not change state. A request with the same cookie that changes state with
-- another token or none is refused, and behind the logout with the cookie it names no session.
pub login_then_logout :
    (mac : Text → Text) (config : Config) (now later : ℕ) (random other : Random)
    (request : Request) (wrong : Option Text) (rows : AuthSessions)
    → ((t : Text) → has_dot (mac t) ≡ false)
    → is_empty random.session_id ≡ false
    → lookup_key random.session_id rows ≡ none
    → later < now + config.session_ttl_ms
    → request.cookie ≡ some (login_with_password mac config now random rows).1
    → (request.changes_state ≡ true → request.csrf_header ≡ some random.csrf_token)
    → wrong ≢ some random.csrf_token
    → ((ensure_authenticated mac config later other request
          (login_with_password mac config now random rows).0).1
        ≡ authenticated (record (login_row config now random) { last_seen_at = later }))
      × ((ensure_authenticated mac config later other
            (record request { changes_state = true; csrf_header = wrong })
            (login_with_password mac config now random rows).0).1
          ≡ invalid_csrf_token)
      × ((get_session_from_cookie mac config later request.cookie
            (logout mac config request.cookie (login_with_password mac config now random rows).0)).1
          ≡ none)
unfolding ensure_authenticated get_or_bootstrap_session check_request
login_then_logout mac config now later random other request wrong rows dotless filled fresh early e
      token no_token =
    let row : AuthSessionRow = record (login_row config now random) { last_seen_at = later } in
    let rows1 = (login_with_password mac config now random rows).0 in
    let found =
      ap (λ c. (get_session_from_cookie mac config later c rows1).1) e
      ∙ login_found mac config now later random rows dotless filled fresh early in
    let bad : Request = record request { changes_state = true; csrf_header = wrong } in
    (
      ap (check_request request) (or_bootstrap_found mac config later other request _ row found)
          ∙ check_csrf-token request.changes_state request.csrf_header row token,
      ap (check_request bad) (or_bootstrap_found mac config later other bad _ row found)
          ∙ check_csrf-other wrong row no_token,
      ap (λ c. (get_session_from_cookie mac config later c (logout mac config c rows1)).1) e
          ∙ logged_out mac config now later random rows dotless filled fresh,
    )
