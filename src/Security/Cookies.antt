-- ===== src/Security/Cookies.antt =====
-- The sealed cookie of apps/server/src/security/password.ts. `mac` is the HMAC of a text under a secret,
-- in base64url, which has no dot.
mod Examples
use uber_coder.Prelude.{
  ℕ, ◌≡◌, refl, sym, ◌∙◌, ap, Bool, true, false, Option, none, some, List, [], ◌∷◌, ◌++◌, Text,
  ◌==◌, ==_iff, if◌then◌else◌, same_text, same_text_refl, same_text_eq, any, is_empty, arith,
  Bool-cases, Option-cases, inl, inr, ◌↔◌, ◌≢◌,
}

-- `.`
abbrev pub dot : ℕ
dot = 46

abbrev pub has_dot : Text → Bool
has_dot t = any (λ x. x == dot) t

-- `sealCookieValue`
unfoldable pub seal_cookie_value : (Text → Text) → Text → Text
seal_cookie_value mac id = id ++ dot ∷ mac id

abbrev extend : ℕ → Option (Text × Text) → Option (Text × Text)
extend x none = none
extend x (some (before, after)) = some (x ∷ before, after)

-- The parts before and after the last dot.
unfoldable pub split_last : Text → Option (Text × Text)
split_last [] = none
split_last (x ∷ t) =
    let rest = split_last t in
    if has_dot t then extend x rest else if x == dot then some ([], t) else none

unfoldable pub check_signature : (Text → Text) → Option (Text × Text) → Option Text
check_signature mac none = none
check_signature mac (some (id, signature)) =
    if is_empty id then none else if same_text signature (mac id) then some id else none

-- `unsealCookieValue`
unfoldable pub unseal_cookie_value : (Text → Text) → Option Text → Option Text
unseal_cookie_value mac none = none
unseal_cookie_value mac (some value) = check_signature mac (split_last value)

has_dot-append : (id t : Text) → has_dot (id ++ dot ∷ t) ≡ true
has_dot-append [] t = refl
has_dot-append (x ∷ id) t = ground (arith, has_dot-append id t)

split_last-append : (id t : Text) → has_dot t ≡ false → split_last (id ++ dot ∷ t) ≡ some (id, t)
unfolding split_last
split_last-append [] t h = rw h refl
split_last-append (x ∷ id) t h = rw (has_dot-append id t, split_last-append id t h) refl

extend_join :
    (x : ℕ) (o : Option (Text × Text)) (v id t : Text)
    → ((before after : Text) → o ≡ some (before, after) → v ≡ before ++ dot ∷ after)
    → extend x o ≡ some (id, t)
    → x ∷ v ≡ id ++ dot ∷ t
extend_join x none v id t f h = cc
extend_join x (some (before, after)) v id t f h =
    ap (λ w. x ∷ w) (f before after refl) ∙ ap (λ o. joined o) h
  where
    joined : Option (Text × Text) → Text
    joined none = []
    joined (some (before, after)) = before ++ dot ∷ after

split_last_join : (v id t : Text) → split_last v ≡ some (id, t) → v ≡ id ++ dot ∷ t
unfolding split_last
split_last_join [] id t h = cc
split_last_join (x ∷ v) id t h = elim (Bool-cases (has_dot v)) [
  | inl e ↦ extend_join x (split_last v) v id t (split_last_join v) (ground (arith, e, h))
  | inr e ↦ ground (arith, e, h)
]

check_signature_of :
    (mac : Text → Text) (a b id : Text)
    → check_signature mac (some (a, b)) ≡ some id
    → (a ≡ id) × (b ≡ mac a) × (is_empty a ≡ false)
unfolding check_signature
check_signature_of mac a b id h = elim (Bool-cases (same_text b (mac a))) [
  | inl s ↦ (ground (arith, h, s), same_text_eq b (mac a) s, ground (arith, h, s))
  | inr s ↦ ground (arith, h, s)
]

check_signature_join :
    (mac : Text → Text) (o : Option (Text × Text)) (v id : Text)
    → ((before after : Text) → o ≡ some (before, after) → v ≡ before ++ dot ∷ after)
    → check_signature mac o ≡ some id
    → (v ≡ seal_cookie_value mac id) × (is_empty id ≡ false)
unfolding check_signature seal_cookie_value
check_signature_join mac none v id f h = cc
check_signature_join mac (some (a, b)) v id f h =
    let (same, signed, filled) = check_signature_of mac a b id h in
    (
      f a b refl ∙ ap (λ t. a ++ dot ∷ t) signed ∙ ap (λ t. t ++ dot ∷ mac t) same,
      ap is_empty (sym same) ∙ filled,
    )

-- A cookie gives an id exactly when it is the sealed text of that id, which is not empty; so the sealed
-- cookie gives the id back, and no other text does.
pub unseal_cookie_value_iff :
    (mac : Text → Text)
    → ((t : Text) → has_dot (mac t) ≡ false)
    → (v id : Text)
    → (unseal_cookie_value mac (some v) ≡ some id)
      ↔ ((v ≡ seal_cookie_value mac id) × (is_empty id ≡ false))
unfolding unseal_cookie_value seal_cookie_value check_signature
unseal_cookie_value_iff mac dotless v id = (
  λ h. check_signature_join mac (split_last v) v id (λ a b. split_last_join v a b) h,
  λ h. rw (h.0, split_last-append id (mac id) (dotless id), h.1, same_text_refl (mac id)) refl,
)
