-- ===== src/Security/Cookies/Examples.antt =====
-- The theorem on cookies, applied to one.
use uber_coder.Prelude.{◌≡◌, refl, ◌↔◌, some, [], ◌∷◌, Text, is_empty, false}
use uber_coder.Security.Cookies.{seal_cookie_value, unseal_cookie_value, unseal_cookie_value_iff}

abbrev stamp : Text → Text
stamp t = 90 ∷ 91 ∷ []

abbrev sealed : Text
sealed = 7 ∷ 46 ∷ 90 ∷ 91 ∷ []

abbrev seven : Text
seven = 7 ∷ []

unseal_cookie_value_iff_example :
    (unseal_cookie_value stamp (some (7 ∷ 46 ∷ 90 ∷ 91 ∷ [])) ≡ some (7 ∷ []))
    ↔ ((sealed ≡ seal_cookie_value stamp (7 ∷ [])) × (is_empty seven ≡ false))
unseal_cookie_value_iff_example =
    unseal_cookie_value_iff stamp (λ t. refl) (7 ∷ 46 ∷ 90 ∷ 91 ∷ []) (7 ∷ [])
