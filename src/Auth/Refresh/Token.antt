-- ===== src/Auth/Refresh/Token.antt =====
-- `_build_refresh_token` and `_split_refresh_token` of services/auth/app/api/v1/auth.py.
use theft_detection_platform.Prelude.{
  ◌≡◌, ◌≢◌, refl, true, some, [], ◌∷◌, ◌++◌, arith, all, not, ◌==◌,
}
use theft_detection_platform.Auth.Records.{Text}
use theft_detection_platform.Auth.Refresh.{dot, build_refresh_token, split_dot, split_refresh_token}

split_dot-append :
    (jti secret : Text)
    → all (λ c. not (c == dot)) jti ≡ true
    → split_dot (jti ++ (dot ∷ secret)) ≡ some (jti, secret)
unfolding split_dot
split_dot-append [] secret plain = refl
split_dot-append (c ∷ rest) secret plain = ground (arith, split_dot-append rest secret)

-- A refresh token is read back as the name and the secret that it was built from, if neither is
-- empty and the name has no dot.
pub split_refresh_token-build_refresh_token :
    (jti secret : Text)
    → all (λ c. not (c == dot)) jti ≡ true
    → jti ≢ []
    → secret ≢ []
    → split_refresh_token (build_refresh_token jti secret) ≡ some (jti, secret)
unfolding build_refresh_token split_refresh_token
split_refresh_token-build_refresh_token [] secret plain named known = absurd (named refl)
split_refresh_token-build_refresh_token (c ∷ jti) [] plain named known = absurd (known refl)
split_refresh_token-build_refresh_token (c ∷ jti) (d ∷ secret) plain named known =
    ground (arith, split_dot-append (c ∷ jti) (d ∷ secret) plain)
