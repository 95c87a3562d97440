-- ===== src/Token/Verification/Separation.antt =====
-- Which of the checks of src/modules/auth/services/token.service.ts accepts the token of which
-- generator.
use lit_server_nest.Prelude.{
  ℕ, ◌+◌, ◌<◌, ◌≡◌, refl, ◌≢◌, true, false, ◌&&◌, some, String, ◌==◌, ltb, Result, ok, err,
  and_then, token_invalid, arith, eq_iff, eq_refl, Bool-cases, inl, inr, if◌then◌else◌,
}
use lit_server_nest.Token.{
  Payload, Jwt, Config, SecretKey, jwt_access_token_secret, jwt_refresh_token_secret,
  jwt_admin_access_token_secret, jwt_admin_refresh_token_secret, generate_access_token,
  generate_refresh_token, generate_staff_access_token, generate_staff_refresh_token,
  generate_customer_access_token, generate_customer_refresh_token, generate_admin_access_token,
  generate_admin_refresh_token,
}
use lit_server_nest.Token.Durations.{to_seconds}
use lit_server_nest.Token.Verification.{
  is_missing, check_access, check_customer_access, check_refresh, check_customer_refresh,
  check_admin_access, check_admin_refresh, verify, verify_access_token,
  verify_customer_access_token, verify_refresh_token, verify_customer_refresh_token,
  verify_admin_access_token, verify_admin_refresh_token,
}
use lit_server_nest.Token.Verification.Kinds.{
  Kind, Verifier, Subject, IsNamed, IsDistinct, claims, signed_by, opened_by, same, accepts, checks,
  refusal, owner_access, owner_refresh, staff_access, staff_refresh, customer_access,
  customer_refresh, admin_access, admin_refresh, store_access, store_refresh, by_customer,
  by_customer_refresh, by_admin, by_admin_refresh,
}

accepts-same :
    (v : Verifier) (k : Kind) → same (signed_by k) (opened_by v) ≡ false → accepts v k ≡ false
accepts-same store_access owner_access e = cc e
accepts-same store_refresh owner_access e = cc e
accepts-same by_customer owner_access e = cc e
accepts-same by_customer_refresh owner_access e = cc e
accepts-same by_admin owner_access e = cc e
accepts-same by_admin_refresh owner_access e = cc e
accepts-same v k e = cc e

same-eq : (a b : SecretKey) → same a b ≡ true → a ≡ b
same-eq jwt_access_token_secret jwt_access_token_secret e = refl
same-eq jwt_refresh_token_secret jwt_refresh_token_secret e = refl
same-eq jwt_admin_access_token_secret jwt_admin_access_token_secret e = refl
same-eq jwt_admin_refresh_token_secret jwt_admin_refresh_token_secret e = refl
same-eq a b e = cc e

same_refl : (a : SecretKey) → same a a ≡ true
same_refl jwt_access_token_secret = refl
same_refl a = refl

secret-same :
    (config : Config)
    → IsDistinct config
    → (a b : SecretKey) → (config.secret a == config.secret b) ≡ same a b
secret-same config distinct a b = elim (Bool-cases (same a b)) [
  | inl e ↦ rw (same-eq a b e, same_refl b) (eq_refl (config.secret b))
  | inr e ↦ ground (arith, eq_iff (config.secret a) (config.secret b), distinct a b, same_refl a, e)
]

is_missing-false : (a : String) → a ≢ "" → is_missing (some a) ≡ false
unfolding is_missing
is_missing-false a h = ground (arith, eq_iff a "")

checks-claims :
    (v : Verifier) (k : Kind) (s : Subject)
    → IsNamed s
    → same (signed_by k) (opened_by v) ≡ true
    → checks v (claims k s) ≡ (if accepts v k then ok (claims k s) else err (refusal v))
unfolding check_access check_customer_access check_refresh check_customer_refresh check_admin_access
    check_admin_refresh
checks-claims store_access owner_access s h e = rw (is_missing-false s.store_id h.store) refl
checks-claims v k s h e = ground (
  arith,
  is_missing-false s.store_id h.store,
  is_missing-false s.staff_id h.staff,
  is_missing-false s.customer_id h.customer,
  is_missing-false s.admin_id h.admin,
)

module _ (jwt : Jwt) (config : Config) where
  -- The generators, the lifetimes they give, and the checks, each under one name.
  abbrev pub issue : Kind → ℕ → Subject → jwt.Token
  issue owner_access at s = generate_access_token jwt config at s.store_id s.email
  issue owner_refresh at s = generate_refresh_token jwt config at s.store_id s.email
  issue staff_access at s = generate_staff_access_token jwt config at s.store_id s.staff_id
  issue staff_refresh at s = generate_staff_refresh_token jwt config at s.store_id s.staff_id
  issue customer_access at s = generate_customer_access_token jwt config at s.customer_id s.provider
  issue customer_refresh at s =
      generate_customer_refresh_token jwt config at s.customer_id s.provider
  issue admin_access at s = generate_admin_access_token jwt config at s.admin_id s.email
  issue admin_refresh at s = generate_admin_refresh_token jwt config at s.admin_id s.email

  abbrev pub lifetime : Kind → ℕ
  lifetime owner_access = to_seconds config.jwt_access_token_expires_in
  lifetime staff_access = to_seconds config.jwt_access_token_expires_in
  lifetime customer_access = to_seconds config.jwt_access_token_expires_in
  lifetime admin_access = to_seconds config.jwt_access_token_expires_in
  lifetime owner_refresh = to_seconds config.store_refresh_token_expires_in
  lifetime staff_refresh = to_seconds config.store_refresh_token_expires_in
  lifetime customer_refresh = to_seconds config.jwt_refresh_token_expires_in
  lifetime admin_refresh = to_seconds config.jwt_refresh_token_expires_in

  abbrev pub verify_as : Verifier → ℕ → jwt.Token → Result Payload
  verify_as store_access = verify_access_token jwt config
  verify_as store_refresh = verify_refresh_token jwt config
  verify_as by_customer = verify_customer_access_token jwt config
  verify_as by_customer_refresh = verify_customer_refresh_token jwt config
  verify_as by_admin = verify_admin_access_token jwt config
  verify_as by_admin_refresh = verify_admin_refresh_token jwt config

  issue-sign :
      (k : Kind) (at : ℕ) (s : Subject)
      → issue k at s ≡ jwt.sign (config.secret (signed_by k)) at (lifetime k) (claims k s)
  unfolding generate_access_token generate_refresh_token generate_staff_access_token
      generate_staff_refresh_token generate_customer_access_token generate_customer_refresh_token
      generate_admin_access_token generate_admin_refresh_token
  issue-sign owner_access at s = refl
  issue-sign k at s = refl

  verify_as-checks :
      (v : Verifier) (now : ℕ) (token : jwt.Token)
      → verify_as v now token ≡ and_then (verify jwt config now token (opened_by v)) (checks v)
  unfolding verify_access_token verify_customer_access_token verify_refresh_token
      verify_customer_refresh_token verify_admin_access_token verify_admin_refresh_token
  verify_as-checks store_access now token = refl
  verify_as-checks v now token = refl

  verify-issue :
      IsDistinct config
      → (v : Verifier) (k : Kind) (at now : ℕ) (s : Subject)
      → verify jwt config now (issue k at s) (opened_by v) ≡ (
          if same (signed_by k) (opened_by v) && ltb now (at + lifetime k)
          then ok (claims k s)
          else err token_invalid)
  unfolding verify
  verify-issue distinct v k at now s =
      rw
        (
          issue-sign k at s,
          verify,
          jwt.verify-sign (config.secret (opened_by v)) (config.secret (signed_by k)) at
              (lifetime k) now (claims k s),
          secret-same config distinct (signed_by k) (opened_by v),
        )
        (elim (Bool-cases (same (signed_by k) (opened_by v) && ltb now (at + lifetime k))) [
          | inl e ↦ rw e refl
          | inr e ↦ rw e refl
        ])

  -- Where the four secrets of the environment differ from each other and the ids of the subject are not
  -- empty: while a token lives, a check accepts it exactly when the table says so, and then gives back
  -- the claims that it was issued with. Otherwise the check throws, with its own error where the secret is
  -- shared and `TOKEN_INVALID` where it is not.
  pub verify_as-issue :
      IsDistinct config
      → (v : Verifier) (k : Kind) (at now : ℕ) (s : Subject) → IsNamed s
      → now < at + lifetime k
      → verify_as v now (issue k at s) ≡ (
          if accepts v k
          then ok (claims k s)
          else err (if same (signed_by k) (opened_by v) then refusal v else token_invalid))
  verify_as-issue distinct v k at now s named live =
      let alive : ltb now (at + lifetime k) ≡ true = ground arith in
      rw (verify_as-checks v now (issue k at s), verify-issue distinct v k at now s, alive)
        (elim (Bool-cases (same (signed_by k) (opened_by v))) [
          | inl e ↦ rw e (checks-claims v k s named e)
          | inr e ↦ rw (e, accepts-same v k e) refl
        ])
