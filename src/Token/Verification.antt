-- ===== src/Token/Verification.antt =====
-- The checks of incoming tokens in src/modules/auth/services/token.service.ts.
pub mod Kinds
pub mod Separation
use lit_server_nest.Prelude.{
  ℕ, Bool, true, false, not, ◌&&◌, ◌||◌, Option, none, some, String, ◌==◌, is_text, get_or, Result,
  ok, err, and_then, token_invalid, invalid_token, invalid_refresh_token, if◌then◌else◌,
}
use lit_server_nest.Token.{
  Payload, Jwt, Config, SecretKey, jwt_access_token_secret, jwt_refresh_token_secret,
  jwt_admin_access_token_secret, jwt_admin_refresh_token_secret,
}

-- `typeof id !== 'string' || id.length === 0`
unfoldable pub is_missing : Option String → Bool
is_missing none = true
is_missing (some a) = a == ""

-- The checks that follow `verify`.
unfoldable pub check_access : Payload → Result Payload
unfolding is_missing
check_access p =
    let role : String = get_or p.role "owner" in
    let is_staff_without_id : Bool = role == "staff" && is_missing p.staff_id in
    if not (is_text p.type "access")
      || is_missing p.store_id
      || not (role == "owner") && not (role == "staff")
      || is_staff_without_id
    then err token_invalid
    else ok (record p { role = some role })

unfoldable pub check_customer_access : Payload → Result Payload
unfolding is_missing
check_customer_access p =
    if not (is_text p.type "access") || not (is_text p.role "customer") || is_missing p.customer_id
    then err invalid_token
    else ok p

unfoldable pub check_refresh : Payload → Result Payload
check_refresh p = if not (is_text p.type "refresh") then err token_invalid else ok p

unfoldable pub check_customer_refresh : Payload → Result Payload
unfolding is_missing
check_customer_refresh p =
    if not (is_text p.type "refresh") || not (is_text p.role "customer") || is_missing p.customer_id
    then err invalid_refresh_token
    else ok p

unfoldable pub check_admin_access : Payload → Result Payload
unfolding is_missing
check_admin_access p =
    if not (is_text p.type "access") || not (is_text p.role "admin") || is_missing p.admin_id
    then err token_invalid
    else ok p

unfoldable pub check_admin_refresh : Payload → Result Payload
unfolding is_missing
check_admin_refresh p =
    if not (is_text p.type "refresh") || not (is_text p.role "admin") || is_missing p.admin_id
    then err token_invalid
    else ok p

module _ (jwt : Jwt) (config : Config) where
  -- `verify`, whose catch turns every failure of the library into one error
  unfoldable pub verify : ℕ → jwt.Token → SecretKey → Result Payload
  verify now token secret_key = elim (jwt.verify (config.secret secret_key) now token) [
    | none ↦ err token_invalid
    | some p ↦ ok p
  ]

  unfoldable pub verify_access_token : ℕ → jwt.Token → Result Payload
  unfolding verify check_access
  verify_access_token now token = and_then (verify now token jwt_access_token_secret) check_access

  unfoldable pub verify_customer_access_token : ℕ → jwt.Token → Result Payload
  unfolding verify check_customer_access
  verify_customer_access_token now token =
      and_then (verify now token jwt_access_token_secret) check_customer_access

  unfoldable pub verify_refresh_token : ℕ → jwt.Token → Result Payload
  unfolding verify check_refresh
  verify_refresh_token now token =
      and_then (verify now token jwt_refresh_token_secret) check_refresh

  unfoldable pub verify_customer_refresh_token : ℕ → jwt.Token → Result Payload
  unfolding verify check_customer_refresh
  verify_customer_refresh_token now token =
      and_then (verify now token jwt_refresh_token_secret) check_customer_refresh

  unfoldable pub verify_admin_access_token : ℕ → jwt.Token → Result Payload
  unfolding verify check_admin_access
  verify_admin_access_token now token =
      and_then (verify now token jwt_admin_access_token_secret) check_admin_access

  unfoldable pub verify_admin_refresh_token : ℕ → jwt.Token → Result Payload
  unfolding verify check_admin_refresh
  verify_admin_refresh_token now token =
      and_then (verify now token jwt_admin_refresh_token_secret) check_admin_refresh
