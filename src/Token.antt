-- ===== src/Token.antt =====
-- The tokens of src/modules/auth/services/token.service.ts. The signing library (@nestjs/jwt) is a
-- parameter, and the environment that ConfigService reads is a record. A time is in seconds; the
-- claims `iat` and `exp`, which the library adds, are left out of a payload.
pub mod Durations
pub mod Verification
use lit_server_nest.Prelude.{
  ℕ, ◌+◌, ◌*◌, ◌≡◌, Bool, true, false, not, ◌&&◌, ◌||◌, Option, none, some, String, ◌==◌, ltb,
  is_text, get_or, Result, ok, err, and_then, token_invalid, invalid_token, invalid_refresh_token,
  if◌then◌else◌,
}
use lit_server_nest.Token.Durations.{to_seconds}

pub record Payload : Type 0 where
  pub store_id : Option String
  pub staff_id : Option String
  pub customer_id : Option String
  pub admin_id : Option String
  pub email : Option String
  pub provider : Option String
  pub role : Option String
  pub type : Option String

abbrev pub blank : Payload
blank = record {
  store_id = none;
  staff_id = none;
  customer_id = none;
  admin_id = none;
  email = none;
  provider = none;
  role = none;
  type = none;
}

-- The library: a token carries its payload, opens under the secret that signed it, and lasts for
-- the seconds given. `verify` throws otherwise.
pub record Jwt : Type 1 where
  pub Token : Type 0
  pub sign : String → ℕ → ℕ → Payload → Token
  pub verify : String → ℕ → Token → Option Payload
  pub verify-sign :
      (secret key : String) (at lifetime now : ℕ) (p : Payload)
      → verify secret now (sign key at lifetime p)
        ≡ (if key == secret && ltb now (at + lifetime) then some p else none)

pub data SecretKey : Type 0 where
  jwt_access_token_secret jwt_refresh_token_secret : SecretKey
  jwt_admin_access_token_secret jwt_admin_refresh_token_secret : SecretKey

pub record Config : Type 0 where
  pub secret : SecretKey → String
  pub jwt_access_token_expires_in : String
  pub jwt_refresh_token_expires_in : String
  pub store_refresh_token_expires_in : String

module _ (config : Config) where
  unfoldable pub get_store_refresh_token_expires_in_seconds : ℕ
  get_store_refresh_token_expires_in_seconds = to_seconds config.store_refresh_token_expires_in

  -- A point in time in milliseconds.
  unfoldable pub get_store_refresh_token_expires_at : ℕ → ℕ
  unfolding get_store_refresh_token_expires_in_seconds
  get_store_refresh_token_expires_at now = now + get_store_refresh_token_expires_in_seconds * 1000

  unfoldable pub get_refresh_token_expires_at : ℕ → ℕ
  get_refresh_token_expires_at now =
      let seconds = to_seconds config.jwt_refresh_token_expires_in in now + seconds * 1000

  unfoldable pub get_access_token_expires_in_seconds : ℕ
  get_access_token_expires_in_seconds = to_seconds config.jwt_access_token_expires_in

module _ (jwt : Jwt) (config : Config) where
  unfoldable pub generate_access_token : ℕ → String → String → jwt.Token
  generate_access_token now store_id email =
      jwt.sign (config.secret jwt_access_token_secret) now
        (to_seconds config.jwt_access_token_expires_in)
        (record blank {
          store_id = some store_id;
          email = some email;
          role = some "owner";
          type = some "access";
        })

  unfoldable pub generate_refresh_token : ℕ → String → String → jwt.Token
  unfolding get_store_refresh_token_expires_in_seconds
  generate_refresh_token now store_id email =
      jwt.sign (config.secret jwt_refresh_token_secret) now
        (get_store_refresh_token_expires_in_seconds config)
        (record blank {
          store_id = some store_id;
          email = some email;
          role = some "owner";
          type = some "refresh";
        })

  unfoldable pub generate_staff_access_token : ℕ → String → String → jwt.Token
  generate_staff_access_token now store_id staff_id =
      jwt.sign (config.secret jwt_access_token_secret) now
        (to_seconds config.jwt_access_token_expires_in)
        (record blank {
          store_id = some store_id;
          staff_id = some staff_id;
          role = some "staff";
          type = some "access";
        })

  unfoldable pub generate_staff_refresh_token : ℕ → String → String → jwt.Token
  unfolding get_store_refresh_token_expires_in_seconds
  generate_staff_refresh_token now store_id staff_id =
      jwt.sign (config.secret jwt_refresh_token_secret) now
        (get_store_refresh_token_expires_in_seconds config)
        (record blank {
          store_id = some store_id;
          staff_id = some staff_id;
          role = some "staff";
          type = some "refresh";
        })

  unfoldable pub generate_customer_access_token : ℕ → String → Option String → jwt.Token
  generate_customer_access_token now customer_id provider =
      jwt.sign (config.secret jwt_access_token_secret) now
        (to_seconds config.jwt_access_token_expires_in)
        (record blank {
          customer_id = some customer_id;
          role = some "customer";
          provider = provider;
          type = some "access";
        })

  unfoldable pub generate_customer_refresh_token : ℕ → String → Option String → jwt.Token
  generate_customer_refresh_token now customer_id provider =
      jwt.sign (config.secret jwt_refresh_token_secret) now
        (to_seconds config.jwt_refresh_token_expires_in)
        (record blank {
          customer_id = some customer_id;
          role = some "customer";
          provider = provider;
          type = some "refresh";
        })

  unfoldable pub generate_admin_access_token : ℕ → String → String → jwt.Token
  generate_admin_access_token now admin_id email =
      jwt.sign (config.secret jwt_admin_access_token_secret) now
        (to_seconds config.jwt_access_token_expires_in)
        (record blank {
          admin_id = some admin_id;
          email = some email;
          role = some "admin";
          type = some "access";
        })

  unfoldable pub generate_admin_refresh_token : ℕ → String → String → jwt.Token
  generate_admin_refresh_token now admin_id email =
      jwt.sign (config.secret jwt_admin_refresh_token_secret) now
        (to_seconds config.jwt_refresh_token_expires_in)
        (record blank {
          admin_id = some admin_id;
          email = some email;
          role = some "admin";
          type = some "refresh";
        })
