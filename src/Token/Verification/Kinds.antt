-- ===== src/Token/Verification/Kinds.antt =====
-- The kinds of token that src/modules/auth/services/token.service.ts issues, its checks, and a table of
-- which check is meant for which kind.
use lit_server_nest.Prelude.{
  ◌≡◌, ◌≢◌, Bool, true, false, Option, some, String, Result, Error, token_invalid, invalid_token,
  invalid_refresh_token,
}
use lit_server_nest.Token.{
  Payload, blank, Config, SecretKey, jwt_access_token_secret, jwt_refresh_token_secret,
  jwt_admin_access_token_secret, jwt_admin_refresh_token_secret,
}
use lit_server_nest.Token.Verification.{
  check_access, check_customer_access, check_refresh, check_customer_refresh, check_admin_access,
  check_admin_refresh,
}

pub data Kind : Type 0 where
  owner_access owner_refresh staff_access staff_refresh : Kind
  customer_access customer_refresh admin_access admin_refresh : Kind

pub data Verifier : Type 0 where
  store_access store_refresh by_customer by_customer_refresh by_admin by_admin_refresh : Verifier

pub record Subject : Type 0 where
  pub store_id : String
  pub staff_id : String
  pub customer_id : String
  pub admin_id : String
  pub email : String
  pub provider : Option String

-- The identifiers of a subject are not empty.
pub record IsNamed (s : Subject) : Type 0 where
  pub store : s.store_id ≢ ""
  pub staff : s.staff_id ≢ ""
  pub customer : s.customer_id ≢ ""
  pub admin : s.admin_id ≢ ""

-- The four secrets of the environment differ.
abbrev pub IsDistinct : Config → Type 0
IsDistinct c = (a b : SecretKey) → c.secret a ≡ c.secret b → a ≡ b

abbrev pub claims : Kind → Subject → Payload
claims owner_access s = record blank {
  store_id = some s.store_id;
  email = some s.email;
  role = some "owner";
  type = some "access";
}
claims owner_refresh s = record blank {
  store_id = some s.store_id;
  email = some s.email;
  role = some "owner";
  type = some "refresh";
}
claims staff_access s = record blank {
  store_id = some s.store_id;
  staff_id = some s.staff_id;
  role = some "staff";
  type = some "access";
}
claims staff_refresh s = record blank {
  store_id = some s.store_id;
  staff_id = some s.staff_id;
  role = some "staff";
  type = some "refresh";
}
claims customer_access s = record blank {
  customer_id = some s.customer_id;
  role = some "customer";
  provider = s.provider;
  type = some "access";
}
claims customer_refresh s = record blank {
  customer_id = some s.customer_id;
  role = some "customer";
  provider = s.provider;
  type = some "refresh";
}
claims admin_access s = record blank {
  admin_id = some s.admin_id;
  email = some s.email;
  role = some "admin";
  type = some "access";
}
claims admin_refresh s = record blank {
  admin_id = some s.admin_id;
  email = some s.email;
  role = some "admin";
  type = some "refresh";
}

abbrev pub signed_by : Kind → SecretKey
signed_by owner_access = jwt_access_token_secret
signed_by staff_access = jwt_access_token_secret
signed_by customer_access = jwt_access_token_secret
signed_by owner_refresh = jwt_refresh_token_secret
signed_by staff_refresh = jwt_refresh_token_secret
signed_by customer_refresh = jwt_refresh_token_secret
signed_by admin_access = jwt_admin_access_token_secret
signed_by admin_refresh = jwt_admin_refresh_token_secret

abbrev pub opened_by : Verifier → SecretKey
opened_by store_access = jwt_access_token_secret
opened_by by_customer = jwt_access_token_secret
opened_by store_refresh = jwt_refresh_token_secret
opened_by by_customer_refresh = jwt_refresh_token_secret
opened_by by_admin = jwt_admin_access_token_secret
opened_by by_admin_refresh = jwt_admin_refresh_token_secret

abbrev pub same : SecretKey → SecretKey → Bool
same jwt_access_token_secret jwt_access_token_secret = true
same jwt_refresh_token_secret jwt_refresh_token_secret = true
same jwt_admin_access_token_secret jwt_admin_access_token_secret = true
same jwt_admin_refresh_token_secret jwt_admin_refresh_token_secret = true
same _ _ = false

-- The table of who may pass: the store's refresh check takes the customers' tokens too.
abbrev pub accepts : Verifier → Kind → Bool
accepts store_access owner_access = true
accepts store_access staff_access = true
accepts by_customer customer_access = true
accepts store_refresh owner_refresh = true
accepts store_refresh staff_refresh = true
accepts store_refresh customer_refresh = true
accepts by_customer_refresh customer_refresh = true
accepts by_admin admin_access = true
accepts by_admin_refresh admin_refresh = true
accepts _ _ = false

abbrev pub checks : Verifier → Payload → Result Payload
checks store_access = check_access
checks by_customer = check_customer_access
checks store_refresh = check_refresh
checks by_customer_refresh = check_customer_refresh
checks by_admin = check_admin_access
checks by_admin_refresh = check_admin_refresh

abbrev pub refusal : Verifier → Error
refusal by_customer = invalid_token
refusal by_customer_refresh = invalid_refresh_token
refusal _ = token_invalid
