-- ===== src/Tests/Accounts.antt =====
-- The tokens and the staff of one store: a library for tokens, a configuration and a run.
use lit_server_nest.Prelude.{
  ℕ, ◌+◌, ◌≡◌, refl, sym, ap, ◌∙◌, ◌&&◌, none, some, String, ◌==◌, ltb, List, [], ◌∷◌, Result, ok,
  err, eq_iff, arith, Memᴰ, if◌then◌else◌,
}
use lit_server_nest.Prisma.Listed.{listed}
use lit_server_nest.Tx.{◌>>=◌}
use lit_server_nest.Tx.Tables.{update_row}
use lit_server_nest.Token.{
  Payload, Jwt, Config, SecretKey, jwt_access_token_secret, jwt_refresh_token_secret,
  jwt_admin_access_token_secret, jwt_admin_refresh_token_secret, generate_staff_refresh_token,
}
use lit_server_nest.Token.Verification.Kinds.{Subject, IsNamed, IsDistinct}
use lit_server_nest.Staff.{Team, TeamClient, active, create_staff, issue_invite_code}
use lit_server_nest.Staff.Codes.{generate_invite_code, format_invite_code, hash_invite_code}
use lit_server_nest.Staff.Redeem.{Invitation, is_usable, find_usable, use_invitation}
use lit_server_nest.Staff.Sessions.{World, Steps, created, found, redeemed, here, next, Inv}

-- A token that shows what it was signed with.
pub record Signed : Type 0 where
  pub secret : String
  pub at : ℕ
  pub lifetime : ℕ
  pub payload : Payload

abbrev pub jwt : Jwt
jwt = record {
  Token = Signed;
  sign =
      λ secret at lifetime p. record { secret = secret; at = at; lifetime = lifetime; payload = p };
  verify = λ secret now t.
      if t.secret == secret && ltb now (t.at + t.lifetime) then some t.payload else none;
  verify-sign = λ secret key at lifetime now p. refl;
}

abbrev pub secret_of : SecretKey → String
secret_of jwt_access_token_secret = "access"
secret_of jwt_refresh_token_secret = "refresh"
secret_of jwt_admin_access_token_secret = "admin access"
secret_of jwt_admin_refresh_token_secret = "admin refresh"

abbrev pub config : Config
config = record {
  secret = secret_of;
  jwt_access_token_expires_in = "15m";
  jwt_refresh_token_expires_in = "7d";
  store_refresh_token_expires_in = "30d";
}

key_of : String → SecretKey
key_of t =
    if t == "access"
    then jwt_access_token_secret
    else if t == "refresh"
    then jwt_refresh_token_secret
    else if t == "admin access"
    then jwt_admin_access_token_secret
    else jwt_admin_refresh_token_secret

key_of-secret_of : (a : SecretKey) → key_of (secret_of a) ≡ a
unfolding key_of
key_of-secret_of jwt_access_token_secret = refl
key_of-secret_of a = refl

pub config-IsDistinct : IsDistinct config
config-IsDistinct a b e = sym (key_of-secret_of a) ∙ (ap key_of e ∙ key_of-secret_of b)

abbrev pub someone : Subject
someone = record {
  store_id = "store";
  staff_id = "staff_1";
  customer_id = "customer_1";
  admin_id = "admin_1";
  email = "owner@example.com";
  provider = none;
}

pub someone-IsNamed : IsNamed someone
someone-IsNamed = record {
  store = λ e. ground (arith, eq_iff "store" "");
  staff = λ e. ground (arith, eq_iff "staff_1" "");
  customer = λ e. ground (arith, eq_iff "customer_1" "");
  admin = λ e. ground (arith, eq_iff "admin_1" "");
}

abbrev pub team_client : TeamClient Signed
team_client = record {
  staff = listed;
  invite_codes = listed;
  refresh_tokens = listed;
  push_devices = listed;
  stores = listed;
}

abbrev pub opening : Team Signed
opening = record {
  staff = [];
  invite_codes = [];
  refresh_tokens = [];
  push_devices = [];
  stores = record { id = "store"; closed_at = none } ∷ [];
}

abbrev pub w0 : World Signed
w0 = record { team = opening; pending = [] }

pub w0-Inv : Inv w0
w0-Inv = record {
  staff_key = λ x y mx my e. elim mx [ ];
  code_key = λ x y mx my e. elim mx [ ];
  sessions = λ t at id e. elim at [ ];
  pending = λ i at. elim at [ ];
}

abbrev pub sha256 : List ℕ → String
sha256 cs = "hash"

abbrev pub out_of {ℓ} : {A : Type ℓ} {S : Type 0} → S → Result (A × S) → S
out_of d (ok p) = p.1
out_of d (err e) = d

abbrev pub code : List ℕ
code = generate_invite_code (λ i. i)

abbrev pub w1 : World Signed
w1 = record w0 {
  team =
      out_of opening (create_staff team_client sha256 1000 "staff_1" 1 code "store" "Kim" opening);
}

abbrev pub invitation : Invitation
invitation = record {
  invite = record {
    id = 1;
    staff_id = "staff_1";
    store_id = "store";
    code_hash = "hash";
    expires_at = 86401000;
    used_at = none;
    revoked_at = none;
    created_at = 1000;
  };
  staff = record {
    id = "staff_1";
    store_id = "store";
    name = "Kim";
    status = active;
    joined_at = none;
    last_active_at = none;
    revoked_at = none;
    created_at = 1000;
    updated_at = 1000;
  };
  store = record { id = "store"; closed_at = none };
}

abbrev pub w2 : World Signed
w2 = record { team = w1.team; pending = invitation ∷ [] }

abbrev pub refresh_token : Signed
refresh_token = generate_staff_refresh_token jwt config 2 "store" "staff_1"

abbrev pub w3 : World Signed
w3 = record w2 {
  team =
      out_of opening (use_invitation jwt config team_client 2000 invitation refresh_token w2.team);
}

pub creates :
    create_staff team_client sha256 1000 "staff_1" 1 code "store" "Kim" opening
    ≡ ok ((format_invite_code code, 86401000), w1.team)
unfolding create_staff issue_invite_code ◌>>=◌
creates = refl

pub finds :
    find_usable jwt config team_client sha256 1500 (format_invite_code code) w1.team
    ≡ ok (invitation, w1.team)
unfolding create_staff issue_invite_code find_usable is_usable hash_invite_code ◌>>=◌
finds = refl

pub uses :
    use_invitation jwt config team_client 2000 invitation refresh_token w2.team ≡ ok (tt, w3.team)
unfolding create_staff issue_invite_code use_invitation update_row hash_invite_code ◌>>=◌
uses = refl

pub run_to_invitation : Steps jwt config team_client sha256 w0 w2
run_to_invitation =
    next w0 w1 w2
      (created 1000 "staff_1" 1 code "store" "Kim" (format_invite_code code, 86401000) w1.team
        (λ m at. elim at [ ]) (λ c at. elim at [ ]) creates)
      (next w1 w2 w2 (found 1500 (format_invite_code code) invitation w1.team finds) (here w2))

pub run : Steps jwt config team_client sha256 w0 w3
run =
    next w0 w1 w3
      (created 1000 "staff_1" 1 code "store" "Kim" (format_invite_code code, 86401000) w1.team
        (λ m at. elim at [ ]) (λ c at. elim at [ ]) creates)
      (next w1 w2 w3 (found 1500 (format_invite_code code) invitation w1.team finds) (
        next w2 w3 w3 (redeemed 2000 invitation refresh_token w3.team (Memᴰ.head refl) uses)
          (here w3)))
