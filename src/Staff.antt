-- ===== src/Staff.antt =====
-- The staff of a store and their invitations: src/modules/staff/staff.service.ts, and the columns
-- of prisma/schema.prisma that it reads or writes. A time is in milliseconds, so the tokens' clock
-- is the time over 1000. What the database and the platform make up (identifiers, the random code)
-- is an argument, and so is the name once trimmed. The names that are only copied to the answer are
-- left out.
pub mod Codes
pub mod Effects
pub mod Sessions
pub mod Redeem
pub mod Guard
use lit_server_nest.Prelude.{
  ℕ, ◌+◌, ◌*◌, ◌/◌, ◌≡◌, Bool, true, false, not, ◌&&◌, ◌||◌, Option, none, some, List, String, ◌==◌,
  ltb, leb, nat_eq, is_text, is_some, Result, ok, err, Error, staff_limit_exceeded, staff_not_found,
  invite_code_invalid, if◌then◌else◌,
}
use lit_server_nest.Prisma.{Table}
use lit_server_nest.Tx.{On, ◌>>=◌, ◌>>◌, pure, throw_if, or_throw}
use lit_server_nest.Tx.Tables.{
  Entity, find_row, find_rows, count_rows, update_row, update_rows, create_row, delete_rows,
}
use lit_server_nest.Token.{
  Jwt, Config, generate_staff_access_token, generate_staff_refresh_token,
  get_store_refresh_token_expires_in_seconds, get_store_refresh_token_expires_at,
}
use lit_server_nest.Staff.Codes.{hash_invite_code, format_invite_code}

pub data StaffStatus : Type 0 where
  active revoked : StaffStatus

abbrev pub is_active : StaffStatus → Bool
is_active active = true
is_active revoked = false

pub record StaffMember : Type 0 where
  pub id : String
  pub store_id : String
  pub name : String
  pub status : StaffStatus
  pub joined_at : Option ℕ
  pub last_active_at : Option ℕ
  pub revoked_at : Option ℕ
  pub created_at : ℕ
  pub updated_at : ℕ

pub record InviteCode : Type 0 where
  pub id : ℕ
  pub staff_id : String
  pub store_id : String
  pub code_hash : String
  pub expires_at : ℕ
  pub used_at : Option ℕ
  pub revoked_at : Option ℕ
  pub created_at : ℕ

pub record Store : Type 0 where
  pub id : String
  pub closed_at : Option ℕ

pub record PushDevice : Type 0 where
  pub store_id : String
  pub staff_id : Option String
  pub push_token : String

pub record RefreshToken (Token : Type 0) : Type 0 where
  pub store_id : String
  pub staff_id : Option String
  pub token : Token
  pub expires_at : ℕ

pub record Team (Token : Type 0) : Type 0 where
  pub staff : List StaffMember
  pub invite_codes : List InviteCode
  pub refresh_tokens : List (RefreshToken Token)
  pub push_devices : List PushDevice
  pub stores : List Store

pub record TeamClient (Token : Type 0) : Type 0 where
  pub staff : Table StaffMember
  pub invite_codes : Table InviteCode
  pub refresh_tokens : Table (RefreshToken Token)
  pub push_devices : Table PushDevice
  pub stores : Table Store

abbrev pub max_active_staff : ℕ
max_active_staff = 10

abbrev pub invite_code_ttl_ms : ℕ
invite_code_ttl_ms = 24 * 60 * 60 * 1000

abbrev pub left_staff_name : String
left_staff_name = "탈퇴한 직원"

-- Unused and not revoked: `{ used_at: null, revoked_at: null }`
abbrev pub is_open : InviteCode → Bool
is_open c = not (is_some c.used_at) && not (is_some c.revoked_at)

module _ {Token : Type 0} (client : TeamClient Token) where
  abbrev pub staff_rows : Entity (Team Token) StaffMember
  staff_rows = record {
    table = client.staff;
    rows = λ db. db.staff;
    with_rows = λ xs db. record db { staff = xs };
  }

  abbrev pub code_rows : Entity (Team Token) InviteCode
  code_rows = record {
    table = client.invite_codes;
    rows = λ db. db.invite_codes;
    with_rows = λ xs db. record db { invite_codes = xs };
  }

  abbrev pub token_rows : Entity (Team Token) (RefreshToken Token)
  token_rows = record {
    table = client.refresh_tokens;
    rows = λ db. db.refresh_tokens;
    with_rows = λ xs db. record db { refresh_tokens = xs };
  }

  abbrev pub device_rows : Entity (Team Token) PushDevice
  device_rows = record {
    table = client.push_devices;
    rows = λ db. db.push_devices;
    with_rows = λ xs db. record db { push_devices = xs };
  }

  abbrev pub store_rows : Entity (Team Token) Store
  store_rows = record {
    table = client.stores;
    rows = λ db. db.stores;
    with_rows = λ xs db. record db { stores = xs };
  }

  -- `{ id, store_id, status: active }`
  abbrev pub is_active_staff : String → String → StaffMember → Bool
  is_active_staff store_id staff_id m =
      m.id == staff_id && m.store_id == store_id && is_active m.status

  unfoldable pub find_active_staff_or_throw : String → String → On (Team Token) StaffMember
  find_active_staff_or_throw store_id staff_id = do
    staff ← find_row staff_rows (is_active_staff store_id staff_id)
    or_throw staff staff_not_found

  unfoldable pub revoke_unused_codes : ℕ → String → On (Team Token) ℕ
  revoke_unused_codes now staff_id =
      update_rows code_rows (λ c. c.staff_id == staff_id && is_open c)
        (λ c. record c { revoked_at = some now })

  -- The new row has the identifier that the database gives it.
  unfoldable pub issue_invite_code :
      (List ℕ → String) → ℕ → ℕ → List ℕ → StaffMember → On (Team Token) (List ℕ × ℕ)
  unfolding hash_invite_code format_invite_code
  issue_invite_code sha256 now code_id code staff = do
    let expires_at = now + invite_code_ttl_ms
    create_row code_rows (record {
      id = code_id;
      staff_id = staff.id;
      store_id = staff.store_id;
      code_hash = hash_invite_code sha256 code;
      expires_at = expires_at;
      used_at = none;
      revoked_at = none;
      created_at = now;
    })
    pure (format_invite_code code, expires_at)

  unfoldable pub create_staff :
      (List ℕ → String) → ℕ → String → ℕ → List ℕ → String → String → On (Team Token) (List ℕ × ℕ)
  unfolding issue_invite_code
  create_staff sha256 now staff_id code_id code store_id name = do
    active_count ← count_rows staff_rows (λ m. m.store_id == store_id && is_active m.status)
    throw_if (leb max_active_staff active_count) staff_limit_exceeded
    let staff : StaffMember = record {
      id = staff_id;
      store_id = store_id;
      name = name;
      status = active;
      joined_at = none;
      last_active_at = none;
      revoked_at = none;
      created_at = now;
      updated_at = now;
    }
    create_row staff_rows staff
    issue_invite_code sha256 now code_id code staff

  -- The transactions of reissueInviteCode and revokeStaff, on the row that was read before them.
  unfoldable pub reissue :
      (List ℕ → String) → ℕ → ℕ → List ℕ → StaffMember → On (Team Token) (List ℕ × ℕ)
  unfolding revoke_unused_codes issue_invite_code
  reissue sha256 now code_id code staff = do
    revoke_unused_codes now staff.id
    issue_invite_code sha256 now code_id code staff

  unfoldable pub reissue_invite_code :
      (List ℕ → String) → ℕ → ℕ → List ℕ → String → String → On (Team Token) (List ℕ × ℕ)
  unfolding find_active_staff_or_throw reissue
  reissue_invite_code sha256 now code_id code store_id staff_id = do
    staff ← find_active_staff_or_throw store_id staff_id
    reissue sha256 now code_id code staff

  unfoldable pub revoke : ℕ → String → (StaffMember → StaffMember) → On (Team Token) (Unit {0})
  unfolding revoke_unused_codes
  revoke now staff_id extra = do
    update_row staff_rows (λ m. m.id == staff_id)
        (λ m. record (extra m) { status = revoked; revoked_at = some now; updated_at = now })
    delete_rows token_rows (λ t. is_text t.staff_id staff_id)
    delete_rows device_rows (λ d. is_text d.staff_id staff_id)
    revoke_unused_codes now staff_id
    pure tt

  unfoldable pub revoke_staff : ℕ → String → String → On (Team Token) (Unit {0})
  unfolding find_active_staff_or_throw revoke
  revoke_staff now store_id staff_id = do
    staff ← find_active_staff_or_throw store_id staff_id
    revoke now staff.id (λ m. m)

  unfoldable pub leave : ℕ → String → String → On (Team Token) (Unit {0})
  unfolding find_active_staff_or_throw revoke
  leave now store_id staff_id = do
    staff ← find_active_staff_or_throw store_id staff_id
    revoke now staff.id (λ m. record m { name = left_staff_name })
