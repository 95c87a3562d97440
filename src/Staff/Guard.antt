-- ===== src/Staff/Guard.antt =====
-- The guard of the store application: src/modules/auth/guards/store-auth.guard.ts, from the token
-- of the header on. Whether the route carries @StaffAllowed is an argument.
pub mod Admission
use lit_server_nest.Prelude.{
  ℕ, ◌/◌, ◌≡◌, Bool, true, false, not, ◌&&◌, Option, none, some, List, String, ◌==◌, is_text,
  is_some, has, staff_revoked, owner_only, if◌then◌else◌,
}
use lit_server_nest.Tx.{On, ◌>>=◌, ◌>>◌, pure, lift, throw_if, or_throw, when}
use lit_server_nest.Tx.Tables.{find_row}
use lit_server_nest.Token.{Payload, Jwt, Config}
use lit_server_nest.Token.Verification.{verify_access_token}
use lit_server_nest.Staff.{StaffMember, Store, Team, TeamClient, is_active, staff_rows}

-- A value in a `where`, which is no condition when it is undefined.
abbrev pub meets : String → Option String → Bool
meets a none = true
meets a (some b) = a == b

-- `{ id, store_id, status: active, stores: { closed_at: null } }`
abbrev pub is_admitted : Payload → List Store → StaffMember → Bool
is_admitted p stores m =
    meets m.id p.staff_id
    && meets m.store_id p.store_id
    && is_active m.status
    && has (λ (s : Store). s.id == m.store_id && not (is_some s.closed_at)) stores

module _ (jwt : Jwt) (config : Config) (client : TeamClient jwt.Token) where
  unfoldable pub assert_staff_active : Payload → On (Team jwt.Token) StaffMember
  assert_staff_active payload db =
      (find_row (staff_rows client) (is_admitted payload db.stores) >>= λ staff.
      or_throw staff staff_revoked)
        db

  unfoldable pub assert_staff_allowed : Bool → On (Team jwt.Token) (Unit {0})
  assert_staff_allowed allowed = throw_if (not allowed) owner_only

  -- What is asked of staff only
  unfoldable pub assert_staff : Bool → Payload → On (Team jwt.Token) (Unit {0})
  unfolding assert_staff_active assert_staff_allowed
  assert_staff allowed payload = do
    assert_staff_allowed allowed
    assert_staff_active payload
    pure tt

  unfoldable pub can_activate : ℕ → Bool → jwt.Token → On (Team jwt.Token) Payload
  unfolding assert_staff
  can_activate now allowed token = do
    payload ← lift (verify_access_token jwt config (now / 1000) token)
    when (is_text payload.role "staff") (assert_staff allowed payload)
    pure payload
