-- ===== src/Staff/Redeem.antt =====
-- The redeeming of an invite code in src/modules/staff/staff.service.ts. Of its answer, the tokens
-- are kept.
pub mod Redeemed
use lit_server_nest.Prelude.{
  ℕ, ◌+◌, ◌/◌, ◌≡◌, Bool, true, false, not, ◌&&◌, ◌||◌, Option, none, some, List, String, ◌==◌, ltb,
  nat_eq, is_text, is_some, invite_code_invalid, if◌then◌else◌,
}
use lit_server_nest.Tx.{On, ◌>>=◌, ◌>>◌, pure, throw_if, or_throw}
use lit_server_nest.Tx.Tables.{find_row, update_row, update_rows, create_row}
use lit_server_nest.Token.{
  Jwt, Config, generate_staff_access_token, generate_staff_refresh_token,
  get_store_refresh_token_expires_at,
}
use lit_server_nest.Staff.{
  StaffMember, InviteCode, Store, RefreshToken, Team, TeamClient, is_active, is_open, staff_rows,
  code_rows, token_rows, store_rows,
}
use lit_server_nest.Staff.Codes.{hash_invite_code}

-- The rows that one `redeem` has read.
pub record Invitation : Type 0 where
  pub invite : InviteCode
  pub staff : StaffMember
  pub store : Store

-- The relations are foreign keys, so the rows joined are found.
unfoldable pub is_usable : ℕ → Invitation → Bool
is_usable now i =
    is_open i.invite
    && ltb now i.invite.expires_at
    && is_active i.staff.status
    && not (is_some i.store.closed_at)

module _ (jwt : Jwt) (config : Config) (client : TeamClient jwt.Token) where
  -- `findUnique({ where: { code_hash }, include: { store_staff: { include: { stores } } } })` and
  -- the test of what it gives
  unfoldable pub find_usable : (List ℕ → String) → ℕ → List ℕ → On (Team jwt.Token) Invitation
  unfolding hash_invite_code is_usable
  find_usable sha256 now code = do
    found ← find_row (code_rows client) (λ c. c.code_hash == hash_invite_code sha256 code)
    invite ← or_throw found invite_code_invalid
    member ← find_row (staff_rows client) (λ m. m.id == invite.staff_id)
    staff ← or_throw member invite_code_invalid
    owner ← find_row (store_rows client) (λ s. s.id == staff.store_id)
    store ← or_throw owner invite_code_invalid
    let i : Invitation = record { invite = invite; staff = staff; store = store }
    throw_if (not (is_usable now i)) invite_code_invalid
    pure i

  -- The transaction, on the rows that were read before it
  unfoldable pub use_invitation : ℕ → Invitation → jwt.Token → On (Team jwt.Token) (Unit {0})
  unfolding get_store_refresh_token_expires_at
  use_invitation now i refresh_token = do
    used ←
        update_rows (code_rows client) (λ c. nat_eq c.id i.invite.id && is_open c)
          (λ c. record c { used_at = some now })
    throw_if (not (nat_eq used 1)) invite_code_invalid
    update_row (staff_rows client) (λ m. m.id == i.staff.id)
        (λ m. record m {
          joined_at = if is_some i.staff.joined_at then m.joined_at else some now;
          last_active_at = some now;
          updated_at = now;
        })
    create_row (token_rows client) (record {
      store_id = i.store.id;
      staff_id = some i.staff.id;
      token = refresh_token;
      expires_at = get_store_refresh_token_expires_at config now;
    })
    pure tt

  unfoldable pub redeem :
      (List ℕ → String) → ℕ → List ℕ → On (Team jwt.Token) (jwt.Token × jwt.Token)
  unfolding find_usable use_invitation generate_staff_access_token generate_staff_refresh_token
  redeem sha256 now code = do
    i ← find_usable sha256 now code
    let access_token = generate_staff_access_token jwt config (now / 1000) i.store.id i.staff.id
    let refresh_token = generate_staff_refresh_token jwt config (now / 1000) i.store.id i.staff.id
    use_invitation now i refresh_token
    pure (access_token, refresh_token)
