-- ===== src/Staff/Redeem/Redeemed.antt =====
-- What the two parts of `redeem` (src/modules/staff/staff.service.ts) do: the reads and the
-- transaction.
use lit_server_nest.Prelude.{
  ℕ, ◌≡◌, ◌<◌, refl, Bool, true, false, ◌&&◌, some, List, [], ◌∷◌, ◌++◌, String, ◌==◌, nat_eq,
  is_some, count, patch, arith, Memᴰ, eq_iff, if◌then◌else◌,
}
use lit_server_nest.Tx.Ensures.{Ensures, ensures_pure, ensures_throw_if}
use lit_server_nest.Tx.Tables.{
  ensures_find_or_throw, ensures_update_row, ensures_update_rows, ensures_create_row,
}
use lit_server_nest.Token.{Jwt, Config, get_store_refresh_token_expires_at}
use lit_server_nest.Staff.{
  StaffMember, InviteCode, RefreshToken, Team, TeamClient, is_active, is_open, staff_rows,
  code_rows, token_rows, store_rows,
}
use lit_server_nest.Staff.Codes.{hash_invite_code}
use lit_server_nest.Staff.Redeem.{Invitation, is_usable, find_usable, use_invitation}

-- An invitation as the reads find it in the tables.
pub record Usable {Token : Type 0} (now : ℕ) (db : Team Token) (i : Invitation) : Type 0 where
  pub code_stored : Memᴰ i.invite db.invite_codes
  pub staff_stored : Memᴰ i.staff db.staff
  pub store_stored : Memᴰ i.store db.stores
  pub same_staff : i.staff.id ≡ i.invite.staff_id
  pub same_store : i.store.id ≡ i.staff.store_id
  pub open_code : is_open i.invite ≡ true
  pub unexpired : now < i.invite.expires_at
  pub staff_active : is_active i.staff.status ≡ true
  pub store_open : is_some i.store.closed_at ≡ false

abbrev pub joined : ℕ → Invitation → StaffMember → StaffMember
joined now i m = record m {
  joined_at = if is_some i.staff.joined_at then m.joined_at else some now;
  last_active_at = some now;
  updated_at = now;
}

abbrev pub is_spendable : ℕ → InviteCode → Bool
is_spendable code_id c = nat_eq c.id code_id && is_open c

module _ (jwt : Jwt) (config : Config) (client : TeamClient jwt.Token) where
  abbrev pub session : ℕ → Invitation → jwt.Token → RefreshToken jwt.Token
  session now i refresh_token = record {
    store_id = i.store.id;
    staff_id = some i.staff.id;
    token = refresh_token;
    expires_at = get_store_refresh_token_expires_at config now;
  }

  pub find_usable-Ensures :
      (sha256 : List ℕ → String) (now : ℕ) (code : List ℕ) (db : Team jwt.Token)
      → Ensures (find_usable jwt config client sha256 now code) db (λ i out.
        (out ≡ db) × (i.invite.code_hash ≡ hash_invite_code sha256 code) × Usable now db i)
  unfolding find_usable is_usable
  find_usable-Ensures sha256 now code db =
      ensures_find_or_throw (code_rows client) _ _ _ λ c c_in c_hash.
        ensures_find_or_throw (staff_rows client) _ _ _ λ m m_in m_id.
          ensures_find_or_throw (store_rows client) _ _ _ λ s s_in s_id.
            ensures_throw_if _ _ _ λ usable. ensures_pure _ (
              refl,
              (eq_iff c.code_hash (hash_invite_code sha256 code)).0 c_hash,
              record {
                code_stored = c_in;
                staff_stored = m_in;
                store_stored = s_in;
                same_staff = (eq_iff m.id c.staff_id).0 m_id;
                same_store = (eq_iff s.id m.store_id).0 s_id;
                open_code = ground arith;
                unexpired = ground arith;
                staff_active = ground arith;
                store_open = ground arith;
              },
            )

  pub use_invitation-Ensures :
      (now : ℕ) (i : Invitation) (refresh_token : jwt.Token) (db : Team jwt.Token)
      → Ensures (use_invitation jwt config client now i refresh_token) db (λ _ out.
        (count (is_spendable i.invite.id) db.invite_codes ≡ 1)
        × (out ≡ record db {
          invite_codes =
              patch
                (is_spendable i.invite.id)
                (λ c. record c { used_at = some now })
                db.invite_codes;
          staff = patch (λ m. m.id == i.staff.id) (joined now i) db.staff;
          refresh_tokens = db.refresh_tokens ++ (session now i refresh_token ∷ []);
        }))
  unfolding use_invitation
  use_invitation-Ensures now i refresh_token db = ensures_update_rows (code_rows client) _ _ _ (
      ensures_throw_if _ _ _ λ one.
        ensures_update_row (staff_rows client) _ _ _
          (ensures_create_row (token_rows client) _ _ (ensures_pure _ (ground arith, refl))))
