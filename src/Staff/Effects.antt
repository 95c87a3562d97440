-- ===== src/Staff/Effects.antt =====
-- What each transaction of src/modules/staff/staff.service.ts leaves in the tables.
use lit_server_nest.Prelude.{
  ℕ, ◌+◌, ◌<◌, ◌≡◌, refl, Bool, not, ◌&&◌, none, some, List, [], ◌∷◌, ◌++◌, String, ◌==◌, is_text,
  count, patch, select, arith,
}
use lit_server_nest.Tx.Ensures.{Ensures, ensures_pure, ensures_throw_if}
use lit_server_nest.Tx.Tables.{
  ensures_count, ensures_update_row, ensures_update_rows, ensures_create_row, ensures_delete_rows,
}
use lit_server_nest.Staff.{
  StaffMember, InviteCode, Team, TeamClient, active, revoked, is_active, is_open, staff_rows,
  code_rows, token_rows, device_rows, invite_code_ttl_ms, issue_invite_code, create_staff, reissue,
  revoke, revoke_unused_codes,
}
use lit_server_nest.Staff.Codes.{hash_invite_code}

-- A code as it is issued.
abbrev pub issued : (List ℕ → String) → ℕ → ℕ → List ℕ → String → String → InviteCode
issued sha256 now code_id code staff_id store_id = record {
  id = code_id;
  staff_id = staff_id;
  store_id = store_id;
  code_hash = hash_invite_code sha256 code;
  expires_at = now + invite_code_ttl_ms;
  used_at = none;
  revoked_at = none;
  created_at = now;
}

abbrev pub joining : ℕ → String → String → String → StaffMember
joining now staff_id store_id name = record {
  id = staff_id;
  store_id = store_id;
  name = name;
  status = active;
  joined_at = none;
  last_active_at = none;
  revoked_at = none;
  created_at = now;
  updated_at = now;
}

-- The open codes of a member, closed.
abbrev pub closing : ℕ → String → List InviteCode → List InviteCode
closing now staff_id codes =
    patch (λ c. c.staff_id == staff_id && is_open c) (λ c. record c { revoked_at = some now }) codes

abbrev pub dismiss : ℕ → (StaffMember → StaffMember) → StaffMember → StaffMember
dismiss now extra m = record (extra m) { status = revoked; revoked_at = some now; updated_at = now }

module _ {Token : Type 0} (client : TeamClient Token) where
  abbrev pub active_of : String → StaffMember → Bool
  active_of store_id m = m.store_id == store_id && is_active m.status

  pub create_staff-Ensures :
      (sha256 : List ℕ → String) (now : ℕ) (staff_id : String) (code_id : ℕ) (code : List ℕ)
      (store_id name : String) (db : Team Token)
      → Ensures (create_staff client sha256 now staff_id code_id code store_id name) db (λ _ out.
        (count (active_of store_id) db.staff < 10)
        × (out ≡ record db {
          staff = db.staff ++ (joining now staff_id store_id name ∷ []);
          invite_codes = db.invite_codes ++ (issued sha256 now code_id code staff_id store_id ∷ []);
        }))
  unfolding create_staff issue_invite_code
  create_staff-Ensures sha256 now staff_id code_id code store_id name db =
      ensures_count (staff_rows client) _ _ (
        ensures_throw_if _ _ _ λ few.
          ensures_create_row (staff_rows client) _ _
            (ensures_create_row (code_rows client) _ _ (ensures_pure _ (ground arith, refl))))

  pub reissue-Ensures :
      (sha256 : List ℕ → String) (now code_id : ℕ) (code : List ℕ) (staff : StaffMember)
      (db : Team Token)
      → Ensures (reissue client sha256 now code_id code staff) db (λ _ out. out ≡ record db {
        invite_codes =
            closing now staff.id db.invite_codes
            ++ (issued sha256 now code_id code staff.id staff.store_id ∷ []);
      })
  unfolding reissue issue_invite_code revoke_unused_codes
  reissue-Ensures sha256 now code_id code staff db =
      ensures_update_rows (code_rows client) _ _ _
        (ensures_create_row (code_rows client) _ _ (ensures_pure _ refl))

  pub revoke-Ensures :
      (now : ℕ) (staff_id : String) (extra : StaffMember → StaffMember) (db : Team Token)
      → Ensures (revoke client now staff_id extra) db (λ _ out. out ≡ record db {
        staff = patch (λ m. m.id == staff_id) (dismiss now extra) db.staff;
        refresh_tokens = select (λ t. not (is_text t.staff_id staff_id)) db.refresh_tokens;
        push_devices = select (λ d. not (is_text d.staff_id staff_id)) db.push_devices;
        invite_codes = closing now staff_id db.invite_codes;
      })
  unfolding revoke revoke_unused_codes
  revoke-Ensures now staff_id extra db = ensures_update_row (staff_rows client) _ _ _ (
      ensures_delete_rows (token_rows client) _ _ (
        ensures_delete_rows (device_rows client) _ _
          (ensures_update_rows (code_rows client) _ _ _ (ensures_pure _ refl))))
