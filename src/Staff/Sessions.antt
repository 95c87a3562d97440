-- ===== src/Staff/Sessions.antt =====
-- The sessions of staff under every interleaving of the operations of
-- src/modules/staff/staff.service.ts. What an operation reads before its transaction may be out of
-- date when the transaction runs, so a redeeming is two steps, and a reissue or a revocation may
-- run on any row.
pub mod Guarding
pub mod Preserved
pub mod Kept
pub mod Reachable
pub mod Limit
use lit_server_nest.Prelude.{
  ℕ, ◌≡◌, ◌≢◌, refl, sym, ap, ◌∙◌, ◌⊎◌, inl, inr, Bool, true, false, not, ◌&&◌, Option, none, some,
  List, [], ◌∷◌, ◌++◌, String, ◌==◌, Result, ok, err, Memᴰ, IsKey,
}
use lit_server_nest.Token.{Jwt, Config}
use lit_server_nest.Staff.{
  StaffMember, InviteCode, RefreshToken, Team, TeamClient, StaffStatus, active, is_active, is_open,
  create_staff, reissue, revoke, left_staff_name,
}
use lit_server_nest.Staff.Redeem.{Invitation, find_usable, use_invitation}

-- The tables, and the invitations that were found usable and whose transactions are to come.
pub record World (Token : Type 0) : Type 0 where
  pub team : Team Token
  pub pending : List Invitation

module _ (jwt : Jwt) (config : Config) (client : TeamClient jwt.Token)
    (sha256 : List ℕ → String) where
  -- The identifiers that the database and the platform make up are new.
  pub data Step (w : World jwt.Token) : World jwt.Token → Type 0 where
    created :
        (now : ℕ) (staff_id : String) (code_id : ℕ) (code : List ℕ) (store_id name : String)
        (issued : List ℕ × ℕ) (out : Team jwt.Token)
        → ((m : StaffMember) → Memᴰ m w.team.staff → m.id ≢ staff_id)
        → ((c : InviteCode) → Memᴰ c w.team.invite_codes → c.id ≢ code_id)
        → create_staff client sha256 now staff_id code_id code store_id name w.team
          ≡ ok (issued, out)
        → Step w (record w { team = out })
    reissued :
        (now code_id : ℕ) (code : List ℕ) (staff : StaffMember) (issued : List ℕ × ℕ)
        (out : Team jwt.Token)
        → ((c : InviteCode) → Memᴰ c w.team.invite_codes → c.id ≢ code_id)
        → reissue client sha256 now code_id code staff w.team ≡ ok (issued, out)
        → Step w (record w { team = out })
    dismissed :
        (now : ℕ) (staff_id : String) (out : Team jwt.Token)
        → revoke client now staff_id (λ m. m) w.team ≡ ok (tt, out)
        → Step w (record w { team = out })
    left :
        (now : ℕ) (staff_id : String) (out : Team jwt.Token)
        → revoke client now staff_id (λ m. record m { name = left_staff_name }) w.team
          ≡ ok (tt, out)
        → Step w (record w { team = out })
    found :
        (now : ℕ) (code : List ℕ) (i : Invitation) (out : Team jwt.Token)
        → find_usable jwt config client sha256 now code w.team ≡ ok (i, out)
        → Step w (record { team = out; pending = i ∷ w.pending })
    redeemed :
        (now : ℕ) (i : Invitation) (refresh_token : jwt.Token) (out : Team jwt.Token)
        → Memᴰ i w.pending
        → use_invitation jwt config client now i refresh_token w.team ≡ ok (tt, out)
        → Step w (record w { team = out })

  pub data Steps : World jwt.Token → World jwt.Token → Type 0 where
    here : (w : World jwt.Token) → Steps w w
    next : (w v u : World jwt.Token) → Step w v → Steps v u → Steps w u

-- Every member of staff with this id is active.
abbrev pub AllActive : List StaffMember → String → Type 0
AllActive staff id = (m : StaffMember) → Memᴰ m staff → m.id ≡ id → is_active m.status ≡ true

-- A pending invitation: its code is stored, and while the code is open it is for that member, who
-- is active.
pub record Guarded {Token : Type 0} (db : Team Token) (i : Invitation) : Type 0 where
  pub stored : (c : InviteCode) × Memᴰ c db.invite_codes × (c.id ≡ i.invite.id)
  pub held :
      (c : InviteCode)
      → Memᴰ c db.invite_codes
      → c.id ≡ i.invite.id
      → is_open c ≡ true
      → (c.staff_id ≡ i.staff.id) × AllActive db.staff i.staff.id

pub record Inv {Token : Type 0} (w : World Token) : Type 0 where
  pub staff_key : IsKey (λ (m : StaffMember). m.id) w.team.staff
  pub code_key : IsKey (λ (c : InviteCode). c.id) w.team.invite_codes
  pub sessions :
      (t : RefreshToken Token)
      → Memᴰ t w.team.refresh_tokens
      → (id : String) → t.staff_id ≡ some id
      → AllActive w.team.staff id
  pub pending : (i : Invitation) → Memᴰ i w.pending → Guarded w.team i
