-- ===== src/Staff/Sessions/Kept.antt =====
-- What every step of the operations of src/modules/staff/staff.service.ts keeps.
use lit_server_nest.Prelude.{
  ℕ, ◌≡◌, refl, sym, subst, List, ◌∷◌, String, Carried-refl, Carried-patch, Carried-append, ok,
}
use lit_server_nest.Token.{Jwt, Config}
use lit_server_nest.Staff.{StaffMember, Team, TeamClient, is_active, is_open, revoke}
use lit_server_nest.Staff.Effects.{
  issued, joining, create_staff-Ensures, reissue-Ensures, revoke-Ensures,
}
use lit_server_nest.Staff.Redeem.Redeemed.{session, find_usable-Ensures, use_invitation-Ensures}
use lit_server_nest.Staff.Sessions.{
  World, Step, created, reissued, dismissed, left, found, redeemed, Inv,
}
use lit_server_nest.Staff.Sessions.Guarding.{CodesCarried, StaffCarried}
use lit_server_nest.Staff.Sessions.Preserved.{
  CodesCarried-closing, CodesCarried-spending, create-Inv, reissue-Inv, revoke-Inv, found-Inv,
  redeem-Inv,
}

-- What one step guarantees: the invariant stays, and codes and staff carry over.
pub record Kept {Token : Type 0} (w u : World Token) : Type 0 where
  pub invariant : Inv w → Inv u
  pub codes : CodesCarried w.team.invite_codes u.team.invite_codes
  pub staff : StaffCarried w.team.staff u.team.staff

module _ {Token : Type 0} where
  revoke-Kept :
      (client : TeamClient Token) (w : World Token) (now : ℕ) (staff_id : String)
      (extra : StaffMember → StaffMember) (out : Team Token)
      → ((m : StaffMember) → (extra m).id ≡ m.id)
      → revoke client now staff_id extra w.team ≡ ok (tt, out)
      → Kept w (record w { team = out })
  revoke-Kept client w now staff_id extra out same_id e =
      let q = (revoke-Ensures client now staff_id extra w.team).holds tt out e in
      subst (λ d. Kept w (record w { team = d })) (sym q)
        (record {
          invariant = revoke-Inv w now staff_id extra same_id;
          codes = CodesCarried-closing now staff_id w.team.invite_codes;
          staff =
              Carried-patch _ _ (λ (m : StaffMember). is_active m.status) _ _ w.team.staff same_id
                same_id (λ m h. cc);
        })

module _ (jwt : Jwt) (config : Config) (client : TeamClient jwt.Token)
    (sha256 : List ℕ → String) where
  pub Step-Kept : (w u : World jwt.Token) → Step jwt config client sha256 w u → Kept w u
  Step-Kept w u
        (created now staff_id code_id code store_id name given out fresh_staff fresh_code e) =
      let (_, q) =
        (create_staff-Ensures client sha256 now staff_id code_id code store_id name w.team).holds
          given out e in
      subst (λ d. Kept w (record w { team = d })) (sym q)
        (record {
          invariant =
              create-Inv w (joining now staff_id store_id name)
                (issued sha256 now code_id code staff_id store_id) refl fresh_staff fresh_code;
          codes = Carried-append _ _ is_open _ _ _ fresh_code (Carried-refl _ _ is_open _);
          staff =
              Carried-append _ _ (λ (m : StaffMember). is_active m.status) _ _ _ fresh_staff
                (Carried-refl _ _ (λ (m : StaffMember). is_active m.status) _);
        })
  Step-Kept w u (reissued now code_id code staff given out fresh e) =
      let q = (reissue-Ensures client sha256 now code_id code staff w.team).holds given out e in
      subst (λ d. Kept w (record w { team = d })) (sym q)
        (record {
          invariant =
              reissue-Inv w now staff.id (issued sha256 now code_id code staff.id staff.store_id)
                fresh;
          codes =
              Carried-append _ _ is_open _ _ _ fresh
                (CodesCarried-closing now staff.id w.team.invite_codes);
          staff = Carried-refl _ _ (λ (m : StaffMember). is_active m.status) _;
        })
  Step-Kept w u (dismissed now staff_id out e) =
      revoke-Kept client w now staff_id _ out (λ m. refl) e
  Step-Kept w u (left now staff_id out e) = revoke-Kept client w now staff_id _ out (λ m. refl) e
  Step-Kept w u (found now code i out e) =
      let (q, _, usable) =
        (find_usable-Ensures jwt config client sha256 now code w.team).holds i out e in
      subst (λ d. Kept w (record { team = d; pending = i ∷ w.pending })) (sym q)
        (record {
          invariant = found-Inv w now i usable;
          codes = Carried-refl _ _ is_open _;
          staff = Carried-refl _ _ (λ (m : StaffMember). is_active m.status) _;
        })
  Step-Kept w u (redeemed now i refresh_token out i_in e) =
      let (one, q) =
        (use_invitation-Ensures jwt config client now i refresh_token w.team).holds tt out e in
      subst (λ d. Kept w (record w { team = d })) (sym q)
        (record {
          invariant =
              redeem-Inv w now i (session jwt config client now i refresh_token) i_in refl one;
          codes = CodesCarried-spending now i.invite.id w.team.invite_codes;
          staff =
              Carried-patch _ _ (λ (m : StaffMember). is_active m.status) _ _ w.team.staff
                (λ m. refl) (λ m. refl) (λ m h. h);
        })
