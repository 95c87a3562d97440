-- ===== src/Staff/Sessions/Limit.antt =====
-- The number of active members of a store's staff (src/modules/staff/staff.service.ts).
use lit_server_nest.Prelude.{
  ℕ, ◌≤◌, ◌<◌, ◌≡◌, sym, subst, Bool, ◌&&◌, List, [], ◌∷◌, ◌++◌, String, ◌==◌, arith, count,
  count-append, count-patch-le, ok, Bool-cases, inl, inr, eq_iff,
}
use lit_server_nest.Token.{Jwt, Config}
use lit_server_nest.Staff.{StaffMember, Team, TeamClient, is_active, revoke}
use lit_server_nest.Staff.Effects.{
  joining, dismiss, create_staff-Ensures, reissue-Ensures, revoke-Ensures,
}
use lit_server_nest.Staff.Redeem.Redeemed.{joined, find_usable-Ensures, use_invitation-Ensures}
use lit_server_nest.Staff.Sessions.{
  World, Step, Steps, created, reissued, dismissed, left, found, redeemed, here, next,
}

-- The store has at most ten active members of staff.
abbrev pub WithinLimit : String → List StaffMember → Type 0
WithinLimit store_id staff = count (λ m. m.store_id == store_id && is_active m.status) staff ≤ 10

joining-WithinLimit :
    (store_id other : String) (now : ℕ) (staff_id name : String) (staff : List StaffMember)
    → count (λ m. m.store_id == other && is_active m.status) staff < 10
    → WithinLimit store_id staff
    → WithinLimit store_id (staff ++ (joining now staff_id other name ∷ []))
joining-WithinLimit store_id other now staff_id name staff few h =
    let new = joining now staff_id other name in
    let q : StaffMember → Bool = λ m. m.store_id == store_id && is_active m.status in
    elim (Bool-cases (other == store_id)) [
      | inl same ↦
          let few_here : count q staff < 10 =
            subst
              (λ o. count (λ (m : StaffMember). m.store_id == o && is_active m.status) staff < 10)
              ((eq_iff other store_id).0 same) few in
          rw (count-append q staff (new ∷ []), same) (omega arith)
      | inr elsewhere ↦ rw (count-append q staff (new ∷ []), elsewhere) (omega arith)
    ]

module _ (store_id : String) {Token : Type 0} where
  revoke-WithinLimit :
      (client : TeamClient Token) (now : ℕ) (staff_id : String) (extra : StaffMember → StaffMember)
      (db out : Team Token)
      → revoke client now staff_id extra db ≡ ok (tt, out)
      → WithinLimit store_id db.staff
      → WithinLimit store_id out.staff
  revoke-WithinLimit client now staff_id extra db out e h =
      let q = (revoke-Ensures client now staff_id extra db).holds tt out e in
      let le =
        count-patch-le (λ (m : StaffMember). m.store_id == store_id && is_active m.status)
          (λ m. m.id == staff_id) (dismiss now extra) db.staff (λ m on. ground arith) in
      subst (λ (d : Team Token). WithinLimit store_id d.staff) (sym q) (omega arith)

module _ (jwt : Jwt) (config : Config) (client : TeamClient jwt.Token) (sha256 : List ℕ → String)
    (store_id : String) where
  Step-WithinLimit :
      (w u : World jwt.Token)
      → Step jwt config client sha256 w u
      → WithinLimit store_id w.team.staff
      → WithinLimit store_id u.team.staff
  Step-WithinLimit w u
        (created now staff_id code_id code other name given out fresh_staff fresh_code e) h =
      let (few, q) =
        (create_staff-Ensures client sha256 now staff_id code_id code other name w.team).holds given
          out e in
      subst (λ (d : Team jwt.Token). WithinLimit store_id d.staff) (sym q)
        (joining-WithinLimit store_id other now staff_id name w.team.staff few h)
  Step-WithinLimit w u (reissued now code_id code staff given out fresh e) h =
      let q = (reissue-Ensures client sha256 now code_id code staff w.team).holds given out e in
      subst (λ (d : Team jwt.Token). WithinLimit store_id d.staff) (sym q) h
  Step-WithinLimit w u (dismissed now staff_id out e) h =
      revoke-WithinLimit store_id client now staff_id _ w.team out e h
  Step-WithinLimit w u (left now staff_id out e) h =
      revoke-WithinLimit store_id client now staff_id _ w.team out e h
  Step-WithinLimit w u (found now code i out e) h =
      let (q, _, _) =
        (find_usable-Ensures jwt config client sha256 now code w.team).holds i out e in
      subst (λ (d : Team jwt.Token). WithinLimit store_id d.staff) (sym q) h
  Step-WithinLimit w u (redeemed now i refresh_token out i_in e) h =
      let (one, q) =
        (use_invitation-Ensures jwt config client now i refresh_token w.team).holds tt out e in
      let le =
        count-patch-le (λ (m : StaffMember). m.store_id == store_id && is_active m.status)
          (λ m. m.id == i.staff.id) (joined now i) w.team.staff (λ m on. on) in
      subst (λ (d : Team jwt.Token). WithinLimit store_id d.staff) (sym q) (omega arith)

  -- A store that has at most ten active members of staff has at most ten after every run of the
  -- operations, each transaction taken as one step.
  pub reachable-WithinLimit :
      (w u : World jwt.Token)
      → Steps jwt config client sha256 w u
      → WithinLimit store_id w.team.staff
      → WithinLimit store_id u.team.staff
  reachable-WithinLimit w u (here _) h = h
  reachable-WithinLimit w u (next _ v _ step more) h =
      reachable-WithinLimit v u more (Step-WithinLimit w v step h)
