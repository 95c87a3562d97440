-- ===== src/Staff/Sessions/Reachable.antt =====
-- The sessions of staff along every run of the operations of src/modules/staff/staff.service.ts,
-- and the guard src/modules/auth/guards/store-auth.guard.ts after it.
use lit_server_nest.Prelude.{
  ℕ, ◌/◌, ◌≡◌, refl, sym, ap, subst, ◌∙◌, inl, inr, Bool, true, false, some, List, String, ◌==◌,
  eq_iff, Memᴰ, arith, patch, Carried-IsOff, IsOff, count-mem, mem-patch, patch-mem, key-step_row,
  step_row, step_row-hit, step_row-miss, ok, err, invite_code_invalid, staff_revoked, owner_only,
  nat_eq, count, count-none, Bool-cases, if◌then◌else◌,
}
use lit_server_nest.Tx.{◌>>=◌}
use lit_server_nest.Token.{Payload, Jwt, Config}
use lit_server_nest.Token.Verification.{verify_access_token}
use lit_server_nest.Staff.{
  StaffMember, InviteCode, RefreshToken, Team, TeamClient, StaffStatus, active, revoked, is_active,
  is_open, revoke,
}
use lit_server_nest.Staff.Effects.{dismiss, revoke-Ensures}
use lit_server_nest.Staff.Redeem.{Invitation, use_invitation}
use lit_server_nest.Staff.Redeem.Redeemed.{is_spendable, use_invitation-Ensures}
use lit_server_nest.Staff.Guard.{can_activate}
use lit_server_nest.Staff.Guard.Admission.{can_activate-refused}
use lit_server_nest.Staff.Sessions.{World, Steps, here, next, Inv}
use lit_server_nest.Staff.Sessions.Kept.{Step-Kept}

is_active-eq : (s : StaffStatus) → is_active s ≡ true → s ≡ active
is_active-eq active e = refl
is_active-eq revoked e = cc

not_spendable : (c : InviteCode) (k : ℕ) → (c.id ≡ k → is_open c ≡ false) → is_spendable k c ≡ false
not_spendable c k shut = elim (Bool-cases (nat_eq c.id k)) [
  | inl same ↦ rw same (shut (ground arith))
  | inr other ↦ rw other refl
]

not_open : (c : InviteCode) (k : ℕ) → c.id ≡ k → is_spendable k c ≡ false → is_open c ≡ false
not_open c k same miss = ground arith

patch-IsOff :
    (now k : ℕ) (codes : List InviteCode)
    → count (is_spendable k) codes ≡ 1
    → IsOff
        (λ (c : InviteCode). c.id)
        (λ c. c.staff_id)
        is_open
        k
        (patch (is_spendable k) (λ c. record c { used_at = some now }) codes)
patch-IsOff now k codes one =
    let f : InviteCode → InviteCode = λ c. record c { used_at = some now } in
    let (c, c_in, hit) = count-mem (is_spendable k) codes one in
    (
      (
        step_row (is_spendable k) f c,
        patch-mem (is_spendable k) f codes c_in,
        key-step_row (λ (x : InviteCode). x.id) (is_spendable k) f c (λ x. refl) ∙ ground arith,
      ),
      λ d d_in d_id.
          let (x, x_in, step) = mem-patch (is_spendable k) f codes d_in in
          elim (Bool-cases (is_spendable k x)) [
            | inl hit_x ↦ ap is_open (step ∙ step_row-hit (is_spendable k) f x hit_x)
            | inr miss ↦
                let q : d ≡ x = step ∙ step_row-miss (is_spendable k) f x miss in
                let x_id : x.id ≡ k = ap (λ (y : InviteCode). y.id) (sym q) ∙ d_id in
                ap is_open q ∙ not_open x k x_id miss
          ],
    )

dismiss-IsOff :
    (now : ℕ) (m : StaffMember) (extra : StaffMember → StaffMember) (staff : List StaffMember)
    → Memᴰ m staff
    → ((x : StaffMember) → (extra x).id ≡ x.id)
    → IsOff
        (λ (x : StaffMember). x.id)
        (λ x. x.id)
        (λ x. is_active x.status)
        m.id
        (patch (λ x. x.id == m.id) (dismiss now extra) staff)
dismiss-IsOff now m extra staff m_in same_id =
    let p : StaffMember → Bool = λ x. x.id == m.id in
    let f : StaffMember → StaffMember = dismiss now extra in
    (
      (
        step_row p f m,
        patch-mem p f staff m_in,
        key-step_row (λ (x : StaffMember). x.id) p f m same_id,
      ),
      λ d d_in d_id.
          let (x, x_in, step) = mem-patch p f staff d_in in
          let x_id : x.id ≡ m.id =
            sym (key-step_row (λ (y : StaffMember). y.id) p f x same_id)
            ∙ (ap (λ (y : StaffMember). y.id) (sym step) ∙ d_id) in
          ap (λ (y : StaffMember). is_active y.status)
            (step ∙ step_row-hit p f x ((eq_iff x.id m.id).1 x_id)),
    )

module _ (jwt : Jwt) (config : Config) (client : TeamClient jwt.Token)
    (sha256 : List ℕ → String) where
  Steps-Kept : (w u : World jwt.Token) → Steps jwt config client sha256 w u → Inv w → Inv u
  Steps-Kept w u (here _) inv = inv
  Steps-Kept w u (next _ v _ step more) inv =
      Steps-Kept v u more ((Step-Kept jwt config client sha256 w v step).invariant inv)

  Steps-codes-IsOff :
      (k : ℕ) (w u : World jwt.Token)
      → Steps jwt config client sha256 w u
      → IsOff (λ (c : InviteCode). c.id) (λ c. c.staff_id) is_open k w.team.invite_codes
      → IsOff (λ (c : InviteCode). c.id) (λ c. c.staff_id) is_open k u.team.invite_codes
  Steps-codes-IsOff k w u (here _) off = off
  Steps-codes-IsOff k w u (next _ v _ step more) off =
      Steps-codes-IsOff k v u more
        (Carried-IsOff _ _ is_open k _ _ (Step-Kept jwt config client sha256 w v step).codes off)

  Steps-staff-IsOff :
      (id : String) (w u : World jwt.Token)
      → Steps jwt config client sha256 w u
      → IsOff (λ (m : StaffMember). m.id) (λ m. m.id) (λ m. is_active m.status) id w.team.staff
      → IsOff (λ (m : StaffMember). m.id) (λ m. m.id) (λ m. is_active m.status) id u.team.staff
  Steps-staff-IsOff id w u (here _) off = off
  Steps-staff-IsOff id w u (next _ v _ step more) off = Steps-staff-IsOff id v u more (
      Carried-IsOff _ _ (λ (m : StaffMember). is_active m.status) id _ _
        (Step-Kept jwt config client sha256 w v step).staff off)

  -- From tables in which the invariant holds (ids are unique, every session of a member of staff is of
  -- an active one, and a pending invitation with an open code is for an active one), however the
  -- operations interleave, a stored session of a member of staff is of an active one.
  pub reachable-sessions_active :
      (w u : World jwt.Token)
      → Inv w
      → Steps jwt config client sha256 w u
      → (t : RefreshToken jwt.Token) → Memᴰ t u.team.refresh_tokens
      → (m : StaffMember) → Memᴰ m u.team.staff
      → t.staff_id ≡ some m.id
      → m.status ≡ active
  reachable-sessions_active w u inv steps t t_in m m_in whose =
      let on : is_active m.status ≡ true =
        (Steps-Kept w u steps inv).sessions t t_in m.id whose m m_in refl in
      is_active-eq m.status on

  -- A code is spent.
  spent :
      (now : ℕ) (i : Invitation) (token : jwt.Token) (db out : Team jwt.Token)
      → use_invitation jwt config client now i token db ≡ ok (tt, out)
      → IsOff (λ (c : InviteCode). c.id) (λ c. c.staff_id) is_open i.invite.id out.invite_codes
  spent now i token db out e =
      let (one, q) = (use_invitation-Ensures jwt config client now i token db).holds tt out e in
      subst
        (λ (d : Team jwt.Token).
          IsOff (λ (c : InviteCode). c.id) (λ c. c.staff_id) is_open i.invite.id d.invite_codes)
        (sym q) (patch-IsOff now i.invite.id db.invite_codes one)

  -- Once an invitation is redeemed, then whatever steps follow, no transaction of a redeeming of the
  -- same code succeeds: it throws `INVITE_CODE_INVALID`, also where its reads came before.
  pub redeemed_once :
      (w u : World jwt.Token) (now later : ℕ) (i j : Invitation) (token other : jwt.Token)
      (out : Team jwt.Token)
      → use_invitation jwt config client now i token w.team ≡ ok (tt, out)
      → Steps jwt config client sha256 (record w { team = out }) u
      → j.invite.id ≡ i.invite.id
      → use_invitation jwt config client later j other u.team ≡ err invite_code_invalid
  unfolding use_invitation ◌>>=◌
  redeemed_once w u now later i j token other out e steps same =
      let off =
        (Steps-codes-IsOff i.invite.id (record w { team = out }) u steps
          (spent now i token w.team out e)).1 in
      let none_left : count (is_spendable j.invite.id) u.team.invite_codes ≡ 0 =
        count-none _ _ (λ c c_in. not_spendable c j.invite.id (λ id. off c c_in (id ∙ same))) in
      rw (client.invite_codes.update_many_lem, none_left) refl

  -- Once a stored member of staff is dismissed, then whatever steps follow, the guard refuses every token
  -- that names the member, valid as it may be.
  pub dismissed-refused :
      (w u : World jwt.Token) (now later : ℕ) (m : StaffMember) (extra : StaffMember → StaffMember)
      (out : Team jwt.Token) (allowed : Bool) (token : jwt.Token) (p : Payload)
      → Memᴰ m w.team.staff
      → ((x : StaffMember) → (extra x).id ≡ x.id)
      → revoke client now m.id extra w.team ≡ ok (tt, out)
      → Steps jwt config client sha256 (record w { team = out }) u
      → verify_access_token jwt config (later / 1000) token ≡ ok p
      → p.role ≡ some "staff"
      → p.staff_id ≡ some m.id
      → can_activate jwt config client later allowed token u.team
        ≡ err (if allowed then staff_revoked else owner_only)
  dismissed-refused w u now later m extra out allowed token p m_in same_id e steps accepted role
        whose =
      let q = (revoke-Ensures client now m.id extra w.team).holds tt out e in
      let off =
        Steps-staff-IsOff m.id (record w { team = out }) u steps
          (subst
            (λ (d : Team jwt.Token).
              IsOff (λ (x : StaffMember). x.id) (λ x. x.id) (λ x. is_active x.status) m.id d.staff)
            (sym q) (dismiss-IsOff now m extra w.team.staff m_in same_id)) in
      can_activate-refused jwt config client later allowed token p m.id u.team accepted role whose
        off.1
