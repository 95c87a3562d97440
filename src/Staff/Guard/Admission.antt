-- ===== src/Staff/Guard/Admission.antt =====
-- Whom the guard src/modules/auth/guards/store-auth.guard.ts lets pass.
use lit_server_nest.Prelude.{
  ℕ, ◌/◌, ◌≡◌, ◌≢◌, refl, sym, ap, subst, ◌∙◌, ◌⊎◌, inl, inr, Bool, true, false, not, ◌&&◌, ◌||◌,
  Option, none, some, String, ◌==◌, eq_iff, Memᴰ, arith, is_text, is_some, get_or, has, has-true,
  ok, err, and_then-ok, staff_revoked, owner_only, token_invalid, eq_refl, Bool-cases, Option-cases,
  if◌then◌else◌,
}
use lit_server_nest.Tx.{◌>>=◌}
use lit_server_nest.Tx.Ensures.{
  Ensures, ensures_pure, ensures_bind, ensures_throw_if, ensures_lift, ensures_when_of,
}
use lit_server_nest.Token.{Payload, Jwt, Config, jwt_access_token_secret}
use lit_server_nest.Token.Verification.{is_missing, check_access, verify, verify_access_token}
use lit_server_nest.Staff.{StaffMember, Store, Team, TeamClient, is_active}
use lit_server_nest.Staff.Guard.{
  meets, is_admitted, assert_staff_active, assert_staff_allowed, assert_staff, can_activate,
}

-- A text that is there and not empty.
abbrev pub IsGiven : Option String → Type 0
IsGiven o = (id : String) × (o ≡ some id) × (id ≢ "")

-- The claims that the rest of the store application builds on.
pub record StoreClaims (p : Payload) : Type 0 where
  pub type : p.type ≡ some "access"
  pub store : IsGiven p.store_id
  pub role : (p.role ≡ some "owner") ⊎ ((p.role ≡ some "staff") × IsGiven p.staff_id)

IsGiven-of : (o : Option String) → is_missing o ≡ false → IsGiven o
unfolding is_missing
IsGiven-of none e = cc
IsGiven-of (some id) e = (id, refl, λ h. ground (arith, eq_iff id ""))

is_text-some : (o : Option String) (a : String) → is_text o a ≡ true → o ≡ some a
is_text-some none a e = cc
is_text-some (some b) a e = ap some ((eq_iff b a).0 e)

none_holds :
    (a b c d : Bool)
    → (a || b || c || d) ≡ false
    → (a ≡ false) × (b ≡ false) × (c ≡ false) × (d ≡ false)
none_holds a b c d e = (ground arith, ground arith, ground arith, ground arith)

-- The tests of the check, and what it returns when none of them holds.
passed :
    (c : Bool) (q p : Payload)
    → (if c then err token_invalid else ok q) ≡ ok p
    → (c ≡ false) × (q ≡ p)
passed true q p e = cc
passed false q p e = (refl, cc)

StoreClaims-role :
    (role : String) (staff_id : Option String)
    → not (role == "owner") && not (role == "staff") ≡ false
    → (role == "staff") && is_missing staff_id ≡ false
    → (◌≡◌ {A = Option String} (some role) (some "owner"))
      ⊎ (◌≡◌ {A = Option String} (some role) (some "staff") × IsGiven staff_id)
StoreClaims-role role staff_id known with_id = elim (Bool-cases (role == "owner")) [
  | inl own ↦ inl (ap some ((eq_iff role "owner").0 own))
  | inr other ↦
      let staff : (role == "staff") ≡ true = ground arith in
      inr (ap some ((eq_iff role "staff").0 staff), IsGiven-of staff_id (ground arith))
]

check_access-StoreClaims : (q p : Payload) → check_access q ≡ ok p → StoreClaims p
unfolding check_access
check_access-StoreClaims q p e =
    let (free, same) = passed _ _ p e in
    let (type, store, known, with_id) = none_holds _ _ _ _ free in
    subst StoreClaims same (record {
      type = is_text-some q.type "access" (ground arith);
      store = IsGiven-of q.store_id store;
      role = StoreClaims-role (get_or q.role "owner") q.staff_id known with_id;
    })

true_or_false : (b : Bool) → b ≡ true → b ≡ false → false ≡ true
true_or_false b t f = sym f ∙ t

module _ (jwt : Jwt) (config : Config) where
  verified :
      (now : ℕ) (token : jwt.Token) (p : Payload)
      → verify_access_token jwt config now token ≡ ok p
      → StoreClaims p
  unfolding verify_access_token
  verified now token p e =
      let (q, _, h) =
        and_then-ok (verify jwt config now token jwt_access_token_secret) check_access p e in
      check_access-StoreClaims q p h

module _ (jwt : Jwt) (config : Config) (client : TeamClient jwt.Token) where
  -- A member of staff with an active row in a store that is not closed, for whom the route is open.
  pub record Admitted (allowed : Bool) (db : Team jwt.Token) (p : Payload) : Type 0 where
    pub open_route : allowed ≡ true
    pub member : StaffMember
    pub stored : Memᴰ member db.staff
    pub staff_claim : p.staff_id ≡ some member.id
    pub store_claim : p.store_id ≡ some member.store_id
    pub in_service : is_active member.status ≡ true
    pub store : Store
    pub store_stored : Memᴰ store db.stores
    pub store_of : store.id ≡ member.store_id
    pub store_open : is_some store.closed_at ≡ false

  -- While every row of a member of staff is out of service, the guard refuses each valid token of that
  -- member: with `OWNER_ONLY` on a route that is not open to staff, else with `STAFF_REVOKED`.
  pub can_activate-refused :
      (now : ℕ) (allowed : Bool) (token : jwt.Token) (p : Payload) (staff_id : String)
      (db : Team jwt.Token)
      → verify_access_token jwt config (now / 1000) token ≡ ok p
      → p.role ≡ some "staff"
      → p.staff_id ≡ some staff_id
      → ((m : StaffMember) → Memᴰ m db.staff → m.id ≡ staff_id → is_active m.status ≡ false)
      → can_activate jwt config client now allowed token db
        ≡ err (if allowed then staff_revoked else owner_only)
  unfolding can_activate assert_staff assert_staff_active assert_staff_allowed ◌>>=◌
  can_activate-refused now allowed token p staff_id db accepted role whose gone =
      let nobody : client.staff.find_first (is_admitted p db.stores) db.staff ≡ none =
        elim (Option-cases (client.staff.find_first (is_admitted p db.stores) db.staff)) [
          | inl e ↦ e
          | inr (m, e) ↦
              let (m_in, holds) =
                client.staff.find_first-some (is_admitted p db.stores) db.staff m e in
              let on : meets m.id p.staff_id ≡ true = ground arith in
              let id : (m.id == staff_id) ≡ true = subst (λ o. meets m.id o ≡ true) whose on in
              let off = gone m m_in ((eq_iff m.id staff_id).0 id) in
              let z : true ≡ false = ground arith in cc
        ] in
      let as_staff : is_text p.role "staff" ≡ true = rw role (eq_refl "staff") in
      elim (Bool-cases allowed) [
        | inl e ↦ rw (accepted, as_staff, e, nobody) refl
        | inr e ↦ rw (accepted, as_staff, e) refl
      ]

  meets-some : (o : Option String) (a : String) → IsGiven o → meets a o ≡ true → o ≡ some a
  meets-some o a (id, e, _) h =
      let hit : (a == id) ≡ true = subst (λ t. meets a t ≡ true) e h in
      e ∙ ap some (sym ((eq_iff a id).0 hit))

  Admitted-of :
      (p : Payload) (db : Team jwt.Token) (m : StaffMember)
      → IsGiven p.store_id
      → IsGiven p.staff_id
      → Memᴰ m db.staff
      → is_admitted p db.stores m ≡ true
      → Admitted true db p
  Admitted-of p db m store_id staff_id m_in holds =
      let open_store : has (λ (s : Store). s.id == m.store_id && not (is_some s.closed_at))
            db.stores
          ≡ true =
        ground arith in
      let (s, s_in, hit) = has-true _ db.stores open_store in
      let same : (s.id == m.store_id) ≡ true = ground arith in
      record {
        open_route = refl;
        member = m;
        stored = m_in;
        staff_claim = meets-some p.staff_id m.id staff_id (ground arith);
        store_claim = meets-some p.store_id m.store_id store_id (ground arith);
        in_service = ground arith;
        store = s;
        store_stored = s_in;
        store_of = (eq_iff s.id m.store_id).0 same;
        store_open = ground arith;
      }

  staff_id-IsGiven :
      (p : Payload) → StoreClaims p → is_text p.role "staff" ≡ true → IsGiven p.staff_id
  staff_id-IsGiven p claims staff = elim claims.role [
    | inl own ↦
        let z : is_text (some "owner") "staff" ≡ true =
          subst (λ o. is_text o "staff" ≡ true) own staff in
        cc
    | inr (_, given) ↦ given
  ]

  assert_staff_active-Admitted :
      (p : Payload) (db : Team jwt.Token)
      → IsGiven p.store_id
      → IsGiven p.staff_id
      → Ensures
          (assert_staff_active jwt config client p)
          db
          (λ _ out. (out ≡ db) × Admitted true db p)
  unfolding assert_staff_active ◌>>=◌
  assert_staff_active-Admitted p db store_id staff_id = record {
    holds = λ m out e.
        elim (Option-cases (client.staff.find_first (is_admitted p db.stores) db.staff)) [
          | inl missing ↦ let z = rw missing at e in cc
          | inr (r, there) ↦
              let z = rw there at e in
              let (r_in, holds) =
                client.staff.find_first-some (is_admitted p db.stores) db.staff r there in
              (cc, Admitted-of p db r store_id staff_id r_in holds)
        ];
  }

  assert_staff-Admitted :
      (allowed : Bool) (p : Payload) (db : Team jwt.Token)
      → IsGiven p.store_id
      → IsGiven p.staff_id
      → Ensures
          (assert_staff jwt config client allowed p)
          db
          (λ _ out. (out ≡ db) × Admitted allowed db p)
  unfolding assert_staff assert_staff_allowed
  assert_staff-Admitted true p db store_id staff_id = ensures_throw_if false owner_only _ λ _.
      ensures_bind (λ _ out. (out ≡ db) × Admitted true db p)
        (assert_staff_active jwt config client p) _
        (assert_staff_active-Admitted p db store_id staff_id) λ m mid done. ensures_pure tt done
  assert_staff-Admitted false p db store_id staff_id = ensures_throw_if true owner_only _ λ e. cc

  -- Whom the guard lets pass has an access token of a store with an id. It is the owner's, or it is that
  -- of a member of staff on a route that is open to staff, who has an active row with the ids of the
  -- token, in a store that is not closed. The tables stay as they are.
  pub can_activate-Admitted :
      (now : ℕ) (allowed : Bool) (token : jwt.Token) (db : Team jwt.Token)
      → Ensures (can_activate jwt config client now allowed token) db (λ p out.
        (out ≡ db) × StoreClaims p × (is_text p.role "staff" ≡ true → Admitted allowed db p))
  unfolding can_activate
  can_activate-Admitted now allowed token db =
      ensures_lift (verify_access_token jwt config (now / 1000) token) _ λ p accepted.
        let claims = verified jwt config (now / 1000) token p accepted in
        ensures_when_of (is_text p.role "staff") (assert_staff jwt config client allowed p) _
          (λ staff.
            ensures_bind (λ _ mid. (mid ≡ db) × Admitted allowed db p)
              (assert_staff jwt config client allowed p) _
              (assert_staff-Admitted allowed p db claims.store (staff_id-IsGiven p claims staff))
              λ _ mid done. ensures_pure p (done.0, claims, λ _. done.1))
          (λ owner. ensures_pure p (
            refl,
            claims,
            λ staff. let z = true_or_false (is_text p.role "staff") staff owner in cc,
          ))
