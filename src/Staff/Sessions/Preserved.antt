-- ===== src/Staff/Sessions/Preserved.antt =====
-- The invariant of the sessions of staff under each change of the tables that
-- src/modules/staff/staff.service.ts makes.
use lit_server_nest.Prelude.{
  ℕ, ◌≡◌, ◌≢◌, refl, sym, ap, subst, ◌∙◌, inl, inr, Bool, true, false, not, ◌&&◌, some, List, [],
  ◌∷◌, ◌++◌, String, ◌==◌, eq_iff, Memᴰ, arith, patch, select, mem-select, mem-append,
  mem-singleton, is_text, Carried-refl, Carried-patch, Carried-append, count-mem, IsKey-patch,
  IsKey-append, mem-patch, step_row-hit, step_row-miss, count, Bool-cases,
}
use lit_server_nest.Staff.{StaffMember, InviteCode, RefreshToken, is_active, is_open}
use lit_server_nest.Staff.Effects.{closing, dismiss}
use lit_server_nest.Staff.Redeem.{Invitation}
use lit_server_nest.Staff.Redeem.Redeemed.{Usable, joined, is_spendable}
use lit_server_nest.Staff.Sessions.{World, AllActive, Guarded, Inv}
use lit_server_nest.Staff.Sessions.Guarding.{
  CodesCarried, Guarded-Carried, AllActive-patch, AllActive-append, AllActive-dismiss,
}

pub CodesCarried-closing :
    (now : ℕ) (staff_id : String) (codes : List InviteCode)
    → CodesCarried codes (closing now staff_id codes)
CodesCarried-closing now staff_id codes =
    Carried-patch _ _ is_open _ _ codes (λ c. refl) (λ c. refl) (λ c h. ground arith)

pub CodesCarried-spending :
    (now code_id : ℕ) (codes : List InviteCode)
    → CodesCarried codes (patch (is_spendable code_id) (λ c. record c { used_at = some now }) codes)
CodesCarried-spending now code_id codes =
    Carried-patch _ _ is_open _ _ codes (λ c. refl) (λ c. refl) (λ c h. ground arith)

-- A code after the closing has the id of one before, and is not both open and of that member.
closing-mem :
    (now : ℕ) (staff_id : String) (codes : List InviteCode) (d : InviteCode)
    → Memᴰ d (closing now staff_id codes)
    → ((c : InviteCode) × Memᴰ c codes × (c.id ≡ d.id))
      × ((d.staff_id == staff_id) && is_open d ≡ false)
closing-mem now staff_id codes d at =
    let p : InviteCode → Bool = λ c. c.staff_id == staff_id && is_open c in
    let f : InviteCode → InviteCode = λ c. record c { revoked_at = some now } in
    let (x, x_in, step) = mem-patch p f codes at in
    elim (Bool-cases (p x)) [
      | inl hit ↦
          let q = step ∙ step_row-hit p f x hit in
          ((x, x_in, ap (λ (y : InviteCode). y.id) (sym q)), ap p q ∙ ground arith)
      | inr miss ↦
          let q = step ∙ step_row-miss p f x miss in
          ((x, x_in, ap (λ (y : InviteCode). y.id) (sym q)), ap p q ∙ miss)
    ]

closing-fresh :
    (now : ℕ) (staff_id : String) (codes : List InviteCode) (id : ℕ)
    → ((c : InviteCode) → Memᴰ c codes → c.id ≢ id)
    → (d : InviteCode) → Memᴰ d (closing now staff_id codes)
    → d.id ≢ id
closing-fresh now staff_id codes id fresh d at e =
    let ((c, c_in, same), _) = closing-mem now staff_id codes d at in fresh c c_in (same ∙ e)

closing-shut :
    (now : ℕ) (staff_id : String) (codes : List InviteCode) (d : InviteCode)
    → Memᴰ d (closing now staff_id codes)
    → is_open d ≡ true
    → d.staff_id ≢ staff_id
closing-shut now staff_id codes d at on e =
    let shut = (closing-mem now staff_id codes d at).1 in
    let hit = (eq_iff d.staff_id staff_id).1 e in
    let z : false ≡ true = sym shut ∙ (rw (hit, on) refl) in cc

module _ {Token : Type 0} where
  pub create-Inv :
      (w : World Token) (new : StaffMember) (code : InviteCode)
      → is_active new.status ≡ true
      → ((m : StaffMember) → Memᴰ m w.team.staff → m.id ≢ new.id)
      → ((c : InviteCode) → Memᴰ c w.team.invite_codes → c.id ≢ code.id)
      → Inv w
      → Inv (record w {
        team = record (w.team) {
          staff = w.team.staff ++ (new ∷ []);
          invite_codes = w.team.invite_codes ++ (code ∷ []);
        };
      })
  create-Inv w new code on fresh_staff fresh_code inv = record {
    staff_key = IsKey-append (λ (m : StaffMember). m.id) _ new fresh_staff inv.staff_key;
    code_key = IsKey-append (λ (c : InviteCode). c.id) _ code fresh_code inv.code_key;
    sessions = λ t at id e. AllActive-append _ new id on (inv.sessions t at id e);
    pending = λ i at.
        Guarded-Carried _ _ i
          (Carried-append _ _ is_open _ _ code fresh_code (Carried-refl _ _ is_open _))
          (λ d d_in d_on whose all. AllActive-append _ new i.staff.id on all) (inv.pending i at);
  }

  pub reissue-Inv :
      (w : World Token) (now : ℕ) (staff_id : String) (code : InviteCode)
      → ((c : InviteCode) → Memᴰ c w.team.invite_codes → c.id ≢ code.id)
      → Inv w
      → Inv (record w {
        team = record (w.team) {
          invite_codes = closing now staff_id w.team.invite_codes ++ (code ∷ []);
        };
      })
  reissue-Inv w now staff_id code fresh inv = record {
    staff_key = inv.staff_key;
    code_key =
        IsKey-append (λ (c : InviteCode). c.id) _ code (closing-fresh now staff_id _ code.id fresh)
          (IsKey-patch (λ (c : InviteCode). c.id) _ _ _ (λ c. refl) inv.code_key);
    sessions = inv.sessions;
    pending = λ i at.
        Guarded-Carried _ _ i
          (Carried-append _ _ is_open _ _ code fresh (CodesCarried-closing now staff_id _))
          (λ d d_in d_on whose all. all) (inv.pending i at);
  }

  -- A session that the dismissal leaves is of someone else.
  other_staff :
      (t : RefreshToken Token) (staff_id id : String)
      → not (is_text t.staff_id staff_id) ≡ true
      → t.staff_id ≡ some id
      → staff_id ≢ id
  other_staff t staff_id id rest e same =
      let z : not (is_text (some id) staff_id) ≡ true =
        subst (λ o. not (is_text o staff_id) ≡ true) e rest in
      let q = (eq_iff id staff_id).1 (sym same) in let y : false ≡ true = sym (ap not q) ∙ z in cc

  pub revoke-Inv :
      (w : World Token) (now : ℕ) (staff_id : String) (extra : StaffMember → StaffMember)
      → ((m : StaffMember) → (extra m).id ≡ m.id)
      → Inv w
      → Inv (record w {
        team = record (w.team) {
          staff = patch (λ m. m.id == staff_id) (dismiss now extra) w.team.staff;
          refresh_tokens = select (λ t. not (is_text t.staff_id staff_id)) w.team.refresh_tokens;
          push_devices = select (λ d. not (is_text d.staff_id staff_id)) w.team.push_devices;
          invite_codes = closing now staff_id w.team.invite_codes;
        };
      })
  revoke-Inv w now staff_id extra same_id inv = record {
    staff_key = IsKey-patch (λ (m : StaffMember). m.id) _ _ _ same_id inv.staff_key;
    code_key = IsKey-patch (λ (c : InviteCode). c.id) _ _ _ (λ c. refl) inv.code_key;
    sessions = λ t at id e.
        let (t_in, other) = mem-select _ w.team.refresh_tokens at in
        AllActive-dismiss now extra _ staff_id id same_id
          (λ same. other_staff t staff_id id other e same) (inv.sessions t t_in id e);
    pending = λ i at.
        Guarded-Carried _ _ i (CodesCarried-closing now staff_id _)
          (λ d d_in d_on whose all.
            AllActive-dismiss now extra _ staff_id i.staff.id same_id
              (λ e. closing-shut now staff_id _ d d_in d_on (whose ∙ sym e)) all)
          (inv.pending i at);
  }

  -- The reads have found an active member and an open code of that member.
  Usable-Guarded :
      (w : World Token) (now : ℕ) (i : Invitation) → Usable now w.team i → Inv w → Guarded w.team i
  Usable-Guarded w now i usable inv = record {
    stored = (i.invite, usable.code_stored, refl);
    held = λ c c_in c_id on.
        let q = inv.code_key c i.invite c_in usable.code_stored c_id in
        (
          ap (λ (y : InviteCode). y.staff_id) q ∙ sym usable.same_staff,
          λ m m_in m_id.
              ap (λ (y : StaffMember). is_active y.status)
                (inv.staff_key m i.staff m_in usable.staff_stored m_id)
              ∙ usable.staff_active,
        );
  }

  pending-cons :
      (w : World Token) (i j : Invitation)
      → Guarded w.team i
      → Inv w
      → Memᴰ j (i ∷ w.pending)
      → Guarded w.team j
  pending-cons w i j new inv (Memᴰ.head e) = subst (Guarded w.team) (sym e) new
  pending-cons w i j new inv (Memᴰ.tail at) = inv.pending j at

  pub found-Inv :
      (w : World Token) (now : ℕ) (i : Invitation)
      → Usable now w.team i
      → Inv w
      → Inv (record w { pending = i ∷ w.pending })
  found-Inv w now i usable inv = record {
    staff_key = inv.staff_key;
    code_key = inv.code_key;
    sessions = inv.sessions;
    pending = λ j at. pending-cons w i j (Usable-Guarded w now i usable inv) inv at;
  }

  owner_of :
      (u t : RefreshToken Token) (id staff_id : String)
      → u ≡ t
      → t.staff_id ≡ some staff_id
      → u.staff_id ≡ some id
      → staff_id ≡ id
  owner_of u t id staff_id same whose e = cc (ap (λ (y : RefreshToken Token). y.staff_id) same)

  pub redeem-Inv :
      (w : World Token) (now : ℕ) (i : Invitation) (t : RefreshToken Token)
      → Memᴰ i w.pending
      → t.staff_id ≡ some i.staff.id
      → count (is_spendable i.invite.id) w.team.invite_codes ≡ 1
      → Inv w
      → Inv (record w {
        team = record (w.team) {
          invite_codes =
              patch
                (is_spendable i.invite.id)
                (λ c. record c { used_at = some now })
                w.team.invite_codes;
          staff = patch (λ m. m.id == i.staff.id) (joined now i) w.team.staff;
          refresh_tokens = w.team.refresh_tokens ++ (t ∷ []);
        };
      })
  redeem-Inv w now i t i_in whose one inv =
      let grown : (id : String)
          → AllActive w.team.staff id
          → AllActive (patch (λ m. m.id == i.staff.id) (joined now i) w.team.staff) id =
        λ id all. AllActive-patch _ (joined now i) _ id (λ m. refl) (λ m. refl) all in
      let (c, c_in, spent) = count-mem (is_spendable i.invite.id) w.team.invite_codes one in
      let all =
        ((inv.pending i i_in).held c c_in (ground (arith, spent)) (ground (arith, spent))).1 in
      record {
        staff_key = IsKey-patch (λ (m : StaffMember). m.id) _ _ _ (λ m. refl) inv.staff_key;
        code_key = IsKey-patch (λ (c : InviteCode). c.id) _ _ _ (λ c. refl) inv.code_key;
        sessions = λ u at id e. elim (mem-append w.team.refresh_tokens (t ∷ []) at) [
          | inl old ↦ grown id (inv.sessions u old id e)
          | inr last ↦ grown id (
              subst (AllActive w.team.staff)
                (owner_of u t id i.staff.id (mem-singleton last) whose e) all)
        ];
        pending = λ j at.
            Guarded-Carried _ _ j (CodesCarried-spending now i.invite.id _)
              (λ d d_in d_on w_d all. grown j.staff.id all) (inv.pending j at);
      }
