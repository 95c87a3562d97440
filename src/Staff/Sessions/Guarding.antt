-- ===== src/Staff/Sessions/Guarding.antt =====
-- How the codes and the members of staff (src/modules/staff/staff.service.ts) carry over from one
-- state of the tables to the next.
use lit_server_nest.Prelude.{
  ℕ, ◌≡◌, ◌≢◌, sym, ap, ◌∙◌, inl, inr, Bool, true, List, [], ◌∷◌, ◌++◌, String, ◌==◌, eq_iff, Memᴰ,
  patch, mem-patch, mem-append, mem-singleton, key-step_row, step_row-miss, Bool-cases, Carried,
}
use lit_server_nest.Staff.{StaffMember, InviteCode, Team, is_active, is_open}
use lit_server_nest.Staff.Effects.{dismiss}
use lit_server_nest.Staff.Redeem.{Invitation}
use lit_server_nest.Staff.Sessions.{AllActive, Guarded}

pub AllActive-patch :
    (p : StaffMember → Bool) (f : StaffMember → StaffMember) (staff : List StaffMember)
    (id : String)
    → ((m : StaffMember) → (f m).id ≡ m.id)
    → ((m : StaffMember) → (f m).status ≡ m.status)
    → AllActive staff id
    → AllActive (patch p f staff) id
AllActive-patch p f staff id same_id same_status all m at e =
    let (x, x_in, step) = mem-patch p f staff at in
    let x_id : x.id ≡ id =
      sym (key-step_row (λ (y : StaffMember). y.id) p f x same_id)
      ∙ (ap (λ (y : StaffMember). y.id) (sym step) ∙ e) in
    let status : m.status ≡ x.status =
      ap (λ (y : StaffMember). y.status) step
      ∙ key-step_row (λ (y : StaffMember). y.status) p f x same_status in
    ap is_active status ∙ all x x_in x_id

pub AllActive-append :
    (staff : List StaffMember) (new : StaffMember) (id : String)
    → is_active new.status ≡ true
    → AllActive staff id
    → AllActive (staff ++ (new ∷ [])) id
AllActive-append staff new id on all m at e = elim (mem-append staff (new ∷ []) at) [
  | inl old ↦ all m old e
  | inr last ↦ ap (λ (y : StaffMember). is_active y.status) (mem-singleton last) ∙ on
]

-- The dismissal of one member leaves the others.
pub AllActive-dismiss :
    (now : ℕ) (extra : StaffMember → StaffMember) (staff : List StaffMember) (staff_id id : String)
    → ((m : StaffMember) → (extra m).id ≡ m.id)
    → staff_id ≢ id
    → AllActive staff id
    → AllActive (patch (λ m. m.id == staff_id) (dismiss now extra) staff) id
AllActive-dismiss now extra staff staff_id id same_id other all m at e =
    let p : StaffMember → Bool = λ m. m.id == staff_id in
    let (x, x_in, step) = mem-patch p (dismiss now extra) staff at in
    let x_id : x.id ≡ id =
      sym (key-step_row (λ (y : StaffMember). y.id) p (dismiss now extra) x same_id)
      ∙ (ap (λ (y : StaffMember). y.id) (sym step) ∙ e) in
    elim (Bool-cases (x.id == staff_id)) [
      | inl hit ↦ elim (other (sym ((eq_iff x.id staff_id).0 hit) ∙ x_id)) [ ]
      | inr miss ↦
          ap (λ (y : StaffMember). is_active y.status)
            (step ∙ step_row-miss p (dismiss now extra) x miss)
          ∙ all x x_in x_id
    ]

-- The codes and the members of staff as carried rows: a code is on while it is open, and belongs to
-- its member; a member is on while active.
abbrev pub CodesCarried : List InviteCode → List InviteCode → Type 0
CodesCarried = Carried (λ (c : InviteCode). c.id) (λ c. c.staff_id) is_open

abbrev pub StaffCarried : List StaffMember → List StaffMember → Type 0
StaffCarried = Carried (λ (m : StaffMember). m.id) (λ m. m.id) (λ m. is_active m.status)

-- A pending invitation stays guarded, where every code that is still open keeps its member active.
pub Guarded-Carried :
    {Token : Type 0} (db out : Team Token) (i : Invitation)
    → CodesCarried db.invite_codes out.invite_codes
    → ((d : InviteCode)
        → Memᴰ d out.invite_codes
        → is_open d ≡ true
        → d.staff_id ≡ i.staff.id
        → AllActive db.staff i.staff.id
        → AllActive out.staff i.staff.id)
    → Guarded db i
    → Guarded out i
Guarded-Carried db out i carried staff guarded =
    let (c0, c0_in, c0_id) = guarded.stored in
    let (d0, d0_in, d0_id) = carried.kept c0 c0_in in
    record {
      stored = (d0, d0_in, d0_id ∙ c0_id);
      held = λ d d_in d_id on. elim (carried.origin d d_in on) [
        | inl found ↦
            let (c, c_in, c_id, c_staff, c_on) = found in
            let (whose, all) = guarded.held c c_in (c_id ∙ d_id) c_on in
            let d_whose = sym c_staff ∙ whose in (d_whose, staff d d_in on d_whose all)
        | inr fresh ↦ elim (fresh c0 c0_in (c0_id ∙ sym d_id)) [ ]
      ];
    }
