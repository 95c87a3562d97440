-- ===== src/Tests/AccountExamples.antt =====
-- The theorems on tokens and staff at the samples.
use lit_server_nest.Prelude.{
  ℕ, ◌*◌, ◌≡◌, refl, true, some, List, ok, err, is_text, arith, length, Memᴰ, staff_revoked,
  invite_code_invalid,
}
use lit_server_nest.Tx.{◌>>=◌}
use lit_server_nest.Tx.Ensures.{Ensures}
use lit_server_nest.Tx.Tables.{update_row}
use lit_server_nest.Token.{generate_staff_access_token}
use lit_server_nest.Token.Durations.{
  to_seconds, match_duration, match_rest, match_unit, is_digit, is_unit, number, multipliers,
}
use lit_server_nest.Token.Durations.Units.{minute, to_seconds-decimal}
use lit_server_nest.Token.Verification.{verify, verify_access_token, check_access, is_missing}
use lit_server_nest.Token.Verification.Kinds.{staff_access, customer_refresh, store_refresh, claims}
use lit_server_nest.Token.Verification.Separation.{issue, verify_as, verify_as-issue}
use lit_server_nest.Staff.{
  StaffMember, Team, active, create_staff, issue_invite_code, revoke, revoke_unused_codes,
}
use lit_server_nest.Staff.Codes.{
  generate_invite_code, format_invite_code, normalize_invite_code, hash_invite_code,
}
use lit_server_nest.Staff.Codes.Spelling.{Spelling, normalize-generate_invite_code}
use lit_server_nest.Staff.Redeem.{use_invitation}
use lit_server_nest.Staff.Redeem.Redeemed.{session, joined}
use lit_server_nest.Staff.Guard.{can_activate}
use lit_server_nest.Staff.Guard.Admission.{StoreClaims, Admitted, can_activate-Admitted}
use lit_server_nest.Staff.Sessions.{here}
use lit_server_nest.Staff.Sessions.Reachable.{
  reachable-sessions_active, redeemed_once, dismissed-refused,
}
use lit_server_nest.Staff.Sessions.Limit.{WithinLimit, reachable-WithinLimit}
use lit_server_nest.Tests.Accounts.{
  Signed, jwt, config, config-IsDistinct, someone, someone-IsNamed, team_client, opening, w0,
  w0-Inv, sha256, out_of, w2, w3, invitation, refresh_token, uses, run,
}

quarter_hour : to_seconds "15m" ≡ 900
unfolding to_seconds match_duration match_rest match_unit is_digit is_unit number multipliers
quarter_hour = refl

seven_days : to_seconds "7d" ≡ 604800
unfolding to_seconds match_duration match_rest match_unit is_digit is_unit number multipliers
seven_days = refl

to_seconds-decimal_example : to_seconds "15m" ≡ 15 * 60
to_seconds-decimal_example = to_seconds-decimal "15m" 15 (some minute) refl (omega arith)

verify_as-issue_example :
    verify_as jwt config store_refresh 100 (issue jwt config customer_refresh 50 someone)
    ≡ ok (claims customer_refresh someone)
verify_as-issue_example =
    verify_as-issue jwt config config-IsDistinct store_refresh customer_refresh 50 100 someone
      someone-IsNamed (omega (arith, seven_days))

normalize-generate_invite_code_example :
    (length (generate_invite_code (λ i. 3)) ≡ 8)
    × Spelling (generate_invite_code (λ i. 3)) (format_invite_code (generate_invite_code (λ i. 3)))
    × ((typed : List ℕ)
        → Spelling (generate_invite_code (λ i. 3)) typed
        → normalize_invite_code typed ≡ generate_invite_code (λ i. 3))
normalize-generate_invite_code_example = normalize-generate_invite_code (λ i. 3) (λ i. omega arith)

abbrev member : StaffMember
member = joined 2000 invitation invitation.staff

session_stored :
    Memᴰ (session jwt config team_client 2000 invitation refresh_token) w3.team.refresh_tokens
unfolding create_staff issue_invite_code use_invitation update_row hash_invite_code ◌>>=◌
session_stored = Memᴰ.head refl

member_stored : Memᴰ member w3.team.staff
unfolding create_staff issue_invite_code use_invitation update_row hash_invite_code ◌>>=◌
member_stored = Memᴰ.head refl

reachable-sessions_active_example : member.status ≡ active
reachable-sessions_active_example =
    reachable-sessions_active jwt config team_client sha256 w0 w3 w0-Inv run
      (session jwt config team_client 2000 invitation refresh_token) session_stored member
      member_stored refl

redeemed_once_example :
    use_invitation jwt config team_client 3000 invitation refresh_token w3.team
    ≡ err invite_code_invalid
redeemed_once_example =
    redeemed_once jwt config team_client sha256 w2 w3 2000 3000 invitation invitation refresh_token
      refresh_token w3.team uses (here w3) refl

reachable-WithinLimit_example : WithinLimit "store" w3.team.staff
reachable-WithinLimit_example =
    reachable-WithinLimit jwt config team_client sha256 "store" w0 w3 run (omega arith)

abbrev access_token : Signed
access_token = generate_staff_access_token jwt config 2 "store" "staff_1"

token_accepted : verify_access_token jwt config 4 access_token ≡ ok (claims staff_access someone)
unfolding verify_access_token verify check_access is_missing to_seconds match_duration match_rest
    match_unit is_digit is_unit number multipliers generate_staff_access_token
token_accepted = refl

can_activate-Admitted_example :
    Ensures (can_activate jwt config team_client 4000 true access_token) w3.team (λ p out.
      (out ≡ w3.team)
      × StoreClaims p
      × (is_text p.role "staff" ≡ true → Admitted jwt config team_client true w3.team p))
can_activate-Admitted_example =
    can_activate-Admitted jwt config team_client 4000 true access_token w3.team

abbrev without_member : Team Signed
without_member = out_of opening (revoke team_client 3000 "staff_1" (λ m. m) w3.team)

dismisses : revoke team_client 3000 "staff_1" (λ m. m) w3.team ≡ ok (tt, without_member)
unfolding create_staff issue_invite_code use_invitation update_row hash_invite_code revoke
    revoke_unused_codes ◌>>=◌
dismisses = refl

dismissed-refused_example :
    can_activate jwt config team_client 4000 true access_token without_member ≡ err staff_revoked
dismissed-refused_example =
    dismissed-refused jwt config team_client sha256 w3 (record w3 { team = without_member }) 3000
      4000 member (λ m. m) without_member true access_token (claims staff_access someone)
      member_stored (λ x. refl) dismisses (here _) token_accepted refl refl
