-- ===== src/OwnerActions/Atomicity.antt =====
-- What check-in and check-out by the owner's links do to the group of a reservation.
use lit_server_nest.Prelude.{
  ℕ, Option, none, some, List, [], ◌∷◌, String, ◌≡◌, ok, get_or, arith, subst, fun_ext, refl,
}
use lit_server_nest.Reservation.{
  Reservation, Db, Status, PaymentStatus, unpaid, paid, pending, pending_approval, confirmed,
  in_progress, completed,
}
use lit_server_nest.Tx.{Client}
use lit_server_nest.Tx.Ensures.{Ensures, ensures_pure, ensures_bind, ensures_throw_if}
use lit_server_nest.Group.Preservation.{for_each-Same, resolve_group-Resolved}
use lit_server_nest.Group.Atomicity.{Keyed, GroupChanged, resolved_swap, resolved_changed}
use lit_server_nest.NoShow.{GroupResult}
use lit_server_nest.Command.{Message, checkout_review}
use lit_server_nest.OwnerActions.{
  StorageAction, occupying, releasing, settled_payment, act_on_storage, transition_in_tx, check_in,
  check_out, arrived, picked_up,
}
use lit_server_nest.OwnerActions.Preservation.{act_on_storage-Same}

-- The payment status of a member: paid if the representative's was unpaid, else as it was.
abbrev pub after_visit : Option PaymentStatus → Option PaymentStatus → Option PaymentStatus
after_visit (some unpaid) own = some paid
after_visit _ own = own

settled_payment_lem :
    (rep row : Reservation)
    → settled_payment rep row ≡ after_visit rep.payment_status row.payment_status
settled_payment_lem rep row = ground arith

-- The columns of a member once the group has been checked in.
abbrev pub checked_in : ℕ → Reservation → Reservation → Reservation
checked_in now rep row = record row {
  status = some in_progress;
  actual_start_time = some now;
  payment_status = after_visit rep.payment_status row.payment_status;
  updated_at = some now;
}

-- The columns of a member once the group has been checked out.
abbrev pub checked_out : ℕ → Reservation → Reservation → Reservation
checked_out now rep row = record row {
  status = some completed;
  actual_start_time = some (get_or rep.actual_start_time now);
  actual_end_time = some now;
  payment_status = after_visit rep.payment_status row.payment_status;
  updated_at = some now;
}

arrived_lem : (now : ℕ) → arrived now ≡ checked_in now
arrived_lem now = fun_ext λ rep. fun_ext λ row. rw (settled_payment_lem rep row) refl

picked_up_lem : (now : ℕ) → picked_up now ≡ checked_out now
picked_up_lem now = fun_ext λ rep. fun_ext λ row. rw (settled_payment_lem rep row) refl

-- The group of a reservation has been checked in.
pub record CheckedIn (client : Client) (now : ℕ) (reservation_id : String) (db : Db)
    (result : GroupResult) (out : Db) : Type 0 where
  pub representative : Reservation
  pub members : List Reservation
  pub change :
      GroupChanged client reservation_id none
        (pending ∷ pending_approval ∷ confirmed ∷ [])
        (checked_in now)
        db
        representative
        members
        result.updated_count
        out
  pub answered : (result.id ≡ representative.id) × (result.status ≡ in_progress)

-- The group of a reservation has been checked out.
pub record CheckedOut (client : Client) (now : ℕ) (reservation_id : String) (db : Db)
    (result : GroupResult) (messages : List Message) (out : Db) : Type 0 where
  pub representative : Reservation
  pub members : List Reservation
  pub change :
      GroupChanged client reservation_id none
        (pending ∷ pending_approval ∷ confirmed ∷ in_progress ∷ [])
        (checked_out now)
        db
        representative
        members
        result.updated_count
        out
  pub answered : (result.id ≡ representative.id) × (result.status ≡ completed)
  pub asked : messages ≡ checkout_review representative ∷ []

module _ (client : Client) (now : ℕ) (reservation_id : String) (db : Db)
    (keyed : Keyed db.reservations) where
  -- Some group has changed, and the answer names its representative.
  abbrev Changed :
      List Status
      → Status
      → (Reservation → Reservation → Reservation)
      → GroupResult × Reservation
      → Db
      → Type 0
  Changed allowed_from next build_data p out =
      (members : List Reservation) × GroupChanged client reservation_id none allowed_from build_data
        db p.1 members p.0.updated_count out
      × (p.0.id ≡ p.1.id)
      × (p.0.status ≡ next)

  transition-exact :
      (allowed_from : List Status) (next : Status)
      (build_data : Reservation → Reservation → Reservation) (action : StorageAction)
      → Ensures
          (transition_in_tx client now reservation_id allowed_from next build_data action)
          db
          (Changed allowed_from next build_data)
  unfolding transition_in_tx
  transition-exact allowed_from next build_data action =
      ensures_bind _ _ _ (resolve_group-Resolved client reservation_id none db)
        λ found mid resolved. ensures_throw_if _ _ _ λ free.
          ensures_bind _ _ _
            (resolved_swap client reservation_id none allowed_from build_data db mid found.0 found.1
              resolved free keyed)
            λ u swapped exact.
              ensures_bind _ _ _
                (for_each-Same (act_on_storage client now action)
                  (act_on_storage-Same client now action) found.1 swapped)
                λ v out same. ensures_pure _ (
                  found.1,
                  resolved_changed client reservation_id none allowed_from build_data db mid found.0
                      found.1 resolved free swapped out exact same,
                  refl,
                  refl,
                )

  arrival :
      Ensures
        (check_in client now reservation_id)
        db
        (λ result out. CheckedIn client now reservation_id db result out)
  unfolding check_in
  arrival =
      ensures_bind _ _ _
        (transition-exact (pending ∷ pending_approval ∷ confirmed ∷ []) in_progress (arrived now)
          occupying)
        λ p out (members, change, named, status). ensures_pure _ (record {
          representative = p.1;
          members = members;
          change =
              subst
                (λ f.
                  GroupChanged client reservation_id none
                    (pending ∷ pending_approval ∷ confirmed ∷ []) f db p.1 members p.0.updated_count
                    out)
                (arrived_lem now) change;
          answered = (named, status);
        })

  departure :
      Ensures
        (check_out client now reservation_id)
        db
        (λ result out. CheckedOut client now reservation_id db result.0 result.1 out)
  unfolding check_out
  departure =
      ensures_bind _ _ _
        (transition-exact (pending ∷ pending_approval ∷ confirmed ∷ in_progress ∷ []) completed
          (picked_up now) releasing)
        λ p out (members, change, named, status). ensures_pure _ (record {
          representative = p.1;
          members = members;
          change =
              subst
                (λ f.
                  GroupChanged client reservation_id none
                    (pending ∷ pending_approval ∷ confirmed ∷ in_progress ∷ []) f db p.1 members
                    p.0.updated_count out)
                (picked_up_lem now) change;
          answered = (named, status);
          asked = refl;
        })

  -- Where the ids are a key, a check-in by link that succeeds puts exactly the members of the group in
  -- progress, with the current time as their start and their last change, and paid if the
  -- representative was unpaid; nothing else of any row changes. Every member was pending, awaiting
  -- approval or confirmed; the result counts them, and names the representative and the status.
  pub check_in-exact :
      (result : GroupResult) (out : Db)
      → check_in client now reservation_id db ≡ ok (result, out)
      → CheckedIn client now reservation_id db result out
  check_in-exact = arrival.holds

  -- Where the ids are a key, a check-out by link that succeeds completes exactly the members of the
  -- group, with the current time as their end and their last change, the representative's start (or
  -- the current time) as their start, and paid if the representative was unpaid; nothing else of any
  -- row changes. Every member was pending, awaiting approval, confirmed or in progress; the result
  -- counts them, names the representative and the status, and one review is asked for, of the
  -- representative as it was.
  pub check_out-exact :
      (result : GroupResult) (messages : List Message) (out : Db)
      → check_out client now reservation_id db ≡ ok ((result, messages), out)
      → CheckedOut client now reservation_id db result messages out
  check_out-exact result messages = departure.holds (result, messages)
