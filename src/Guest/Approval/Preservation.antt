-- ===== src/Guest/Approval/Preservation.antt =====
-- `autoApproveGroup` against the invariant of the reservations. Each storage is looked for after the
-- rows before it have been written.
use lit_server_nest.Prelude.{
  ℕ, Bool, true, false, Option, none, some, List, [], ◌∷◌, String, ◌==◌, ◌≡◌, ◌≢◌, refl, sym, subst,
  ◌∙◌, ok, arith, Memᴰ, patch, step_row, patch-mem, All, All-of_mem,
}
use lit_server_nest.Reservation.{
  Reservation, Storage, StorageType, Db, pending, confirmed, is_status, status_in,
}
use lit_server_nest.Tx.{Client}
use lit_server_nest.Tx.Ensures.{Ensures, ensures_pure, ensures_bind}
use lit_server_nest.Tx.Inversion.{update_reservation-eq-ok}
use lit_server_nest.ReservationStorage.{find_storage_for_reservation}
use lit_server_nest.ReservationStorage.Assignment.{
  find_storage-Suitable, find_storage_unchanged, is_active-blocks,
}
use lit_server_nest.Lifecycle.{Advance, Evolves, Inv, is_active, overlap}
use lit_server_nest.Lifecycle.Patches.{Evolves-refl, Evolves-trans}
use lit_server_nest.Lifecycle.Assigning.{assign_kept}
use lit_server_nest.Command.{hours_of, assigned_pair, approved}
use lit_server_nest.Guest.Approval.{
  waiting_where, storage_of_row, approve_row, approve_rows, auto_approve_group,
}

-- What is left of a row that was read as pending: its hours stand, and it may have been confirmed.
record Ready (rows : List Reservation) (row : Reservation) : Type 0 where
  current : Reservation
  listed : Memᴰ current rows
  same_id : current.id ≡ row.id
  same_start : current.start_time ≡ row.start_time
  same_end : current.end_time ≡ row.end_time
  waits : status_in (pending ∷ confirmed ∷ []) current.status ≡ true

waits_stays :
    (now : ℕ) (row x : Reservation) (a b : Option String) (cond : Reservation → Bool)
    → status_in (pending ∷ confirmed ∷ []) x.status ≡ true
    → status_in (pending ∷ confirmed ∷ []) (step_row cond (approved now row a b) x).status ≡ true
unfolding is_status
waits_stays now row x a b cond h = ground arith

waiting_waits :
    (group_id : String) (x : Reservation)
    → waiting_where group_id x ≡ true
    → status_in (pending ∷ confirmed ∷ []) x.status ≡ true
unfolding is_status
waiting_waits group_id x h = ground arith

step_fields :
    (now : ℕ) (row x : Reservation) (a b : Option String) (cond : Reservation → Bool)
    → let y = step_row cond (approved now row a b) x in
      (y.id ≡ x.id) × (y.start_time ≡ x.start_time) × (y.end_time ≡ x.end_time)
step_fields now row x a b cond = ground arith

Ready-patch :
    (now : ℕ) (row : Reservation) (a b : Option String) (cond : Reservation → Bool)
    (rows : List Reservation) (other : Reservation)
    → Ready rows other
    → Ready (patch cond (approved now row a b) rows) other
Ready-patch now row a b cond rows other r =
    let f = approved now row a b in
    let same = step_fields now row r.current a b cond in
    record {
      current = step_row cond f r.current;
      listed = patch-mem cond f rows r.listed;
      same_id = same.0 ∙ r.same_id;
      same_start = same.1 ∙ r.same_start;
      same_end = same.2 ∙ r.same_end;
      waits = waits_stays now row r.current a b cond r.waits;
    }

approved-Advance :
    (now : ℕ) (row x : Reservation) (a b : Option String)
    → status_in (pending ∷ confirmed ∷ []) x.status ≡ true
    → Advance x (approved now row a b x)
unfolding is_status
approved-Advance now row x a b can = record {
  same_id = refl;
  same_store = refl;
  same_group = refl;
  same_start = refl;
  same_end = refl;
  same_bags = refl;
  forward = ground arith;
}

-- No active reservation of the storage meets the hours of the row.
abbrev Free : List Reservation → Reservation → Option String → Type 0
Free rows x key =
    (b : Reservation) (k : String)
    → Memᴰ b rows
    → b.id ≢ x.id
    → is_active b ≡ true
    → key ≡ some k
    → b.storage_id ≡ some k
    → overlap x b ≡ false

module _ (client : Client) (now : ℕ) where
  found-Free :
      (db : Db) (row x : Reservation) (type : StorageType) (found : Option Storage)
      → x.start_time ≡ row.start_time
      → x.end_time ≡ row.end_time
      → find_storage_for_reservation client (hours_of row.store_id row type) db ≡ ok (found, db)
      → Free db.reservations x (assigned_pair found).0
  found-Free db row x type none p q h b k m ne act e s = cc
  found-Free db row x type (some t) p q h b k m ne act e s =
      (find_storage-Suitable client (hours_of row.store_id row type) db x t (p, q) h).1.free b m
        (is_active-blocks b act) (s ∙ sym e)

  storage_of_row-Free :
      (db : Db) (row x : Reservation) (o : Option StorageType)
      → x.start_time ≡ row.start_time
      → x.end_time ≡ row.end_time
      → Ensures
          (storage_of_row client row o)
          db
          (λ found mid. (mid ≡ db) × Free db.reservations x (assigned_pair found).0)
  unfolding storage_of_row
  storage_of_row-Free db row x none p q = ensures_pure none (refl, λ b k m ne act e s. cc)
  storage_of_row-Free db row x (some type) p q = record {
    holds = λ found mid h.
        let (same, found_here) =
          find_storage_unchanged client (hours_of row.store_id row type) db found mid h in
        (same, found-Free db row x type found p q found_here);
  }

  -- One row: the invariant stays, and what is ready stays ready.
  record RowApproved (db out : Db) : Type 0 where
    kept : Inv out.reservations × Evolves db.reservations out.reservations
    ready : (other : Reservation) → Ready db.reservations other → Ready out.reservations other

  row_kept :
      (db : Db) (row x : Reservation) (found : Option Storage)
      → Inv db.reservations
      → (x.id ≡ row.id)
      → Memᴰ x db.reservations
      → status_in (pending ∷ confirmed ∷ []) x.status ≡ true
      → Free db.reservations x (assigned_pair found).0
      → let f = approved now row (assigned_pair found).0 (assigned_pair found).1 in
        Inv (patch (λ r. r.id == row.id) f db.reservations)
        × Evolves db.reservations (patch (λ r. r.id == row.id) f db.reservations)
  row_kept db row x found inv same at waits free =
      let f = approved now row (assigned_pair found).0 (assigned_pair found).1 in
      subst
        (λ (key : String).
          Inv (patch (λ r. r.id == key) f db.reservations)
          × Evolves db.reservations (patch (λ r. r.id == key) f db.reservations))
        same
        (assign_kept db.reservations x f inv at
          (approved-Advance now row x (assigned_pair found).0 (assigned_pair found).1 waits)
          (omega arith) free)

  approve_row-Preserves :
      (db : Db) (row : Reservation)
      → Inv db.reservations
      → Ready db.reservations row
      → Ensures (approve_row client now row) db (λ _ out. RowApproved db out)
  unfolding approve_row
  approve_row-Preserves db row inv r =
      ensures_bind _ _ _
        (storage_of_row-Free db row r.current row.requested_storage_type r.same_start r.same_end)
        λ found mid picked. record {
          holds = λ u out e.
              updated found mid out picked.0
                (row_kept db row r.current found inv r.same_id r.listed r.waits picked.1)
                (update_reservation-eq-ok client row.id
                  (approved now row (assigned_pair found).0 (assigned_pair found).1) mid e);
        }
    where
      updated :
          (found : Option Storage) (mid out : Db)
          → mid ≡ db
          → Inv (
              patch
                (λ r. r.id == row.id)
                (approved now row (assigned_pair found).0 (assigned_pair found).1)
                db.reservations)
            × Evolves db.reservations (
                patch
                  (λ r. r.id == row.id)
                  (approved now row (assigned_pair found).0 (assigned_pair found).1)
                  db.reservations)
          → out ≡ record mid {
            reservations =
                patch
                  (λ r. r.id == row.id)
                  (approved now row (assigned_pair found).0 (assigned_pair found).1)
                  mid.reservations;
          }
          → RowApproved db out
      updated found mid out same kept e =
          rw (e, same)
            (record {
              kept = kept;
              ready =
                  Ready-patch now row (assigned_pair found).0 (assigned_pair found).1
                    (λ r. r.id == row.id) db.reservations;
            })

  approve_rows-Preserves :
      (rows : List Reservation) (db : Db)
      → Inv db.reservations
      → All (Ready db.reservations) rows
      → Ensures
          (approve_rows client now rows)
          db
          (λ _ out. Inv out.reservations × Evolves db.reservations out.reservations)
  unfolding approve_rows
  approve_rows-Preserves [] db inv ready = ensures_pure tt (inv, Evolves-refl db.reservations)
  approve_rows-Preserves (row ∷ rows) db inv ready =
      ensures_bind _ _ _ (approve_row-Preserves db row inv ready.0) λ u mid done. record {
        holds = λ v out e.
            let (inv_out, evolves) =
              (approve_rows-Preserves rows mid done.kept.0
                  (all_ready db mid rows done.ready ready.1)).holds
                v out e in
            (
              inv_out,
              Evolves-trans db.reservations mid.reservations out.reservations done.kept.1 evolves,
            );
      }
    where
      all_ready :
          (db mid : Db) (rows : List Reservation)
          → ((other : Reservation) → Ready db.reservations other → Ready mid.reservations other)
          → All (Ready db.reservations) rows
          → All (Ready mid.reservations) rows
      all_ready db mid [] h r = tt
      all_ready db mid (x ∷ xs) h r = (h x r.0, all_ready db mid xs h r.1)

  pub auto_approve_group-Preserves :
      (group_id : String) (db : Db)
      → Inv db.reservations
      → Ensures
          (auto_approve_group client now group_id)
          db
          (λ _ out. Inv out.reservations × Evolves db.reservations out.reservations)
  unfolding auto_approve_group
  auto_approve_group-Preserves group_id db inv =
      ensures_bind
        (λ rows mid.
          (mid ≡ db)
          × (rows ≡ client.reservations.find_many (waiting_where group_id) db.reservations))
        _ _ (record { holds = λ rows mid e. (cc, cc) })
        λ rows mid found.
          rw (found.0, found.1)
            (approve_rows-Preserves
              (client.reservations.find_many (waiting_where group_id) db.reservations) db inv
              (All-of_mem (Ready db.reservations) _ λ x m.
                ready_row group_id x
                  (client.reservations.find_many-mem (waiting_where group_id) db.reservations x m)))
    where
      ready_row :
          (group_id : String) (x : Reservation)
          → Memᴰ x db.reservations × (waiting_where group_id x ≡ true)
          → Ready db.reservations x
      ready_row group_id x (at, h) = record {
        current = x;
        listed = at;
        same_id = refl;
        same_start = refl;
        same_end = refl;
        waits = waiting_waits group_id x h;
      }
