-- ===== src/AutoComplete.antt =====
-- src/modules/reservations/services/reservation-auto-complete.service.ts: the hourly job that
-- completes the reservations whose end has passed six hours ago.
pub mod Preservation
use lit_server_nest.Prelude.{
  ℕ, suc, ◌+◌, ◌-◌, ◌*◌, Bool, true, false, ◌&&◌, Option, none, some, List, [], ◌∷◌, String, ◌==◌,
  has, ltb, if◌then◌else◌,
}
use lit_server_nest.Reservation.{
  Reservation, Storage, Status, confirmed, in_progress, completed, available, is_status, status_in,
}
use lit_server_nest.Tx.{
  Client, Tx, ◌>>=◌, ◌>>◌, pure, when, truthy, find_reservations, update_reservations,
  update_storages,
}
use lit_server_nest.ReservationStorage.{release}
use lit_server_nest.Group.{is_member}

abbrev pub auto_complete_grace_hours : ℕ
auto_complete_grace_hours = 6

abbrev pub auto_complete_from : List Status
auto_complete_from = confirmed ∷ in_progress ∷ []

-- `end_time: { lt: cutoff }`, which is false on NULL
abbrev pub ended_before : ℕ → Option ℕ → Bool
ended_before cutoff none = false
ended_before cutoff (some end_time) = ltb end_time cutoff

abbrev pub overdue_where : ℕ → Reservation → Bool
overdue_where cutoff r = status_in auto_complete_from r.status && ended_before cutoff r.end_time

-- The non-empty storage ids of the rows, repetitions included: they serve as a set.
unfoldable pub storage_ids_of : List Reservation → List String
storage_ids_of [] = []
storage_ids_of (r ∷ rs) =
    let rest = storage_ids_of rs in
    elim (truthy r.storage_id) [ none ↦ rest | some key ↦ key ∷ rest ]

abbrev pub among : List String → String → Bool
among keys key = has (λ k. k == key) keys

abbrev pub swept_where : List Reservation → Reservation → Bool
swept_where overdue r = is_member overdue r.id && status_in auto_complete_from r.status

abbrev pub auto_completed : ℕ → Reservation → Reservation
auto_completed now row = record row { status = some completed; updated_at = some now }

module _ (client : Client) where
  -- The end of the transaction, once there are overdue reservations.
  unfoldable pub sweep : ℕ → List Reservation → Tx ℕ
  unfolding storage_ids_of is_status
  sweep now overdue = do
    update_storages client (λ storage. among (storage_ids_of overdue) storage.id) (release now)
    update_reservations client (swept_where overdue) (auto_completed now)

  unfoldable pub sweep_any : ℕ → List Reservation → Tx ℕ
  unfolding sweep
  sweep_any now [] = pure 0
  sweep_any now (r ∷ rs) = sweep now (r ∷ rs)

  -- The number of reservations completed.
  unfoldable pub auto_complete_overdue : ℕ → Tx ℕ
  unfolding sweep_any is_status
  auto_complete_overdue now = do
    let cutoff = now - auto_complete_grace_hours * 3600000
    overdue ← find_reservations client (overdue_where cutoff)
    sweep_any now overdue
