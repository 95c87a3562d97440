-- ===== src/Tests/Samples.antt =====
-- The tables of the examples, and what the code makes of them.
use lit_server_nest.Prelude.{
  ℕ, pos, Bool, true, false, none, some, List, [], ◌∷◌, String, ◌==◌, ◌≡◌, ◌≢◌, refl, sym, ap, ◌∙◌,
  Memᴰ, ok, arith, not, ◌&&◌, Bool-cases, inl, inr, All, All-mem, has, has-false, eq_iff,
  if◌then◌else◌,
}
use lit_server_nest.Reservation.{
  Reservation, Storage, Db, Status, confirmed, pending, completed, unpaid, available, occupied,
  StorageType,
}
use lit_server_nest.Status.Graph.{stage}
use lit_server_nest.Tx.{Client, ◌>>=◌}
use lit_server_nest.Prisma.Listed.{listed}
use lit_server_nest.Lifecycle.{Inv, is_active, overlap, hours_meet}
use lit_server_nest.Pricing.{normalize_storage_assignment_type}
use lit_server_nest.ReservationStorage.{find_storage_for_reservation}
use lit_server_nest.Group.Atomicity.{Keyed}
use lit_server_nest.Command.{StatusResponse, checkout_review, approve_reservation, approved}
use lit_server_nest.OwnerActions.{arrived, picked_up, check_in, check_out}
use lit_server_nest.NoShow.{GroupResult, mark_no_show, absent}

abbrev pub client : Client
client = record { reservations = listed; storages = listed }

-- A reservation of the store "store" from 100 to 200, on its own.
abbrev pub held : Reservation
held = record {
  id = "r1";
  store_id = "store";
  customer_id = some "customer_1";
  customer_phone = "01012345678";
  customer_email = none;
  storage_id = some "a";
  storage_number = some "S1";
  requested_storage_type = some StorageType.s;
  status = some confirmed;
  start_time = 100;
  end_time = some 200;
  confirmed_at = some 50;
  actual_start_time = none;
  actual_end_time = none;
  bag_count = 1;
  total_amount = pos 4500;
  luggage_image_urls = none;
  luggage_owner_memo = none;
  payment_status = some unpaid;
  payment_id = none;
  qr_code = none;
  reservation_group_id = some "r1";
  created_at = some 40;
  updated_at = some 50;
}

abbrev pub asking : Reservation
asking = record held {
  id = "r2";
  storage_id = none;
  storage_number = none;
  status = some pending;
  start_time = 150;
  confirmed_at = none;
  reservation_group_id = none;
}

abbrev pub past : Reservation
past = record held { id = "r3"; status = some completed; reservation_group_id = none }

-- After `held`, in the same storage.
abbrev pub coming : Reservation
coming = record held {
  id = "r4";
  start_time = 300;
  end_time = some 400;
  reservation_group_id = none;
}

abbrev pub storage_a : Storage
storage_a = record {
  id = "a";
  store_id = "store";
  number = "S1";
  type = StorageType.s;
  status = some available;
  pricing = 4500;
  updated_at = none;
}

abbrev pub storage_b : Storage
storage_b = record storage_a { id = "b"; number = "S2" }

abbrev pub before : Db
before = record {
  reservations = held ∷ asking ∷ past ∷ coming ∷ [];
  storages = storage_a ∷ storage_b ∷ [];
}

abbrev pub now : ℕ
now = 120

abbrev pub approval : StatusResponse
approval = record {
  id = "r2";
  status = confirmed;
  storage_id = some "b";
  storage_number = some "S2";
  photos = [];
}

abbrev pub after_approval : Db
after_approval = record before {
  reservations = held ∷ approved now asking (some "b") (some "S2") asking ∷ past ∷ coming ∷ [];
}

-- The storage "a" is promised to `held`, so `asking` gets "b".
pub approves : approve_reservation client now "store" "r2" before ≡ ok (approval, after_approval)
unfolding approve_reservation find_storage_for_reservation normalize_storage_assignment_type ◌>>=◌
approves = refl

abbrev pub no_show_result : GroupResult
no_show_result = record { id = "r1"; status = Status.no_show; updated_count = 1 }

abbrev pub after_no_show : Db
after_no_show = record {
  reservations = absent now held ∷ asking ∷ past ∷ coming ∷ [];
  storages = record storage_a { updated_at = some now } ∷ storage_b ∷ [];
}

pub marks_no_show :
    mark_no_show client now "r1" (some "store") before ≡ ok (no_show_result, after_no_show)
unfolding mark_no_show ◌>>=◌
marks_no_show = refl

-- No two rows have the same id.
abbrev fresh_ids : List Reservation → Bool
fresh_ids [] = true
fresh_ids (r ∷ rs) =
    let rest = fresh_ids rs in if has (λ (x : Reservation). x.id == r.id) rs then false else rest

other_id :
    (r x : Reservation) (rs : List Reservation)
    → fresh_ids (r ∷ rs) ≡ true
    → Memᴰ x rs
    → x.id ≢ r.id
other_id r x rs h m e =
    let free : has (λ (y : Reservation). y.id == r.id) rs ≡ false = ground arith in
    cc (has-false (λ (y : Reservation). y.id == r.id) rs free m, (eq_iff x.id r.id).1 e)

Keyed-of : (rows : List Reservation) → fresh_ids rows ≡ true → Keyed rows
Keyed-of [] h a b m n e = elim m [ ]
Keyed-of (r ∷ rs) h a b (Memᴰ.head p) (Memᴰ.head q) e = p ∙ sym q
Keyed-of (r ∷ rs) h a b (Memᴰ.head p) (Memᴰ.tail n) e =
    absurd (other_id r b rs h n (sym e ∙ ap (λ x. x.id) p))
Keyed-of (r ∷ rs) h a b (Memᴰ.tail m) (Memᴰ.head q) e =
    absurd (other_id r a rs h m (e ∙ ap (λ x. x.id) q))
Keyed-of (r ∷ rs) h a b (Memᴰ.tail m) (Memᴰ.tail n) e = Keyed-of rs (ground arith) a b m n e

pub before-Keyed : Keyed before.reservations
before-Keyed = Keyed-of before.reservations refl

-- Two different active reservations that meet.
abbrev clash : Reservation → Reservation → Bool
clash a b = not (a.id == b.id) && (is_active a && (is_active b && overlap a b))

no_clash : has (λ a. has (clash a) before.reservations) before.reservations ≡ false
unfolding is_active overlap hours_meet
no_clash = refl

apart :
    (a b : Reservation)
    → Memᴰ a before.reservations
    → Memᴰ b before.reservations
    → a.id ≢ b.id
    → is_active a ≡ true
    → is_active b ≡ true
    → overlap a b ≡ false
apart a b m n ne p q =
    let none_a =
      has-false (λ x. has (clash x) before.reservations) before.reservations no_clash m in
    let none_ab = has-false (clash a) before.reservations none_a n in
    elim (Bool-cases (a.id == b.id)) [
      | inl e ↦ absurd (ne ((eq_iff a.id b.id).0 e))
      | inr e ↦ ground (arith, none_ab, e, p, q)
    ]

waiting_free :
    All (λ (a : Reservation). stage a.status ≡ 0 → a.storage_id ≡ none) before.reservations
waiting_free = (λ h. cc, (λ _. refl, (λ h. cc, (λ h. cc, tt))))

-- The reservations of the examples satisfy the invariant.
pub before-Inv : Inv before.reservations
before-Inv = record {
  keyed = before-Keyed;
  unassigned = λ a m.
      All-mem (λ (x : Reservation). stage x.status ≡ 0 → x.storage_id ≡ none) before.reservations
        waiting_free m;
  no_double = λ a b k m n ne p q s t. apart a b m n ne p q;
}

pub different : (a b : String) → (a == b) ≡ false → a ≢ b
different a b e q = cc ((eq_iff a b).1 q, e)

-- The owner's links.
abbrev pub arrival_result : GroupResult
arrival_result = record { id = "r1"; status = Status.in_progress; updated_count = 1 }

abbrev pub after_arrival : Db
after_arrival = record {
  reservations = arrived now held held ∷ asking ∷ past ∷ coming ∷ [];
  storages = record storage_a { status = some occupied; updated_at = some now } ∷ storage_b ∷ [];
}

pub arrives : check_in client now "r1" before ≡ ok (arrival_result, after_arrival)
unfolding check_in ◌>>=◌
arrives = refl

abbrev pub departure_result : GroupResult
departure_result = record { id = "r1"; status = completed; updated_count = 1 }

abbrev pub after_departure : Db
after_departure = record {
  reservations = picked_up now held held ∷ asking ∷ past ∷ coming ∷ [];
  storages = record storage_a { updated_at = some now } ∷ storage_b ∷ [];
}

pub departs :
    check_out client now "r1" before
    ≡ ok ((departure_result, checkout_review held ∷ []), after_departure)
unfolding check_out ◌>>=◌
departs = refl
