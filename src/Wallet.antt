-- ===== src/Wallet.antt =====
-- The tables behind the PIN of a store and the coupons (prisma/schema.prisma: stores, coupons,
-- coupon_policies, reservations), with the columns that the services decide on or write. The amounts of a coupon are
-- only copied and are left out. A time is in milliseconds.
use lit_server_nest.Prelude.{ℕ, Bool, Option, String, List}
use lit_server_nest.Prisma.{Table}
use lit_server_nest.Reservation.{Reservation}
use lit_server_nest.Tx.Tables.{Entity}

pub record PinStore : Type 0 where
  pub id : String
  pub store_pin_hash : Option String
  pub store_pin_updated_at : Option ℕ
  pub store_pin_failed_count : ℕ
  pub store_pin_locked_until : Option ℕ
  pub updated_at : ℕ

pub data CouponStatus : Type 0 where
  active used expired : CouponStatus

pub data CouponType : Type 0 where
  payment_discount store_benefit : CouponType

pub data Trigger : Type 0 where
  manual_claim signup checkin_completed : Trigger

pub record Coupon : Type 0 where
  pub id : String
  pub customer_id : String
  pub store_id : Option String
  pub type : CouponType
  pub title : String
  pub status : CouponStatus
  pub expires_at : ℕ
  pub used_at : Option ℕ
  pub reservation_id : Option String
  pub phone_snapshot : Option String
  pub updated_at : ℕ

pub record CouponPolicy : Type 0 where
  pub id : String
  pub store_id : Option String
  pub name : String
  pub type : CouponType
  pub validity_days : ℕ
  pub auto_issue_on : Trigger
  pub enabled : Bool

pub record Wallet : Type 0 where
  pub stores : List PinStore
  pub coupons : List Coupon
  pub coupon_policies : List CouponPolicy
  pub reservations : List Reservation

pub record WalletClient : Type 0 where
  pub stores : Table PinStore
  pub coupons : Table Coupon
  pub coupon_policies : Table CouponPolicy
  pub reservations : Table Reservation

module _ (client : WalletClient) where
  abbrev pub store_rows : Entity Wallet PinStore
  store_rows = record {
    table = client.stores;
    rows = λ db. db.stores;
    with_rows = λ xs db. record db { stores = xs };
  }

  abbrev pub coupon_rows : Entity Wallet Coupon
  coupon_rows = record {
    table = client.coupons;
    rows = λ db. db.coupons;
    with_rows = λ xs db. record db { coupons = xs };
  }

  abbrev pub policy_rows : Entity Wallet CouponPolicy
  policy_rows = record {
    table = client.coupon_policies;
    rows = λ db. db.coupon_policies;
    with_rows = λ xs db. record db { coupon_policies = xs };
  }

  abbrev pub reservation_rows : Entity Wallet Reservation
  reservation_rows = record {
    table = client.reservations;
    rows = λ db. db.reservations;
    with_rows = λ xs db. record db { reservations = xs };
  }
