-- ===== src/Coupon/Issue.antt =====
-- The coupons that an event issues: src/modules/coupons/services/coupon-auto-issue.service.ts. The phone
-- number is given as it is once normalised, and each new coupon's identifier is made up for its policy.
-- A write that the database refuses, which is logged and skipped, is left out.
pub mod Growth
pub mod Repeat
use Prim.Native.String.{◌++◌}
use lit_server_nest.Prelude.{
  ℕ, Bool, true, false, not, ◌&&◌, ◌||◌, Option, none, some, List, [], ◌∷◌, String, ◌==◌, is_some,
  starts_with,
}
use lit_server_nest.Tx.{truthy}
use lit_server_nest.Tx.Live.{Live, ◌>>=◌, ◌>>◌, pure, commit}
use lit_server_nest.Tx.Tables.{find_row, find_rows, create_row}
use lit_server_nest.Wallet.{
  active, Trigger, Coupon, CouponPolicy, Wallet, WalletClient, coupon_rows, policy_rows,
}
use lit_server_nest.Coupon.{same_type, same_trigger, same_text, or_text, or_week, add_days}

-- The events that may issue a coupon; the completion of a reservation issues none.
pub data Event : Type 0 where
  reservation_completed : Event
  trigger : Trigger → Event

pub record IssueParams : Type 0 where
  pub customer_id : Option String
  pub phone_snapshot : Option String
  pub store_id : Option String
  pub event : Event
  pub reservation_id : Option String

abbrev pub create_guest_coupon_owner : Option String → Option String
create_guest_coupon_owner none = none
create_guest_coupon_owner (some phone) = some ("guest_phone_" ++ phone)

abbrev pub or_else : Option String → Option String → Option String
or_else none b = b
or_else (some a) b = some a

-- `!!phoneSnapshot && customerId.startsWith('guest_phone_')`
unfoldable pub is_guest_coupon : Option String → String → Bool
is_guest_coupon phone_snapshot customer_id =
    is_some (truthy phone_snapshot) && starts_with customer_id "guest_phone_"

-- The policies of the store and of no store in particular
abbrev pub applies : Option String → CouponPolicy → Bool
applies store_id p =
    same_text p.store_id none || (is_some (truthy store_id) && same_text p.store_id store_id)

unfoldable pub is_same_issue : IssueParams → String → CouponPolicy → Coupon → Bool
unfolding is_guest_coupon
is_same_issue params customer_id policy c =
    c.customer_id == customer_id
    && same_text c.store_id (or_else policy.store_id params.store_id)
    && same_type c.type policy.type
    && c.title == policy.name
    && (not (is_some (truthy params.reservation_id))
        || same_text c.reservation_id params.reservation_id)
    && (not (is_guest_coupon params.phone_snapshot customer_id)
        || same_text c.phone_snapshot params.phone_snapshot)

unfoldable pub issued_coupon : ℕ → String → IssueParams → String → CouponPolicy → Coupon
unfolding add_days
issued_coupon now coupon_id params customer_id policy = record {
  id = coupon_id;
  customer_id = customer_id;
  store_id = or_else policy.store_id params.store_id;
  type = policy.type;
  title = or_text policy.name "쿠폰";
  status = active;
  expires_at = add_days now (or_week policy.validity_days);
  used_at = none;
  reservation_id = params.reservation_id;
  phone_snapshot = params.phone_snapshot;
  updated_at = now;
}

module _ (client : WalletClient) where
  unfoldable pub create_unless : Bool → Coupon → Live Wallet (Option String)
  create_unless true coupon = pure none
  create_unless false coupon = do
    commit (create_row (coupon_rows client) coupon)
    pure (some coupon.id)

  unfoldable pub issue_policy_coupon :
      ℕ
      → (CouponPolicy → String)
      → IssueParams
      → String
      → CouponPolicy
      → Live Wallet (Option String)
  unfolding is_same_issue issued_coupon create_unless
  issue_policy_coupon now new_id params customer_id policy = do
    duplicate ← commit (find_row (coupon_rows client) (is_same_issue params customer_id policy))
    create_unless (is_some duplicate) (issued_coupon now (new_id policy) params customer_id policy)

  abbrev pub with_created : Option String → List String → List String
  with_created none ids = ids
  with_created (some id) ids = id ∷ ids

  -- `for (const policy of policies)`
  unfoldable pub issue_each :
      ℕ
      → (CouponPolicy → String)
      → IssueParams
      → String
      → List CouponPolicy
      → Live Wallet (List String)
  unfolding issue_policy_coupon
  issue_each now new_id params customer_id [] = pure []
  issue_each now new_id params customer_id (policy ∷ rest) =
      let later = issue_each now new_id params customer_id rest in
      do
        created ← issue_policy_coupon now new_id params customer_id policy
        ids ← later
        pure (with_created created ids)

  unfoldable pub issue_for_owner :
      ℕ → (CouponPolicy → String) → IssueParams → Event → Option String → Live Wallet (List String)
  unfolding issue_each
  issue_for_owner now new_id params event none = pure []
  issue_for_owner now new_id params reservation_completed (some customer_id) = pure []
  issue_for_owner now new_id params (trigger t) (some customer_id) = do
    policies ← commit (
        find_rows (policy_rows client)
          (λ p. same_trigger p.auto_issue_on t && p.enabled && applies params.store_id p))
    issue_each now new_id params customer_id policies

  unfoldable pub issue_for_trigger :
      ℕ → (CouponPolicy → String) → IssueParams → Live Wallet (List String)
  unfolding issue_for_owner
  issue_for_trigger now new_id params =
      issue_for_owner now new_id params params.event
        (truthy (or_else params.customer_id (create_guest_coupon_owner params.phone_snapshot)))
