-- ===== src/Coupon/Issue/Growth.antt =====
-- What issuing leaves behind: which coupons there are, and where they come from
-- (src/modules/coupons/services/coupon-auto-issue.service.ts).
use lit_server_nest.Prelude.{
  ℕ, ◌≡◌, ◌≢◌, refl, ◌∙◌, Bool, true, ◌&&◌, ◌||◌, Option, none, some, List, [], ◌∷◌, ◌++◌, ap,
  String, eq_iff, eq_refl, has, has-true, Memᴰ, arith, is_some, mem-append, mem-singleton, ◌⊎◌, inl,
  inr,
}
use lit_server_nest.Tx.{truthy}
use lit_server_nest.Wallet.{
  active, Trigger, Coupon, CouponType, payment_discount, store_benefit, CouponPolicy, Wallet,
}
use lit_server_nest.Coupon.{same_type, same_text, same_trigger}
use lit_server_nest.Coupon.Issue.{IssueParams, applies, is_same_issue, issued_coupon, or_else}

same_type_refl : (t : CouponType) → same_type t t ≡ true
same_type_refl payment_discount = refl
same_type_refl store_benefit = refl

same_text_refl : (o : Option String) → same_text o o ≡ true
same_text_refl none = refl
same_text_refl (some a) = eq_refl a

pub issued-same :
    (now : ℕ) (id : String) (params : IssueParams) (customer_id : String) (policy : CouponPolicy)
    → policy.name ≢ ""
    → is_same_issue params customer_id policy (issued_coupon now id params customer_id policy)
      ≡ true
unfolding is_same_issue issued_coupon
issued-same now id params customer_id policy named = ground (
  arith,
  eq_iff policy.name "",
  eq_refl policy.name,
  eq_refl customer_id,
  same_type_refl policy.type,
  same_text_refl (or_else policy.store_id params.store_id),
  same_text_refl params.reservation_id,
  same_text_refl params.phone_snapshot,
)

pub has-append :
    (p : Coupon → Bool) (xs : List Coupon) (y : Coupon) → has p (xs ++ (y ∷ [])) ≡ has p xs || p y
has-append p [] y = ground arith
has-append p (x ∷ xs) y = ground (arith, has-append p xs y)

-- A coupon of this issue is there.
abbrev pub IsCovered : IssueParams → String → Wallet → CouponPolicy → Type 0
IsCovered params customer_id w policy =
    has (is_same_issue params customer_id policy) w.coupons ≡ true

-- The coupon was there before, or is a new one that can be used.
abbrev pub IsOldOrNew : Wallet → Coupon → Type 0
IsOldOrNew w c = Memᴰ c w.coupons ⊎ ((c.status ≡ active) × (c.used_at ≡ none))

-- No coupon is lost, every further one can be used, and the policies stay.
pub record Grown (w u : Wallet) : Type 0 where
  pub coupons : (p : Coupon → Bool) → has p w.coupons ≡ true → has p u.coupons ≡ true
  pub origin : (c : Coupon) → Memᴰ c u.coupons → IsOldOrNew w c
  pub policies : u.coupon_policies ≡ w.coupon_policies

pub Grown-refl : (w : Wallet) → Grown w w
Grown-refl w = record { coupons = λ p h. h; origin = λ c m. inl m; policies = refl }

pub Grown-trans : (w v u : Wallet) → Grown w v → Grown v u → Grown w u
Grown-trans w v u first second = record {
  coupons = λ p h. second.coupons p (first.coupons p h);
  origin = λ c m. elim (second.origin c m) [ inl old ↦ first.origin c old | inr new ↦ inr new ];
  policies = second.policies ∙ first.policies;
}

pub Grown-create :
    (w : Wallet) (c : Coupon)
    → c.status ≡ active
    → c.used_at ≡ none
    → Grown w (record w { coupons = w.coupons ++ (c ∷ []) })
Grown-create w c on unused = record {
  coupons = λ p h. rw (has-append p w.coupons c, h) refl;
  origin = λ d m. elim (mem-append w.coupons (c ∷ []) m) [
    | inl old ↦ inl old
    | inr new ↦
        let same : d ≡ c = mem-singleton new in
        inr (ap (λ (x : Coupon). x.status) same ∙ on, ap (λ (x : Coupon). x.used_at) same ∙ unused)
  ];
  policies = refl;
}

-- The policy is enabled, for this event, and for this store or for none in particular.
pub record Concerns (t : Trigger) (params : IssueParams) (policy : CouponPolicy) : Type 0 where
  pub event : policy.auto_issue_on ≡ t
  pub on : policy.enabled ≡ true
  pub place :
      (policy.store_id ≡ none)
      ⊎ ((policy.store_id ≡ params.store_id) × (is_some (truthy params.store_id) ≡ true))

-- The customer has a coupon of the policy, which was there before or is a new one.
pub record Held (params : IssueParams) (customer_id : String) (policy : CouponPolicy) (w u : Wallet)
    : Type 0 where
  pub coupon : Coupon
  pub stored : Memᴰ coupon u.coupons
  pub owner : coupon.customer_id ≡ customer_id
  pub store : coupon.store_id ≡ or_else policy.store_id params.store_id
  pub kind : coupon.type ≡ policy.type
  pub title : coupon.title ≡ policy.name
  pub usable : IsOldOrNew w coupon

same_type_sound : (a b : CouponType) → same_type a b ≡ true → a ≡ b
same_type_sound a b h = ground arith

same_text_sound : (a b : Option String) → same_text a b ≡ true → a ≡ b
same_text_sound none none h = refl
same_text_sound none (some b) h = cc
same_text_sound (some a) none h = cc
same_text_sound (some a) (some b) h = ap some ((eq_iff a b).0 h)

same_trigger_refl : (t : Trigger) → same_trigger t t ≡ true
same_trigger_refl t = ground arith

pub Concerns-found :
    (t : Trigger) (params : IssueParams) (policy : CouponPolicy)
    → Concerns t params policy
    → same_trigger policy.auto_issue_on t && policy.enabled && applies params.store_id policy ≡ true
Concerns-found t params policy c =
    rw (c.event, same_trigger_refl t, c.on)
      (elim c.place [
        | inl general ↦ rw general refl
        | inr (own, named) ↦ rw (own, same_text_refl params.store_id, named) (ground arith)
      ])

pub covered-Held :
    (params : IssueParams) (customer_id : String) (policy : CouponPolicy) (w u : Wallet)
    → Grown w u
    → IsCovered params customer_id u policy
    → Held params customer_id policy w u
unfolding is_same_issue
covered-Held params customer_id policy w u grown covered =
    let (c, c_in, same) = has-true (is_same_issue params customer_id policy) u.coupons covered in
    record {
      coupon = c;
      stored = c_in;
      owner = (eq_iff c.customer_id customer_id).0 (ground arith);
      store = same_text_sound c.store_id _ (ground arith);
      kind = same_type_sound c.type policy.type (ground arith);
      title = (eq_iff c.title policy.name).0 (ground arith);
      usable = grown.origin c c_in;
    }
