-- ===== src/Coupon/Issue/Repeat.antt =====
-- An event that is reported again (src/modules/coupons/services/coupon-auto-issue.service.ts).
use lit_server_nest.Prelude.{
  ℕ, ◌≡◌, ◌≢◌, refl, sym, ◌∙◌, Bool, true, false, ◌&&◌, Option, none, some, List, [], ◌∷◌, ◌++◌,
  subst, String, has, has-true, has-false, All, All-of_mem, All-mem, Memᴰ, arith, ok, Bool-cases,
  Option-cases, inl, inr,
}
use lit_server_nest.Tx.{truthy}
use lit_server_nest.Tx.Live.{◌>>=◌, commit}
use lit_server_nest.Wallet.{Trigger, Coupon, CouponPolicy, Wallet, WalletClient}
use lit_server_nest.Coupon.{same_trigger}
use lit_server_nest.Coupon.Issue.{
  IssueParams, Event, trigger, create_guest_coupon_owner, issue_for_owner, issue_for_trigger,
  applies, is_same_issue, issued_coupon, create_unless, issue_policy_coupon, issue_each,
  with_created, or_else,
}
use lit_server_nest.Coupon.Issue.Growth.{
  issued-same, has-append, IsCovered, Grown, Grown-refl, Grown-trans, Grown-create, Concerns, Held,
  Concerns-found, covered-Held,
}

module _ (client : WalletClient) where
  found-IsCovered :
      (params : IssueParams) (customer_id : String) (policy : CouponPolicy) (w : Wallet)
      (c : Coupon)
      → client.coupons.find_first (is_same_issue params customer_id policy) w.coupons ≡ some c
      → IsCovered params customer_id w policy
  found-IsCovered params customer_id policy w c found =
      let p = is_same_issue params customer_id policy in
      let (c_in, same) = client.coupons.find_first-some p w.coupons c found in
      elim (Bool-cases (has p w.coupons)) [
        | inl there ↦ there
        | inr nowhere ↦ let z : true ≡ false = sym same ∙ has-false p w.coupons nowhere c_in in cc
      ]

  issue_once :
      (now : ℕ) (new_id : CouponPolicy → String) (params : IssueParams) (customer_id : String)
      (policy : CouponPolicy) (w : Wallet)
      → policy.name ≢ ""
      → (created : Option String) × (u : Wallet) × (issue_policy_coupon client now new_id params
            customer_id policy w
          ≡ (ok created, u))
        × IsCovered params customer_id u policy
        × Grown w u
  unfolding issue_policy_coupon create_unless issued_coupon ◌>>=◌ commit
  issue_once now new_id params customer_id policy w named =
      elim (Option-cases
        (client.coupons.find_first (is_same_issue params customer_id policy) w.coupons)) [
          | inl missing ↦
              let c = issued_coupon now (new_id policy) params customer_id policy in
              (
                some c.id,
                record w { coupons = w.coupons ++ (c ∷ []) },
                rw (missing, client.coupons.create_many_lem) refl,
                rw
                    (
                      has-append (is_same_issue params customer_id policy) w.coupons c,
                      issued-same now (new_id policy) params customer_id policy named,
                    )
                    (ground arith),
                Grown-create w c refl refl,
              )
          | inr (c, found) ↦ (
            none,
            w,
            rw found refl,
            found-IsCovered params customer_id policy w c found,
            Grown-refl w,
          )
        ]

  covered_issue :
      (now : ℕ) (new_id : CouponPolicy → String) (params : IssueParams) (customer_id : String)
      (policy : CouponPolicy) (w : Wallet)
      → IsCovered params customer_id w policy
      → issue_policy_coupon client now new_id params customer_id policy w ≡ (ok none, w)
  unfolding issue_policy_coupon create_unless ◌>>=◌ commit
  covered_issue now new_id params customer_id policy w covered =
      elim (Option-cases
        (client.coupons.find_first (is_same_issue params customer_id policy) w.coupons)) [
          | inl missing ↦
              let (c, c_in, same) =
                has-true (is_same_issue params customer_id policy) w.coupons covered in
              let z : true ≡ false =
                sym same
                ∙ client.coupons.find_first-none (is_same_issue params customer_id policy) w.coupons
                    missing c c_in in
              cc
          | inr (c, found) ↦ rw found refl
        ]

  module _ (new_id : CouponPolicy → String) (params : IssueParams) (customer_id : String) where
    -- The first run answers, and leaves a coupon of every policy.
    issue_each-covers :
        (now : ℕ) (policies : List CouponPolicy) (w : Wallet)
        → All (λ p. p.name ≢ "") policies
        → (ids : List String) × (u : Wallet) × (issue_each client now new_id params customer_id
              policies w
            ≡ (ok ids, u))
          × All (IsCovered params customer_id u) policies
          × Grown w u
    unfolding issue_each ◌>>=◌
    issue_each-covers now [] w named = ([], w, refl, tt, Grown-refl w)
    issue_each-covers now (policy ∷ rest) w named =
        let (created, u, first, covered, grown) =
          issue_once now new_id params customer_id policy w named.0 in
        let (ids, v, later, all, more) = issue_each-covers now rest u named.1 in
        (
          with_created client created ids,
          v,
          rw (first, later) refl,
          (more.coupons (is_same_issue params customer_id policy) covered, all),
          Grown-trans w u v grown more,
        )

    -- A run over policies that all have their coupon issues nothing.
    issue_each-covered :
        (now : ℕ) (policies : List CouponPolicy) (w : Wallet)
        → All (IsCovered params customer_id w) policies
        → issue_each client now new_id params customer_id policies w ≡ (ok [], w)
    unfolding issue_each ◌>>=◌
    issue_each-covered now [] w all = refl
    issue_each-covered now (policy ∷ rest) w all =
        rw
          (
            covered_issue now new_id params customer_id policy w all.0,
            issue_each-covered now rest w all.1,
          )
          refl

  module _ (now later : ℕ) (new_id other_id : CouponPolicy → String) (params : IssueParams)
      (w : Wallet) (named : (p : CouponPolicy) → Memᴰ p w.coupon_policies → p.name ≢ "")
      (t : Trigger) (customer_id : String) where
    -- What the first and the second run do for an event and an owner.
    abbrev IssuedOnce : Event → Option String → Type 0
    IssuedOnce event owner =
        (ids : List String) × (u : Wallet) × (issue_for_owner client now new_id params event owner w
          ≡ (ok ids, u))
        × ((policy : CouponPolicy)
            → Memᴰ policy w.coupon_policies
            → Concerns t params policy
            → Held params customer_id policy w u)
        × (issue_for_owner client later other_id params event owner u ≡ (ok [], u))

    issues : IssuedOnce (trigger t) (some customer_id)
    unfolding issue_for_owner ◌>>=◌ commit
    issues =
        let cond : CouponPolicy → Bool =
          λ p. same_trigger p.auto_issue_on t && p.enabled && applies params.store_id p in
        let policies = client.coupon_policies.find_many cond w.coupon_policies in
        let all_named : All (λ p. p.name ≢ "") policies =
          All-of_mem _ policies (λ p at.
            named p (client.coupon_policies.find_many-mem cond w.coupon_policies p at).0) in
        let (ids, u, first, all, grown) =
          issue_each-covers new_id params customer_id now policies w all_named in
        (
          ids,
          u,
          first,
          (λ policy at concerns. covered-Held params customer_id policy w u grown (
              All-mem (IsCovered params customer_id u) policies all (
                client.coupon_policies.mem-find_many cond w.coupon_policies policy at
                  (Concerns-found t params policy concerns)))),
          rw grown.policies (issue_each-covered other_id params customer_id later policies u all),
        )

    -- Where every policy has a name: an event that may issue coupons and that is reported for a
    -- customer (or for a guest by phone number) always answers, and then the customer has a coupon
    -- of every enabled policy for this event and store, of its store, type and name; it was there
    -- before, in whatever status, or is a new active one. Reporting the same event again, at
    -- whatever time, issues nothing and changes nothing.
    pub issue_for_trigger-again :
        params.event ≡ trigger t
        → truthy (or_else params.customer_id (create_guest_coupon_owner params.phone_snapshot))
          ≡ some customer_id
        → (ids : List String) × (u : Wallet) × (issue_for_trigger client now new_id params w
            ≡ (ok ids, u))
          × ((policy : CouponPolicy)
              → Memᴰ policy w.coupon_policies
              → Concerns t params policy
              → Held params customer_id policy w u)
          × (issue_for_trigger client later other_id params u ≡ (ok [], u))
    unfolding issue_for_trigger
    issue_for_trigger-again event owner =
        subst
          (λ e.
            IssuedOnce e (
              truthy
                (or_else params.customer_id (create_guest_coupon_owner params.phone_snapshot))))
          (sym event) (subst (λ o. IssuedOnce (trigger t) o) (sym owner) issues)
