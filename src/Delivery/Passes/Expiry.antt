-- ===== src/Delivery/Passes/Expiry.antt =====
-- What `expire_subscriptions` leaves of a subscription whose access ran out.
use fastkit.Base.{
  ◌==◌, ==_iff, Bool-cases, ℕ, ◌≡◌, refl, ◌∙◌, inl, inr, Bool, true, false, ◌&&◌, List, [], ◌∷◌,
  arith, length, zero, suc, ◌≤◌, sym, subst, ◌||◌,
}
use fastkit.Base.Table.{All, update_where, count_where, All-update_where, All-every, exists}
use fastkit.Dates.{DateTime}
use fastkit.Delivery.{is_active_benefit, Subscription, Store, SubscriptionStatus, BenefitStatus}
use fastkit.Delivery.Activation.{expire, end_benefit, expire_entitlements, end_benefits}
use fastkit.Delivery.Activation.Opening.{IsOff, IsStill, expire_entitlements-IsOff}
use fastkit.Delivery.Passes.{
  is_over, close, expire_one, limit, expiry_batch, expire_each, over_of, expire_subscriptions,
}

-- The subscription says that it is over, and nothing of it goes on.
abbrev pub IsClosed : ℕ → Subscription → Type 0
IsClosed id r =
    r.id ≡ id → (r.status ≡ SubscriptionStatus.expired) × (r.benefit_status ≡ BenefitStatus.ended)

pub record Closed (id : ℕ) (s : Store) : Type 0 where
  pub says_so : All (IsClosed id) s.subscriptions
  pub no_right : All (IsOff id) s.entitlements
  pub no_benefit : All (IsStill id) s.benefits

abbrev pub is_own_over : DateTime → ℕ → Subscription → Bool
is_own_over now id r = r.id == id && is_over now r

abbrev IsWaiting : DateTime → ℕ → Subscription → Type 0
IsWaiting now id r = r.id ≡ id → is_over now r ≡ true

-- The one row of the id still waits for its turn.
record Waiting (now : DateTime) (id : ℕ) (rs : List Subscription) : Type 0 where
  one : count_where (is_own_over now id) rs ≡ 1
  every : All (IsWaiting now id) rs

pub end_benefits-IsStill : (id : ℕ) (s : Store) → All (IsStill id) (end_benefits id s).benefits
unfolding end_benefits expire_entitlements is_active_benefit
end_benefits-IsStill id s =
    All-update_where (λ x. Unit {0}) (IsStill id) (λ b. b.subscription_id == id) end_benefit
      s.benefits (λ x met any own. refl) (λ x missed any own. absurd (ground arith))
      (All-every (λ x. Unit {0}) s.benefits (λ x. tt))

-- Closing one subscription opens no other.
end_benefits_other : (id other : ℕ) (s : Store) → Closed id s → Closed id (end_benefits other s)
unfolding end_benefits expire_entitlements is_active_benefit
end_benefits_other id other s c = record {
  says_so = c.says_so;
  no_right =
      All-update_where (IsOff id) (IsOff id) (λ u. u.subscription_id == other) expire s.entitlements
        (λ x met off own. refl) (λ x missed off. off) (c.no_right);
  no_benefit =
      All-update_where (IsStill id) (IsStill id) (λ b. b.subscription_id == other) end_benefit
        s.benefits (λ x met still own. refl) (λ x missed still. still) (c.no_benefit);
}

module _ (now : DateTime) (id : ℕ) where
  Closed-expire_one : (other : ℕ) (s : Store) → Closed id s → Closed id (expire_one now other s)
  unfolding expire_one
  Closed-expire_one other s c =
      let over : Subscription → Bool = λ r. r.id == other && is_over now r in
      let s' : Store = record s { subscriptions = update_where over (close now) s.subscriptions } in
      let c' : Closed id s' = record {
        says_so =
            All-update_where (IsClosed id) (IsClosed id) over (close now) s.subscriptions
              (λ x met closed own. (refl, refl)) (λ x missed closed. closed) (c.says_so);
        no_right = c.no_right;
        no_benefit = c.no_benefit;
      } in
      elim (Bool-cases (count_where over s.subscriptions == 1)) [
        | inl met ↦ rw (met, expire_one) (end_benefits_other id other s' c')
        | inr missed ↦ rw (missed, expire_one) c'
      ]

  -- The turn of the subscription itself.
  expire_one-Closed : (s : Store) → Waiting now id s.subscriptions → Closed id (expire_one now id s)
  unfolding expire_one end_benefits expire_entitlements
  expire_one-Closed s w =
      let over : Subscription → Bool = is_own_over now id in
      let s' : Store = record s { subscriptions = update_where over (close now) s.subscriptions } in
      let met : (count_where over s.subscriptions == 1) ≡ true =
        (==_iff (count_where over s.subscriptions) 1).1 (w.one) in
      rw (met, expire_one)
        (record {
          says_so =
              All-update_where (IsWaiting now id) (IsClosed id) over (close now) s.subscriptions
                (λ x hit waits own. (refl, refl))
                (λ x missed waits own. absurd (ground (arith, waits own))) (w.every);
          no_right = expire_entitlements-IsOff id s';
          no_benefit = end_benefits-IsStill id s';
        })

  count_other :
      (other : ℕ) (rs : List Subscription)
      → (other == id) ≡ false
      → count_where
          (is_own_over now id)
          (update_where (λ r. r.id == other && is_over now r) (close now) rs)
        ≡ count_where (is_own_over now id) rs
  count_other other [] e = refl
  count_other other (r ∷ rs) e = ground (arith, count_other other rs e)

  subscriptions-expire_one :
      (other : ℕ) (s : Store)
      → (expire_one now other s).subscriptions
        ≡ update_where (λ r. r.id == other && is_over now r) (close now) s.subscriptions
  unfolding expire_one end_benefits expire_entitlements
  subscriptions-expire_one other s =
      elim (Bool-cases (count_where (λ r. r.id == other && is_over now r) s.subscriptions == 1)) [
        | inl met ↦ rw (met, expire_one) refl
        | inr missed ↦ rw (missed, expire_one) refl
      ]

  Waiting-expire_one :
      (other : ℕ) (s : Store)
      → (other == id) ≡ false
      → Waiting now id s.subscriptions
      → Waiting now id (expire_one now other s).subscriptions
  Waiting-expire_one other s e w =
      let over : Subscription → Bool = λ r. r.id == other && is_over now r in
      subst (Waiting now id) (sym (subscriptions-expire_one other s)) (record {
        one = count_other other s.subscriptions e ∙ w.one;
        every =
            All-update_where (IsWaiting now id) (IsWaiting now id) over (close now) s.subscriptions
              (λ x met waits own. absurd (ground arith)) (λ x missed waits. waits) (w.every);
      })

  -- Whether a batch holds the row of the id.
  in_batch : List Subscription → Bool
  in_batch [] = false
  in_batch (r ∷ rs) = r.id == id || in_batch rs

  Closed-expire_each :
      (rs : List Subscription) (s : Store) → Closed id s → Closed id (expire_each now rs s)
  unfolding expire_each
  Closed-expire_each [] s c = c
  Closed-expire_each (r ∷ rs) s c =
      Closed-expire_each rs (expire_one now r.id s) (Closed-expire_one r.id s c)

  expire_each-Closed :
      (rs : List Subscription) (s : Store)
      → in_batch rs ≡ true
      → Waiting now id s.subscriptions
      → Closed id (expire_each now rs s)
  unfolding expire_each in_batch
  expire_each-Closed [] s h w = absurd (ground arith)
  expire_each-Closed (r ∷ rs) s h w = elim (Bool-cases (r.id == id)) [
    | inl own ↦
        let e = (==_iff r.id id).0 own in
        Closed-expire_each rs (expire_one now r.id s)
          (subst (λ k. Closed id (expire_one now k s)) (sym e) (expire_one-Closed s w))
    | inr other ↦
        expire_each-Closed rs (expire_one now r.id s) (ground arith)
          (Waiting-expire_one r.id s other w)
  ]

  -- A batch that is not full holds every row that the statement meets.
  in_batch-limit :
      (n : ℕ) (rs : List Subscription) → length rs ≤ n → in_batch (limit n rs) ≡ in_batch rs
  unfolding in_batch
  in_batch-limit zero [] h = refl
  in_batch-limit (suc n) [] h = refl
  in_batch-limit zero (r ∷ rs) h = absurd (omega (arith, h))
  in_batch-limit (suc n) (r ∷ rs) h = rw (in_batch-limit n rs (omega (arith, h))) refl

  in_batch-over :
      (rs : List Subscription)
      → count_where (is_own_over now id) rs ≡ 1
      → in_batch (over_of now rs) ≡ true
  unfolding in_batch
  in_batch-over [] h = absurd (ground arith)
  in_batch-over (r ∷ rs) h = ground (arith, in_batch-over rs)

  count_over :
      (rs : List Subscription)
      → count_where (is_own_over now id) rs ≤ count_where (λ r. r.id == id) rs
  count_over [] = omega arith
  count_over (r ∷ rs) = ground (arith, count_over rs)

  some_over :
      (rs : List Subscription)
      → exists (is_own_over now id) rs ≡ true
      → 1 ≤ count_where (is_own_over now id) rs
  some_over [] h = absurd (ground arith)
  some_over (r ∷ rs) h = ground (arith, some_over rs)

  one_row :
      (rs : List Subscription)
      → count_where (λ r. r.id == id) rs ≡ count_where (is_own_over now id) rs
      → All (IsWaiting now id) rs
  one_row [] h = tt
  one_row (r ∷ rs) h = elim (Bool-cases (r.id == id)) [
    | inr other ↦ (λ own. absurd (ground arith), one_row rs (ground arith))
    | inl own ↦ elim (Bool-cases (is_over now r)) [
      | inl over ↦ (λ o. over, one_row rs (ground arith))
      | inr lives ↦ absurd (ground (arith, count_over rs))
    ]
  ]

-- A pass over the subscriptions whose access ran out closes each of them: an eligible one whose
-- access ended before the pass is expired after it, its benefit status is ended, every right of it
-- is off and no benefit of it runs, when its id is a key and at most 200 are over at once.
pub expire_subscriptions-Closed :
    (now : DateTime) (id : ℕ) (s : Store)
    → count_where (λ r. r.id == id) s.subscriptions ≡ 1
    → exists (is_own_over now id) s.subscriptions ≡ true
    → length (over_of now s.subscriptions) ≤ expiry_batch
    → Closed id (expire_subscriptions now s)
unfolding expire_subscriptions
expire_subscriptions-Closed now id s key over small =
    let rows = s.subscriptions in
    let one : count_where (is_own_over now id) rows ≡ 1 =
      omega (arith, key, count_over now id rows, some_over now id rows over) in
    expire_each-Closed now id (limit expiry_batch (over_of now rows)) s
      (in_batch-limit now id expiry_batch (over_of now rows) small ∙ in_batch-over now id rows one)
      (record { one = one; every = one_row now id rows (key ∙ sym one) })
