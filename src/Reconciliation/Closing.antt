-- ===== src/Reconciliation/Closing.antt =====
-- `close`: what it ends, and that it ends it once.
use fastkit.Base.{◌==◌, Bool-cases, ℕ, ◌≡◌, refl, inl, inr, true, false, some, List, ◌∷◌, arith}
use fastkit.Base.Table.{
  All, update_where, find-update_where, All-update_where, All-every, find-holds,
}
use fastkit.Dates.{DateTime}
use fastkit.Delivery.{
  subscription_of, Subscription, Store, SubscriptionStatus, BenefitStatus, closed_by_reconciliation,
}
use fastkit.Delivery.Activation.{expire_entitlements, end_benefits}
use fastkit.Delivery.Activation.Opening.{IsOff, IsStill, expire_entitlements-IsOff}
use fastkit.Delivery.Passes.Expiry.{end_benefits-IsStill}
use fastkit.Reconciliation.{word_code, same_word, set_subscription, finished, close_subscription}

-- The row of the subscription carries the word, and access to it ended at `now`.
abbrev pub Finished : DateTime → ℕ → SubscriptionStatus → Subscription → Type 0
Finished now id word r =
    r.id ≡ id
    → (r.status ≡ word)
      × (r.benefit_status ≡ BenefitStatus.ended)
      × (r.access_until ≡ some now)
      × (r.expired_at ≡ some now)

all_finished :
    (now : DateTime) (id : ℕ) (word : SubscriptionStatus) (rs : List Subscription)
    → All (Finished now id word) (update_where (λ r. r.id == id) (finished now word) rs)
all_finished now id word rs =
    All-update_where (λ x. Unit {0}) (Finished now id word) (λ r. r.id == id) (finished now word) rs
      (λ r met any own. (refl, refl, refl, refl)) (λ r missed any own. absurd (ground arith))
      (All-every (λ x. Unit {0}) rs (λ x. tt))

-- Closing a subscription that does not carry the word yet is one change: its row carries the word
-- and ends its access now, every right of it is off, no benefit of it runs, the log has one more
-- line, and no grant and no balance is touched.
pub close_subscription-Finished :
    (now : DateTime) (id : ℕ) (word : SubscriptionStatus) (s : Store) {r : Subscription}
    → subscription_of id s ≡ some r
    → same_word r.status word ≡ false
    → let (n, t) = close_subscription now id word s in
      (n ≡ 1)
      × All (Finished now id word) t.subscriptions
      × All (IsOff id) t.entitlements
      × All (IsStill id) t.benefits
      × (t.log ≡ closed_by_reconciliation id ∷ s.log)
      × (t.grants ≡ s.grants)
      × (t.shop ≡ s.shop)
unfolding close_subscription end_benefits expire_entitlements
close_subscription-Finished now id word s here new =
    let s' = set_subscription id (finished now word) s in
    rw (here, new, close_subscription)
      (
        refl,
        all_finished now id word s.subscriptions,
        expire_entitlements-IsOff id s',
        end_benefits-IsStill id s',
        refl,
        refl,
        refl,
      )

same_word_self : (word : SubscriptionStatus) → same_word word word ≡ true
unfolding word_code
same_word_self word = ground arith

closed_already :
    (now : DateTime) (id : ℕ) (word : SubscriptionStatus) (s : Store) {r : Subscription}
    → subscription_of id s ≡ some r
    → same_word r.status word ≡ true
    → close_subscription now id word s ≡ (0, s)
unfolding close_subscription
closed_already now id word s here carried = rw (here, carried, close_subscription) refl

-- The row that closing leaves carries the word.
carries :
    (now : DateTime) (id : ℕ) (word : SubscriptionStatus) (s : Store) {r : Subscription}
    → subscription_of id s ≡ some r
    → (q : Subscription) × (subscription_of id (close_subscription now id word s).1 ≡ some q)
      × (same_word q.status word ≡ true)
unfolding close_subscription end_benefits expire_entitlements
carries now id word s {r = r} here = elim (Bool-cases (same_word r.status word)) [
  | inl carried ↦ (r, rw (here, carried, close_subscription) here, carried)
  | inr new ↦
      let own = find-holds (λ q. q.id == id) s.subscriptions here in
      let found =
        find-update_where (λ q. q.id == id) (λ q. q.id == id) (finished now word) s.subscriptions
          (λ q. refl) here in
      (
        finished now word r,
        rw (here, new, close_subscription) (rw own at found),
        same_word_self word,
      )
]

-- Closing a subscription again with the same word is no change, so the date it was closed at
-- stands.
pub close_subscription_again :
    (now later : DateTime) (id : ℕ) (word : SubscriptionStatus) (s : Store) {r : Subscription}
    → subscription_of id s ≡ some r
    → let t = (close_subscription now id word s).1 in close_subscription later id word t ≡ (0, t)
close_subscription_again now later id word s here =
    let (q, found, carried) = carries now id word s here in
    closed_already later id word (close_subscription now id word s).1 found carried
