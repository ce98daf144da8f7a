-- ===== src/Reconciliation/Ordering.antt =====
-- Words that arrive out of order: what `hold` lets through.
use fastkit.Base.{
  ◌==◌, ==_iff, Bool-cases, ℕ, ◌<◌, ◌≡◌, refl, ap, inl, inr, false, some, List, [], ◌∷◌, arith,
  Option-cases,
}
use fastkit.Base.Table.{All, update_where, count_where, All-update_where, All-every}
use fastkit.Dates.{stamp, DateTime}
use fastkit.Commerce.{Session}
use fastkit.Delivery.{Subscription, Store}
use fastkit.Reconciliation.{hears, stamped, hold, Integration, ProviderPurchase, Offers}
use fastkit.Reconciliation.Applying.{settle_row}

-- The row has heard a word that is later than one stated at `at`.
abbrev pub HeardLater : DateTime → ℕ → Subscription → Type 0
HeardLater at id r =
    r.id ≡ id → (heard : DateTime) × (r.stated_at ≡ some heard) × (stamp at < stamp heard)

deaf_row :
    (at : DateTime) (id : ℕ) (r : Subscription) → HeardLater at id r → hears (some at) id r ≡ false
deaf_row at id r later = elim (Bool-cases (r.id == id)) [
  | inr other ↦ rw other refl
  | inl own ↦ let (heard, p, q) = later ((==_iff r.id id).0 own) in ground (arith, p, q)
]

update_deaf :
    (at : DateTime) (id : ℕ) (rs : List Subscription)
    → All (HeardLater at id) rs
    → (count_where (hears (some at) id) rs ≡ 0)
      × (update_where (hears (some at) id) (stamped (some at)) rs ≡ rs)
update_deaf at id [] later = (refl, refl)
update_deaf at id (r ∷ rs) later =
    let (n, same) = update_deaf at id rs later.1 in
    let deaf = deaf_row at id r later.0 in (rw deaf n, rw deaf (ap (λ l. r ∷ l) same))

-- A word older than the one a subscription carries changes nothing: no row, no right, no benefit,
-- no grant, no balance and no line of the log.
pub settle_row_stale :
    (e : Session) (offers : Offers) (i : Integration) (id : ℕ) (p : ProviderPurchase)
    (at : DateTime) (s : Store)
    → All (HeardLater at id) s.subscriptions
    → settle_row e offers i id p (some at) s ≡ (0, s)
unfolding settle_row hold
settle_row_stale e offers i id p at s later =
    let (n, same) = update_deaf at id s.subscriptions later in rw (n, same, settle_row, hold) refl

missed_later :
    (early late : DateTime) (id : ℕ) (r : Subscription)
    → stamp early < stamp late
    → hears (some late) id r ≡ false
    → HeardLater early id r
missed_later early late id r lt missed own = elim (Option-cases r.stated_at) [
  | inl unheard ↦ absurd (ground (arith, unheard, missed, own))
  | inr (heard, p) ↦ (heard, p, ground (arith, p, missed, own, lt))
]

-- After a word is heard, every older word finds a later one carried.
hold-HeardLater :
    (early late : DateTime) (id : ℕ) (s : Store)
    → stamp early < stamp late
    → All (HeardLater early id) (hold (some late) id s).1.subscriptions
unfolding hold
hold-HeardLater early late id s lt =
    All-update_where (λ x. Unit {0}) (HeardLater early id) (hears (some late) id)
      (stamped (some late)) s.subscriptions (λ r met any own. (late, refl, lt))
      (λ r missed any. missed_later early late id r lt missed)
      (All-every (λ x. Unit {0}) s.subscriptions (λ x. tt))

-- Two words about one subscription in the wrong order: once the later one took the row, or found it
-- carrying one later still, the earlier one changes nothing.
pub hold_orders :
    (e : Session) (offers : Offers) (i : Integration) (id : ℕ) (p : ProviderPurchase)
    (early late : DateTime) (s : Store)
    → stamp early < stamp late
    → let t = (hold (some late) id s).1 in settle_row e offers i id p (some early) t ≡ (0, t)
hold_orders e offers i id p early late s lt =
    settle_row_stale e offers i id p early (hold (some late) id s).1
      (hold-HeardLater early late id s lt)
