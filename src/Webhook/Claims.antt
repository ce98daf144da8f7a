-- ===== src/Webhook/Claims.antt =====
-- A notice is one row, however often it is delivered, and one reader has it at a time.
use fastkit.Base.{
  ltb, leb, ◌==◌, ==_iff, Bool-cases, Option-cases, ==_self, length, ℕ, ◌≤◌, ◌≡◌, refl, sym, ◌∙◌,
  inl, inr, true, false, ◌&&◌, Option, List, [], ◌∷◌, arith,
}
use fastkit.Base.Table.{find, update_where, count_where}
use fastkit.Base.Text.{Text, text_eq_self}
use fastkit.Dates.{add_time, before, DateTime}
use fastkit.Delivery.Evidence.{abandoned_after}
use fastkit.Webhook.{
  takeable_event, is_claimable, taken_event, claim_event, id_length, is_event, store_event,
  record_of, WebhookEvent, Queue,
}

-- A notice delivered again, at any time and whatever its digest is then, is the row that its first
-- delivery wrote, and writes nothing, where the gateway gives it a name of its own that fits.
pub record_of_again :
    (now later : DateTime) (tenant : Option ℕ) (integration : ℕ) (own digest digest' : Text)
    (q : Queue)
    → (ltb 0 (length own) && leb (length own) id_length) ≡ true
    → let (r, t) = record_of now tenant integration own digest q in
      record_of later tenant integration own digest' t ≡ (r, t)
unfolding record_of store_event
record_of_again now later tenant integration own digest digest' q fits =
    elim (Option-cases (find (is_event integration own) q.events)) [
      | inr (r, p) ↦ simp (fits, p, record_of) refl
      | inl new ↦
          simp (fits, new, ==_self integration, text_eq_self own, record_of, store_event) refl
    ]

module _ (now later : DateTime) (id : ℕ) where
  pub count_claimable :
      (rs : List WebhookEvent)
      → count_where (is_claimable now id) rs ≤ count_where (λ r. r.id == id) rs
  count_claimable [] = omega arith
  count_claimable (r ∷ rs) = ground (arith, count_claimable rs)

  none_claimable :
      (rs : List WebhookEvent)
      → before (add_time abandoned_after now) later ≡ false
      → count_where (is_claimable now id) rs ≡ count_where (λ r. r.id == id) rs
      → count_where
          (is_claimable later id)
          (update_where (is_claimable now id) (taken_event now) rs)
        ≡ 0
  unfolding takeable_event
  none_claimable [] soon every = refl
  none_claimable (r ∷ rs) soon every = elim (Bool-cases (r.id == id)) [
    | inr other ↦ ground (arith, none_claimable rs)
    | inl own ↦ elim (Bool-cases (takeable_event now r)) [
      | inl free ↦ ground (arith, none_claimable rs)
      | inr busy ↦ absurd (ground (arith, count_claimable rs))
    ]
  ]

-- Once a reader has claimed a notice, no other claim of it succeeds for the next thirty minutes, so
-- a redelivery and the retry pass never read one notice at once. The id is a key: one row has it.
pub claim_event_exclusive :
    (now later : DateTime) (id : ℕ) (q : Queue)
    → count_where (λ r. r.id == id) q.events ≡ 1
    → before (add_time abandoned_after now) later ≡ false
    → (claim_event now id q).0 ≡ true
    → (claim_event later id (claim_event now id q).1).0 ≡ false
unfolding claim_event
claim_event_exclusive now later id q own soon won =
    let one : count_where (is_claimable now id) q.events ≡ 1 = (==_iff _ 1).0 won in
    let left = none_claimable now later id q.events soon (one ∙ sym own) in rw left refl
