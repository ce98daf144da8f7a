-- ===== src/Retention/Windowed.antt =====
-- What a pass of the retention leaves: everything that something may still act on.
use fastkit.Retention.Batches.{trim_where-select, Rising}
use fastkit.Base.Table.{count_where, select}
use fastkit.Base.{
  ltb, ◌≡◌, Bool, true, false, not, ◌==◌, Bool-cases, ℕ, zero, suc, ◌+◌, ◌<◌, refl, inl, inr, some,
  List, [], ◌∷◌, arith,
}
use fastkit.Dates.{DateTime}
use fastkit.Delivery.Evidence.{max_attempts}
use fastkit.Webhook.{is_stuck, WebhookEvent, WebhookEventStatus}
use fastkit.Retention.{
  Mark, webhook_event, notice_settled, nothing_acts, is_trimmed, discard_table, drained,
  OperationalRow, KeptTable,
}

-- A notice with attempts left that is not finished.
unfoldable pub may_retry : Mark → Bool
may_retry (webhook_event WebhookEventStatus.completed n) = false
may_retry (webhook_event WebhookEventStatus.ignored n) = false
may_retry (webhook_event s n) = ltb n max_attempts
may_retry _ = false

-- What the retry pass selects, at whatever moment, is such a notice.
is_stuck-may_retry :
    (now : DateTime) (r : WebhookEvent)
    → is_stuck now r ≡ true
    → may_retry (webhook_event r.status r.attempts) ≡ true
unfolding is_stuck may_retry
is_stuck-may_retry now r h = ground arith

select-select :
    (p q : OperationalRow → Bool) (rows : List OperationalRow)
    → ((r : OperationalRow) → p r ≡ true → q r ≡ false)
    → select p (select (λ r. not (q r)) rows) ≡ select p rows
select-select p q [] apart = refl
select-select p q (r ∷ rows) apart = ground (arith, apart r, select-select p q rows apart)

nothing_acts-may_retry :
    (now : DateTime) (m : Mark) → may_retry m ≡ true → nothing_acts now m ≡ false
unfolding nothing_acts may_retry notice_settled
nothing_acts-may_retry now m h = ground arith

is_trimmed-may_retry :
    (now : DateTime) (days : ℕ) (r : OperationalRow)
    → may_retry r.mark ≡ true
    → is_trimmed now days r ≡ false
unfolding is_trimmed
is_trimmed-may_retry now days r h = ground (arith, nothing_acts-may_retry now r.mark h)

-- A pass over a table ends, at any moment and with any window, and every notice that a retry may
-- still take is in the table after it, in its order and unchanged, where a batch holds a row and
-- the ids rise.
pub discard_table-may_retry :
    (now : DateTime) (batch : ℕ) (t : KeptTable)
    → 0 < batch
    → Rising 0 t.rows
    → (n : ℕ) × (t' : KeptTable) × (discard_table now batch t ≡ some (n, t'))
      × (select (λ r. may_retry r.mark) t'.rows ≡ select (λ r. may_retry r.mark) t.rows)
unfolding discard_table
discard_table-may_retry now batch t some_batch rising = elim (Bool-cases (ltb 0 t.days)) [
  | inr endless ↦ (0, t, simp (endless, discard_table) refl, refl)
  | inl window ↦
      let q = is_trimmed now t.days in
      let done = trim_where-select q batch 0 t.rows some_batch rising in
      (
        count_where q t.rows,
        record t { rows = select (λ r. not (q r)) t.rows },
        simp (window, done, discard_table) refl,
        select-select (λ r. may_retry r.mark) q t.rows (is_trimmed-may_retry now t.days),
      )
]

-- A purge of a library is called until it removes nothing, which is after at most as many calls as
-- there are rows, and the count of the pass is what it removed, where the purge counts the rows
-- that it removes.
drained-counts :
    {S : Type 0} (purge : S → ℕ × S) (size : S → ℕ) (s : S) (fuel : ℕ)
    → ((t : S) → (purge t).0 + size (purge t).1 ≡ size t)
    → size s < fuel
    → (n : ℕ) × (t : S) × (drained fuel purge s ≡ some (n, t)) × (n + size t ≡ size s)
unfolding drained
drained-counts purge size s zero counts short = elim short [ ]
drained-counts purge size s (suc fuel) counts short = elim (Bool-cases ((purge s).0 == 0)) [
  | inl over ↦ (0, (purge s).1, simp (over, drained) refl, ground (arith, counts s))
  | inr more ↦
      let (n, t, e, sum) =
        drained-counts purge size (purge s).1 fuel counts (ground (arith, counts s)) in
      ((purge s).0 + n, t, simp (more, e, drained) refl, omega (arith, counts s))
]
