-- ===== src/Webhook/Retrying.antt =====
-- The retry pass, and what it finds of a notice whose handling failed. `read` of a gateway's class,
-- which may call the gateway, is an argument; so is what a notice of each integration asks of the
-- accounts.
use fastkit.Base.{
  ltb, ◌==◌, if◌then◌else◌, take, ℕ, ◌≡◌, refl, true, not, Option, none, some, List, [], ◌∷◌,
}
use fastkit.Base.Table.{find, update_where, select, find-holds, find-update_where}
use fastkit.Dates.{DateTime}
use fastkit.Errors.{Fault, missing_row, Result, ok, raise}
use fastkit.Delivery.Evidence.{max_attempts}
use fastkit.Webhook.{claim_event, failed_event, fail_event, is_stuck, WebhookEvent, Queue, ignored}
use fastkit.Webhook.Handling.{apply_event, run_event, ProviderEvent, Office}

-- `RETRY_BATCH`
abbrev pub notice_batch : ℕ
notice_batch = 100

-- The newest row stands first, so the oldest is found from the back.
abbrev pub oldest_first : List WebhookEvent → List ℕ → List ℕ
oldest_first [] ids = ids
oldest_first (r ∷ rs) ids = oldest_first rs (r.id ∷ ids)

-- `stuck`
unfoldable pub stuck : DateTime → Queue → List ℕ
unfolding is_stuck
stuck now q = take notice_batch (oldest_first (select (is_stuck now) q.events) [])

abbrev pub unread_event : DateTime → WebhookEvent → WebhookEvent
unread_event now r = record r { status = ignored; updated_at = now }

-- The gateway reads the calls that are kept; an exception of it ends the pass.
module _ {W : Type 0} (office_of : ℕ → Office W)
    (reads : WebhookEvent → Result (Option ProviderEvent)) where
  -- One turn of the loop of `retry_failed`: what ends the pass, if anything.
  unfoldable pub retry_notice : DateTime → ℕ → Queue → W → Option Fault × Queue × W
  unfolding claim_event run_event
  retry_notice now id q w =
      let (claimed, taken) = claim_event now id q in
      if not claimed then (none, taken, w) else (elim (find (λ r. r.id == id) taken.events) [
        | none ↦ (some missing_row, taken, w)
        | some row ↦ elim (reads row) [
          | raise f ↦ (some f, taken, w)
          | ok none ↦ (
            none,
            record taken {
              events = update_where (λ r. r.id == id) (unread_event now) taken.events;
            },
            w,
          )
          | ok (some event) ↦
              let (_, q', w') = run_event (office_of row.integration_id) now event id taken w in
              (none, q', w')
        ]
      ])

  unfoldable pub retry_notices : DateTime → List ℕ → Queue → W → Option Fault × Queue × W
  unfolding retry_notice
  retry_notices now [] q w = (none, q, w)
  retry_notices now (id ∷ ids) q w =
      let (fault, q', w') = retry_notice now id q w in
      elim fault [ some f ↦ (some f, q', w') | none ↦ retry_notices now ids q' w' ]

  -- `retry_failed`
  unfoldable pub retry_failed : DateTime → Queue → W → Option Fault × Queue × W
  unfolding retry_notices stuck
  retry_failed now q w = retry_notices now (stuck now q) q w

-- What a handling that raises leaves: the notice is in the queue, with the attempts that it had, and
-- meets the condition of the retry where these are below five.
pub run_event-is_stuck :
    {W : Type 0} (o : Office W) (now later : DateTime) (event : ProviderEvent) (id : ℕ) (q : Queue)
    (w : W) {r : WebhookEvent} {f : Fault}
    → find (λ x. x.id == id) q.events ≡ some r
    → ltb r.attempts max_attempts ≡ true
    → (apply_event o event w).0 ≡ raise f
    → (r' : WebhookEvent) × (find (λ x. x.id == id) (run_event o now event id q w).1.events
        ≡ some r')
      × (is_stuck later r' ≡ true)
      × (r'.attempts ≡ r.attempts)
      × ((run_event o now event id q w).2 ≡ (apply_event o event w).1)
unfolding run_event fail_event is_stuck
run_event-is_stuck o now later event id q w {r} {f} here few raised =
    let found =
      find-update_where (λ x. x.id == id) (λ x. x.id == id) (failed_event now (o.class_of f))
        q.events (λ x. refl) here in
    let own : (r.id == id) ≡ true = find-holds (λ x. x.id == id) q.events here in
    (
      failed_event now (o.class_of f) r,
      simp (raised, run_event) (rw own at found),
      few,
      refl,
      simp (raised, run_event) refl,
    )
