-- ===== src/Retention/Tended.antt =====
-- No notice is stranded between the queue's passes and the retention.
use fastkit.Base.{◌≡◌, Bool, true, false, ◌&&◌, ◌||◌, not, arith}
use fastkit.Base.Table.{All, All-update_where}
use fastkit.Dates.{DateTime}
use fastkit.Webhook.{
  is_being_read, left_alone, was_received, is_stuck, is_spent, abandon_event,
  close_exhausted_events, WebhookEvent, Queue,
}
use fastkit.Retention.{notice_settled}

-- Somebody wrote the row of an unfinished notice within the last thirty minutes.
abbrev pub is_held : DateTime → WebhookEvent → Bool
is_held now r = (was_received r.status || is_being_read r.status) && not (left_alone now r)

-- A retry selects it, or it is held, or the retention may drop it.
abbrev pub is_tended : DateTime → WebhookEvent → Bool
is_tended now r = is_stuck now r || (is_held now r || notice_settled r.status r.attempts)

-- What is received was never taken.
abbrev pub Untaken : WebhookEvent → Type 0
Untaken r = was_received r.status ≡ true → r.attempts ≡ 0

abandon_event-is_tended :
    (now : DateTime) (r : WebhookEvent)
    → is_spent now r ≡ true
    → is_tended now (abandon_event now r) ≡ true
unfolding is_stuck notice_settled
abandon_event-is_tended now r h = ground arith

spared-is_tended :
    (now : DateTime) (r : WebhookEvent)
    → is_spent now r ≡ false
    → Untaken r
    → is_tended now r ≡ true
unfolding is_stuck notice_settled
spared-is_tended now r h untaken = ground (arith, untaken)

-- Once the job has closed what was spent, every notice of the queue is one that the retry pass
-- selects, or one that somebody wrote within the last thirty minutes, or one that is done with and
-- that the retention drops. A notice that is still received was never taken.
pub close_exhausted_events-is_tended :
    (now : DateTime) (q : Queue)
    → All Untaken q.events
    → All (λ r. is_tended now r ≡ true) (close_exhausted_events now q).1.events
unfolding close_exhausted_events
close_exhausted_events-is_tended now q h =
    All-update_where Untaken (λ r. is_tended now r ≡ true) (is_spent now) (abandon_event now)
      q.events (λ r spent untaken. abandon_event-is_tended now r spent)
      (λ r spared untaken. spared-is_tended now r spared untaken) h
