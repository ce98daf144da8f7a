-- ===== src/Retention/Tests.antt =====
-- A table of notices a year old, and a library's purge over a number of rows.
use fastkit.Base.{ℕ, ◌+◌, ◌-◌, min, ◌≡◌, refl, not, some, [], ◌∷◌, arith, true, none}
use fastkit.Base.Table.{count_where, select, All}
use fastkit.Dates.{add_time, DateTime}
use fastkit.Webhook.{WebhookEventStatus, close_exhausted_events, fresh_event, WebhookEvent, Queue}
use fastkit.Retention.{
  is_trimmed, trim_where, discard_table, OperationalRow, KeptTable, webhook_event,
}
use fastkit.Retention.Tended.{is_tended, close_exhausted_events-is_tended}
use fastkit.Retention.Batches.{trim_where-select}
use fastkit.Retention.Windowed.{may_retry, discard_table-may_retry}

abbrev january : DateTime
january = record { years = 2024; months = 1; days = 1; time = 0 }

abbrev june : DateTime
june = record { years = 2024; months = 6; days = 1; time = 0 }

abbrev finished : OperationalRow
finished = record {
  id = 1;
  created_at = january;
  mark = webhook_event WebhookEventStatus.completed 1;
}

abbrev retried : OperationalRow
retried = record { id = 2; created_at = january; mark = webhook_event WebhookEventStatus.failed 4 }

abbrev given_up : OperationalRow
given_up = record { id = 3; created_at = january; mark = webhook_event WebhookEventStatus.failed 5 }

abbrev notices : KeptTable
notices = record { days = 90; rows = finished ∷ retried ∷ given_up ∷ [] }

discards : discard_table june 1 notices ≡ some (2, record notices { rows = retried ∷ [] })
unfolding discard_table add_time
discards = refl

trim_where-select_example :
    trim_where 1 (is_trimmed june 90) notices.rows
    ≡ some (
      count_where (is_trimmed june 90) notices.rows,
      select (λ r. not (is_trimmed june 90 r)) notices.rows,
    )
trim_where-select_example =
    trim_where-select (is_trimmed june 90) 1 0 notices.rows (omega arith) (omega arith)

discard_table-may_retry_example :
    (n : ℕ) × (t' : KeptTable) × (discard_table june 1 notices ≡ some (n, t'))
    × (select (λ r. may_retry r.mark) t'.rows ≡ select (λ r. may_retry r.mark) notices.rows)
discard_table-may_retry_example = discard_table-may_retry june 1 notices (omega arith) (omega arith)

-- Two rows a call.
abbrev purge_two : ℕ → ℕ × ℕ
purge_two n = (min n 2, n - 2)

purge_two-counts : (n : ℕ) → (purge_two n).0 + (purge_two n).1 ≡ n
purge_two-counts n = omega arith

abbrev spent : WebhookEvent
spent = record (fresh_event january none 2 [] [] WebhookEventStatus.processing none 7) {
  attempts = 5;
}

abbrev waiting : Queue
waiting = record {
  events = spent ∷ fresh_event january none 2 [] [] WebhookEventStatus.received none 8 ∷ [];
  serial = 9;
}

close_exhausted_events-is_tended_example :
    All (λ r. is_tended june r ≡ true) (close_exhausted_events june waiting).1.events
close_exhausted_events-is_tended_example =
    close_exhausted_events-is_tended june waiting ((λ h. cc), ((λ h. refl), tt))
