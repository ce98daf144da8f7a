-- ===== src/Retention.antt =====
-- services/retention_service.py: what an operational table stops keeping. A table is the list of
-- its rows in the order of their ids; no other session writes between two batches of a delete. The
-- queue and the cache are libraries, so their purge is an argument. The windows and the size of a
-- batch are settings, which are arguments too.
use fastkit.Base.{
  ltb, leb, ◌==◌, if◌then◌else◌, length, take, ℕ, zero, suc, ◌+◌, ◌-◌, ◌*◌, ◌<◌, ◌∙◌, Bool, true,
  false, ◌&&◌, ◌||◌, not, Option, none, some, List, [], ◌∷◌,
}
use fastkit.Base.Table.{count_where, select}
use fastkit.Dates.{day_length, add_time, before, DateTime}
use fastkit.Webhook.{WebhookEventStatus, completed}
use fastkit.Delivery.Evidence.{max_attempts}
pub mod Batches
pub mod Tended
pub mod Windowed
mod Tests

pub data AppEventStatus : Type 0 where
  pending processing processed ignored failed : AppEventStatus

pub data OutboundEmailStatus : Type 0 where
  pending sending sent failed refused : OutboundEmailStatus

-- What a row of each table shows to its condition.
pub data Mark : Type 0 where
  -- email_login_challenge, social_login_attempt and login_ticket, by `expires_at`
  credential : DateTime → Mark
  -- system_log and banner_impression
  plain : Mark
  app_event : AppEventStatus → ℕ → Mark
  webhook_event : WebhookEventStatus → ℕ → Mark
  outbound_email : OutboundEmailStatus → ℕ → Mark
  -- client_request, by whether its answer is kept
  client_request : Bool → Mark

pub record OperationalRow : Type 0 where
  pub id : ℕ
  pub created_at : DateTime
  pub mark : Mark

event_settled : AppEventStatus → ℕ → Bool
event_settled AppEventStatus.processed n = true
event_settled AppEventStatus.ignored n = true
event_settled AppEventStatus.failed n = leb max_attempts n
event_settled _ n = false

-- A notice is finished, or failed with all its attempts spent.
unfoldable pub notice_settled : WebhookEventStatus → ℕ → Bool
notice_settled WebhookEventStatus.completed n = true
notice_settled WebhookEventStatus.ignored n = true
notice_settled WebhookEventStatus.failed n = leb max_attempts n
notice_settled _ n = false

email_settled : OutboundEmailStatus → ℕ → Bool
email_settled OutboundEmailStatus.sent n = true
email_settled OutboundEmailStatus.refused n = true
email_settled OutboundEmailStatus.failed n = leb max_attempts n
email_settled _ n = false

-- `settled`, by the table that a row stands in.
unfoldable pub nothing_acts : DateTime → Mark → Bool
unfolding event_settled notice_settled email_settled
nothing_acts now (credential expires) = before expires now
nothing_acts now plain = true
nothing_acts now (app_event s n) = event_settled s n
nothing_acts now (webhook_event s n) = notice_settled s n
nothing_acts now (outbound_email s n) = email_settled s n
nothing_acts now (client_request answered) = answered

-- `created_at < now() - timedelta(days=days)`, with the settled condition: what `trim` asks of a
-- row.
unfoldable pub is_trimmed : DateTime → ℕ → OperationalRow → Bool
unfolding nothing_acts
is_trimmed now days r =
    before (add_time (days * day_length) r.created_at) now && nothing_acts now r.mark

abbrev pub holds_id : ℕ → List ℕ → Bool
holds_id n [] = false
holds_id n (m ∷ ms) = n == m || holds_id n ms

abbrev pub ids_of : List OperationalRow → List ℕ
ids_of [] = []
ids_of (r ∷ rs) = r.id ∷ ids_of rs

-- The loop of `trim_where`; `none` where the fuel is spent.
unfoldable pub trim_batches :
    ℕ → ℕ → (OperationalRow → Bool) → List OperationalRow → Option (ℕ × List OperationalRow)
trim_batches zero batch p rows = none
trim_batches (suc fuel) batch p rows =
    let ids = ids_of (take batch (select p rows)) in
    let gone = count_where (λ r. holds_id r.id ids) rows in
    let left = select (λ r. not (holds_id r.id ids)) rows in
    elim ids [
      | [] ↦ some (0, rows)
      | _ ∷ _ ↦ elim (trim_batches fuel batch p left) [
        | none ↦ none
        | some (removed, rest) ↦ some (gone + removed, rest)
      ]
    ]

-- `trim_where`
unfoldable pub trim_where :
    ℕ → (OperationalRow → Bool) → List OperationalRow → Option (ℕ × List OperationalRow)
unfolding trim_batches
trim_where batch p rows = trim_batches (suc (length rows)) batch p rows

-- A table with its window in days.
pub record KeptTable : Type 0 where
  pub days : ℕ
  pub rows : List OperationalRow

-- The turn of `discard` for one table: nothing where it has no window.
unfoldable pub discard_table : DateTime → ℕ → KeptTable → Option (ℕ × KeptTable)
unfolding trim_where is_trimmed
discard_table now batch t =
    if ltb 0 t.days
    then (elim (trim_where batch (is_trimmed now t.days) t.rows) [
      | none ↦ none
      | some (n, rows) ↦ some (n, record t { rows = rows })
    ])
    else some (0, t)

-- `drained`: a purge of a library is called until it removes nothing; `none` where the fuel is
-- spent.
unfoldable pub drained : {S : Type 0} → ℕ → (S → ℕ × S) → S → Option (ℕ × S)
drained zero purge s = none
drained (suc fuel) purge s =
    let rest = drained fuel purge (purge s).1 in
    if (purge s).0 == 0
    then some (0, (purge s).1)
    else (elim rest [ none ↦ none | some (n, t) ↦ some ((purge s).0 + n, t) ])
