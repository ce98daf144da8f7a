-- ===== src/Webhook/Tests.antt =====
-- A notice that its gateway delivers twice.
use fastkit.Base.{◌≡◌, refl, true, false, none, some, [], ◌∷◌}
use fastkit.Base.Text.{Text, codes}
use fastkit.Dates.{add_time, before, DateTime}
use fastkit.Delivery.Evidence.{abandoned_after}
use fastkit.Webhook.{
  takeable_event, claim_event, store_event, fresh_event, record_of, WebhookEvent, Queue, received,
}

abbrev noon : DateTime
noon = record { years = 2024; months = 5; days = 1; time = 43200000000 }

abbrev five_past : DateTime
five_past = record { years = 2024; months = 5; days = 1; time = 43500000000 }

abbrev nothing_yet : Queue
nothing_yet = record { events = []; serial = 1 }

abbrev event_id : Text
event_id = codes "evt"

abbrev written : WebhookEvent
written = fresh_event noon (some 1) 2 event_id (codes "x") received none 1

abbrev one_event : Queue
one_event = record { events = written ∷ []; serial = 2 }

is_written : record_of noon (some 1) 2 event_id (codes "x") nothing_yet ≡ (written, one_event)
unfolding record_of store_event
is_written = refl

still_young : before (add_time abandoned_after noon) five_past ≡ false
unfolding add_time
still_young = refl

taken_first : (claim_event noon 1 one_event).0 ≡ true
unfolding claim_event takeable_event
taken_first = refl
