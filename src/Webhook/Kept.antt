-- ===== src/Webhook/Kept.antt =====
-- No notice is lost: what became of it when it came, or that the retry pass takes it up.
use fastkit.Base.{◌==◌, any, ℕ, ◌≡◌, ◌⊎◌, true, some}
use fastkit.Base.Table.{find}
use fastkit.Base.Text.{Text}
use fastkit.Dates.{DateTime}
use fastkit.Webhook.{event_name, is_event, WebhookEvent, Queue}
use fastkit.Webhook.Handling.{is_final, ProviderEvent, Office}
use fastkit.Webhook.Retrying.{stuck}

-- What becomes of a notice: it was handled, or a pass of the retry takes it up.
abbrev pub Kept : {W : Type 0} → Office W → ProviderEvent → Text → DateTime → ℕ → Queue → Type 0
Kept o event digest later id q =
    ((r : WebhookEvent) × (find
          (is_event o.integration_id (event_name event.external_event_id digest)) q.events
        ≡ some r)
      × (is_final o r.status ≡ true))
    ⊎ (any (λ i. i == id) (stuck later q) ≡ true)
