-- ===== src/Webhook/Once.antt =====
-- What a redelivery does to a notice that was handled.
use fastkit.Webhook.Claims.{count_claimable}
use fastkit.Base.{
  ltb, leb, length, ◌&&◌, ◌⊎◌, inl, inr, ◌==◌, ==_self, ℕ, ◌≡◌, refl, Bool, true, some, ==_iff, suc,
  subst, false, none, ◌∷◌, arith,
}
use fastkit.Base.Table.{find, update_where, find-update_where, count_where}
use fastkit.Base.Text.{Text, text_eq_self}
use fastkit.Dates.{DateTime}
use fastkit.Errors.{ok, raise, Result}
use fastkit.Webhook.{
  id_length, is_claimable, taken_event, claim_event, fail_event, event_name, is_event, store_event,
  record_of, WebhookEvent, Queue, takeable_event, fresh_event, received,
}
use fastkit.Webhook.Handling.{
  apply_event, answered_event, run_event, is_final, ProviderEvent, Office, ingest,
}

module _ {W : Type 0} (o : Office W) (event : ProviderEvent) (digest : Text) where
  abbrev pub name_of : Text
  name_of = event_name event.external_event_id digest

  abbrev pub by_name : WebhookEvent → Bool
  by_name = is_event o.integration_id name_of

  -- The row of the notice is in the queue.
  abbrev pub Here : (WebhookEvent → Type 0) → Queue → Type 0
  Here P q = (r : WebhookEvent) × (find by_name q.events ≡ some r) × P r

  abbrev pub first_row : DateTime → Queue → WebhookEvent
  first_row now q =
      fresh_event now o.tenant_id o.integration_id name_of digest received none q.serial

  record_of_new :
      (now : DateTime) (q : Queue)
      → find by_name q.events ≡ none
      → record_of now o.tenant_id o.integration_id event.external_event_id digest q
        ≡ (first_row now q, record q { events = first_row now q ∷ q.events; serial = suc q.serial })
  unfolding record_of store_event
  record_of_new now q new = simp (new, record_of, store_event) refl

  record_of_here :
      (now : DateTime) (q : Queue) {r : WebhookEvent}
      → find by_name q.events ≡ some r
      → record_of now o.tenant_id o.integration_id event.external_event_id digest q ≡ (r, q)
  unfolding record_of
  record_of_here now q e = rw (e, record_of) refl

  -- What a notice that its reader got through leaves.
  abbrev pub Handled : Result (Unit {0}) × Queue × W → Type 0
  Handled (raise f, q, w) = Unit {0}
  Handled (ok _, q, w) = Here (λ r. is_final o r.status ≡ true) q

  answered_event-Final :
      (now : DateTime) (someone : Bool) (r : WebhookEvent)
      → is_final o (answered_event o now someone r).status ≡ true
  answered_event-Final now true r = refl
  answered_event-Final now false r = refl

  answered_event-name :
      (now : DateTime) (someone : Bool) (r : WebhookEvent)
      → by_name (answered_event o now someone r) ≡ by_name r
  answered_event-name now true r = refl
  answered_event-name now false r = refl

  pub run_event-Handled :
      (now : DateTime) (id : ℕ) (q : Queue) (w : W) {r : WebhookEvent}
      → find by_name q.events ≡ some r
      → r.id ≡ id
      → Handled (run_event o now event id q w)
  unfolding run_event
  run_event-Handled now id q w {r} here own =
      by_result (apply_event o event w).0 (apply_event o event w).1
    where
      by_result :
          (result : Result Bool) (w' : W)
          → Handled (elim result [
            | raise f ↦ (raise f, fail_event now id (o.class_of f) q, w')
            | ok someone ↦ (
              ok tt,
              record q {
                events = update_where (λ r. r.id == id) (answered_event o now someone) q.events;
              },
              w',
            )
          ])
      by_result (raise f) w' = tt
      by_result (ok someone) w' =
          let found =
            find-update_where by_name (λ r. r.id == id) (answered_event o now someone) q.events
              (answered_event-name now someone) here in
          let e : (r.id == id) ≡ true = (==_iff r.id id).1 own in
          (answered_event o now someone r, rw e at found, answered_event-Final now someone r)

  -- The queue once the new notice is read.
  abbrev pub first_taken : DateTime → Queue → Queue
  first_taken now q = record q {
    events =
        taken_event now (first_row now q)
        ∷ update_where (is_claimable now q.serial) (taken_event now) q.events;
    serial = suc q.serial;
  }

  pub find-first_taken :
      (now : DateTime) (q : Queue)
      → (find by_name (first_taken now q).events ≡ some (taken_event now (first_row now q)))
        × (find (λ r. r.id == q.serial) (first_taken now q).events
            ≡ some (taken_event now (first_row now q)))
  find-first_taken now q =
      let here : by_name (taken_event now (first_row now q)) ≡ true =
        rw (==_self o.integration_id, text_eq_self name_of) refl in
      (rw here refl, rw (==_self q.serial) refl)

  -- A notice that is new is claimed and run.
  pub ingest_new :
      (now : DateTime) (q : Queue) (w : W)
      → find by_name q.events ≡ none
      → count_where (λ r. r.id == q.serial) q.events ≡ 0
      → ingest o now (some event) digest q w ≡ run_event o now event q.serial (first_taken now q) w
  unfolding ingest claim_event takeable_event
  ingest_new now q w new unused =
      let none_else : count_where (is_claimable now q.serial) q.events ≡ 0 =
        omega (arith, count_claimable now now q.serial q.events) in
      simp (record_of_new now q new, ==_self q.serial, none_else, ingest) refl

  ingest-Handled :
      (now : DateTime) (q : Queue) (w : W)
      → find by_name q.events ≡ none
      → count_where (λ r. r.id == q.serial) q.events ≡ 0
      → Handled (ingest o now (some event) digest q w)
  ingest-Handled now q w new unused = rw (ingest_new now q w new unused) (
      run_event-Handled now q.serial (first_taken now q) w {r = taken_event now (first_row now q)}
        (find-first_taken now q).0 refl)

-- The name that the gateway gave a notice, where it gave one that the column holds.
abbrev pub has_name : ProviderEvent → Bool
has_name event =
    ltb 0 (length event.external_event_id) && leb (length event.external_event_id) id_length

-- Two calls bring one notice: under one name of the gateway's, whatever else they carry, or, where it
-- gave none, with one content.
abbrev pub SameNotice : ProviderEvent → Text → ProviderEvent → Text → Type 0
SameNotice event digest again digest' =
    (again.external_event_id ≡ event.external_event_id)
    × ((has_name event ≡ true) ⊎ (digest' ≡ digest))

event_name-SameNotice :
    (event : ProviderEvent) (digest : Text) (again : ProviderEvent) (digest' : Text)
    → SameNotice event digest again digest'
    → event_name again.external_event_id digest' ≡ event_name event.external_event_id digest
unfolding event_name
event_name-SameNotice event digest again digest' (same, inl named) = rw (same, named) refl
event_name-SameNotice event digest again digest' (same, inr content) = rw (same, content) refl

-- A notice that is new to the queue and whose handling raised nothing moved whatever it moves once:
-- when it is delivered again, at any time and over any state of the accounts and the shop, it
-- answers and writes nothing. A notice that the gateway named is the same one whatever the second
-- call carries, and one that it did not name is where the digest of the call is the same. The id of
-- its row is unused.
pub ingest_again :
    {W : Type 0} (o : Office W) (event again : ProviderEvent) (digest digest' : Text)
    (now later : DateTime) (q : Queue) (w w'' : W) {q' : Queue} {w' : W}
    → SameNotice event digest again digest'
    → find (is_event o.integration_id (event_name event.external_event_id digest)) q.events ≡ none
    → count_where (λ r. r.id == q.serial) q.events ≡ 0
    → ingest o now (some event) digest q w ≡ (ok tt, q', w')
    → ingest o later (some again) digest' q' w'' ≡ (ok tt, q', w'')
unfolding ingest
ingest_again o event again digest digest' now later q w w'' {q'} {w'} same new unused h =
    let (r, here, final) =
      subst (Handled o event digest) h (ingest-Handled o event digest now q w new unused) in
    let found : find (is_event o.integration_id (event_name again.external_event_id digest'))
          q'.events
        ≡ some r =
      rw (event_name-SameNotice event digest again digest' same) here in
    simp (record_of_here o again digest' later q' found, final, ingest) refl
