-- ===== src/Idempotency/Replay.antt =====
-- What a call leaves of its key, and what the next call makes of it.
use fastkit.Base.{
  ◌==◌, ==_iff, Bool-cases, ℕ, ◌≡◌, refl, inl, inr, true, false, some, [], Option-cases, ==_self,
  suc, ◌∷◌,
}
use fastkit.Base.Table.{find, find-update_where}
use fastkit.Base.Text.{Text, text_eq, text_eq_self}
use fastkit.Dates.{DateTime}
use fastkit.Errors.{Result, ok, raise}
use fastkit.Idempotency.{
  is_named, is_abandoned, claimed_now, take_over, claim_key, give_back, settle_key, run_named, once,
  ClientRequest, Desk, fresh_request,
}

module _ {W : Type 0} (user : ℕ) (key endpoint : Text) where
  -- The row of the key carries the answer.
  abbrev pub Answered : Text → Desk W → Type 0
  Answered answer d =
      (r : ClientRequest) × (find (is_named user key) d.requests ≡ some r)
      × (text_eq r.endpoint endpoint ≡ true)
      × (r.answer ≡ some answer)

  -- The row of the key is the one a call took.
  abbrev Taken : ℕ → Desk W → Type 0
  Taken id d =
      (r : ClientRequest) × (find (is_named user key) d.requests ≡ some r)
      × (text_eq r.endpoint endpoint ≡ true)
      × (r.id ≡ id)

  -- What a call leaves of its key, where it raised nothing.
  abbrev pub Outcome : Result Text × Desk W → Type 0
  Outcome (raise f, d) = Unit {0}
  Outcome (ok answer, d) = Answered answer d

  kept_claim :
      (now : DateTime) (d : Desk W) {r : ClientRequest} {answer : Text}
      → find (is_named user key) d.requests ≡ some r
      → text_eq r.endpoint endpoint ≡ true
      → r.answer ≡ some answer
      → claim_key now user key endpoint d ≡ (ok (r.id, some answer), d)
  unfolding claim_key
  kept_claim now d p same kept = rw (p, same, kept, claim_key) refl

  pub once-Answered :
      (now : DateTime) (work : W → Result Text × W) (answer : Text) (d : Desk W)
      → text_eq key [] ≡ false
      → Answered answer d
      → once now user (some key) endpoint work d ≡ (ok answer, d)
  unfolding once
  once-Answered now work answer d named (r, p, same, kept) =
      simp (named, kept_claim now d p same kept, once) refl

  settle_key-Answered :
      (id : ℕ) (answer : Text) (d : Desk W) → Taken id d → Answered answer (settle_key id answer d)
  unfolding settle_key
  settle_key-Answered id answer d (r, p, same, own) =
      let found =
        find-update_where (is_named user key) (λ r. r.id == id)
          (λ r. record r { answer = some answer }) d.requests (λ r. refl) p in
      let e : (r.id == id) ≡ true = (==_iff r.id id).1 own in
      (record r { answer = some answer }, rw e at found, same, refl)

  run_named-Outcome :
      (work : W → Result Text × W) (id : ℕ) (d : Desk W)
      → ((w : W) → Taken id (record d { world = w }))
      → Outcome (run_named work id d)
  unfolding run_named
  run_named-Outcome work id d taken = by_result (work d.world).0 (work d.world).1
    where
      by_result :
          (result : Result Text) (world : W)
          → Outcome (elim result [
            | raise f ↦ (raise f, give_back id (record d { world = world }))
            | ok answer ↦ (ok answer, settle_key id answer (record d { world = world }))
          ])
      by_result (raise f) world = tt
      by_result (ok a) world = settle_key-Answered id a (record d { world = world }) (taken world)

  take_over-Taken :
      (now : DateTime) (d : Desk W) {r : ClientRequest}
      → find (is_named user key) d.requests ≡ some r
      → text_eq r.endpoint endpoint ≡ true
      → Taken r.id (take_over now r.id d).1
  unfolding take_over
  take_over-Taken now d {r = r} p same =
      let found =
        find-update_where (is_named user key) (is_abandoned now r.id) (claimed_now now) d.requests
          (λ r. refl) p in
      elim (Bool-cases (is_abandoned now r.id r)) [
        | inl old ↦ (claimed_now now r, rw old at found, same, refl)
        | inr young ↦ (r, rw young at found, same, refl)
      ]

  pub once-Outcome :
      (now : DateTime) (work : W → Result Text × W) (d : Desk W)
      → text_eq key [] ≡ false
      → Outcome (once now user (some key) endpoint work d)
  unfolding once claim_key
  once-Outcome now work d named = elim (Option-cases (find (is_named user key) d.requests)) [
    | inl new ↦
        let r = fresh_request now user key endpoint d.serial in
        simp (named, new, once, claim_key)
          (run_named-Outcome work d.serial
            (record d { requests = r ∷ d.requests; serial = suc d.serial })
            (λ w. (r, rw (==_self user, text_eq_self key) refl, text_eq_self endpoint, refl)))
    | inr (r, p) ↦ elim (Bool-cases (text_eq r.endpoint endpoint)) [
      | inr reused ↦ simp (named, p, reused, once, claim_key) tt
      | inl same ↦ elim (Option-cases r.answer) [
        | inr (kept, q) ↦ simp (named, p, same, q, once, claim_key) (r, refl, same, q)
        | inl unanswered ↦ elim (Bool-cases (take_over now r.id d).0) [
          | inr busy ↦ simp (named, p, same, unanswered, busy, once, claim_key) tt
          | inl taken ↦
              simp (named, p, same, unanswered, taken, once, claim_key)
                (run_named-Outcome work r.id (take_over now r.id d).1
                  (λ w. take_over-Taken now d p same))
        ]
      ]
    ]
  ]
