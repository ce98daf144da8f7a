-- ===== src/Idempotency/Memo.antt =====
-- A client sees a table of answers: the rows, their ids and the claims on them are how it is kept.
use fastkit.Base.{
  inr, inl, Bool-cases, List, ◌==◌, if◌then◌else◌, ==_self, ℕ, suc, ◌<◌, ◌≡◌, refl, true, false,
  ◌&&◌, not, Option, none, some, ◌∷◌, arith, Option-cases, [], ◌∙◌,
}
use fastkit.Base.Table.{All, find, update_where_missed, select_met, All-both, All-find}
use fastkit.Base.Text.{Text, text_eq}
use fastkit.Dates.{DateTime}
use fastkit.Errors.{idempotency_key_reused, Result, ok, raise, Result-cases, Fault}
use fastkit.Idempotency.{
  is_named, fresh_request, is_unanswered, give_back, settle_key, ClientRequest, Desk, claim_key,
  run_named, once,
}

-- For a user and a key, the endpoint and the answer that are kept.
abbrev pub Memo : Type 0
Memo = ℕ → Text → Option (Text × Text)

abbrev pub remember : ℕ → Text → Text → Text → Memo → Memo
remember user key endpoint answer memo =
    λ u k. if user == u && text_eq key k then some (endpoint, answer) else memo u k

-- The promise to the client: a key that has an answer gives it, at its endpoint, and any other runs
-- the work and keeps what it answers.
unfoldable pub memo_once :
    {W : Type 0} → ℕ → Text → Text → (W → Result Text × W) → Memo × W → Result Text × Memo × W
memo_once user key endpoint work (memo, w) = elim (memo user key) [
  | some (settled, answer) ↦
      (if text_eq settled endpoint then ok answer else raise idempotency_key_reused, memo, w)
  | none ↦ elim (work w).0 [
    | raise f ↦ (raise f, memo, (work w).1)
    | ok answer ↦ (ok answer, remember user key endpoint answer memo, (work w).1)
  ]
]

abbrev pub entry_of : ClientRequest → Option (Text × Text)
entry_of r = elim r.answer [ none ↦ none | some a ↦ some (r.endpoint, a) ]

-- What a desk keeps.
abbrev pub memo_of : {W : Type 0} → Desk W → Memo
memo_of d = λ u k. elim (find (is_named u k) d.requests) [ none ↦ none | some r ↦ entry_of r ]

-- No call is under way: every row has its answer, and its id was drawn.
abbrev pub IsQuiet : {W : Type 0} → Desk W → Type 0
IsQuiet d = All (λ r. (is_unanswered r.answer ≡ false) × (r.id < d.serial)) d.requests

-- A desk keeps a table, and answers and leaves the rest of the database as the table does.
abbrev pub Refines : {W : Type 0} → Result Text × Desk W → Result Text × Memo × W → Type 0
Refines (r, d) (r', memo, w) =
    (r ≡ r') × (d.world ≡ w) × ((u : ℕ) (k : Text) → memo_of d u k ≡ memo u k) × IsQuiet d

module _ {W : Type 0} (user : ℕ) (key endpoint : Text) (now : DateTime) (d : Desk W)
    (quiet : IsQuiet d) where
  abbrev row : ClientRequest
  row = fresh_request now user key endpoint d.serial

  others_kept : All (λ r. (r.id == d.serial) ≡ false) d.requests
  others_kept =
      All-both (λ r. (is_unanswered r.answer ≡ false) × (r.id < d.serial))
        (λ r. (is_unanswered r.answer ≡ false) × (r.id < d.serial))
        (λ r. (r.id == d.serial) ≡ false) d.requests (λ r h _. let lt = h.1 in ground arith) quiet
        quiet

  answered_rows :
      (answer : Text)
      → (settle_key d.serial answer
          (record d { requests = row ∷ d.requests; serial = suc d.serial })).requests
        ≡ record row { answer = some answer } ∷ d.requests
  unfolding settle_key
  answered_rows answer =
      simp
        (
          ==_self d.serial,
          update_where_missed (λ r. r.id == d.serial) (λ r. record r { answer = some answer })
              d.requests others_kept,
        )
        refl

  kept_rows : All (λ r. not (r.id == d.serial && is_unanswered r.answer) ≡ true) d.requests
  kept_rows =
      All-both (λ r. (r.id == d.serial) ≡ false) (λ r. (r.id == d.serial) ≡ false)
        (λ r. not (r.id == d.serial && is_unanswered r.answer) ≡ true) d.requests
        (λ r h _. rw h refl) others_kept others_kept

  given_back :
      (give_back d.serial
        (record d { requests = row ∷ d.requests; serial = suc d.serial })).requests
      ≡ d.requests
  unfolding give_back
  given_back =
      simp
        (
          ==_self d.serial,
          select_met (λ r. not (r.id == d.serial && is_unanswered r.answer)) d.requests kept_rows,
        )
        refl

  abbrev opened : Desk W
  opened = record d { requests = row ∷ d.requests; serial = suc d.serial }

  quiet_rows : All (λ r. (is_unanswered r.answer ≡ false) × (r.id < suc d.serial)) d.requests
  quiet_rows =
      All-both (λ r. (is_unanswered r.answer ≡ false) × (r.id < d.serial))
        (λ r. (is_unanswered r.answer ≡ false) × (r.id < d.serial))
        (λ r. (is_unanswered r.answer ≡ false) × (r.id < suc d.serial)) d.requests
        (λ r h _. (h.0, (let lt = h.1 in omega arith))) quiet quiet

  -- A raise leaves the rows as they were, and an answer leaves one more.
  same_memo :
      (w : W) (rows : List ClientRequest)
      → rows ≡ d.requests
      → ((u : ℕ) (k : Text)
          → memo_of (record opened { requests = rows; world = w }) u k ≡ memo_of d u k)
        × IsQuiet (record opened { requests = rows; world = w })
  same_memo w rows e = ((λ u k. rw e refl), rw e quiet_rows)

  more_memo :
      (w : W) (answer : Text) (rows : List ClientRequest)
      → rows ≡ record row { answer = some answer } ∷ d.requests
      → ((u : ℕ) (k : Text)
          → memo_of (record opened { requests = rows; world = w }) u k
            ≡ remember user key endpoint answer (memo_of d) u k)
        × IsQuiet (record opened { requests = rows; world = w })
  more_memo w answer rows e = ((λ u k. rw e (ground arith)), rw e ((refl, omega arith), quiet_rows))

  table_of : Result Text → W → Result Text × Memo × W
  table_of (raise f) world = (raise f, memo_of d, world)
  table_of (ok answer) world = (ok answer, remember user key endpoint answer (memo_of d), world)

  desk_of : Result Text → W → Result Text × Desk W
  desk_of (raise f) world = (raise f, give_back d.serial (record opened { world = world }))
  desk_of (ok answer) world =
      (ok answer, settle_key d.serial answer (record opened { world = world }))

  -- A call of a key that has no row: what it leaves is what the table's leaves.
  desk_of-Refines :
      (result : Result Text) (world : W)
      → Refines {W = W} (desk_of result world) (table_of result world)
  unfolding desk_of table_of give_back settle_key
  desk_of-Refines (raise f) world =
      let (memo, still) = same_memo world (give_back d.serial opened).requests given_back in
      (refl, refl, memo, still)
  desk_of-Refines (ok a) world =
      let (memo, still) =
        more_memo world a (settle_key d.serial a opened).requests (answered_rows a) in
      (refl, refl, memo, still)

-- The table's call, once what it keeps and what the work does are known.
module _ {W : Type 0} (user : ℕ) (key endpoint : Text) (work : W → Result Text × W) (memo : Memo)
    (w : W) where
  memo_once_raised :
      {f : Fault}
      → memo user key ≡ none
      → (work w).0 ≡ raise f
      → memo_once user key endpoint work (memo, w) ≡ (raise f, memo, (work w).1)
  unfolding memo_once
  memo_once_raised new e = rw (new, e, memo_once) refl

  memo_once_answered :
      {a : Text}
      → memo user key ≡ none
      → (work w).0 ≡ ok a
      → memo_once user key endpoint work (memo, w)
        ≡ (ok a, remember user key endpoint a memo, (work w).1)
  unfolding memo_once
  memo_once_answered new e = rw (new, e, memo_once) refl

  memo_once_kept :
      {settled a : Text}
      → memo user key ≡ some (settled, a)
      → memo_once user key endpoint work (memo, w)
        ≡ (if text_eq settled endpoint then ok a else raise idempotency_key_reused, memo, w)
  unfolding memo_once
  memo_once_kept h = rw (h, memo_once) refl

-- Where no call is under way, a keyed call does what the table of answers does: it answers the
-- same, leaves the rest of the database the same and keeps the same table, at whatever moment, and
-- no call is under way after it. A raise of the work keeps nothing. The key is not the empty text.
pub once-Refines :
    {W : Type 0} (user : ℕ) (key endpoint : Text) (now : DateTime) (work : W → Result Text × W)
    (d : Desk W)
    → text_eq key [] ≡ false
    → IsQuiet d
    → Refines {W = W}
        (once now user (some key) endpoint work d)
        (memo_once user key endpoint work (memo_of d, d.world))
unfolding once claim_key run_named memo_once desk_of table_of
once-Refines {W} user key endpoint now work d named quiet =
    elim (Option-cases (find (is_named user key) d.requests)) [
      | inl new ↦ elim (Result-cases (work d.world).0) [
        | inl (f, e) ↦
            by_parts (raise f) (simp (named, new, e, once, claim_key, run_named) refl) (
              memo_once_raised user key endpoint work (memo_of d) d.world (rw (new, memo_of) refl)
                e)
        | inr (a, e) ↦ by_parts (ok a) (simp (named, new, e, once, claim_key, run_named) refl) (
            memo_once_answered user key endpoint work (memo_of d) d.world (rw (new, memo_of) refl)
              e)
      ]
      | inr (r, p) ↦
          let answered =
            (All-find (λ r. (is_unanswered r.answer ≡ false) × (r.id < d.serial))
              (is_named user key) d.requests quiet p).0 in
          elim (Option-cases r.answer) [
            | inl none_kept ↦ let bad : true ≡ false = rw none_kept at answered in cc
            | inr (a, kept) ↦ elim (Bool-cases (text_eq r.endpoint endpoint)) [
              | inl same ↦ answers (ok a) (simp (named, p, same, kept, once, claim_key) refl) (
                  memo_once_kept user key endpoint work (memo_of d) d.world {settled = r.endpoint}
                    {a = a} (rw (p, kept, memo_of) refl)
                  ∙ rw same refl)
              | inr reused ↦
                  answers (raise idempotency_key_reused)
                    (simp (named, p, reused, once, claim_key) refl)
                    (memo_once_kept user key endpoint work (memo_of d) d.world
                        {settled = r.endpoint} {a = a} (rw (p, kept, memo_of) refl)
                      ∙ rw reused refl)
            ]
          ]
    ]
  where
    by_parts :
        (result : Result Text)
        → once now user (some key) endpoint work d
          ≡ desk_of user key endpoint now d quiet result (work d.world).1
        → memo_once user key endpoint work (memo_of d, d.world)
          ≡ table_of user key endpoint now d quiet result (work d.world).1
        → Refines {W = W}
            (once now user (some key) endpoint work d)
            (memo_once user key endpoint work (memo_of d, d.world))
    by_parts result e f =
        rw (e, f) (desk_of-Refines user key endpoint now d quiet result (work d.world).1)

    answers :
        (result : Result Text)
        → once now user (some key) endpoint work d ≡ (result, d)
        → memo_once user key endpoint work (memo_of d, d.world) ≡ (result, memo_of d, d.world)
        → Refines {W = W}
            (once now user (some key) endpoint work d)
            (memo_once user key endpoint work (memo_of d, d.world))
    answers result e f = rw (e, f) (refl, refl, (λ u k. refl), quiet)
