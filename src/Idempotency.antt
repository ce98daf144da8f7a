-- ===== src/Idempotency.antt =====
-- helpers/idempotency.py: a write that a client names runs once. `W` is the rest of the database
-- and `work` is the write, which the caller passes in: on a raise its state is what it had
-- committed, since the rollback that follows drops the rest. An answer is a text. No other session
-- runs inside a call here, so the row that lost its insert is there to be read.
use fastkit.Base.{
  ◌==◌, if◌then◌else◌, ℕ, suc, ◌∙◌, Bool, true, false, ◌&&◌, not, Option, none, some, List, [], ◌∷◌,
}
use fastkit.Base.Table.{find, update_where, count_where, select}
use fastkit.Base.Text.{Text, text_eq}
use fastkit.Dates.{add_time, before, minutes, DateTime}
use fastkit.Errors.{idempotency_key_in_flight, idempotency_key_reused, other, Result, ok, raise}
pub mod Memo
pub mod Kept
pub mod Replay
mod Tests

pub record ClientRequest : Type 0 where
  pub id : ℕ
  pub user_id : ℕ
  pub idempotency_key : Text
  pub endpoint : Text
  pub answer : Option Text
  pub claimed_at : DateTime

pub record Desk (W : Type 0) : Type 0 where
  pub requests : List ClientRequest
  pub serial : ℕ
  pub world : W

-- `ABANDONED_AFTER`
abbrev pub held_for : ℕ
held_for = minutes 5

abbrev pub is_named : ℕ → Text → ClientRequest → Bool
is_named user key r = r.user_id == user && text_eq r.idempotency_key key

abbrev pub fresh_request : DateTime → ℕ → Text → Text → ℕ → ClientRequest
fresh_request now user key endpoint id = record {
  id = id;
  user_id = user;
  idempotency_key = key;
  endpoint = endpoint;
  answer = none;
  claimed_at = now;
}

abbrev pub is_unanswered : Option Text → Bool
is_unanswered none = true
is_unanswered (some a) = false

abbrev pub is_abandoned : DateTime → ℕ → ClientRequest → Bool
is_abandoned now id r =
    r.id == id && (is_unanswered r.answer && before (add_time held_for r.claimed_at) now)

abbrev pub claimed_now : DateTime → ClientRequest → ClientRequest
claimed_now now r = record r { claimed_at = now }

module _ {W : Type 0} where
  -- `take_over`
  unfoldable pub take_over : DateTime → ℕ → Desk W → Bool × Desk W
  take_over now id d = (
    count_where (is_abandoned now id) d.requests == 1,
    record d { requests = update_where (is_abandoned now id) (claimed_now now) d.requests },
  )

  -- `claim`: the id of the row that this call took, or the answer that was kept.
  unfoldable pub claim_key : DateTime → ℕ → Text → Text → Desk W → Result (ℕ × Option Text) × Desk W
  unfolding take_over
  claim_key now user key endpoint d = elim (find (is_named user key) d.requests) [
    | none ↦ (
      ok (d.serial, none),
      record d {
        requests = fresh_request now user key endpoint d.serial ∷ d.requests;
        serial = suc d.serial;
      },
    )
    | some named ↦
        if not (text_eq named.endpoint endpoint)
        then (raise idempotency_key_reused, d)
        else elim named.answer [
          | some kept ↦ (ok (named.id, some kept), d)
          | none ↦
              let (taken, d') = take_over now named.id d in
              if taken then (ok (named.id, none), d') else (raise idempotency_key_in_flight, d')
        ]
  ]

  -- `give_back`
  unfoldable pub give_back : ℕ → Desk W → Desk W
  give_back id d = record d {
    requests = select (λ r. not (r.id == id && is_unanswered r.answer)) d.requests;
  }

  -- `settle`
  unfoldable pub settle_key : ℕ → Text → Desk W → Desk W
  settle_key id answer d = record d {
    requests = update_where (λ r. r.id == id) (λ r. record r { answer = some answer }) d.requests;
  }

  -- The work of a call that took the row `id`.
  unfoldable pub run_named : (W → Result Text × W) → ℕ → Desk W → Result Text × Desk W
  run_named work id d =
      let (result, world) = work d.world in
      elim result [
        | raise f ↦ (raise f, give_back id (record d { world = world }))
        | ok answer ↦ (ok answer, settle_key id answer (record d { world = world }))
      ]

  -- `once`, of a call with no key: nothing is named and nothing is kept.
  unfoldable pub run_unnamed : (W → Result Text × W) → Desk W → Result Text × Desk W
  run_unnamed work d = let (result, world) = work d.world in (result, record d { world = world })

  -- `once`
  unfoldable pub once :
      DateTime → ℕ → Option Text → Text → (W → Result Text × W) → Desk W → Result Text × Desk W
  once now user none endpoint work d = run_unnamed work d
  once now user (some key) endpoint work d =
      if text_eq key []
      then run_unnamed work d
      else (let (claimed, d') = claim_key now user key endpoint d in
          elim claimed [
            | raise f ↦ (raise f, d')
            | ok (id, kept) ↦ elim kept [
              | some answer ↦ (ok answer, d')
              | none ↦ run_named work id d'
            ]
          ])
