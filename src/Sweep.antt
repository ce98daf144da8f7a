-- ===== src/Sweep.antt =====
-- services/sweep_service.py: a file that nothing claimed within its grace goes, its row first and
-- then the file. The rows stand in the order of their ids, the storage is the keys that it holds,
-- and `upload_service.discard` removes those of a batch. `claims` says which rows another session
-- claims between the read of a page and the delete of a row.
use fastkit.Base.{
  ltb, ◌==◌, if◌then◌else◌, take, ℕ, zero, suc, ◌∙◌, Bool, true, false, ◌&&◌, ◌||◌, not, Option,
  none, some, List, [], ◌∷◌, ◌++◌,
}
use fastkit.Base.Table.{update_where, count_where, select}
use fastkit.Base.Text.{Text, text_eq}
use fastkit.Dates.{add_time, before, DateTime}
pub mod Named
pub mod Claimed
pub mod Orphans
mod Tests

pub record StoredFile : Type 0 where
  pub id : ℕ
  pub key : Text
  pub claimed_at : Option DateTime
  pub created_at : DateTime

pub record Storage : Type 0 where
  pub rows : List StoredFile
  pub keys : List Text

abbrev pub is_unclaimed : StoredFile → Bool
is_unclaimed r = elim r.claimed_at [ none ↦ true | some d ↦ false ]

-- `BATCH`
abbrev pub page_size : ℕ
page_size = 1000

-- `waiting`, behind the id `after`
unfoldable pub waiting : DateTime → ℕ → ℕ → List StoredFile → List StoredFile
waiting now grace after rows = take page_size (
    select (λ r. is_unclaimed r && (before (add_time grace r.created_at) now && ltb after r.id))
      rows)

abbrev pub claimed : DateTime → StoredFile → StoredFile
claimed now r = record r { claimed_at = some now }

-- What the delete of the row `id` reaches.
abbrev pub is_free : ℕ → StoredFile → Bool
is_free id r = r.id == id && is_unclaimed r

-- What another session does before the delete of the row `id`.
unfoldable pub meanwhile : DateTime → (ℕ → Bool) → ℕ → List StoredFile → List StoredFile
meanwhile now claims id rows = update_where (λ r. r.id == id && claims r.id) (claimed now) rows

-- The loop over a page: the keys of the rows that were deleted, and the rows then.
unfoldable pub delete_page :
    DateTime → (ℕ → Bool) → List StoredFile → List StoredFile → List Text × List StoredFile
unfolding meanwhile
delete_page now claims [] rows = ([], rows)
delete_page now claims (r ∷ page) rows =
    let met = meanwhile now claims r.id rows in
    let (batch, left) = delete_page now claims page (select (λ x. not (is_free r.id x)) met) in
    (if count_where (is_free r.id) met == 1 then r.key ∷ batch else batch, left)

abbrev pub holds_key : Text → List Text → Bool
holds_key k [] = false
holds_key k (x ∷ xs) = text_eq k x || holds_key k xs

-- `upload_service.discard`
unfoldable pub discard_keys : List Text → List Text → List Text
discard_keys batch [] = []
discard_keys batch (k ∷ ks) =
    if holds_key k batch then discard_keys batch ks else k ∷ discard_keys batch ks

-- The loop of `discard_orphans`: the keys that went, and the storage then; `none` where the fuel is
-- spent.
unfoldable pub discard_orphans :
    ℕ → DateTime → ℕ → (ℕ → Bool) → Storage → Option (List Text × Storage)
unfolding waiting delete_page discard_keys
discard_orphans zero now grace claims s = none
discard_orphans (suc fuel) now grace claims s = elim (waiting now grace 0 s.rows) [
  | [] ↦ some ([], s)
  | r ∷ page ↦
      let (batch, left) = delete_page now claims (r ∷ page) s.rows in
      elim (discard_orphans fuel now grace claims
        (record s { rows = left; keys = discard_keys batch s.keys })) [
          | none ↦ none
          | some (gone, end) ↦ some (batch ++ gone, end)
        ]
]
