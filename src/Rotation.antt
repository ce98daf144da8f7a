-- ===== src/Rotation.antt =====
-- services/rotation_service.py, with `encrypt` and `decrypt` of helpers/security.py: every stored
-- secret is read with all keys and written back with the first. The keys are `MultiFernet` of the
-- package cryptography, so they are an argument, of which two facts are assumed: what the first key
-- writes it reads, and what the first key reads all of them read. What a seal draws at random is
-- not seen. A model is the list of its rows in the order of their ids, and its secrets stand in the
-- order of the columns' names, so a column is a place in that order; a raise is followed by a rollback, so it carries no rows.
use fastkit.Base.{
  ltb, ◌==◌, if◌then◌else◌, length, take, ℕ, zero, suc, ◌+◌, ◌≡◌, ◌∙◌, Bool, true, false, ◌&&◌, not,
  Option, none, some, List, [], ◌∷◌,
}
use fastkit.Base.Table.{update_where, count_where, select}
use fastkit.Base.Text.{Text, text_eq}
use fastkit.Errors.{secret_unreadable, secret_changed, Result, ok, raise}
pub mod Paging
pub mod Passing
pub mod Reading
pub mod Refusing
mod Tests

pub record Keys : Type 0 where
  pub seal : Text → Text
  pub unseal : Text → Option Text
  pub first : Text → Option Text
  pub first-seal : (t : Text) → first (seal t) ≡ some t
  pub seal_filled : (t : Text) → text_eq (seal t) [] ≡ false
  pub unseal-first : (c t : Text) → first c ≡ some t → unseal c ≡ some t

-- `encrypt`
unfoldable pub encrypt : Keys → Option Text → Option Text
encrypt k none = none
encrypt k (some raw) = if text_eq raw [] then none else some (k.seal raw)

-- `decrypt`
unfoldable pub decrypt : Keys → Option Text → Option Text
decrypt k none = none
decrypt k (some kept) = if text_eq kept [] then none else k.unseal kept

pub record SecretRow : Type 0 where
  pub id : ℕ
  pub secrets : List (Option Text)

abbrev pub is_kept : Option Text → Bool
is_kept none = false
is_kept (some t) = not (text_eq t [])

-- The entry of one column in `changes`: `none` where the column is skipped. The refusal names the
-- column.
unfoldable pub change_of : Keys → ℕ → Option Text → Result (Option (Option Text))
change_of k column kept =
    if is_kept kept
    then (elim (decrypt k kept) [
      | none ↦ raise (secret_unreadable column)
      | some opened ↦ ok (some (encrypt k (some opened)))
    ])
    else ok none

-- `rewrite_row`, from the column `column` on
unfoldable pub rewrite_row : Keys → ℕ → List (Option Text) → Result (List (Option (Option Text)))
rewrite_row k column [] = ok []
rewrite_row k column (c ∷ cs) = elim (change_of k column c) [
  | raise f ↦ raise f
  | ok change ↦ elim (rewrite_row k (suc column) cs) [
    | raise f ↦ raise f
    | ok changes ↦ ok (change ∷ changes)
  ]
]

-- `len(changes)`
unfoldable pub changed : List (Option (Option Text)) → ℕ
changed [] = 0
changed (none ∷ cs) = changed cs
changed (some c ∷ cs) = suc (changed cs)

-- `values(**changes)`
unfoldable pub settle_columns :
    List (Option (Option Text)) → List (Option Text) → List (Option Text)
settle_columns (none ∷ changes) (c ∷ cs) = c ∷ settle_columns changes cs
settle_columns (some v ∷ changes) (c ∷ cs) = v ∷ settle_columns changes cs
settle_columns _ cs = cs

unfoldable pub same_secret : Option Text → Option Text → Bool
same_secret none none = true
same_secret (some s) (some t) = text_eq s t
same_secret _ _ = false

-- `unchanged`, over all columns
unfoldable pub same_secrets : List (Option Text) → List (Option Text) → Bool
same_secrets [] [] = true
same_secrets (c ∷ cs) (d ∷ ds) = same_secret c d && same_secrets cs ds
same_secrets _ _ = false

abbrev pub is_unchanged : SecretRow → SecretRow → Bool
is_unchanged r x = x.id == r.id && same_secrets x.secrets r.secrets

abbrev pub settled_row : List (Option (Option Text)) → SecretRow → SecretRow
settled_row changes x = record x { secrets = settle_columns changes x.secrets }

-- The guarded update of a row, and how many secrets it wrote.
unfoldable pub write_changes :
    SecretRow → List (Option (Option Text)) → List SecretRow → Result (ℕ × List SecretRow)
write_changes r changes rows =
    if changed changes == 0
    then ok (0, rows)
    else if count_where (is_unchanged r) rows == 1
    then ok (changed changes, update_where (is_unchanged r) (settled_row changes) rows)
    else raise secret_changed

-- One turn of the inner loop.
unfoldable pub write_row : Keys → SecretRow → List SecretRow → Result (ℕ × List SecretRow)
write_row k r rows = elim (rewrite_row k 0 r.secrets) [
  | raise f ↦ raise f
  | ok changes ↦ write_changes r changes rows
]

unfoldable pub write_page : Keys → List SecretRow → List SecretRow → Result (ℕ × List SecretRow)
write_page k [] rows = ok (0, rows)
write_page k (r ∷ page) rows = elim (write_row k r rows) [
  | raise f ↦ raise f
  | ok (n, written) ↦ elim (write_page k page written) [
    | raise f ↦ raise f
    | ok (m, left) ↦ ok (n + m, left)
  ]
]

abbrev pub last_of : ℕ → List SecretRow → ℕ
last_of last [] = last
last_of last (r ∷ rs) = last_of r.id rs

abbrev pub batch_size : ℕ
batch_size = 1000

-- `rewritten += n`, for what the turns behind this one write.
abbrev pub count_in :
    ℕ → Option (Result (ℕ × List SecretRow)) → Option (Result (ℕ × List SecretRow))
count_in n none = none
count_in n (some (raise f)) = some (raise f)
count_in n (some (ok (m, rows))) = some (ok (n + m, rows))

unfoldable pub turn :
    Result (ℕ × List SecretRow)
    → (List SecretRow → Option (Result (ℕ × List SecretRow)))
    → Option (Result (ℕ × List SecretRow))
turn (raise f) next = some (raise f)
turn (ok (n, rows)) next = count_in n (next rows)

-- The loop of `rewrite_model`, by pages of `batch` rows behind `last`; `none` where the fuel is
-- spent.
unfoldable pub rewrite_pages :
    ℕ → Keys → ℕ → ℕ → List SecretRow → Option (Result (ℕ × List SecretRow))
unfolding turn
rewrite_pages zero k batch last rows = none
rewrite_pages (suc fuel) k batch last rows = elim (take batch (select (λ r. ltb last r.id) rows)) [
  | [] ↦ some (ok (0, rows))
  | r ∷ page ↦ turn (write_page k (r ∷ page) rows) (rewrite_pages fuel k batch (last_of r.id page))
]

-- `rewrite_model`
unfoldable pub rewrite_model : Keys → List SecretRow → Option (Result (ℕ × List SecretRow))
unfolding rewrite_pages
rewrite_model k rows = rewrite_pages (suc (length rows)) k batch_size 0 rows

-- The loop of `rewrite` over the models.
unfoldable pub rewrite_models :
    Keys → List (List SecretRow) → Option (Result (ℕ × List (List SecretRow)))
rewrite_models k [] = some (ok (0, []))
rewrite_models k (rows ∷ models) = elim (rewrite_model k rows) [
  | none ↦ none
  | some (raise f) ↦ some (raise f)
  | some (ok (n, written)) ↦ elim (rewrite_models k models) [
    | none ↦ none
    | some (raise f) ↦ some (raise f)
    | some (ok (m, rest)) ↦ some (ok (n + m, written ∷ rest))
  ]
]

-- `rewrite`: the commit of all models at once, and the rollback of a raise.
unfoldable pub rewrite : Keys → List (List SecretRow) → Option (Result ℕ × List (List SecretRow))
unfolding rewrite_models
rewrite k models = elim (rewrite_models k models) [
  | none ↦ none
  | some (raise f) ↦ some (raise f, models)
  | some (ok (n, written)) ↦ some (ok n, written)
]
