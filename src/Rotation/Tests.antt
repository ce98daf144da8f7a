-- ===== src/Rotation/Tests.antt =====
-- Two keys, the first of which is new: a text is sealed by a mark of its key in front.
use fastkit.Base.{◌==◌, if◌then◌else◌, ℕ, ◌≡◌, refl, Option, none, some, List, [], ◌∷◌, arith}
use fastkit.Base.Text.{Text, codes}
use fastkit.Errors.{secret_unreadable, ok, raise}
use fastkit.Rotation.{
  encrypt, decrypt, change_of, rewrite_row, changed, settle_columns, same_secret, same_secrets,
  write_changes, write_row, write_page, turn, rewrite_model, rewrite, Keys, SecretRow,
}
use fastkit.Rotation.Paging.{reseal_rows}
use fastkit.Rotation.Reading.{
  is_unreadable, holds_unreadable, Resealed, rewrite_model-reseal_rows, rewrite-Resealed,
}
use fastkit.Rotation.Refusing.{first_shut, shut_in, shut_column, rewrite_unreadable}

abbrev first_key : Text → Option Text
first_key [] = none
first_key (c ∷ t) = if c == 1 then some t else none

abbrev both_keys : Text → Option Text
both_keys [] = none
both_keys (c ∷ t) = if c == 1 then some t else if c == 2 then some t else none

both_keys-first_key : (c t : Text) → first_key c ≡ some t → both_keys c ≡ some t
both_keys-first_key [] t h = h
both_keys-first_key (c ∷ cs) t h = ground arith

abbrev ring : Keys
ring = record {
  seal = λ t. 1 ∷ t;
  unseal = both_keys;
  first = first_key;
  first-seal = λ t. refl;
  seal_filled = λ t. refl;
  unseal-first = both_keys-first_key;
}

abbrev old_row : SecretRow
old_row = record { id = 4; secrets = some (2 ∷ codes "ab") ∷ none ∷ [] }

abbrev bad_row : SecretRow
bad_row = record { id = 9; secrets = none ∷ some (3 ∷ codes "x") ∷ [] }

abbrev stored : List (List SecretRow)
stored = (old_row ∷ []) ∷ (old_row ∷ []) ∷ []

abbrev spoilt : List (List SecretRow)
spoilt = (old_row ∷ []) ∷ (old_row ∷ bad_row ∷ []) ∷ []

rewrites :
    rewrite_model ring (old_row ∷ [])
    ≡ some (ok (1, record old_row { secrets = some (1 ∷ codes "ab") ∷ none ∷ [] } ∷ []))
unfolding rewrite_model turn write_page write_row write_changes rewrite_row change_of changed
    settle_columns same_secret same_secrets encrypt decrypt
rewrites = refl

rewrite_model-reseal_rows_example :
    rewrite_model ring (old_row ∷ bad_row ∷ []) ≡ some (reseal_rows ring (old_row ∷ bad_row ∷ []))
rewrite_model-reseal_rows_example =
    rewrite_model-reseal_rows ring (old_row ∷ bad_row ∷ []) (omega arith)

rewrite-Resealed_example :
    (n : ℕ) × (models' : List (List SecretRow)) × (rewrite ring stored ≡ some (ok n, models'))
    × Resealed ring stored models'
unfolding holds_unreadable is_unreadable decrypt
rewrite-Resealed_example = rewrite-Resealed ring stored (omega arith) refl

rewrite_unreadable_example : rewrite ring spoilt ≡ some (raise (secret_unreadable 1), spoilt)
unfolding first_shut shut_in shut_column is_unreadable decrypt
rewrite_unreadable_example = rewrite_unreadable ring spoilt 1 (omega arith) refl
