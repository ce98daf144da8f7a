-- ===== src/Rotation/Reading.antt =====
-- What a rewritten secret reads as.
use fastkit.Base.Table.{All}
use fastkit.Rotation.Passing.{rewrite_pages-reseal_rows, behind}
use fastkit.Rotation.Paging.{reseal_row, reseal_rows, Rising}
use fastkit.Base.{
  if◌then◌else◌, Bool-cases, Option-cases, any, Alike, ◌≡◌, refl, inl, inr, Bool, true, false, ◌&&◌,
  Option, none, some, List, [], ℕ, ◌+◌, ◌∷◌, length, suc, ap, ◌∙◌, arith,
}
use fastkit.Base.Text.{Text, text_eq}
use fastkit.Errors.{ok, raise, Result}
use fastkit.Rotation.{
  encrypt, decrypt, is_kept, change_of, Keys, SecretRow, rewrite_row, changed, settle_columns,
  settled_row, rewrite_model, rewrite_models, rewrite,
}

-- `decrypt` by the first key alone.
unfoldable pub read_first : Keys → Option Text → Option Text
read_first k none = none
read_first k (some kept) = if text_eq kept [] then none else k.first kept

-- An empty secret reads as one that was never set.
unfoldable pub filled : Option Text → Option Text
filled none = none
filled (some t) = if text_eq t [] then none else some t

abbrev pub is_none : Option Text → Bool
is_none none = true
is_none (some t) = false

unfoldable pub is_unreadable : Keys → Option Text → Bool
is_unreadable k c = is_kept c && is_none (decrypt k c)

unfoldable pub holds_unreadable : Keys → List (List SecretRow) → Bool
unfolding is_unreadable
holds_unreadable k = any (any (λ r. any (is_unreadable k) r.secrets))

abbrev pub Kept : Keys → Option Text → Option Text → Type 0
Kept k c c' = read_first k c' ≡ filled (decrypt k c)

abbrev pub KeptRow : Keys → SecretRow → SecretRow → Type 0
KeptRow k r r' = (r'.id ≡ r.id) × Alike (Kept k) r.secrets r'.secrets

-- Row by row and column by column: the first key alone reads what all keys read before.
abbrev pub Resealed : Keys → List (List SecretRow) → List (List SecretRow) → Type 0
Resealed k = Alike (Alike (KeptRow k))

-- What a column's entry leaves of it.
abbrev pub settle_one : Option (Option Text) → Option Text → Option Text
settle_one none c = c
settle_one (some v) c = v

from_start : (r : Result (ℕ × List SecretRow)) → behind [] r ≡ r
from_start (raise f) = refl
from_start (ok (n, rows)) = refl

module _ (k : Keys) where
  pub change_of-Kept :
      (column : ℕ) (c : Option Text)
      → is_unreadable k c ≡ false
      → (v : Option (Option Text)) × (change_of k column c ≡ ok v) × Kept k c (settle_one v c)
  unfolding is_unreadable change_of decrypt read_first filled encrypt
  change_of-Kept column none h = (none, refl, refl)
  change_of-Kept column (some t) h = elim (Bool-cases (text_eq t [])) [
    | inl blank ↦ (none, simp (blank, change_of) refl, rw (blank, read_first, decrypt, filled) refl)
    | inr full ↦ elim (Option-cases (k.unseal t)) [
      | inl shut ↦ let bad : true ≡ false = simp (full, shut) at h in cc
      | inr (raw, e) ↦ elim (Bool-cases (text_eq raw [])) [
        | inl blank ↦ (some none, simp (full, e, blank, encrypt) refl, simp (full, e, blank) refl)
        | inr more ↦ (
          some (some (k.seal raw)),
          simp (full, e, more, encrypt) refl,
          simp (full, e, more, k.seal_filled raw, k.first-seal raw) refl,
        )
      ]
    ]
  ]

  settle_columns-Kept :
      (v : Option (Option Text)) (c : Option Text) (cs : List (Option Text))
      (changes : List (Option (Option Text)))
      → Kept k c (settle_one v c)
      → Alike (Kept k) cs (settle_columns changes cs)
      → Alike (Kept k) (c ∷ cs) (settle_columns (v ∷ changes) (c ∷ cs))
  unfolding settle_columns
  settle_columns-Kept none c cs changes kept rest = (kept, rest)
  settle_columns-Kept (some v) c cs changes kept rest = (kept, rest)

  pub rewrite_row-Kept :
      (column : ℕ) (cs : List (Option Text))
      → any (is_unreadable k) cs ≡ false
      → (changes : List (Option (Option Text))) × (rewrite_row k column cs ≡ ok changes)
        × Alike (Kept k) cs (settle_columns changes cs)
  unfolding rewrite_row settle_columns
  rewrite_row-Kept column [] h = ([], refl, tt)
  rewrite_row-Kept column (c ∷ cs) h = elim (Bool-cases (is_unreadable k c)) [
    | inl bad ↦ let no_way : true ≡ false = rw bad at h in cc
    | inr good ↦
        let (v, e, kept) = change_of-Kept column c good in
        let (changes, es, rest) = rewrite_row-Kept (suc column) cs (rw good at h) in
        (v ∷ changes, simp (e, es, rewrite_row) refl, settle_columns-Kept v c cs changes kept rest)
  ]

  abbrev pub shut_row : SecretRow → Bool
  shut_row r = any (is_unreadable k) r.secrets

  pub reseal_rows-Kept :
      (rows : List SecretRow)
      → any shut_row rows ≡ false
      → (n : ℕ) × (rows' : List SecretRow) × (reseal_rows k rows ≡ ok (n, rows'))
        × Alike (KeptRow k) rows rows'
  unfolding reseal_rows reseal_row
  reseal_rows-Kept [] h = (0, [], refl, tt)
  reseal_rows-Kept (r ∷ rows) h = elim (Bool-cases (shut_row r)) [
    | inl bad ↦ let no_way : true ≡ false = rw bad at h in cc
    | inr good ↦
        let (changes, e, kept) = rewrite_row-Kept 0 r.secrets good in
        let (n, rows', es, rest) = reseal_rows-Kept rows (rw good at h) in
        (
          changed changes + n,
          settled_row changes r ∷ rows',
          simp (e, es, reseal_rows, reseal_row) refl,
          ((refl, kept), rest),
        )
  ]

  -- The pass over a model, with its pages and its guards, is one pass over the rows: it ends, it
  -- writes what the reference writes and counts what it counts, and it raises where the reference
  -- raises, where the ids of the rows rise from 1.
  pub rewrite_model-reseal_rows :
      (rows : List SecretRow) → Rising 0 rows → rewrite_model k rows ≡ some (reseal_rows k rows)
  unfolding rewrite_model
  rewrite_model-reseal_rows rows rising =
      rewrite_pages-reseal_rows k (suc (length rows)) 999 0 [] rows (omega arith) tt rising
      ∙ ap some (from_start (reseal_rows k rows))

  rewrite_models-Resealed :
      (models : List (List SecretRow))
      → All (Rising 0) models
      → holds_unreadable k models ≡ false
      → (n : ℕ) × (models' : List (List SecretRow)) × (rewrite_models k models
          ≡ some (ok (n, models')))
        × Resealed k models models'
  unfolding rewrite_models holds_unreadable
  rewrite_models-Resealed [] rising h = (0, [], refl, tt)
  rewrite_models-Resealed (rows ∷ models) rising h = elim (Bool-cases (any shut_row rows)) [
    | inl bad ↦ let no_way : true ≡ false = rw bad at h in cc
    | inr good ↦
        let (n, rows', e, kept) = reseal_rows-Kept rows good in
        let (m, models', es, rest) = rewrite_models-Resealed models rising.1 (rw good at h) in
        (
          n + m,
          rows' ∷ models',
          simp (rewrite_model-reseal_rows rows rising.0, e, es, rewrite_models) refl,
          (kept, rest),
        )
  ]

  -- Where all keys read every secret, a rewrite ends and raises nothing, and it leaves every row of
  -- every model with its id and with secrets that the first key alone reads as all keys read them
  -- before, the empty one as none. The other keys can go. The ids of a model rise from 1.
  pub rewrite-Resealed :
      (models : List (List SecretRow))
      → All (Rising 0) models
      → holds_unreadable k models ≡ false
      → (n : ℕ) × (models' : List (List SecretRow)) × (rewrite k models ≡ some (ok n, models'))
        × Resealed k models models'
  unfolding rewrite
  rewrite-Resealed models rising readable =
      let (n, models', e, kept) = rewrite_models-Resealed models rising readable in
      (n, models', rw (e, rewrite) refl, kept)
