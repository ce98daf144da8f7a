-- ===== src/Rotation/Refusing.antt =====
-- What stops a rewrite.
use fastkit.Rotation.Reading.{
  is_unreadable, change_of-Kept, rewrite_row-Kept, reseal_rows-Kept, shut_row,
  rewrite_model-reseal_rows,
}
use fastkit.Base.Table.{All}
use fastkit.Rotation.Paging.{reseal_row, reseal_rows, Rising}
use fastkit.Base.{
  if◌then◌else◌, Bool-cases, Option-cases, any, ◌≡◌, refl, inl, inr, true, false, Option, none,
  some, List, [], ℕ, ◌∷◌, suc, ap,
}
use fastkit.Base.Text.{Text, text_eq}
use fastkit.Errors.{secret_unreadable, raise}
use fastkit.Rotation.{decrypt, change_of, Keys, SecretRow, rewrite_row, rewrite_models, rewrite}

-- The column of the first secret that no key reads, in the row, then in the model, then in all.
unfoldable pub shut_column : Keys → ℕ → List (Option Text) → Option ℕ
shut_column k column [] = none
shut_column k column (c ∷ cs) =
    if is_unreadable k c then some column else shut_column k (suc column) cs

unfoldable pub shut_in : Keys → List SecretRow → Option ℕ
unfolding shut_column
shut_in k [] = none
shut_in k (r ∷ rows) = elim (shut_column k 0 r.secrets) [
  | some column ↦ some column
  | none ↦ shut_in k rows
]

unfoldable pub first_shut : Keys → List (List SecretRow) → Option ℕ
unfolding shut_in
first_shut k [] = none
first_shut k (rows ∷ models) = elim (shut_in k rows) [
  | some column ↦ some column
  | none ↦ first_shut k models
]

module _ (k : Keys) where
  change_of_refused :
      (column : ℕ) (c : Option Text)
      → is_unreadable k c ≡ true
      → change_of k column c ≡ raise (secret_unreadable column)
  unfolding is_unreadable change_of decrypt
  change_of_refused column none h = cc
  change_of_refused column (some t) h = elim (Bool-cases (text_eq t [])) [
    | inl blank ↦ let bad : false ≡ true = simp blank at h in cc
    | inr full ↦ elim (Option-cases (k.unseal t)) [
      | inl shut ↦ simp (full, shut) refl
      | inr (raw, e) ↦ let bad : false ≡ true = simp (full, e) at h in cc
    ]
  ]

  rewrite_row_refused :
      (column : ℕ) (cs : List (Option Text)) {n : ℕ}
      → shut_column k column cs ≡ some n
      → rewrite_row k column cs ≡ raise (secret_unreadable n)
  unfolding rewrite_row shut_column
  rewrite_row_refused column [] h = cc
  rewrite_row_refused column (c ∷ cs) {n} h = elim (Bool-cases (is_unreadable k c)) [
    | inl bad ↦
        let here : ◌≡◌ {A = Option ℕ} (some column) (some n) = rw bad at h in
        let same : column ≡ n = cc in
        simp (change_of_refused column c bad, rewrite_row)
          (ap (λ i. raise (secret_unreadable i)) same)
    | inr good ↦
        let (v, e, _) = change_of-Kept k column c good in
        simp (e, rewrite_row_refused (suc column) cs {n = n} (rw good at h), rewrite_row) refl
  ]

  readable_row :
      (column : ℕ) (cs : List (Option Text))
      → shut_column k column cs ≡ none
      → any (is_unreadable k) cs ≡ false
  unfolding shut_column
  readable_row column [] h = refl
  readable_row column (c ∷ cs) h = elim (Bool-cases (is_unreadable k c)) [
    | inl bad ↦ let no_way : ◌≡◌ {A = Option ℕ} (some column) none = rw bad at h in cc
    | inr good ↦ rw good (readable_row (suc column) cs (rw good at h))
  ]

  reseal_rows_refused :
      (rows : List SecretRow) {n : ℕ}
      → shut_in k rows ≡ some n
      → reseal_rows k rows ≡ raise (secret_unreadable n)
  unfolding reseal_rows reseal_row shut_in
  reseal_rows_refused [] h = cc
  reseal_rows_refused (r ∷ rows) {n} h = elim (Option-cases (shut_column k 0 r.secrets)) [
    | inr (column, bad) ↦
        let here : ◌≡◌ {A = Option ℕ} (some column) (some n) = rw (bad, shut_in) at h in
        let same : column ≡ n = cc in
        simp (rewrite_row_refused 0 r.secrets bad, reseal_rows, reseal_row)
          (ap (λ i. raise (secret_unreadable i)) same)
    | inl good ↦
        let (changes, e, _) = rewrite_row-Kept k 0 r.secrets (readable_row 0 r.secrets good) in
        simp
          (e, reseal_rows_refused rows {n = n} (rw (good, shut_in) at h), reseal_rows, reseal_row)
          refl
  ]

  readable_rows : (rows : List SecretRow) → shut_in k rows ≡ none → any (shut_row k) rows ≡ false
  unfolding shut_in
  readable_rows [] h = refl
  readable_rows (r ∷ rows) h = elim (Option-cases (shut_column k 0 r.secrets)) [
    | inr (column, bad) ↦
        let no_way : ◌≡◌ {A = Option ℕ} (some column) none = rw (bad, shut_in) at h in cc
    | inl good ↦ rw (readable_row 0 r.secrets good) (readable_rows rows (rw (good, shut_in) at h))
  ]

  rewrite_models_refused :
      (models : List (List SecretRow)) {n : ℕ}
      → All (Rising 0) models
      → first_shut k models ≡ some n
      → rewrite_models k models ≡ some (raise (secret_unreadable n))
  unfolding rewrite_models first_shut
  rewrite_models_refused [] rising h = cc
  rewrite_models_refused (rows ∷ models) {n} rising h = elim (Option-cases (shut_in k rows)) [
    | inr (column, bad) ↦
        let here : ◌≡◌ {A = Option ℕ} (some column) (some n) = rw (bad, first_shut) at h in
        let same : column ≡ n = cc in
        simp
          (rewrite_model-reseal_rows k rows rising.0, reseal_rows_refused rows bad, rewrite_models)
          (ap (λ i. some (raise (secret_unreadable i))) same)
    | inl good ↦
        let (m, rows', e, kept) = reseal_rows-Kept k rows (readable_rows rows good) in
        simp
          (
            rewrite_model-reseal_rows k rows rising.0,
            e,
            rewrite_models_refused models {n = n} rising.1 (rw (good, first_shut) at h),
            rewrite_models,
          )
          refl
  ]

  -- Where no key reads one of the secrets, in whatever model it stands, a rewrite ends with the
  -- refusal that names the column of the first such secret, and nothing is written, neither in its
  -- model nor in those before it. The ids of a model rise from 1.
  pub rewrite_unreadable :
      (models : List (List SecretRow)) (column : ℕ)
      → All (Rising 0) models
      → first_shut k models ≡ some column
      → rewrite k models ≡ some (raise (secret_unreadable column), models)
  unfolding rewrite
  rewrite_unreadable models column rising shut =
      rw (rewrite_models_refused models rising shut, rewrite) refl
