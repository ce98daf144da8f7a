-- ===== src/Rotation/Paging.antt =====
-- Pages and guards come to one pass over the rows.
use fastkit.Base.Table.{
  update_where_missed, update_where-append, update_where, count_where_missed, count_where-append,
  count_where, All, All-append,
}
use fastkit.Base.{
  ℕ, ◌+◌, ◌≤◌, ◌<◌, ◌≡◌, refl, ap, Option, none, some, List, [], ◌∷◌, arith, ◌==◌, Bool-cases,
  ==_self, inl, inr, true, false, ◌++◌, ==_iff, append_assoc, sym,
}
use fastkit.Base.Text.{Text, text_eq_self}
use fastkit.Errors.{Result, ok, raise, Result-cases}
use fastkit.Rotation.{
  rewrite_row, changed, settle_columns, settled_row, Keys, SecretRow, same_secret, same_secrets,
  is_unchanged, write_row, write_changes, write_page,
}

-- The reference: each row is rewritten where it stands, and the first that cannot be read ends it.
unfoldable pub reseal_row : Keys → SecretRow → Result (ℕ × SecretRow)
reseal_row k r = elim (rewrite_row k 0 r.secrets) [
  | raise f ↦ raise f
  | ok changes ↦ ok (changed changes, settled_row changes r)
]

-- The outcome of a row, as that of a list of one.
abbrev pub single : Result (ℕ × SecretRow) → Result (ℕ × List SecretRow)
single (raise f) = raise f
single (ok (n, r)) = ok (n, r ∷ [])

-- The outcome of two parts, the first raise of which ends both.
abbrev pub join :
    Result (ℕ × List SecretRow) → Result (ℕ × List SecretRow) → Result (ℕ × List SecretRow)
join (raise f) r = raise f
join (ok (n, rows)) (raise f) = raise f
join (ok (n, rows)) (ok (m, rows')) = ok (n + m, rows ++ rows')

unfoldable pub reseal_rows : Keys → List SecretRow → Result (ℕ × List SecretRow)
reseal_rows k [] = ok (0, [])
reseal_rows k (r ∷ rs) = join (single (reseal_row k r)) (reseal_rows k rs)

-- The ids of the rows rise, above a bound.
abbrev pub Rising : ℕ → List SecretRow → Type 0
Rising low [] = Unit {0}
Rising low (r ∷ rs) = (low < r.id) × Rising r.id rs

abbrev pub Below : ℕ → List SecretRow → Type 0
Below top = All (λ r. r.id ≤ top)

-- The rows between two parts that stay.
abbrev pub within :
    List SecretRow → List SecretRow → Result (ℕ × List SecretRow) → Result (ℕ × List SecretRow)
within pre post (raise f) = raise f
within pre post (ok (n, rows)) = ok (n, pre ++ (rows ++ post))

settle_columns_none :
    (changes : List (Option (Option Text))) (cs : List (Option Text))
    → changed changes ≡ 0
    → settle_columns changes cs ≡ cs
unfolding settle_columns changed
settle_columns_none [] cs h = refl
settle_columns_none (none ∷ changes) [] h = refl
settle_columns_none (none ∷ changes) (c ∷ cs) h = ap (λ l. c ∷ l) (settle_columns_none changes cs h)
settle_columns_none (some v ∷ changes) cs h = absurd (omega arith)

same_secrets_self : (cs : List (Option Text)) → same_secrets cs cs ≡ true
unfolding same_secrets same_secret
same_secrets_self [] = refl
same_secrets_self (none ∷ cs) = same_secrets_self cs
same_secrets_self (some t ∷ cs) = rw (text_eq_self t) (same_secrets_self cs)

is_unchanged_self : (r : SecretRow) → is_unchanged r r ≡ true
is_unchanged_self r = rw (==_self r.id) (same_secrets_self r.secrets)

Below-missed :
    (r : SecretRow) (top : ℕ) (rows : List SecretRow)
    → top < r.id
    → Below top rows
    → All (λ x. is_unchanged r x ≡ false) rows
Below-missed r top [] h b = tt
Below-missed r top (x ∷ rows) h b = (ground arith, Below-missed r top rows h b.1)

Rising-missed :
    (r : SecretRow) (low : ℕ) (rows : List SecretRow)
    → r.id ≤ low
    → Rising low rows
    → All (λ x. is_unchanged r x ≡ false) rows
Rising-missed r low [] h b = tt
Rising-missed r low (x ∷ rows) h b = (ground arith, Rising-missed r x.id rows (ground arith) b.1)

write_changes-settled_row :
    (r : SecretRow) (changes : List (Option (Option Text))) (pre post : List SecretRow)
    → All (λ x. is_unchanged r x ≡ false) pre
    → All (λ x. is_unchanged r x ≡ false) post
    → write_changes r changes (pre ++ r ∷ post)
      ≡ ok (changed changes, pre ++ settled_row changes r ∷ post)
unfolding write_changes
write_changes-settled_row r changes pre post before after =
    let p = is_unchanged r in
    let f = settled_row changes in
    let hit = is_unchanged_self r in
    elim (Bool-cases (changed changes == 0)) [
      | inl same ↦
          let e : changed changes ≡ 0 = (==_iff _ 0).0 same in
          simp (e, settle_columns_none changes r.secrets e) refl
      | inr more ↦
          let one : count_where p (pre ++ r ∷ post) ≡ 1 =
            rw
              (
                count_where-append p pre (r ∷ post),
                count_where_missed p pre before,
                hit,
                count_where_missed p post after,
              )
              refl in
          let put : update_where p f (pre ++ r ∷ post) ≡ pre ++ f r ∷ post =
            rw
              (
                update_where-append p f pre (r ∷ post),
                update_where_missed p f pre before,
                hit,
                update_where_missed p f post after,
              )
              refl in
          rw (more, one, put) refl
    ]

module _ (k : Keys) where
  write_row-reseal_row :
      (r : SecretRow) (top : ℕ) (pre post : List SecretRow)
      → Below top pre
      → top < r.id
      → Rising r.id post
      → write_row k r (pre ++ r ∷ post) ≡ within pre post (single (reseal_row k r))
  unfolding write_row reseal_row
  write_row-reseal_row r top pre post below lt rising =
      elim (Result-cases (rewrite_row k 0 r.secrets)) [
        | inl (f, e) ↦ simp (e, write_row, reseal_row) refl
        | inr (changes, e) ↦
            simp (e, write_row, reseal_row)
              (write_changes-settled_row r changes pre post (Below-missed r top pre lt below)
                (Rising-missed r r.id post (omega arith) rising))
      ]

join_assoc : (r s t : Result (ℕ × List SecretRow)) → join (join r s) t ≡ join r (join s t)
join_assoc (raise f) s t = refl
join_assoc (ok (n, xs)) (raise f) t = refl
join_assoc (ok (n, xs)) (ok (m, ys)) (raise f) = refl
join_assoc (ok (n, xs)) (ok (m, ys)) (ok (l, zs)) =
    rw (append_assoc xs ys zs) (ap (λ t. ok (t, xs ++ (ys ++ zs))) (omega arith))

join_first : (r : Result (ℕ × List SecretRow)) → join (ok (0, [])) r ≡ r
join_first (raise f) = refl
join_first (ok (n, rows)) = ap (λ t. ok (t, rows)) (omega arith)

pub reseal_rows-append :
    (k : Keys) (xs ys : List SecretRow)
    → reseal_rows k (xs ++ ys) ≡ join (reseal_rows k xs) (reseal_rows k ys)
unfolding reseal_rows
reseal_rows-append k [] ys = sym (join_first (reseal_rows k ys))
reseal_rows-append k (x ∷ xs) ys =
    rw (reseal_rows-append k xs ys)
      (sym (join_assoc (single (reseal_row k x)) (reseal_rows k xs) (reseal_rows k ys)))

pub reseal_row-id :
    (k : Keys) (r : SecretRow) {n : ℕ} {r' : SecretRow} → reseal_row k r ≡ ok (n, r') → r'.id ≡ r.id
unfolding reseal_row
reseal_row-id k r h = ground arith

pub Below-weaken :
    (top low : ℕ) (rows : List SecretRow) → low ≤ top → Below low rows → Below top rows
Below-weaken top low [] h b = tt
Below-weaken top low (r ∷ rows) h b = (omega arith, Below-weaken top low rows h b.1)

pub write_page-reseal_rows :
    (k : Keys) (page : List SecretRow) (top : ℕ) (pre tail : List SecretRow)
    → Below top pre
    → Rising top (page ++ tail)
    → write_page k page (pre ++ (page ++ tail)) ≡ within pre tail (reseal_rows k page)
unfolding write_page reseal_rows
write_page-reseal_rows k [] top pre tail below rising = refl
write_page-reseal_rows k (r ∷ page) top pre tail below (lt, rising) =
    let first = write_row-reseal_row k r top pre (page ++ tail) below lt rising in
    elim (Result-cases (reseal_row k r)) [
      | inl (f, e) ↦ simp (first, e, write_page) refl
      | inr ((n, r'), e) ↦
          let same = reseal_row-id k r e in
          let moved = append_assoc pre (r' ∷ []) (page ++ tail) in
          let done : Below r.id (pre ++ r' ∷ []) =
            All-append (λ x. x.id ≤ r.id) pre (r' ∷ [])
              (Below-weaken r.id top pre (omega arith) below) (omega arith, tt) in
          let rest = write_page-reseal_rows k page r.id (pre ++ r' ∷ []) tail done rising in
          let next : write_page k page (pre ++ r' ∷ (page ++ tail))
              ≡ within (pre ++ r' ∷ []) tail (reseal_rows k page) =
            rw moved at rest in
          elim (Result-cases (reseal_rows k page)) [
            | inl (f, h) ↦ simp (first, e, next, h, write_page) refl
            | inr ((m, rows), h) ↦
                simp (first, e, next, h, write_page)
                  (ap (λ t. ok (n + m, t)) (append_assoc pre (r' ∷ []) (rows ++ tail)))
          ]
    ]
