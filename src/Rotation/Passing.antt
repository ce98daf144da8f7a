-- ===== src/Rotation/Passing.antt =====
-- The loop over the pages ends, and comes to the reference.
use fastkit.Base.Table.{select_met, select_missed, select-append, select, All, All-append}
use fastkit.Base.{
  ℕ, ◌+◌, ◌≤◌, ◌≡◌, subst, inl, inr, List, [], ◌∷◌, ◌++◌, arith, ltb, length, take, drop,
  take-append-drop, append_assoc, zero, suc, ◌<◌, refl, sym, ap, ap₂, ◌∙◌, true, false, Option,
  some,
}
use fastkit.Errors.{Result-cases, Result, ok, raise}
use fastkit.Rotation.{last_of, Keys, SecretRow, write_page, turn, rewrite_pages}
use fastkit.Rotation.Paging.{
  reseal_row, reseal_rows, Rising, Below, reseal_row-id, reseal_rows-append, Below-weaken,
  write_page-reseal_rows,
}

abbrev pub behind : List SecretRow → Result (ℕ × List SecretRow) → Result (ℕ × List SecretRow)
behind pre (raise f) = raise f
behind pre (ok (n, rows)) = ok (n, pre ++ rows)

Rising-last_of :
    (low : ℕ) (page tail : List SecretRow)
    → Rising low (page ++ tail)
    → (low ≤ last_of low page) × Rising (last_of low page) tail
Rising-last_of low [] tail h = (omega arith, h)
Rising-last_of low (r ∷ page) tail (lt, h) =
    let (le, rest) = Rising-last_of r.id page tail h in (omega arith, rest)

reseal_rows-Below :
    (k : Keys) (low : ℕ) (page tail : List SecretRow) {n : ℕ} {rows : List SecretRow}
    → Rising low (page ++ tail)
    → reseal_rows k page ≡ ok (n, rows)
    → Below (last_of low page) rows
unfolding reseal_rows
reseal_rows-Below k low [] tail {n} {rows} h e =
    let same : [] ≡ rows = cc in subst (Below low) same tt
reseal_rows-Below k low (r ∷ page) tail {n} {rows} (lt, h) e =
    elim (Result-cases (reseal_row k r)) [
      | inl (f, g) ↦
          let bad : ◌≡◌ {A = Result (ℕ × List SecretRow)} (raise f) (ok (n, rows)) = rw g at e in cc
      | inr ((m, r'), g) ↦ elim (Result-cases (reseal_rows k page)) [
        | inl (f, q) ↦
            let bad : ◌≡◌ {A = Result (ℕ × List SecretRow)} (raise f) (ok (n, rows)) =
              simp (g, q) at e in
            cc
        | inr ((l, rows'), q) ↦
            let good : ◌≡◌ {A = Result (ℕ × List SecretRow)} (ok (m + l, r' ∷ rows'))
                (ok (n, rows)) =
              simp (g, q) at e in
            let same : r' ∷ rows' ≡ rows = cc in
            let own = reseal_row-id k r g in
            let (le, _) = Rising-last_of r.id page tail h in
            subst (Below (last_of r.id page)) same
              (omega arith, reseal_rows-Below k r.id page tail h q)
      ]
    ]

drop-shorter : (n : ℕ) (xs : List SecretRow) → length (drop n xs) ≤ length xs
drop-shorter zero xs = omega arith
drop-shorter (suc n) [] = omega arith
drop-shorter (suc n) (x ∷ xs) = omega (arith, drop-shorter n xs)

Rising-ahead :
    (low last : ℕ) (rows : List SecretRow)
    → last ≤ low
    → Rising low rows
    → All (λ r. ltb last r.id ≡ true) rows
Rising-ahead low last [] le h = tt
Rising-ahead low last (r ∷ rows) le (lt, h) =
    (ground arith, Rising-ahead r.id last rows (omega arith) h)

Below-behind :
    (last : ℕ) (rows : List SecretRow) → Below last rows → All (λ r. ltb last r.id ≡ false) rows
Below-behind last [] h = tt
Below-behind last (r ∷ rows) h = (ground arith, Below-behind last rows h.1)

-- What a page reads: the rows behind the last one.
select_ahead :
    (last : ℕ) (pre rest : List SecretRow)
    → Below last pre
    → Rising last rest
    → select (λ r. ltb last r.id) (pre ++ rest) ≡ rest
select_ahead last pre rest below rising =
    select-append (λ r. ltb last r.id) pre rest
    ∙ ap₂ ◌++◌ (select_missed (λ r. ltb last r.id) pre (Below-behind last pre below))
        (select_met (λ r. ltb last r.id) rest (Rising-ahead last last rest (omega arith) rising))

module _ (k : Keys) where
  -- One page, where the rest of the loop comes to the reference.
  turn-reseal_rows :
      (r : SecretRow) (page tail pre : List SecretRow) (last : ℕ)
      (next : List SecretRow → Option (Result (ℕ × List SecretRow)))
      → Below last pre
      → Rising last (r ∷ page ++ tail)
      → ((pre' : List SecretRow)
          → Below (last_of r.id page) pre'
          → next (pre' ++ tail) ≡ some (behind pre' (reseal_rows k tail)))
      → turn (write_page k (r ∷ page) (pre ++ r ∷ (page ++ tail))) next
        ≡ some (behind pre (reseal_rows k (r ∷ (page ++ tail))))
  unfolding turn
  turn-reseal_rows r page tail pre last next below rising after =
      let written = write_page-reseal_rows k (r ∷ page) last pre tail below rising in
      let split = reseal_rows-append k (r ∷ page) tail in
      let (le, _) = Rising-last_of last (r ∷ page) tail rising in
      elim (Result-cases (reseal_rows k (r ∷ page))) [
        | inl (f, e) ↦ simp (written, split, e) refl
        | inr ((n, rows), e) ↦
            let done : Below (last_of r.id page) (pre ++ rows) =
              All-append (λ x. x.id ≤ last_of r.id page) pre rows
                (Below-weaken (last_of r.id page) last pre le below)
                (reseal_rows-Below k last (r ∷ page) tail rising e) in
            let rest : next (pre ++ (rows ++ tail))
                ≡ some (behind (pre ++ rows) (reseal_rows k tail)) =
              rw (append_assoc pre rows tail) at (after (pre ++ rows) done) in
            elim (Result-cases (reseal_rows k tail)) [
              | inl (f, h) ↦ simp (written, split, e, rest, h) refl
              | inr ((m, rows'), h) ↦
                  simp (written, split, e, rest, h)
                    (ap (λ t. some (ok (n + m, t))) (append_assoc pre rows rows'))
            ]
      ]

  pub rewrite_pages-reseal_rows :
      (fuel b last : ℕ) (pre rest : List SecretRow)
      → length rest < fuel
      → Below last pre
      → Rising last rest
      → rewrite_pages fuel k (suc b) last (pre ++ rest) ≡ some (behind pre (reseal_rows k rest))
  unfolding rewrite_pages reseal_rows
  rewrite_pages-reseal_rows zero b last pre rest short below rising = elim short [ ]
  rewrite_pages-reseal_rows (suc fuel) b last pre [] short below rising =
      simp (select_ahead last pre [] below rising, rewrite_pages) refl
  rewrite_pages-reseal_rows (suc fuel) b last pre (r ∷ rest) short below rising =
      let page = take b rest in
      let tail = drop b rest in
      let whole = take-append-drop b rest in
      let shorter = drop-shorter b rest in
      let rises : Rising last (r ∷ page ++ tail) = rw (sym whole) rising in
      let (_, left) = Rising-last_of last (r ∷ page) tail rises in
      let done =
        turn-reseal_rows r page tail pre last (rewrite_pages fuel k (suc b) (last_of r.id page))
          below rises
          (λ pre' h.
            rewrite_pages-reseal_rows fuel b (last_of r.id page) pre' tail (omega arith) h left) in
      simp (select_ahead last pre (r ∷ rest) below rising, rewrite_pages) (rw (sym whole) at done)
