-- ===== src/Retention/Batches.antt =====
-- A delete in batches removes what one delete removes.
use fastkit.Base.{
  Bool-cases, take, ℕ, zero, suc, ◌≤◌, ◌<◌, ◌≡◌, refl, ◌∙◌, inl, inr, Bool, true, false, not, List,
  [], ◌∷◌, arith, ◌+◌, sym, length, ap, some,
}
use fastkit.Base.Table.{All, select, count_where, All-both, length-select, List-cases, select-none}
use fastkit.Retention.{holds_id, ids_of, OperationalRow, trim_batches, trim_where}

-- The ids of the rows rise, above a bound.
abbrev pub Rising : ℕ → List OperationalRow → Type 0
Rising low [] = Unit {0}
Rising low (r ∷ rs) = (low < r.id) × Rising r.id rs

Rising-weaken :
    (low low' : ℕ) (rows : List OperationalRow) → low ≤ low' → Rising low' rows → Rising low rows
Rising-weaken low low' [] le h = tt
Rising-weaken low low' (r ∷ rows) le h = (omega arith, h.1)

Rising-select :
    (p : OperationalRow → Bool) (low : ℕ) (rows : List OperationalRow)
    → Rising low rows
    → Rising low (select p rows)
Rising-select p low [] h = tt
Rising-select p low (r ∷ rows) (lt, h) =
    let rest = Rising-select p r.id rows h in
    elim (Bool-cases (p r)) [
      | inl e ↦ rw e (lt, rest)
      | inr e ↦ rw e (Rising-weaken low r.id (select p rows) (omega arith) rest)
    ]

-- An id at or below the bound is not among the rows.
holds_id-Rising :
    (n low : ℕ) (rows : List OperationalRow)
    → n ≤ low
    → Rising low rows
    → holds_id n (ids_of rows) ≡ false
holds_id-Rising n low [] le h = refl
holds_id-Rising n low (r ∷ rows) le (lt, h) =
    ground (arith, holds_id-Rising n r.id rows (omega arith) h)

holds_id-take :
    (n batch : ℕ) (rows : List OperationalRow)
    → holds_id n (ids_of (take batch rows)) ≡ true
    → holds_id n (ids_of rows) ≡ true
holds_id-take n zero rows h = cc
holds_id-take n (suc b) [] h = cc
holds_id-take n (suc b) (r ∷ rows) h = ground (arith, holds_id-take n b rows)

Rising-above : (low : ℕ) (rows : List OperationalRow) → Rising low rows → All (λ r. low < r.id) rows
Rising-above low [] h = tt
Rising-above low (r ∷ rows) (lt, h) = (
  lt,
  All-both (λ x. r.id < x.id) (λ x. r.id < x.id) (λ x. low < x.id) rows (λ x a b. omega arith)
      (Rising-above r.id rows h) (Rising-above r.id rows h),
)

-- What a batch lists reads as its condition.
abbrev Lists : (OperationalRow → Bool) → List OperationalRow → OperationalRow → Type 0
Lists p rows r = holds_id r.id (ids_of (select p rows)) ≡ true → p r ≡ true

module _ (p : OperationalRow → Bool) where
  -- A row whose id the select lists is one that it reads.
  select-Lists : (low : ℕ) (rows : List OperationalRow) → Rising low rows → All (Lists p rows) rows
  select-Lists low [] h = tt
  select-Lists low (r ∷ rows) (lt, h) =
      let absent =
        holds_id-Rising r.id r.id (select p rows) (omega arith) (Rising-select p r.id rows h) in
      let rest =
        All-both (Lists p rows) (λ x. r.id < x.id) (Lists p (r ∷ rows)) rows
          (λ x (old : Lists p rows x) above. keep x old above) (select-Lists r.id rows h)
          (Rising-above r.id rows h) in
      (own absent, rest)
    where
      own : holds_id r.id (ids_of (select p rows)) ≡ false → Lists p (r ∷ rows) r
      own absent listed = elim (Bool-cases (p r)) [
        | inl e ↦ e
        | inr e ↦ let bad : true ≡ false = sym (rw e at listed) ∙ absent in cc
      ]

      keep : (x : OperationalRow) → Lists p rows x → r.id < x.id → Lists p (r ∷ rows) x
      keep x old above listed = elim (Bool-cases (p r)) [
        | inr e ↦ old (rw e at listed)
        | inl e ↦ old (ground arith)
      ]

  module _ (q : OperationalRow → Bool) where
    -- A statement that a narrower one ran before: together they reach what the wider one reaches.
    abbrev Narrower : OperationalRow → Type 0
    Narrower r = q r ≡ true → p r ≡ true

    count_where-Narrower :
        (rows : List OperationalRow)
        → All Narrower rows
        → count_where q rows + count_where p (select (λ r. not (q r)) rows) ≡ count_where p rows
    count_where-Narrower [] h = refl
    count_where-Narrower (r ∷ rows) (own, h) = elim (Bool-cases (q r)) [
      | inl e ↦ rw (e, own e) (omega (arith, count_where-Narrower rows h))
      | inr e ↦ ground (arith, count_where-Narrower rows h)
    ]

    select-Narrower :
        (rows : List OperationalRow)
        → All Narrower rows
        → select (λ r. not (p r)) (select (λ r. not (q r)) rows) ≡ select (λ r. not (p r)) rows
    select-Narrower [] h = refl
    select-Narrower (r ∷ rows) (own, h) = elim (Bool-cases (q r)) [
      | inl e ↦ rw (e, own e) (select-Narrower rows h)
      | inr e ↦ ground (arith, select-Narrower rows h)
    ]

-- Every batch with an id in it reaches a row.
count_where-batch :
    (p : OperationalRow → Bool) (rows : List OperationalRow) {x : OperationalRow}
    {rest : List OperationalRow} (more : List ℕ)
    → select p rows ≡ x ∷ rest
    → 0 < count_where (λ r. holds_id r.id (x.id ∷ more)) rows
count_where-batch p [] more h = cc
count_where-batch p (r ∷ rows) {x} {rest} more h = elim (Bool-cases (p r)) [
  | inl e ↦
      let hit : r ∷ select p rows ≡ x ∷ rest = rw e at h in
      let same : r ≡ x = cc in let own : r.id ≡ x.id = ap (λ t. t.id) same in ground arith
  | inr e ↦ ground (arith, count_where-batch p rows more (rw e at h))
]

module _ (p : OperationalRow → Bool) where
  -- One batch that finds rows, where the rest of the loop removes what is left.
  batch-trims :
      (fuel b low : ℕ) (rows : List OperationalRow) {x : OperationalRow}
      {rest : List OperationalRow}
      → Rising low rows
      → select p rows ≡ x ∷ rest
      → ((left : List OperationalRow)
          → length left < length rows
          → Rising low left
          → trim_batches fuel (suc b) p left
            ≡ some (count_where p left, select (λ r. not (p r)) left))
      → trim_batches (suc fuel) (suc b) p rows
        ≡ some (count_where p rows, select (λ r. not (p r)) rows)
  unfolding trim_batches
  batch-trims fuel b low rows {x} {rest} rising found next =
      let ids = x.id ∷ ids_of (take b rest) in
      let q = λ (r : OperationalRow). holds_id r.id ids in
      let listed : (r : OperationalRow) → Lists p rows r → Narrower p q r =
        λ r old hit. old (rw found (holds_id-take r.id (suc b) (x ∷ rest) hit)) in
      let narrow =
        All-both (Lists p rows) (Lists p rows) (Narrower p q) rows (λ r old _. listed r old)
          (select-Lists p low rows rising) (select-Lists p low rows rising) in
      let one = count_where-batch p rows (ids_of (take b rest)) found in
      let fewer = length-select q rows in
      let left = select (λ r. not (q r)) rows in
      let done = next left (omega arith) (Rising-select (λ r. not (q r)) low rows rising) in
      simp
        (
          found,
          done,
          trim_batches,
          select-Narrower p q rows narrow,
          count_where-Narrower p q rows narrow,
        )
        refl

  trim_batches-select :
      (fuel b low : ℕ) (rows : List OperationalRow)
      → length rows < fuel
      → Rising low rows
      → trim_batches fuel (suc b) p rows ≡ some (count_where p rows, select (λ r. not (p r)) rows)
  unfolding trim_batches
  trim_batches-select zero b low rows short rising = elim short [ ]
  trim_batches-select (suc fuel) b low rows short rising = elim (List-cases (select p rows)) [
    | inl nothing ↦
        let (zero_met, same) = select-none p rows nothing in
        simp (nothing, zero_met, same, trim_batches) refl
    | inr (x, rest, found) ↦
        batch-trims fuel b low rows rising found
          (λ left shorter h. trim_batches-select fuel b low left (omega arith) h)
  ]

  -- A delete in batches ends, and is one delete: it removes every row that meets the condition, and
  -- only those, and counts them, where a batch holds a row and the ids of the rows rise.
  pub trim_where-select :
      (batch low : ℕ) (rows : List OperationalRow)
      → 0 < batch
      → Rising low rows
      → trim_where batch p rows ≡ some (count_where p rows, select (λ r. not (p r)) rows)
  unfolding trim_where
  trim_where-select zero low rows some_batch rising = elim some_batch [ ]
  trim_where-select (suc b) low rows some_batch rising =
      trim_batches-select (suc (length rows)) b low rows (omega arith) rising
