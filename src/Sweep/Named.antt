-- ===== src/Sweep/Named.antt =====
-- A row never names a file that was deleted, whatever is claimed meanwhile.
use fastkit.Base.{
  ◌==◌, Bool-cases, ℕ, ◌≤◌, ◌≡◌, refl, inl, inr, Bool, true, false, not, List, [], ◌∷◌, arith,
  ==_iff, take, zero, suc, ◌&&◌,
}
use fastkit.Base.Table.{
  All, update_where, count_where, select, All-update_where, All-every, All-both,
}
use fastkit.Base.Text.{text_eq}
use fastkit.Dates.{DateTime}
use fastkit.Sweep.{claimed, is_free, StoredFile, delete_page, holds_key}

-- A key is that of one id.
abbrev pub Apart : StoredFile → List StoredFile → Type 0
Apart r = All (λ x. text_eq x.key r.key ≡ true → x.id ≡ r.id)

-- An id is that of one row.
abbrev pub Single : ℕ → List StoredFile → Type 0
Single id rows = count_where (λ x. x.id == id) rows ≤ 1

pub All-select :
    (P : StoredFile → Type 0) (p : StoredFile → Bool) (rows : List StoredFile)
    → All P rows
    → All P (select p rows)
All-select P p [] h = tt
All-select P p (r ∷ rows) h = elim (Bool-cases (p r)) [
  | inl e ↦ rw e (h.0, All-select P p rows h.1)
  | inr e ↦ rw e (All-select P p rows h.1)
]

count_where-select :
    (p q : StoredFile → Bool) (rows : List StoredFile)
    → count_where q (select p rows) ≤ count_where q rows
count_where-select p q [] = omega arith
count_where-select p q (r ∷ rows) = ground (arith, count_where-select p q rows)

count_where-claimed :
    (now : DateTime) (p : StoredFile → Bool) (id : ℕ) (rows : List StoredFile)
    → count_where (λ x. x.id == id) (update_where p (claimed now) rows)
      ≡ count_where (λ x. x.id == id) rows
count_where-claimed now p id [] = refl
count_where-claimed now p id (r ∷ rows) = ground (arith, count_where-claimed now p id rows)

none_of :
    (id : ℕ) (rows : List StoredFile)
    → count_where (λ x. x.id == id) rows ≡ 0
    → All (λ x. (x.id == id) ≡ false) rows
none_of id [] h = tt
none_of id (r ∷ rows) h = (ground arith, none_of id rows (ground arith))

count_where-is_free :
    (id : ℕ) (rows : List StoredFile)
    → count_where (is_free id) rows ≤ count_where (λ x. x.id == id) rows
count_where-is_free id [] = omega arith
count_where-is_free id (r ∷ rows) = ground (arith, count_where-is_free id rows)

-- A delete that reaches the one row of an id leaves none of it.
delete_leaves_none :
    (id : ℕ) (rows : List StoredFile)
    → Single id rows
    → count_where (is_free id) rows ≡ 1
    → count_where (λ x. x.id == id) (select (λ x. not (is_free id x)) rows) ≡ 0
delete_leaves_none id [] one hit = cc
delete_leaves_none id (r ∷ rows) one hit = elim (Bool-cases (is_free id r)) [
  | inl e ↦ ground (arith, count_where-select (λ x. not (is_free id x)) (λ x. x.id == id) rows)
  | inr e ↦ elim (Bool-cases (r.id == id)) [
    | inl own ↦ absurd (ground (arith, count_where-is_free id rows))
    | inr other ↦ ground (arith, delete_leaves_none id rows)
  ]
]

pub All-take :
    (P : StoredFile → Type 0) (n : ℕ) (rows : List StoredFile) → All P rows → All P (take n rows)
All-take P zero rows h = tt
All-take P (suc n) [] h = tt
All-take P (suc n) (r ∷ rows) h = (h.0, All-take P n rows h.1)

module _ (now : DateTime) (claims : ℕ → Bool) where
  -- One delete, after what another session did.
  abbrev pub one_delete : StoredFile → List StoredFile → List StoredFile
  one_delete r rows =
      select (λ x. not (is_free r.id x))
        (update_where (λ x. x.id == r.id && claims x.id) (claimed now) rows)

  one_delete-All :
      (P : StoredFile → Type 0) (r : StoredFile) (rows : List StoredFile)
      → ((x : StoredFile) → P x → P (claimed now x))
      → All P rows
      → All P (one_delete r rows)
  one_delete-All P r rows keeps h =
      All-select P (λ x. not (is_free r.id x))
        (update_where (λ x. x.id == r.id && claims x.id) (claimed now) rows)
        (All-update_where P P (λ x. x.id == r.id && claims x.id) (claimed now) rows
          (λ x _ k. keeps x k) (λ x _ k. k) h)

  one_delete-Single :
      (r : StoredFile) (id : ℕ) (rows : List StoredFile)
      → Single id rows
      → Single id (one_delete r rows)
  one_delete-Single r id rows h =
      let p = λ (x : StoredFile). x.id == r.id && claims x.id in
      let met = update_where p (claimed now) rows in
      omega (
        arith,
        count_where-select (λ x. not (is_free r.id x)) (λ x. x.id == id) met,
        count_where-claimed now p id rows,
      )

  pub delete_page-All :
      (P : StoredFile → Type 0) (page rows : List StoredFile)
      → ((x : StoredFile) → P x → P (claimed now x))
      → All P rows
      → All P (delete_page now claims page rows).1
  unfolding delete_page
  delete_page-All P [] rows keeps h = h
  delete_page-All P (r ∷ page) rows keeps h =
      delete_page-All P page (one_delete r rows) keeps (one_delete-All P r rows keeps h)

  pub delete_page-Single :
      (id : ℕ) (page rows : List StoredFile)
      → Single id rows
      → Single id (delete_page now claims page rows).1
  unfolding delete_page
  delete_page-Single id [] rows h = h
  delete_page-Single id (r ∷ page) rows h =
      delete_page-Single id page (one_delete r rows) (one_delete-Single r id rows h)

  -- A row is the only one of its key and of its id.
  abbrev pub Unique : List StoredFile → StoredFile → Type 0
  Unique rows r = Apart r rows × Single r.id rows

  one_delete-Unique :
      (r x : StoredFile) (rows : List StoredFile) → Unique rows x → Unique (one_delete r rows) x
  one_delete-Unique r x rows (apart, single) = (
    one_delete-All (λ y. text_eq y.key x.key ≡ true → y.id ≡ x.id) r rows (λ y k. k) apart,
    one_delete-Single r x.id rows single,
  )

  pub All-map :
      (P Q : StoredFile → Type 0) (rows : List StoredFile)
      → ((x : StoredFile) → P x → Q x)
      → All P rows
      → All Q rows
  All-map P Q [] f h = tt
  All-map P Q (r ∷ rows) f h = (f r h.0, All-map P Q rows f h.1)

  -- What is left shares no key with what went.
  pub delete_page-gone :
      (page rows : List StoredFile)
      → All (Unique rows) page
      → let (batch, left) = delete_page now claims page rows in
        All (λ x. holds_key x.key batch ≡ false) left
  unfolding delete_page
  delete_page-gone [] rows h = All-every (λ x. holds_key x.key [] ≡ false) rows (λ x. refl)
  delete_page-gone (r ∷ page) rows ((apart, single), h) =
      let rest = delete_page-gone page (one_delete r rows) (
        All-map (Unique rows) (Unique (one_delete r rows)) page
          (λ x k. one_delete-Unique r x rows k) h) in
      let met = update_where (λ x. x.id == r.id && claims x.id) (claimed now) rows in
      elim (Bool-cases (count_where (is_free r.id) met == 1)) [
        | inr missed ↦ rw missed rest
        | inl hit ↦
            let one : Single r.id met =
              omega (arith, count_where-claimed now (λ x. x.id == r.id && claims x.id) r.id rows) in
            let nobody = none_of r.id (one_delete r rows) (
              delete_leaves_none r.id met one
                ((==_iff (count_where (is_free r.id) met) 1).0 hit)) in
            let other =
              All-both (λ x. (x.id == r.id) ≡ false) (λ y. text_eq y.key r.key ≡ true → y.id ≡ r.id)
                (λ x. text_eq x.key r.key ≡ false) (one_delete r rows)
                (λ x differs same. differ x r differs same) nobody
                (one_delete-Unique r r rows (apart, single)).0 in
            let gone =
              delete_page-All (λ x. text_eq x.key r.key ≡ false) page (one_delete r rows) (λ x k. k)
                other in
            rw hit (
              All-both (λ x. text_eq x.key r.key ≡ false)
                (λ x. holds_key x.key (delete_page now claims page (one_delete r rows)).0 ≡ false)
                (λ x.
                  holds_key x.key (r.key ∷ (delete_page now claims page (one_delete r rows)).0)
                  ≡ false)
                (delete_page now claims page (one_delete r rows)).1 (λ x a b. rw (a, b) refl) gone
                rest)
      ]
    where
      differ :
          (x r : StoredFile)
          → (x.id == r.id) ≡ false
          → (text_eq x.key r.key ≡ true → x.id ≡ r.id)
          → text_eq x.key r.key ≡ false
      differ x r differs same = elim (Bool-cases (text_eq x.key r.key)) [
        | inr e ↦ e
        | inl e ↦ let own = same e in absurd (ground arith)
      ]
