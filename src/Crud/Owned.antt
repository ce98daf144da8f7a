-- ===== src/Crud/Owned.antt =====
-- The rows of one tenant among those of all.
use fastkit.Scope.{belongs_to_tenant}
use fastkit.Base.{
  ◌==◌, Bool-cases, ℕ, ◌≤◌, ◌≡◌, refl, inl, inr, Bool, true, false, ◌&&◌, not, some, List, [], ◌∷◌,
  arith, ◌<◌,
}
use fastkit.Base.Table.{All, find, update_where, count_where, select}
use fastkit.Crud.{belongs_to_tenant, Row}

-- A row of another tenant, or of none.
abbrev pub is_of_others : {F : Type 0} → ℕ → Row F → Bool
is_of_others t r = not (belongs_to_tenant r.tenant_id (some t))

abbrev pub HasOneId : {F : Type 0} → List (Row F) → Row F → Type 0
HasOneId rows r = count_where (λ x. x.id == r.id) rows ≤ 1

module _ {F : Type 0} (t : ℕ) where
  -- Every row of an id is the tenant's own.
  abbrev pub Owned : ℕ → List (Row F) → Type 0
  Owned id = All (λ x. (x.id == id) ≡ true → is_of_others t x ≡ false)

  pub update_where-foreign :
      (id : ℕ) (f : Row F → Row F) (rows : List (Row F))
      → ((x : Row F) → is_of_others t x ≡ false → is_of_others t (f x) ≡ false)
      → Owned id rows
      → select (is_of_others t) (update_where (λ x. x.id == id) f rows)
        ≡ select (is_of_others t) rows
  update_where-foreign id f [] keeps h = refl
  update_where-foreign id f (r ∷ rows) keeps (own, h) = elim (Bool-cases (r.id == id)) [
    | inr another ↦ ground (arith, update_where-foreign id f rows keeps h)
    | inl e ↦ rw (e, keeps r (own e), own e) (update_where-foreign id f rows keeps h)
  ]

  pub select-foreign :
      (id : ℕ) (rows : List (Row F))
      → Owned id rows
      → select (is_of_others t) (select (λ x. not (x.id == id)) rows) ≡ select (is_of_others t) rows
  select-foreign id [] h = refl
  select-foreign id (r ∷ rows) (own, h) = elim (Bool-cases (r.id == id)) [
    | inr another ↦ ground (arith, select-foreign id rows h)
    | inl e ↦ rw (e, own e) (select-foreign id rows h)
  ]

  pub none-Owned :
      (id : ℕ) (rows : List (Row F)) → count_where (λ x. x.id == id) rows ≡ 0 → Owned id rows
  none-Owned id [] h = tt
  none-Owned id (r ∷ rows) h = ((λ e. absurd (ground arith)), none-Owned id rows (ground arith))

  pub find-counted :
      (p : Row F → Bool) (id : ℕ) (rows : List (Row F)) {r : Row F}
      → find (λ x. p x && x.id == id) rows ≡ some r
      → 0 < count_where (λ x. x.id == id) rows
  find-counted p id [] h = cc
  find-counted p id (x ∷ rows) {r} h = ground (arith, find-counted p id rows {r = r})

  -- The one row of an id that a condition for the tenant's own rows finds.
  pub found-Owned :
      (p : Row F → Bool) (id : ℕ) (rows : List (Row F)) {r : Row F}
      → ((x : Row F) → p x ≡ true → is_of_others t x ≡ false)
      → count_where (λ x. x.id == id) rows ≤ 1
      → find (λ x. p x && x.id == id) rows ≡ some r
      → Owned id rows
  found-Owned p id [] own one h = tt
  found-Owned p id (x ∷ rows) {r} own one h = elim (Bool-cases (x.id == id)) [
    | inr another ↦ (
      (λ e. absurd (ground arith)),
      found-Owned p id rows {r = r} own (ground arith) (ground arith),
    )
    | inl e ↦ elim (Bool-cases (p x)) [
      | inl mine ↦ ((λ _. own x mine), none-Owned id rows (ground arith))
      | inr not_mine ↦
          let there = find-counted p id rows (rw not_mine at h) in absurd (ground arith)
    ]
  ]
