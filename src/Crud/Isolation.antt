-- ===== src/Crud/Isolation.antt =====
-- Whatever an operator of one tenant writes, the rows of the others stay as they were.
use fastkit.Errors.{Fault, Result-cases, missing_row, Result, ok, raise}
use fastkit.Base.{
  ◌==◌, Bool-cases, ℕ, ◌≡◌, refl, inl, inr, Bool, true, false, ◌&&◌, some, List, [], ◌∷◌, arith,
  Option, ==_self, Option-cases, none, length, suc, sym, ◌∙◌,
}
use fastkit.Base.Table.{All, find, update_where, select, find-holds, All-find, All-update_where}
use fastkit.Crud.{
  Row, Payload, reaches, Operator, Resource, find_row, set_fields, stamped, create, update, delete,
  reorder, Table, is_among, place_rows,
}
use fastkit.Crud.Owned.{
  is_of_others, HasOneId, Owned, update_where-foreign, select-foreign, found-Owned,
}

-- The writes of one operator.
pub data Write (F : Type 0) : Type 0 where
  creating : Payload F → Write F
  updating : ℕ → Payload F → Write F
  deleting : ℕ → Write F
  reordering : List ℕ → Write F

-- An operator of the tenant.
abbrev pub member : ℕ → Bool → Operator
member t shared = record { tenant_id = some t; reaches_shared = shared }

module _ {F : Type 0} (c : Resource F) (t : ℕ) (shared : Bool)
    (narrow : c.system_wide ≡ false) where
  own_reached :
      (r : Row F) → reaches c (some (member t shared)) true r ≡ true → is_of_others t r ≡ false
  unfolding reaches
  own_reached r h = ground arith

  abbrev who : Option Operator
  who = some (member t shared)

  found_row-Owned :
      (id : ℕ) (rows : List (Row F)) {r : Row F}
      → All (HasOneId rows) rows
      → find_row c who true id rows ≡ some r
      → Owned {F = F} t id rows
  unfolding find_row
  found_row-Owned id rows {r} unique h =
      let held = find-holds (λ x. reaches c who true x && x.id == id) rows h in
      let same : r.id ≡ id = ground arith in
      let one = All-find (HasOneId rows) (λ x. reaches c who true x && x.id == id) rows unique h in
      found-Owned t (reaches c who true) id rows own_reached (rw same at one) h

  -- What is stamped is the tenant's own.
  set_fields-own :
      (d : Payload F) (r : Row F)
      → d.tenant_id ≡ some (some t)
      → is_of_others t (set_fields c d r) ≡ false
  set_fields-own d r e = rw (e, ==_self t) refl

  -- A write of this operator, where `kept` may refuse a delete.
  abbrev pub after_write : (Row F → Option Fault) → Write F → Table F → Table F
  after_write kept (creating sent) table = (create c who sent table).1
  after_write kept (updating id sent) table = (update c who id sent table).1
  after_write kept (deleting id) table = (delete c kept who id table).1
  after_write kept (reordering ids) table = (reorder c who ids table).1

  abbrev foreign : Table F → List (Row F)
  foreign table = select (is_of_others t) table.rows

  -- The hook `prepare` of a resource sends the tenant that it was given.
  abbrev pub KeepsTenant : Type 0
  KeepsTenant = (d : Payload F) (r : Option (Row F)) → (c.prepare d r).tenant_id ≡ d.tenant_id

  create-foreign :
      (sent : Payload F) (table : Table F)
      → KeepsTenant
      → foreign (create c who sent table).1 ≡ foreign table
  unfolding create stamped
  create-foreign sent table keeps =
      elim (Option-cases (c.refuses (stamped c who sent) none table.rows)) [
        | inr (f, e) ↦ rw (e, create) refl
        | inl fine ↦
            let made =
              set_fields-own (c.prepare (stamped c who sent) none)
                (record { id = table.serial; tenant_id = none; position = 0; fields = c.blank })
                (keeps (stamped c who sent) none) in
            rw (fine, create) (rw made refl)
      ]

  update-foreign :
      (id : ℕ) (sent : Payload F) (table : Table F)
      → KeepsTenant
      → All (HasOneId table.rows) table.rows
      → foreign (update c who id sent table).1 ≡ foreign table
  unfolding update stamped
  update-foreign id sent table keeps unique =
      elim (Option-cases (find_row c who true id table.rows)) [
        | inl gone ↦ rw (gone, update) refl
        | inr (r, here) ↦ elim (Option-cases (c.refuses (stamped c who sent) (some r) table.rows)) [
          | inr (f, e) ↦ simp (here, e, update) refl
          | inl fine ↦
              simp (here, fine, update)
                (update_where-foreign t id (set_fields c (c.prepare (stamped c who sent) (some r)))
                  table.rows
                  (λ x _.
                    set_fields-own (c.prepare (stamped c who sent) (some r)) x
                      (keeps (stamped c who sent) (some r)))
                  (found_row-Owned id table.rows unique here))
        ]
      ]

  delete-foreign :
      (kept : Row F → Option Fault) (id : ℕ) (table : Table F)
      → All (HasOneId table.rows) table.rows
      → foreign (delete c kept who id table).1 ≡ foreign table
  unfolding delete
  delete-foreign kept id table unique = elim (Option-cases (find_row c who true id table.rows)) [
    | inl gone ↦ rw (gone, delete) refl
    | inr (r, here) ↦ elim (Option-cases (kept r)) [
      | inr (f, e) ↦ simp (here, e, delete) refl
      | inl fine ↦
          simp (here, fine, delete)
            (select-foreign t id table.rows (found_row-Owned id table.rows unique here))
    ]
  ]

  find-select :
      (p q : Row F → Bool) (rows : List (Row F))
      → find q (select p rows) ≡ find (λ x. p x && q x) rows
  find-select p q [] = refl
  find-select p q (x ∷ rows) = ground (arith, find-select p q rows)

  -- The rows of an id that a reorder found.
  selected-Owned :
      (id : ℕ) (ids : List ℕ) (rows : List (Row F)) {r : Row F}
      → All (HasOneId rows) rows
      → find (λ x. x.id == id) (select (λ x. reaches c who true x && is_among c x.id ids) rows)
        ≡ some r
      → Owned {F = F} t id rows
  selected-Owned id ids rows {r} unique h =
      let p = λ (x : Row F). reaches c who true x && is_among c x.id ids in
      let here : find (λ x. p x && x.id == id) rows ≡ some r =
        sym (find-select p (λ x. x.id == id) rows) ∙ h in
      let held = find-holds (λ x. p x && x.id == id) rows here in
      let same : r.id ≡ id = ground arith in
      let one = All-find (HasOneId rows) (λ x. p x && x.id == id) rows unique here in
      found-Owned t p id rows (λ x e. own_reached x (ground arith)) (rw same at one) here

  place_rows-foreign :
      (found : List (Row F)) (index : ℕ) (ids : List ℕ) (rows : List (Row F))
      {placed : List (Row F)}
      → ((id : ℕ) (r : Row F) → find (λ x. x.id == id) found ≡ some r → Owned {F = F} t id rows)
      → place_rows c found index ids rows ≡ ok placed
      → select (is_of_others t) placed ≡ select (is_of_others t) rows
  unfolding place_rows
  place_rows-foreign found index [] rows {placed} own h =
      let same : rows ≡ placed = cc in rw same refl
  place_rows-foreign found index (id ∷ ids) rows {placed} own h =
      elim (Option-cases (find (λ x. x.id == id) found)) [
        | inl gone ↦
            let bad : ◌≡◌ {A = Result (List (Row F))} (raise missing_row) (ok placed) =
              rw (gone, place_rows) at h in
            absurd (cc)
        | inr (r, here) ↦
            let put = λ (x : Row F). record x { position = index } in
            let next = update_where (λ x. x.id == id) put rows in
            let rest : place_rows c found (suc index) ids next ≡ ok placed =
              rw (here, place_rows) at h in
            place_rows-foreign found (suc index) ids next
              (λ i x e.
                All-update_where (λ y. (y.id == i) ≡ true → is_of_others t y ≡ false)
                  (λ y. (y.id == i) ≡ true → is_of_others t y ≡ false) (λ y. y.id == id) put rows
                  (λ y _ k. k) (λ y _ k. k) (own i x e))
              rest
            ∙ update_where-foreign t id put rows (λ x k. k) (own id r here)
      ]

  reorder-foreign :
      (ids : List ℕ) (table : Table F)
      → All (HasOneId table.rows) table.rows
      → foreign (reorder c who ids table).1 ≡ foreign table
  unfolding reorder
  reorder-foreign ids table unique =
      let found = select (λ r. reaches c who true r && is_among c r.id ids) table.rows in
      elim (Bool-cases (length found == length ids)) [
        | inr missing ↦ simp (missing, reorder) refl
        | inl every ↦ elim (Result-cases (place_rows c found 0 ids table.rows)) [
          | inl (f, e) ↦ simp (every, e, reorder) refl
          | inr (placed, e) ↦
              simp (every, e, reorder)
                (place_rows-foreign found 0 ids table.rows
                  (λ id r h. selected-Owned id ids table.rows unique h) e)
        ]
      ]

  -- Whatever an operator of a tenant writes, a new row, an edit, a delete or an order, and whether
  -- it lands or is refused, the rows of other tenants and of none are the same after it, in the
  -- same order, in a table that is no catalogue of the system. The ids of the table are apart, and
  -- the hook `prepare` keeps the tenant.
  pub write-foreign :
      (kept : Row F → Option Fault) (w : Write F) (table : Table F)
      → KeepsTenant
      → All (HasOneId table.rows) table.rows
      → select (is_of_others t) (after_write kept w table).rows ≡ select (is_of_others t) table.rows
  write-foreign kept (creating sent) table keeps unique = create-foreign sent table keeps
  write-foreign kept (updating id sent) table keeps unique =
      update-foreign id sent table keeps unique
  write-foreign kept (deleting id) table keeps unique = delete-foreign kept id table unique
  write-foreign kept (reordering ids) table keeps unique = reorder-foreign ids table unique
