-- ===== src/Crud.antt =====
-- services/crud_service.py: the write path of a resource whose table has a `tenant_id`. `F` is the
-- other columns of a row. What a resource adds by its hooks, `prepare` and everything that may
-- refuse a write (its references, its files, its own validation and the constraints of the flush),
-- is an argument. The files that a row names and the rows of other tables that a delete takes along
-- are not seen.
use fastkit.Scope.{is_global, belongs_to_tenant, reaches_tenant}
use fastkit.Base.{
  ◌==◌, if◌then◌else◌, length, ℕ, suc, Bool, true, false, ◌&&◌, ◌||◌, not, Option, none, some, List,
  [], ◌∷◌, ◌∙◌,
}
use fastkit.Base.Table.{find, update_where, select}
use fastkit.Errors.{Fault, not_found, missing_row, Result, ok, raise, other}
pub mod Isolation
pub mod Owned
mod Tests

pub record Row (F : Type 0) : Type 0 where
  pub id : ℕ
  pub tenant_id : Option ℕ
  pub position : ℕ
  pub fields : F

pub record Operator : Type 0 where
  pub tenant_id : Option ℕ
  pub reaches_shared : Bool

-- What is sent: the tenant, where it is named, and the other columns.
pub record Payload (F : Type 0) : Type 0 where
  pub tenant_id : Option (Option ℕ)
  pub write : F → F

pub record Resource (F : Type 0) : Type 0 where
  pub shared : Bool
  pub system_wide : Bool
  pub blank : F
  pub refuses : Payload F → Option (Row F) → List (Row F) → Option Fault
  pub prepare : Payload F → Option (Row F) → Payload F

pub record Table (F : Type 0) : Type 0 where
  pub rows : List (Row F)
  pub serial : ℕ

module _ {F : Type 0} (c : Resource F) where
  -- `confinement`, as the test of a row, for an operator that the statement is narrowed to.
  unfoldable pub reaches : Option Operator → Bool → Row F → Bool
  reaches none writing r = true
  reaches (some o) writing r =
      if is_global o.tenant_id || c.system_wide
      then true
      else if o.reaches_shared && (c.shared && not writing)
      then reaches_tenant r.tenant_id o.tenant_id
      else belongs_to_tenant r.tenant_id o.tenant_id

  -- `find`
  unfoldable pub find_row : Option Operator → Bool → ℕ → List (Row F) → Option (Row F)
  unfolding reaches
  find_row o writing id rows = find (λ r. reaches o writing r && r.id == id) rows

  -- `stamped`
  unfoldable pub stamped : Option Operator → Payload F → Payload F
  stamped none sent = sent
  stamped (some o) sent = elim o.tenant_id [
    | none ↦ sent
    | some t ↦ record sent { tenant_id = some (some t) }
  ]

  abbrev pub sent_tenant : Option (Option ℕ) → Option ℕ → Option ℕ
  sent_tenant none stored = stored
  sent_tenant (some t) stored = t

  -- The attributes that are set on a row.
  abbrev pub set_fields : Payload F → Row F → Row F
  set_fields d r = record r {
    tenant_id = sent_tenant d.tenant_id r.tenant_id;
    fields = d.write r.fields;
  }

  -- The row as it is read back.
  unfoldable pub get_row : Option Operator → Bool → ℕ → List (Row F) → Result (Row F)
  unfolding find_row
  get_row o writing id rows = elim (find_row o writing id rows) [
    | none ↦ raise not_found
    | some r ↦ ok r
  ]

  -- `create`
  unfoldable pub create : Option Operator → Payload F → Table F → Result (Row F) × Table F
  unfolding get_row stamped
  create o sent t =
      let d = stamped o sent in
      elim (c.refuses d none t.rows) [
        | some f ↦ (raise f, t)
        | none ↦
            let r =
              set_fields (c.prepare d none)
                (record { id = t.serial; tenant_id = none; position = 0; fields = c.blank }) in
            let written = record t { rows = r ∷ t.rows; serial = suc t.serial } in
            (get_row o false t.serial written.rows, written)
      ]

  -- `update`
  unfoldable pub update : Option Operator → ℕ → Payload F → Table F → Result (Row F) × Table F
  unfolding get_row stamped find_row
  update o id sent t = elim (find_row o true id t.rows) [
    | none ↦ (raise not_found, t)
    | some r ↦
        let d = stamped o sent in
        elim (c.refuses d (some r) t.rows) [
          | some f ↦ (raise f, t)
          | none ↦
              let written = record t {
                rows = update_where (λ x. x.id == id) (set_fields (c.prepare d (some r))) t.rows;
              } in
              (get_row o false id written.rows, written)
        ]
  ]

  -- `delete`; `kept` is what refuses it, a row that still points at this one.
  unfoldable pub delete :
      (Row F → Option Fault) → Option Operator → ℕ → Table F → Result (Unit {0}) × Table F
  unfolding find_row
  delete kept o id t = elim (find_row o true id t.rows) [
    | none ↦ (raise not_found, t)
    | some r ↦ elim (kept r) [
      | some f ↦ (raise f, t)
      | none ↦ (ok tt, record t { rows = select (λ x. not (x.id == id)) t.rows })
    ]
  ]

  abbrev pub is_among : ℕ → List ℕ → Bool
  is_among n [] = false
  is_among n (m ∷ ms) = n == m || is_among n ms

  -- The loop of `reorder` over the rows that were found.
  unfoldable pub place_rows : List (Row F) → ℕ → List ℕ → List (Row F) → Result (List (Row F))
  place_rows found index [] rows = ok rows
  place_rows found index (id ∷ ids) rows = elim (find (λ r. r.id == id) found) [
    | none ↦ raise missing_row
    | some r ↦
        place_rows found (suc index) ids
          (update_where (λ x. x.id == id) (λ x. record x { position = index }) rows)
  ]

  -- `reorder`, of ids that are sent in an order
  unfoldable pub reorder : Option Operator → List ℕ → Table F → Result (Unit {0}) × Table F
  unfolding reaches place_rows
  reorder o ids t =
      let found = select (λ r. reaches o true r && is_among r.id ids) t.rows in
      if not (length found == length ids)
      then (raise not_found, t)
      else elim (place_rows found 0 ids t.rows) [
        | raise f ↦ (raise f, t)
        | ok rows ↦ (ok tt, record t { rows = rows })
      ]
