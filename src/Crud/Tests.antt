-- ===== src/Crud/Tests.antt =====
-- Two tenants and a shared row, and what an operator of the first writes.
use fastkit.Crud.Owned.{is_of_others}
use fastkit.Base.{ℕ, ◌≡◌, refl, true, false, Option, none, some, [], ◌∷◌, arith}
use fastkit.Base.Table.{select}
use fastkit.Errors.{Fault, not_found, ok, raise}
use fastkit.Crud.{create, update, Row, Resource, Table}
use fastkit.Crud.Isolation.{member, after_write, write-foreign, updating}

abbrev labels : Resource ℕ
labels = record {
  shared = true;
  system_wide = false;
  blank = 0;
  refuses = λ d r rows. none;
  prepare = λ d r. d;
}

abbrev a_row : ℕ → Option ℕ → Row ℕ
a_row id tenant = record { id = id; tenant_id = tenant; position = 0; fields = 0 }

abbrev labelled : Table ℕ
labelled = record { rows = a_row 3 (some 1) ∷ a_row 2 (some 2) ∷ a_row 1 none ∷ []; serial = 4 }

abbrev nothing_points : Row ℕ → Option Fault
nothing_points r = none

own_edit :
    (update labels
      (some (member 1 true))
      3
      (record { tenant_id = none; write = λ n. 5 })
      labelled).0
    ≡ ok (record { id = 3; tenant_id = some 1; position = 0; fields = 5 })
unfolding update
own_edit = refl

foreign_edit :
    (update labels
      (some (member 1 true))
      2
      (record { tenant_id = none; write = λ n. 5 })
      labelled).0
    ≡ raise not_found
unfolding update
foreign_edit = refl

-- A shared row is read and not written.
shared_edit :
    (update labels
      (some (member 1 true))
      1
      (record { tenant_id = none; write = λ n. 5 })
      labelled).0
    ≡ raise not_found
unfolding update
shared_edit = refl

stamps :
    (create labels
      (some (member 1 true))
      (record { tenant_id = some (some 2); write = λ n. 5 })
      labelled).0
    ≡ ok (record { id = 4; tenant_id = some 1; position = 0; fields = 5 })
unfolding create
stamps = refl

write-foreign_example :
    select
      (is_of_others 1)
      (after_write labels 1 true refl nothing_points
        (updating 3 (record { tenant_id = none; write = λ n. 5 }))
        labelled).rows
    ≡ select (is_of_others 1) labelled.rows
write-foreign_example =
    write-foreign labels 1 true refl nothing_points
      (updating 3 (record { tenant_id = none; write = λ n. 5 })) labelled (λ d r. refl)
      (omega arith)
