-- ===== src/Sweep/Tests.antt =====
-- An orphan, a file in use, and an orphan that a save claims while the pass runs.
use fastkit.Base.{true, ◌==◌, ℕ, ◌≡◌, refl, Bool, none, some, List, [], ◌∷◌, arith}
use fastkit.Base.Table.{All, exists, select}
use fastkit.Sweep.Claimed.{is_row_of}
use fastkit.Base.Text.{Text, codes}
use fastkit.Dates.{add_time, DateTime}
use fastkit.Sweep.{discard_orphans, StoredFile, Storage}
use fastkit.Sweep.Orphans.{Named, IsKeyed, is_past_grace, discard_orphans-Named}

abbrev january : DateTime
january = record { years = 2024; months = 1; days = 1; time = 0 }

abbrev june : DateTime
june = record { years = 2024; months = 6; days = 1; time = 0 }

abbrev orphan : StoredFile
orphan = record { id = 1; key = codes "a"; claimed_at = none; created_at = january }

abbrev in_use : StoredFile
in_use = record { id = 2; key = codes "b"; claimed_at = some january; created_at = january }

abbrev saved_late : StoredFile
saved_late = record { id = 3; key = codes "c"; claimed_at = none; created_at = january }

abbrev bucket : Storage
bucket = record {
  rows = orphan ∷ in_use ∷ saved_late ∷ [];
  keys = codes "a" ∷ codes "b" ∷ codes "c" ∷ [];
}

-- The third is claimed before its delete.
abbrev late_save : ℕ → Bool
late_save id = id == 3

sweeps :
    discard_orphans 3 june 3600000000 late_save bucket
    ≡ some (
      codes "a" ∷ [],
      record {
        rows = in_use ∷ record saved_late { claimed_at = some june } ∷ [];
        keys = codes "b" ∷ codes "c" ∷ [];
      },
    )
unfolding discard_orphans add_time
sweeps = refl

bucket-IsKeyed : IsKeyed bucket.rows
bucket-IsKeyed = (
  (((λ h. refl), ((λ h. cc), ((λ h. cc), tt))), omega arith),
  (
    (((λ h. cc), ((λ h. refl), ((λ h. cc), tt))), omega arith),
    ((((λ h. cc), ((λ h. cc), ((λ h. refl), tt))), omega arith), tt),
  ),
)

discard_orphans-Named_example :
    (gone : List Text) × (end : Storage) × (discard_orphans 3 june 3600000000 late_save bucket
      ≡ some (gone, end))
    × (select (is_past_grace june 3600000000 0) end.rows ≡ [])
    × All (λ x. exists (is_row_of x) end.rows ≡ true) (in_use ∷ saved_late ∷ [])
    × Named end
discard_orphans-Named_example =
    discard_orphans-Named june late_save 3600000000 3 bucket (omega arith) bucket-IsKeyed
      (refl, (refl, (refl, tt)))
