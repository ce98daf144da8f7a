-- ===== src/Idempotency/Tests.antt =====
-- A checkout that a client sends twice.
use fastkit.Base.{arith, none, List, ℕ, suc, ◌≡◌, refl, some, [], ◌∷◌}
use fastkit.Base.Text.{Text, codes}
use fastkit.Dates.{DateTime}
use fastkit.Errors.{missing_row, Result, ok, raise}
use fastkit.Idempotency.{fresh_request, claim_key, give_back, settle_key, run_named, once, Desk}
use fastkit.Idempotency.Memo.{once-Refines, Refines, memo_once, memo_of}
use fastkit.Idempotency.Kept.{Call, play, once_again}

abbrev noon : DateTime
noon = record { years = 2024; months = 5; days = 1; time = 43200000000 }

-- The work counts its runs.
abbrev pay : ℕ → Result Text × ℕ
pay n = (ok (codes "paid"), suc n)

abbrev fail_once : ℕ → Result Text × ℕ
fail_once n = (raise missing_row, n)

abbrev clear : Desk ℕ
clear = record { requests = []; serial = 1; world = 0 }

abbrev the_key : Text
the_key = codes "k"

abbrev checkout : Text
checkout = codes "checkout"

abbrev paid_desk : Desk ℕ
paid_desk = record {
  requests = record (fresh_request noon 7 the_key checkout 1) { answer = some (codes "paid") } ∷ [];
  serial = 2;
  world = 1;
}

pays : once noon 7 (some the_key) checkout pay clear ≡ (ok (codes "paid"), paid_desk)
unfolding once claim_key run_named settle_key
pays = refl

gives_back : (once noon 7 (some the_key) checkout fail_once clear).1.requests ≡ []
unfolding once claim_key run_named give_back
gives_back = refl

-- Another client under the same key, and one with no key.
abbrev others : List (Call ℕ)
others =
    record { at = noon; user = 8; key = some the_key; endpoint = checkout; work = pay }
    ∷ record { at = noon; user = 7; key = none; endpoint = checkout; work = fail_once }
    ∷ []

once_again_example :
    once noon 7 (some the_key) checkout pay (play others paid_desk)
    ≡ (ok (codes "paid"), play others paid_desk)
once_again_example = once_again noon noon 7 the_key checkout pay pay others clear refl tt pays

once-Refines_example :
    Refines {W = ℕ}
      (once noon 7 (some the_key) checkout pay paid_desk)
      (memo_once 7 the_key checkout pay (memo_of paid_desk, 1))
once-Refines_example =
    once-Refines 7 the_key checkout noon pay paid_desk refl ((refl, omega arith), tt)
