-- ===== src/Ledger/Tests.antt =====
-- One credit, sent twice.
use fastkit.Base.{◌≡◌, refl, none, some, [], ◌∷◌, ◌∙◌}
use fastkit.Base.Int.{pos, ◌+ℤ◌}
use fastkit.Base.Text.{codes}
use fastkit.Errors.{ok}
use fastkit.Ledger.{move, CreditTransaction, Ledger, Directory, Movement, credit, debit}
use fastkit.Ledger.Invariant.{IsConsistent}
use fastkit.Ledger.Replay.{move-IsConsistent, Moved, move-Moved, move_replay}
use fastkit.Ledger.Keys.{Turn, play}

abbrev one_tenant : Directory
one_tenant = record { user_tenant = λ u. some 1; currency_tenant = λ c. none }

abbrev alone : Ledger → Ledger
alone l = l

abbrev empty : Ledger
empty = record { balances = []; transactions = [] }

abbrev top_up : Movement
top_up = record {
  user_id = 7;
  currency_id = 1;
  type = credit;
  amount = pos 100;
  description = none;
  idempotency_key = codes "gift";
  benefit_grant_id = none;
}

abbrev spend : Movement
spend = record {
  user_id = 7;
  currency_id = 1;
  type = debit;
  amount = pos 30;
  description = none;
  idempotency_key = codes "gift";
  benefit_grant_id = none;
}

abbrev topped_up : CreditTransaction
topped_up = record {
  user_id = 7;
  currency_id = 1;
  benefit_grant_id = none;
  type = credit;
  amount = pos 100;
  balance_after = pos 100;
  idempotency_key = codes "gift";
  description = none;
}

abbrev ledger_after : Ledger
ledger_after = record {
  balances = record { user_id = 7; currency_id = 1; amount = pos 100 } ∷ [];
  transactions = topped_up ∷ [];
}

top_up_moves : move one_tenant alone top_up empty ≡ (ok topped_up, ledger_after)
unfolding move fastkit.Base.Int.◌+ℤ◌
top_up_moves = refl

empty-IsConsistent : IsConsistent empty
empty-IsConsistent = record { balanced = λ u c. refl; ranged = tt; unique = tt }

-- Another credit comes in between.
abbrev more : Turn
more = record {
  directory = one_tenant;
  others = alone;
  movement = record top_up { idempotency_key = codes "more"; amount = pos 5 };
}

move_replay_example :
    move one_tenant alone spend (play (more ∷ []) ledger_after)
    ≡ (ok topped_up, play (more ∷ []) ledger_after)
move_replay_example =
    move_replay one_tenant one_tenant alone alone top_up spend empty (more ∷ []) top_up_moves refl
      ((λ k key t h. h), tt)

move-IsConsistent_example : IsConsistent (move one_tenant alone top_up empty).1
move-IsConsistent_example =
    move-IsConsistent one_tenant alone top_up empty (λ k h. h) empty-IsConsistent

move-Moved_example :
    Moved spend ledger_after
      (move one_tenant (λ k. k) spend ledger_after).0
      (move one_tenant (λ k. k) spend ledger_after).1
move-Moved_example = move-Moved one_tenant spend ledger_after
