-- ===== src/Commerce/Tests.antt =====
-- A purchase that is paid, and one that a refund crosses.
use fastkit.Base.{if◌then◌else◌, ℕ, ◌≡◌, refl, ◌∙◌, ◌≢◌, inl, true, false, none, some, [], ◌∷◌}
use fastkit.Base.Int.{pos}
use fastkit.Base.Table.{find}
use fastkit.Base.Text.{codes}
use fastkit.Dates.{DateTime}
use fastkit.Errors.{Result, ok}
use fastkit.Ledger.{move}
use fastkit.Commerce.{
  grant, moves, named, handover_of, settle_purchase, UserProduct, Purchase, Product, Session, Shop,
  Handover, pending, paid, refunded,
}
use fastkit.Commerce.Owning.{grant-IsSound, IsSound}
use fastkit.Commerce.Settling.{after, after-refunded, status_in, Landed, settle_purchase_quiet}
use fastkit.Commerce.Racing.{Ended, settle_purchase_raced}

abbrev noon : DateTime
noon = record { years = 2024; months = 5; days = 1; time = 43200000000 }

abbrev coins : Product
coins = record {
  id = 4;
  name = codes "coins";
  credits = pos 50;
  credits_currency_id = some 1;
  currency = codes "BRL";
  price = 990;
}

abbrev a_call : Session
a_call = record {
  directory = record { user_tenant = λ u. some 1; currency_tenant = λ c. none };
  products = λ id. some coins;
  others = λ l. l;
  now = noon;
}

abbrev bought : Purchase
bought = record {
  id = 9;
  tenant_id = some 1;
  user_id = 7;
  product_id = 4;
  integration_id = some 2;
  reference = codes "order";
  external_id = none;
  currency = codes "BRL";
  price = 990;
  status = pending;
  paid_at = none;
}

abbrev opened : Shop
opened = record {
  ledger = record { balances = []; transactions = [] };
  owned = [];
  purchases = bought ∷ [];
  serial = 10;
}

abbrev to_buyer : Handover
to_buyer = handover_of bought

opened-IsSound : IsSound opened
opened-IsSound = record {
  consistent = record { balanced = λ u c. refl; ranged = tt; unique = tt };
  unique = tt;
}

abbrev handed : UserProduct
handed = record {
  id = 10;
  user_id = 7;
  product_id = 4;
  subscription_id = none;
  purchase_id = some 9;
  benefit_grant_id = none;
  granted_at = noon;
}

abbrev shop_after : Shop
shop_after = (grant a_call to_buyer opened).1

coins_are_handed : grant a_call to_buyer opened ≡ (ok (handed, true), shop_after)
unfolding grant move fastkit.Base.Int.◌+ℤ◌
coins_are_handed = refl

grant-IsSound_example : IsSound (grant a_call to_buyer opened).1
grant-IsSound_example = grant-IsSound a_call to_buyer opened (λ l h. h) opened-IsSound

after-refunded_example : after pending (refunded ∷ paid ∷ []) ≡ refunded
after-refunded_example = after-refunded pending (refunded ∷ paid ∷ []) (inl refl)

-- Another session refunds the row between the read and the write.
abbrev refund_crosses : Shop → Shop
refund_crosses s = record s { purchases = record bought { status = refunded } ∷ [] }

abbrev refunded_shop : Shop
refunded_shop = refund_crosses opened

crossed :
    settle_purchase a_call (refund_crosses ∷ (λ k. k) ∷ []) bought paid none opened
    ≡ some (ok (record bought { status = refunded }), refunded_shop)
unfolding settle_purchase moves
crossed = refl

settle_purchase_raced_example :
    Ended a_call
      (refund_crosses ∷ (λ k. k) ∷ [])
      9
      paid
      none
      opened
      (ok (record bought { status = refunded }), refunded_shop)
settle_purchase_raced_example =
    settle_purchase_raced a_call (refund_crosses ∷ (λ k. k) ∷ []) bought paid none opened crossed

settle_purchase_quiet_example :
    (r : Result Purchase) × (s' : Shop) × (settle_purchase a_call
        ((λ k. k) ∷ [])
        bought
        paid
        none
        opened
      ≡ some (r, s'))
    × (status_in 9 s' ≡ some (if moves pending paid then paid else pending))
    × ((id : ℕ) → id ≢ 9 → find (named id) s'.purchases ≡ find (named id) opened.purchases)
    × (moves pending paid ≡ false → (r ≡ ok bought) × (s' ≡ opened))
    × (moves pending paid ≡ true → Landed a_call bought paid none (r, s'))
settle_purchase_quiet_example = settle_purchase_quiet a_call [] bought paid none opened refl
