-- ===== src/Ledger/Replay.antt =====
-- What a movement does: `move` on every branch, and what a second one finds.
use fastkit.Base.Text.{text_eq_self, Text}
use fastkit.Base.{
  ◌≡◌, refl, ◌∙◌, List, subst, true, none, Bool-cases, Option-cases, inl, inr, arith, ◌==◌,
  if◌then◌else◌, ℕ, ap, ◌⊎◌, ◌&&◌, some, ◌∷◌, false, ap₂,
}
use fastkit.Base.Int.{◌+ℤ◌}
use fastkit.Base.Table.{exists, All}
use fastkit.Errors.{Result, ok, raise}
use fastkit.Ledger.{
  signed_amount, holds, settled_by_key, amount_of, write, book, move, CreditTransaction, Ledger,
  Directory, Movement, held, is_foreign,
}
use fastkit.Ledger.Invariant.{
  IsConsistent, exists-held, held-IsConsistent, amount_of-held, transactions-held, amount_of-write,
}
use fastkit.Ledger.Booking.{Booked, book-Booked, book-IsConsistent}
use fastkit.Ledger.Keys.{KeepsKeys, play, play-keeps, Turn}

-- Whatever the other sessions commit while the movement waits for the lock, a ledger that they keep
-- consistent is consistent after it, on every branch.
pub move-IsConsistent :
    (dir : Directory) (others : Ledger → Ledger) (m : Movement) (l : Ledger)
    → ((k : Ledger) → IsConsistent k → IsConsistent (others k))
    → IsConsistent l
    → IsConsistent (move dir others m l).1
unfolding move
move-IsConsistent dir others m l keep h = elim (Option-cases (settled_by_key m.idempotency_key l)) [
  | inr (t, e) ↦ rw (e, move) h
  | inl new ↦
      elim (Bool-cases
        (is_foreign (dir.currency_tenant m.currency_id) (dir.user_tenant m.user_id))) [
          | inl foreign ↦ rw (new, foreign, move) h
          | inr reachable ↦
              let waited = others l in
              let ready = held-IsConsistent m.user_id m.currency_id waited (keep l h) in
              elim (Option-cases
                (settled_by_key m.idempotency_key (held m.user_id m.currency_id waited))) [
                  | inr (t, e) ↦ rw (new, reachable, e, move) ready
                  | inl still ↦
                      rw (new, reachable, still, move)
                        (book-IsConsistent m (held m.user_id m.currency_id waited) ready
                          (exists-held m.user_id m.currency_id waited) still)
                ]
        ]
]

-- What a movement left behind, by how it ended. `k` is the ledger that it found under the lock, or
-- the first one it read where it never took the lock.
abbrev pub Moved : Movement → Ledger → Result CreditTransaction → Ledger → Type 0
Moved m k (raise e) l' =
    (l'.transactions ≡ k.transactions) × ((u c : ℕ) → amount_of u c l' ≡ amount_of u c k)
Moved m k (ok t) l' =
    (settled_by_key m.idempotency_key l' ≡ some t)
    × ((settled_by_key m.idempotency_key k ≡ some t)
          × (l'.transactions ≡ k.transactions)
          × ((u c : ℕ) → amount_of u c l' ≡ amount_of u c k)
        ⊎ (settled_by_key m.idempotency_key k ≡ none)
          × (signed_amount m.type m.amount ≡ ok t.amount)
          × (l'.transactions ≡ t ∷ k.transactions)
          × ((u c : ℕ)
              → amount_of u c l' ≡ (
                  if m.user_id == u && m.currency_id == c
                  then amount_of u c k +ℤ t.amount
                  else amount_of u c k)))

settled-write :
    (t : CreditTransaction) (l : Ledger) → settled_by_key t.idempotency_key (write t l) ≡ some t
unfolding write
settled-write t l = rw (text_eq_self t.idempotency_key)

transactions-write :
    (t : CreditTransaction) (l : Ledger) → (write t l).transactions ≡ t ∷ l.transactions
unfolding write
transactions-write t l = refl

-- Where the account of the transaction is asked for, its balance is the one before and its amount.
write_moves :
    (u c : ℕ) (t : CreditTransaction) (l : Ledger)
    → exists (holds t.user_id t.currency_id) l.balances ≡ true
    → t.balance_after ≡ amount_of t.user_id t.currency_id l +ℤ t.amount
    → amount_of u c (write t l) ≡ (
        if t.user_id == u && t.currency_id == c
        then amount_of u c l +ℤ t.amount
        else amount_of u c l)
write_moves u c t l open_row balance =
    rw (amount_of-write u c t l open_row)
      (branch (Bool-cases (t.user_id == u && t.currency_id == c)))
  where
    branch :
        ((t.user_id == u && t.currency_id == c) ≡ true)
          ⊎ ((t.user_id == u && t.currency_id == c) ≡ false)
        → (if t.user_id == u && t.currency_id == c then t.balance_after else amount_of u c l) ≡ (
            if t.user_id == u && t.currency_id == c
            then amount_of u c l +ℤ t.amount
            else amount_of u c l)
    branch (inl k) =
        let p : t.user_id ≡ u = ground arith in
        let q : t.currency_id ≡ c = ground arith in
        rw k (balance ∙ ap₂ (λ a b. amount_of a b l +ℤ t.amount) p q)
    branch (inr k) = rw k

book-Moved :
    (m : Movement) (l : Ledger)
    → exists (holds m.user_id m.currency_id) l.balances ≡ true
    → settled_by_key m.idempotency_key l ≡ none
    → Moved m l (book m l).0 (book m l).1
book-Moved m l open_row fresh = by_outcome (book m l).0 (book m l).1 (book-Booked m l)
  where
    by_outcome : (r : Result CreditTransaction) (l' : Ledger) → Booked m l r l' → Moved m l r l'
    by_outcome (raise e) l' same = (ap (λ k. k.transactions) same, λ u c. ap (amount_of u c) same)
    by_outcome (ok t) l' (same, who, what, key, signed, balance, lo, hi) =
        rw (same, ← key, ← who, ← what)
          (
            settled-write t l,
            inr (
              rw key fresh,
              signed,
              transactions-write t l,
              λ u c. write_moves u c t l (rw (who, what) open_row) (rw (who, what) balance),
            ),
          )

-- Opening the row under the lock is no effect of its own.
Moved-held :
    (m : Movement) (l : Ledger) (r : Result CreditTransaction) (l' : Ledger)
    → Moved m (held m.user_id m.currency_id l) r l'
    → Moved m l r l'
Moved-held m l (raise e) l' (ts, amounts) = (
  ts ∙ transactions-held m.user_id m.currency_id l,
  λ u c. amounts u c ∙ amount_of-held u c m.user_id m.currency_id l,
)
Moved-held m l (ok t) l' (found, inl (old, ts, amounts)) = (
  found,
  inl (
    rw (transactions-held m.user_id m.currency_id l) at old,
    ts ∙ transactions-held m.user_id m.currency_id l,
    λ u c. amounts u c ∙ amount_of-held u c m.user_id m.currency_id l,
  ),
)
Moved-held m l (ok t) l' (found, inr (new, signed, ts, amounts)) = (
  found,
  inr (
    rw (transactions-held m.user_id m.currency_id l) at new,
    signed,
    ts ∙ ap (◌∷◌ t) (transactions-held m.user_id m.currency_id l),
    λ u c. rw (amount_of-held u c m.user_id m.currency_id l) at (amounts u c),
  ),
)

-- The whole effect of a movement that nobody races: a key that is settled changes nothing, a
-- refusal changes no balance and books nothing, and any other books one transaction and moves one
-- balance by its amount.
pub move-Moved :
    (dir : Directory) (m : Movement) (l : Ledger)
    → Moved m l (move dir (λ k. k) m l).0 (move dir (λ k. k) m l).1
unfolding move
move-Moved dir m l = elim (Option-cases (settled_by_key m.idempotency_key l)) [
  | inr (t, e) ↦ rw (e, move) (e, inl (e, refl, λ u c. refl))
  | inl new ↦
      elim (Bool-cases
        (is_foreign (dir.currency_tenant m.currency_id) (dir.user_tenant m.user_id))) [
          | inl foreign ↦ rw (new, foreign, move) (refl, λ u c. refl)
          | inr reachable ↦
              let locked = held m.user_id m.currency_id l in
              let still : settled_by_key m.idempotency_key locked ≡ none =
                rw (transactions-held m.user_id m.currency_id l) new in
              rw (new, reachable, still, move)
                (Moved-held m l (book m locked).0 (book m locked).1
                  (book-Moved m locked (exists-held m.user_id m.currency_id l) still))
        ]
]

abbrev Settles : Text → Result CreditTransaction → Ledger → Type 0
Settles key (raise e) l = Unit {0}
Settles key (ok t) l = settled_by_key key l ≡ some t

book-Settles : (m : Movement) (l : Ledger) → Settles m.idempotency_key (book m l).0 (book m l).1
book-Settles m l = by_outcome (book m l).0 (book m l).1 (book-Booked m l)
  where
    by_outcome :
        (r : Result CreditTransaction) (l' : Ledger)
        → Booked m l r l'
        → Settles m.idempotency_key r l'
    by_outcome (raise e) l' b = tt
    by_outcome (ok t) l' b = rw (b.0, ← b.3) (settled-write t l)

move-Settles :
    (dir : Directory) (others : Ledger → Ledger) (m : Movement) (l : Ledger)
    → Settles m.idempotency_key (move dir others m l).0 (move dir others m l).1
unfolding move
move-Settles dir others m l = elim (Option-cases (settled_by_key m.idempotency_key l)) [
  | inr (t, e) ↦ rw (e, move) e
  | inl new ↦
      elim (Bool-cases
        (is_foreign (dir.currency_tenant m.currency_id) (dir.user_tenant m.user_id))) [
          | inl foreign ↦ rw (new, foreign, move) tt
          | inr reachable ↦
              let locked = held m.user_id m.currency_id (others l) in
              elim (Option-cases (settled_by_key m.idempotency_key locked)) [
                | inr (t, e) ↦ rw (new, reachable, e, move) e
                | inl still ↦ rw (new, reachable, still, move) (book-Settles m locked)
              ]
        ]
]

-- A key that moved once answers the same transaction for good: after any number of other movements,
-- of whatever keys, and whatever other sessions commit while these wait, a movement that is sent
-- with that key answers the first one's transaction and writes nothing. What other sessions commit
-- takes no settled key away.
pub move_replay :
    (dir dir' : Directory) (others others' : Ledger → Ledger) (m m' : Movement) (l : Ledger)
    (turns : List Turn) {t : CreditTransaction} {l' : Ledger}
    → move dir others m l ≡ (ok t, l')
    → m'.idempotency_key ≡ m.idempotency_key
    → All (λ s. KeepsKeys s.others) turns
    → move dir' others' m' (play turns l') ≡ (ok t, play turns l')
unfolding move
move_replay dir dir' others others' m m' l turns {l' = l'} h same keeps =
    let found = subst (λ p. Settles m.idempotency_key p.0 p.1) h (move-Settles dir others m l) in
    let still = play-keeps m.idempotency_key turns l' keeps found in rw (rw (← same) at still, move)
