-- ===== src/Ledger/Keys.antt =====
-- A key that a movement settled stays settled, whatever is moved after it.
use fastkit.Base.Text.{text_eq, text_eq_iff, Text}
use fastkit.Base.{
  ◌≡◌, ◌∙◌, sym, List, [], Option, none, Bool-cases, Option-cases, inl, inr, some, ◌∷◌,
}
use fastkit.Base.Table.{All}
use fastkit.Errors.{Result, ok, raise}
use fastkit.Ledger.{
  settled_by_key, write, book, move, CreditTransaction, Ledger, Directory, Movement, held,
  is_foreign,
}
use fastkit.Ledger.Invariant.{transactions-held}
use fastkit.Ledger.Booking.{Booked, book-Booked}

-- What other sessions commit forgets no key.
abbrev pub KeepsKeys : (Ledger → Ledger) → Type 0
KeepsKeys others =
    (k : Ledger) (key : Text) (t : CreditTransaction)
    → settled_by_key key k ≡ some t
    → settled_by_key key (others k) ≡ some t

-- A movement of some session, with what the others commit while it waits.
pub record Turn : Type 0 where
  pub directory : Directory
  pub others : Ledger → Ledger
  pub movement : Movement

abbrev pub play : List Turn → Ledger → Ledger
play [] l = l
play (t ∷ ts) l = play ts (move t.directory t.others t.movement l).1

write-keeps :
    (key : Text) (m : CreditTransaction) (l : Ledger) {t : CreditTransaction}
    → settled_by_key m.idempotency_key l ≡ none
    → settled_by_key key l ≡ some t
    → settled_by_key key (write m l) ≡ some t
unfolding write
write-keeps key m l {t} fresh found = elim (Bool-cases (text_eq m.idempotency_key key)) [
  | inr differs ↦ rw differs found
  | inl same ↦
      let e : m.idempotency_key ≡ key = (text_eq_iff m.idempotency_key key).0 same in
      let bad : ◌≡◌ {A = Option CreditTransaction} none (some t) = sym (rw e at fresh) ∙ found in cc
]

book-keeps :
    (key : Text) (m : Movement) (l : Ledger) {t : CreditTransaction}
    → settled_by_key m.idempotency_key l ≡ none
    → settled_by_key key l ≡ some t
    → settled_by_key key (book m l).1 ≡ some t
book-keeps key m l {t} fresh found = by_outcome (book m l).0 (book m l).1 (book-Booked m l)
  where
    by_outcome :
        (r : Result CreditTransaction) (l' : Ledger)
        → Booked m l r l'
        → settled_by_key key l' ≡ some t
    by_outcome (raise e) l' same = rw same found
    by_outcome (ok new) l' b = rw b.0 (write-keeps key new l (rw b.3 fresh) found)

move-keeps :
    (dir : Directory) (others : Ledger → Ledger) (key : Text) (m : Movement) (l : Ledger)
    {t : CreditTransaction}
    → KeepsKeys others
    → settled_by_key key l ≡ some t
    → settled_by_key key (move dir others m l).1 ≡ some t
unfolding move
move-keeps dir others key m l {t} keeps found =
    elim (Option-cases (settled_by_key m.idempotency_key l)) [
      | inr (old, e) ↦ rw (e, move) found
      | inl new ↦
          elim (Bool-cases
            (is_foreign (dir.currency_tenant m.currency_id) (dir.user_tenant m.user_id))) [
              | inl foreign ↦ rw (new, foreign, move) found
              | inr reachable ↦
                  let locked = held m.user_id m.currency_id (others l) in
                  let there : settled_by_key key locked ≡ some t =
                    rw (transactions-held m.user_id m.currency_id (others l))
                      (keeps l key t found) in
                  elim (Option-cases (settled_by_key m.idempotency_key locked)) [
                    | inr (old, e) ↦ rw (new, reachable, e, move) there
                    | inl still ↦
                        rw (new, reachable, still, move) (book-keeps key m locked still there)
                  ]
            ]
    ]

pub play-keeps :
    (key : Text) (turns : List Turn) (l : Ledger) {t : CreditTransaction}
    → All (λ s. KeepsKeys s.others) turns
    → settled_by_key key l ≡ some t
    → settled_by_key key (play turns l) ≡ some t
play-keeps key [] l keeps found = found
play-keeps key (s ∷ turns) l keeps found =
    play-keeps key turns (move s.directory s.others s.movement l).1 keeps.1
      (move-keeps s.directory s.others key s.movement l keeps.0 found)
