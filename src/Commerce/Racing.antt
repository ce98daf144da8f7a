-- ===== src/Commerce/Racing.antt =====
-- `settle_purchase` where other sessions commit between a round's read and its write.
use fastkit.Base.Table.{find-holds, find}
use fastkit.Base.Text.{Text}
use fastkit.Base.{
  ==_iff, Bool-cases, Option-cases, ℕ, ◌≡◌, refl, ◌∙◌, ◌⊎◌, inl, inr, true, false, Option, none,
  some, List, [], ◌∷◌, arith,
}
use fastkit.Errors.{raise, ok, Result, missing_row}
use fastkit.Commerce.{
  status_code, same_status, moves, named, land, settle_purchase, Purchase, Session, Shop,
  PurchaseStatus,
}

-- A shop that the other sessions may have left: what some first rounds of theirs make of `s`.
abbrev pub Crossed : List (Shop → Shop) → Shop → Shop → Type 0
Crossed [] s t = t ≡ s
Crossed (cross ∷ rest) s t = (t ≡ s) ⊎ Crossed rest (cross s) t

-- How a call about the purchase `id` ended. One that wrote found the row in a status that the
-- notice may move, in a shop that the others left, and landed exactly there. Any other wrote
-- nothing.
pub data Ended (e : Session) (rounds : List (Shop → Shop)) (id : ℕ) (word : PurchaseStatus)
    (external : Option Text) (s : Shop) (out : Result Purchase × Shop) : Type 0 where
  wrote :
      (p stored : Purchase) (found : Shop)
      → Crossed rounds s found
      → find (named id) found.purchases ≡ some stored
      → stored.status ≡ p.status
      → p.id ≡ id
      → moves stored.status word ≡ true
      → out ≡ land e p word external found
      → Ended e rounds id word external s out
  stayed :
      (p : Purchase) (left : Shop)
      → Crossed rounds s left
      → moves p.status word ≡ false
      → out ≡ (ok p, left)
      → Ended e rounds id word external s out
  lost :
      (left : Shop)
      → Crossed rounds s left
      → find (named id) left.purchases ≡ none
      → out ≡ (raise missing_row, left)
      → Ended e rounds id word external s out

Crossed-here : (rounds : List (Shop → Shop)) (s : Shop) → Crossed rounds s s
Crossed-here [] s = refl
Crossed-here (c ∷ rest) s = inl refl

later :
    {e : Session} {cross : Shop → Shop} {rest : List (Shop → Shop)} {id id' : ℕ}
    {word : PurchaseStatus} {external : Option Text} {s : Shop} {out : Result Purchase × Shop}
    → id' ≡ id
    → Ended e rest id' word external (cross s) out
    → Ended e (cross ∷ rest) id word external s out
later i (wrote p stored found c here eq own m o) =
    wrote p stored found (inr c) (rw (← i) here) eq (own ∙ i) m o
later i (stayed p left c m o) = stayed p left (inr c) m o
later i (lost left c gone o) = lost left (inr c) (rw (← i) gone) o

same_status→eq : (a b : PurchaseStatus) → same_status a b ≡ true → a ≡ b
unfolding status_code
same_status→eq a b h = ground arith

-- However the notices about one payment cross, a call that ends writes only over a status that the
-- notice may move, in the shop that the other sessions left, and writes nothing otherwise.
pub settle_purchase_raced :
    (e : Session) (rounds : List (Shop → Shop)) (p : Purchase) (word : PurchaseStatus)
    (external : Option Text) (s : Shop) {out : Result Purchase × Shop}
    → settle_purchase e rounds p word external s ≡ some out
    → Ended e rounds p.id word external s out
unfolding settle_purchase
settle_purchase_raced e [] p word external s h = cc
settle_purchase_raced e (cross ∷ rest) p word external s {out} h =
    elim (Bool-cases (moves p.status word)) [
      | inr m ↦
          let q : some (ok p, s) ≡ some out = rw (m, settle_purchase) at h in
          stayed p s (inl refl) m (cc)
      | inl m ↦ elim (Option-cases (find (named p.id) (cross s).purchases)) [
        | inl gone ↦
            let q : some (raise missing_row, cross s) ≡ some out =
              rw (m, gone, settle_purchase) at h in
            lost (cross s) (inr (Crossed-here rest (cross s))) gone (cc)
        | inr (stored, here) ↦ elim (Bool-cases (same_status stored.status p.status)) [
          | inl same ↦
              let q : some (land e p word external (cross s)) ≡ some out =
                rw (m, here, same, settle_purchase) at h in
              let eq = same_status→eq stored.status p.status same in
              wrote p stored (cross s) (inr (Crossed-here rest (cross s))) here eq refl (rw eq m)
                (cc)
          | inr differs ↦
              let q : settle_purchase e rest stored word external (cross s) ≡ some out =
                rw (m, here, differs, settle_purchase) at h in
              later ((==_iff stored.id p.id).0 (find-holds (named p.id) (cross s).purchases here))
                (settle_purchase_raced e rest stored word external (cross s) q)
        ]
      ]
    ]
