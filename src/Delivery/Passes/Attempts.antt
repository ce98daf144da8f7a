-- ===== src/Delivery/Passes/Attempts.antt =====
-- How often a grant is attempted: a claim takes it for one pass, and no grant is taken a sixth
-- time.
use fastkit.Base.{
  ◌==◌, Bool-cases, ℕ, ◌≤◌, ◌≡◌, refl, sym, ◌∙◌, inl, inr, true, false, List, [], ◌∷◌, arith,
  ==_iff,
}
use fastkit.Base.Table.{All, update_where, count_where, All-update_where}
use fastkit.Dates.{add_time, before, DateTime}
use fastkit.Delivery.{BenefitGrant, Store}
use fastkit.Delivery.Evidence.{abandoned_after, max_attempts, takeable}
use fastkit.Delivery.Passes.{is_takeable, taken, claim}

abbrev pub IsBounded : BenefitGrant → Type 0
IsBounded g = g.attempts ≤ max_attempts

abbrev pub Bounded : List BenefitGrant → Type 0
Bounded gs = All IsBounded gs

-- The claims that passes make, one after the other: when, and of which grant.
abbrev pub claim_each : List (DateTime × ℕ) → Store → Store
claim_each [] s = s
claim_each ((at, id) ∷ cs) s = claim_each cs (claim at id s).1

module _ (now : DateTime) (id : ℕ) where
  count_claimable :
      (gs : List BenefitGrant)
      → count_where (is_takeable now id) gs ≤ count_where (λ g. g.id == id) gs
  count_claimable [] = omega arith
  count_claimable (g ∷ gs) = ground (arith, count_claimable gs)

  -- Nobody takes the row of the id at a moment where a claim made now is young.
  abbrev IsHeld : BenefitGrant → Type 0
  IsHeld g =
      (g.id == id) ≡ true
      → (at : DateTime) → before (add_time abandoned_after now) at ≡ false
      → takeable at g ≡ false

  -- Where every row of the id is takeable, a claim holds them.
  claimed-IsHeld :
      (gs : List BenefitGrant)
      → count_where (is_takeable now id) gs ≡ count_where (λ g. g.id == id) gs
      → All IsHeld (update_where (is_takeable now id) (taken now) gs)
  unfolding takeable
  claimed-IsHeld [] every = tt
  claimed-IsHeld (g ∷ gs) every = elim (Bool-cases (g.id == id)) [
    | inr other ↦
        let left : count_where (is_takeable now id) gs ≡ count_where (λ r. r.id == id) gs =
          rw other at every in
        rw other ((λ own. absurd (ground arith)), claimed-IsHeld gs left)
    | inl own ↦ elim (Bool-cases (takeable now g)) [
      | inl free ↦
          let left : count_where (is_takeable now id) gs ≡ count_where (λ r. r.id == id) gs =
            ground arith in
          rw (own, free) ((λ _ at soon. rw soon refl), claimed-IsHeld gs left)
      | inr busy ↦ absurd (ground (arith, count_claimable gs))
    ]
  ]

  claim_each-IsHeld :
      (cs : List (DateTime × ℕ)) (s : Store)
      → All (λ c. before (add_time abandoned_after now) c.0 ≡ false) cs
      → All IsHeld s.grants
      → All IsHeld (claim_each cs s).grants
  unfolding claim
  claim_each-IsHeld [] s soon held = held
  claim_each-IsHeld ((at, other) ∷ cs) s soon held =
      claim_each-IsHeld cs (claim at other s).1 soon.1 (
        All-update_where IsHeld IsHeld (is_takeable at other) (taken at) s.grants
          (λ g met k own. let busy = k own at soon.0 in absurd (ground arith)) (λ g missed k. k)
          held)

  none_left :
      (later : DateTime) (gs : List BenefitGrant)
      → before (add_time abandoned_after now) later ≡ false
      → All IsHeld gs
      → count_where (is_takeable later id) gs ≡ 0
  none_left later [] soon held = refl
  none_left later (g ∷ gs) soon held = elim (Bool-cases (g.id == id)) [
    | inr other ↦ ground (arith, none_left later gs soon held.1)
    | inl own ↦ let busy = held.0 own later soon in ground (arith, none_left later gs soon held.1)
  ]

-- While an attempt is under way, its grant is nobody else's: of all the claims that passes make
-- within thirty minutes of the one that succeeded, of this grant and of others, none of this grant
-- succeeds, as long as nothing else writes the row. The id is a key: one row has it.
pub claim_exclusive :
    (now later : DateTime) (id : ℕ) (s : Store) (cs : List (DateTime × ℕ))
    → count_where (λ g. g.id == id) s.grants ≡ 1
    → All (λ c. before (add_time abandoned_after now) c.0 ≡ false) cs
    → before (add_time abandoned_after now) later ≡ false
    → (claim now id s).0 ≡ true
    → (claim later id (claim_each cs (claim now id s).1)).0 ≡ false
unfolding claim
claim_exclusive now later id s cs own soon last won =
    let one : count_where (is_takeable now id) s.grants ≡ 1 = (==_iff _ 1).0 won in
    let held = claimed-IsHeld now id s.grants (one ∙ sym own) in
    let left =
      none_left now id later (claim_each cs (claim now id s).1).grants last
        (claim_each-IsHeld now id cs (claim now id s).1 soon held) in
    rw left refl
