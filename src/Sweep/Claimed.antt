-- ===== src/Sweep/Claimed.antt =====
-- A row that somebody claimed is never deleted, whether the claim came before the pass or in it.
use fastkit.Base.{
  ◌∙◌, ◌==◌, ==_self, Bool-cases, ℕ, ◌≡◌, refl, inl, inr, Bool, true, ◌&&◌, ◌||◌, not, List, [],
  ◌∷◌, arith,
}
use fastkit.Base.Table.{All, select, exists}
use fastkit.Base.Text.{text_eq, text_eq_self}
use fastkit.Dates.{DateTime}
use fastkit.Sweep.{is_unclaimed, delete_page, StoredFile}
use fastkit.Sweep.Named.{one_delete, All-map}

-- A row that is claimed, or that another session claims before its delete.
abbrev pub is_safe : (ℕ → Bool) → StoredFile → Bool
is_safe claims x = not (is_unclaimed x) || claims x.id

abbrev pub is_row_of : StoredFile → StoredFile → Bool
is_row_of x y = y.id == x.id && text_eq y.key x.key

abbrev pub stays : (ℕ → Bool) → StoredFile → StoredFile → Bool
stays claims x y = is_row_of x y && is_safe claims y

module _ (now : DateTime) (claims : ℕ → Bool) where
  one_delete-stays :
      (x r : StoredFile) (rows : List StoredFile)
      → exists (stays claims x) rows ≡ true
      → exists (stays claims x) (one_delete now claims r rows) ≡ true
  one_delete-stays x r [] h = cc
  one_delete-stays x r (y ∷ rows) h = ground (arith, one_delete-stays x r rows)

  pub delete_page-stays :
      (x : StoredFile) (page rows : List StoredFile)
      → exists (stays claims x) rows ≡ true
      → exists (stays claims x) (delete_page now claims page rows).1 ≡ true
  unfolding delete_page
  delete_page-stays x [] rows h = h
  delete_page-stays x (r ∷ page) rows h =
      delete_page-stays x page (one_delete now claims r rows) (one_delete-stays x r rows h)

  pub stays-is_row_of :
      (x : StoredFile) (rows : List StoredFile)
      → exists (stays claims x) rows ≡ true
      → exists (is_row_of x) rows ≡ true
  stays-is_row_of x [] h = cc
  stays-is_row_of x (y ∷ rows) h = ground (arith, stays-is_row_of x rows)

  pub safe_there :
      (rows : List StoredFile)
      → All (λ x. exists (stays claims x) rows ≡ true) (select (is_safe claims) rows)
  safe_there [] = tt
  safe_there (r ∷ rows) =
      let own : stays claims r r ≡ is_safe claims r = rw (==_self r.id, text_eq_self r.key) refl in
      let rest =
        All-map now claims (λ x. exists (stays claims x) rows ≡ true)
          (λ x. exists (stays claims x) (r ∷ rows) ≡ true) (select (is_safe claims) rows)
          (λ x h. ground arith) (safe_there rows) in
      elim (Bool-cases (is_safe claims r)) [
        | inr e ↦ rw e rest
        | inl e ↦ rw e (rw (own ∙ e, exists) refl, rest)
      ]
