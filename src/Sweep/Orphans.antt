-- ===== src/Sweep/Orphans.antt =====
-- A pass over the orphans ends, and what it leaves.
use fastkit.Base.{
  ltb, ◌==◌, Bool-cases, ℕ, ◌+◌, ◌≤◌, ◌<◌, ◌≡◌, refl, sym, ap, ◌∙◌, inl, inr, Bool, true, false,
  ◌&&◌, List, [], ◌∷◌, arith, take, zero, suc, some, ◌++◌,
}
use fastkit.Sweep.Claimed.{
  is_safe, is_row_of, stays, delete_page-stays, stays-is_row_of, safe_there,
}
use fastkit.Base.Table.{exists, All, count_where, select, All-both, List-cases}
use fastkit.Base.Text.{Text, text_eq, text_eq_iff}
use fastkit.Dates.{add_time, before, DateTime}
use fastkit.Sweep.{
  is_unclaimed, is_free, delete_page, holds_key, discard_keys, StoredFile, Storage, waiting,
  discard_orphans,
}
use fastkit.Sweep.Named.{
  one_delete, delete_page-All, delete_page-Single, Unique, All-map, All-select, All-take,
  delete_page-gone,
}

-- Every row names a file that the storage holds.
abbrev pub Named : Storage → Type 0
Named s = All (λ r. holds_key r.key s.keys ≡ true) s.rows

-- No two rows have a key or an id in common.
abbrev pub IsKeyed : List StoredFile → Type 0
IsKeyed rows =
    All
      (λ r.
        All (λ x. text_eq x.key r.key ≡ true → x.id ≡ r.id) rows
        × (count_where (λ x. x.id == r.id) rows ≤ 1))
      rows

text_eq_sym : (a b : Text) (c : List Text) → text_eq a b ≡ true → holds_key a c ≡ holds_key b c
text_eq_sym a b c h = ap (λ t. holds_key t c) ((text_eq_iff a b).0 h)

discard_keys-holds_key :
    (k : Text) (batch keys : List Text)
    → holds_key k batch ≡ false
    → holds_key k keys ≡ true
    → holds_key k (discard_keys batch keys) ≡ true
unfolding discard_keys
discard_keys-holds_key k batch [] safe h = cc
discard_keys-holds_key k batch (x ∷ keys) safe h = elim (Bool-cases (text_eq k x)) [
  | inl same ↦
      let e : holds_key x batch ≡ false = sym (text_eq_sym k x batch same) ∙ safe in
      rw (e, same) refl
  | inr other ↦ elim (Bool-cases (holds_key x batch)) [
    | inl gone ↦ rw gone (discard_keys-holds_key k batch keys safe (rw other at h))
    | inr kept ↦ rw (kept, other) (discard_keys-holds_key k batch keys safe (rw other at h))
  ]
]

-- The row that a page begins with is one that a delete may reach.
abbrev pub is_past_grace : DateTime → ℕ → ℕ → StoredFile → Bool
is_past_grace now grace after r =
    is_unclaimed r && (before (add_time grace r.created_at) now && ltb after r.id)

count_where-is_past_grace :
    (now : DateTime) (grace after : ℕ) (rows : List StoredFile) {x : StoredFile}
    {rest : List StoredFile}
    → select (is_past_grace now grace after) rows ≡ x ∷ rest
    → 0 < count_where (is_free x.id) rows
count_where-is_past_grace now grace after [] h = cc
count_where-is_past_grace now grace after (r ∷ rows) {x} {rest} h =
    elim (Bool-cases (is_past_grace now grace after r)) [
      | inl e ↦
          let hit : r ∷ select (is_past_grace now grace after) rows ≡ x ∷ rest = rw e at h in
          let same : r ≡ x = cc in let own : r.id ≡ x.id = ap (λ t. t.id) same in ground arith
      | inr e ↦ ground (arith, count_where-is_past_grace now grace after rows (rw e at h))
    ]

module _ (now : DateTime) (claims : ℕ → Bool) where
  unclaimed_left :
      (r : StoredFile) (rows : List StoredFile)
      → count_where is_unclaimed (one_delete now claims r rows) + count_where (is_free r.id) rows
        ≤ count_where is_unclaimed rows
  unclaimed_left r [] = omega arith
  unclaimed_left r (x ∷ rows) = ground (arith, unclaimed_left r rows)

  delete_page-unclaimed :
      (page rows : List StoredFile)
      → count_where is_unclaimed (delete_page now claims page rows).1
        ≤ count_where is_unclaimed rows
  unfolding delete_page
  delete_page-unclaimed [] rows = omega arith
  delete_page-unclaimed (r ∷ page) rows =
      omega
        (arith, delete_page-unclaimed page (one_delete now claims r rows), unclaimed_left r rows)

  delete_page-IsKeyed :
      (page rows : List StoredFile) → IsKeyed rows → IsKeyed (delete_page now claims page rows).1
  delete_page-IsKeyed page rows h =
      let left = (delete_page now claims page rows).1 in
      All-map now claims (Unique now claims rows) (Unique now claims left) left
        (λ x k. (
          delete_page-All now claims (λ y. text_eq y.key x.key ≡ true → y.id ≡ x.id) page rows
              (λ y j. j) k.0,
          delete_page-Single now claims x.id page rows k.1,
        ))
        (delete_page-All now claims (Unique now claims rows) page rows (λ x k. k) h)

  -- One page, and what the invariant is after it.
  page-Named :
      (s : Storage) (r : StoredFile) (page : List StoredFile)
      → All (λ x. holds_key x.key s.keys ≡ true) s.rows
      → All (Unique now claims s.rows) (r ∷ page)
      → let (batch, left) = delete_page now claims (r ∷ page) s.rows in
        Named (record s { rows = left; keys = discard_keys batch s.keys })
  page-Named s r page named unique =
      let batch = (delete_page now claims (r ∷ page) s.rows).0 in
      let left = (delete_page now claims (r ∷ page) s.rows).1 in
      All-both (λ x. holds_key x.key s.keys ≡ true) (λ x. holds_key x.key batch ≡ false)
        (λ x. holds_key x.key (discard_keys batch s.keys) ≡ true) left
        (λ x held safe. discard_keys-holds_key x.key batch s.keys safe held)
        (delete_page-All now claims (λ x. holds_key x.key s.keys ≡ true) (r ∷ page) s.rows
          (λ x k. k) named)
        (delete_page-gone now claims (r ∷ page) s.rows unique)

  discard_orphans_ends :
      (grace fuel : ℕ) (s : Storage)
      → count_where is_unclaimed s.rows < fuel
      → IsKeyed s.rows
      → Named s
      → (gone : List Text) × (end : Storage) × (discard_orphans fuel now grace claims s
          ≡ some (gone, end))
        × (select (is_past_grace now grace 0) end.rows ≡ [])
        × Named end
        × ((x : StoredFile)
            → exists (stays claims x) s.rows ≡ true
            → exists (stays claims x) end.rows ≡ true)
  unfolding discard_orphans waiting
  discard_orphans_ends grace zero s short keyed named = elim short [ ]
  discard_orphans_ends grace (suc fuel) s short keyed named =
      elim (List-cases (select (is_past_grace now grace 0) s.rows)) [
        | inl nothing ↦ ([], s, simp (nothing, discard_orphans) refl, nothing, named, (λ x h. h))
        | inr (r, rest, found) ↦
            let page = take 999 rest in
            let batch = (delete_page now claims (r ∷ page) s.rows).0 in
            let left = (delete_page now claims (r ∷ page) s.rows).1 in
            let s' = record s { rows = left; keys = discard_keys batch s.keys } in
            let all_waiting : All (Unique now claims s.rows) (r ∷ rest) =
              rw found at
                (All-select (Unique now claims s.rows) (is_past_grace now grace 0) s.rows keyed) in
            let unique : All (Unique now claims s.rows) (r ∷ page) =
              (all_waiting.0, All-take (Unique now claims s.rows) 999 rest all_waiting.1) in
            let fewer = unclaimed_left r s.rows in
            let later = delete_page-unclaimed page (one_delete now claims r s.rows) in
            let one = count_where-is_past_grace now grace 0 s.rows found in
            let (gone, end, e, over, still, safe) =
              discard_orphans_ends grace fuel s' (omega arith)
                (delete_page-IsKeyed (r ∷ page) s.rows keyed) (page-Named s r page named unique) in
            (
              batch ++ gone,
              end,
              simp (found, e, discard_orphans) refl,
              over,
              still,
              (λ x h. safe x (delete_page-stays now claims x (r ∷ page) s.rows h)),
            )
      ]

  -- A pass ends, and then no row that is past its grace is unclaimed; every row that was claimed,
  -- or that another session claims before the pass comes to delete it, is still there; and every row
  -- names a file that the storage holds, as every row did before. No two rows have a key or an id in
  -- common, and the fuel is above the number of unclaimed rows.
  pub discard_orphans-Named :
      (grace fuel : ℕ) (s : Storage)
      → count_where is_unclaimed s.rows < fuel
      → IsKeyed s.rows
      → Named s
      → (gone : List Text) × (end : Storage) × (discard_orphans fuel now grace claims s
          ≡ some (gone, end))
        × (select (is_past_grace now grace 0) end.rows ≡ [])
        × All (λ x. exists (is_row_of x) end.rows ≡ true) (select (is_safe claims) s.rows)
        × Named end
  discard_orphans-Named grace fuel s short keyed named =
      let (gone, end, e, over, still, safe) = discard_orphans_ends grace fuel s short keyed named in
      (
        gone,
        end,
        e,
        over,
        All-map now claims (λ x. exists (stays claims x) s.rows ≡ true)
            (λ x. exists (is_row_of x) end.rows ≡ true) (select (is_safe claims) s.rows)
            (λ x h. stays-is_row_of now claims x end.rows (safe x h))
            (safe_there now claims s.rows),
        still,
      )
