-- ===== src/Base/Table.antt =====
-- A database table as the list of its rows, and the statements that the services run over it.
-- A `where` clause is a Boolean test on a row.
use fastkit.Base.{
  ℕ, suc, ◌≡◌, inl, inr, Bool, true, false, Option, none, some, List, [], ◌∷◌, arith, if◌then◌else◌,
  Bool-cases, ◌+◌, refl, subst, ◌++◌, length, ap, ◌⊎◌, not, ◌≤◌,
}
use fastkit.Base.{subst}

-- A predicate on every row.
abbrev pub All {ℓ κ} : {A : Type ℓ} → (A → Type κ) → List A → Type κ
All P [] = Unit
All P (x ∷ xs) = P x × All P xs

module _ {ℓ} {A : Type ℓ} where
  -- `select … where p`, read as one row by `scalar`.
  abbrev pub find : (A → Bool) → List A → Option A
  find p [] = none
  find p (x ∷ xs) = if p x then some x else find p xs

  -- `update … where p values f`.
  abbrev pub update_where : (A → Bool) → (A → A) → List A → List A
  update_where p f [] = []
  update_where p f (x ∷ xs) = (if p x then f x else x) ∷ update_where p f xs

  -- `rowcount`: how many rows a statement reaches.
  abbrev pub count_where : (A → Bool) → List A → ℕ
  count_where p [] = 0
  count_where p (x ∷ xs) = if p x then suc (count_where p xs) else count_where p xs

  -- `select … where p`, every row of it.
  abbrev pub select : (A → Bool) → List A → List A
  select p [] = []
  select p (x ∷ xs) = if p x then x ∷ select p xs else select p xs

  -- `exists … where p`.
  abbrev pub exists : (A → Bool) → List A → Bool
  exists p xs = elim (find p xs) [ none ↦ false | some _ ↦ true ]

module _ {ℓ} {A : Type ℓ} where
  pub find-holds : (p : A → Bool) (xs : List A) {a : A} → find p xs ≡ some a → p a ≡ true
  find-holds p [] h = cc
  find-holds p (x ∷ xs) h = elim (Bool-cases (p x)) [
    | inl e ↦ ground arith
    | inr e ↦ find-holds p xs (ground arith)
  ]

  pub All-find {κ} :
      (P : A → Type κ) (p : A → Bool) (xs : List A) {a : A} → All P xs → find p xs ≡ some a → P a
  All-find P p [] h e = cc
  All-find P p (x ∷ xs) {a} h e = elim (Bool-cases (p x)) [
    | inl t ↦ let q : x ≡ a = ground arith in subst P q h.0
    | inr t ↦ let q : find p xs ≡ some a = ground arith in All-find P p xs h.1 q
  ]

  pub find-update_where :
      (p q : A → Bool) (f : A → A) (xs : List A) {a : A}
      → ((x : A) → p (f x) ≡ p x)
      → find p xs ≡ some a
      → find p (update_where q f xs) ≡ some (if q a then f a else a)
  find-update_where p q f [] keeps h = cc
  find-update_where p q f (x ∷ xs) {a} keeps h =
      ground (arith, keeps x, find-update_where p q f xs {a = a} keeps)

  -- A predicate that every row gets or keeps in a statement.
  pub All-update_where {κ} :
      (P Q : A → Type κ) (p : A → Bool) (f : A → A) (xs : List A)
      → ((x : A) → p x ≡ true → P x → Q (f x))
      → ((x : A) → p x ≡ false → P x → Q x)
      → All P xs
      → All Q (update_where p f xs)
  All-update_where P Q p f [] met missed all = tt
  All-update_where P Q p f (x ∷ xs) met missed all =
      let rest = All-update_where P Q p f xs met missed all.1 in
      elim (Bool-cases (p x)) [
        | inl e ↦ rw e (met x e all.0, rest)
        | inr e ↦ rw e (missed x e all.0, rest)
      ]

  pub All-every {κ} : (P : A → Type κ) (xs : List A) → ((x : A) → P x) → All P xs
  All-every P [] every = tt
  All-every P (x ∷ xs) every = (every x, All-every P xs every)

  pub exists_some : (p : A → Bool) (xs : List A) {a : A} → find p xs ≡ some a → exists p xs ≡ true
  exists_some p xs h = rw (h, exists)

  pub exists_none : (p : A → Bool) (xs : List A) → find p xs ≡ none → exists p xs ≡ false
  exists_none p xs h = rw (h, exists)

  -- A statement that reaches no row.
  pub update_where_missed :
      (p : A → Bool) (f : A → A) (xs : List A)
      → All (λ x. p x ≡ false) xs
      → update_where p f xs ≡ xs
  update_where_missed p f [] h = refl
  update_where_missed p f (x ∷ xs) h = rw (h.0, update_where_missed p f xs h.1) refl

  pub count_where_missed :
      (p : A → Bool) (xs : List A) → All (λ x. p x ≡ false) xs → count_where p xs ≡ 0
  count_where_missed p [] h = refl
  count_where_missed p (x ∷ xs) h = rw (h.0, count_where_missed p xs h.1) refl

  pub select_missed : (p : A → Bool) (xs : List A) → All (λ x. p x ≡ false) xs → select p xs ≡ []
  select_missed p [] h = refl
  select_missed p (x ∷ xs) h = rw (h.0, select_missed p xs h.1) refl

  pub select_met : (p : A → Bool) (xs : List A) → All (λ x. p x ≡ true) xs → select p xs ≡ xs
  select_met p [] h = refl
  select_met p (x ∷ xs) h = rw (h.0, select_met p xs h.1) refl

  -- A statement reaches the rows of two parts apart.
  pub update_where-append :
      (p : A → Bool) (f : A → A) (xs ys : List A)
      → update_where p f (xs ++ ys) ≡ update_where p f xs ++ update_where p f ys
  update_where-append p f [] ys = refl
  update_where-append p f (x ∷ xs) ys = rw (update_where-append p f xs ys) refl

  pub count_where-append :
      (p : A → Bool) (xs ys : List A)
      → count_where p (xs ++ ys) ≡ count_where p xs + count_where p ys
  count_where-append p [] ys = omega arith
  count_where-append p (x ∷ xs) ys = ground (arith, count_where-append p xs ys)

  pub select-append :
      (p : A → Bool) (xs ys : List A) → select p (xs ++ ys) ≡ select p xs ++ select p ys
  select-append p [] ys = refl
  select-append p (x ∷ xs) ys = ground (arith, select-append p xs ys)

  pub All-append {κ} : (P : A → Type κ) (xs ys : List A) → All P xs → All P ys → All P (xs ++ ys)
  All-append P [] ys h k = k
  All-append P (x ∷ xs) ys h k = (h.0, All-append P xs ys h.1 k)

  pub All-both {κ μ ν} :
      (P : A → Type κ) (Q : A → Type μ) (R : A → Type ν) (xs : List A)
      → ((x : A) → P x → Q x → R x)
      → All P xs
      → All Q xs
      → All R xs
  All-both P Q R [] f h k = tt
  All-both P Q R (x ∷ xs) f h k = (f x h.0 k.0, All-both P Q R xs f h.1 k.1)

  pub List-cases : (xs : List A) → (xs ≡ []) ⊎ ((x : A) × (rest : List A) × (xs ≡ x ∷ rest))
  List-cases [] = inl refl
  List-cases (x ∷ xs) = inr (x, xs, refl)

  -- The rows that a delete leaves, and those that it reaches.
  pub length-select :
      (p : A → Bool) (xs : List A)
      → length (select (λ x. not (p x)) xs) + count_where p xs ≡ length xs
  length-select p [] = omega arith
  length-select p (x ∷ xs) = elim (Bool-cases (p x)) [
    | inl e ↦ rw e (omega (arith, length-select p xs))
    | inr e ↦ rw e (omega (arith, length-select p xs))
  ]

  -- A condition that no row meets.
  pub select-none :
      (p : A → Bool) (xs : List A)
      → select p xs ≡ []
      → (count_where p xs ≡ 0) × (select (λ x. not (p x)) xs ≡ xs)
  select-none p [] h = (refl, refl)
  select-none p (x ∷ xs) h = elim (Bool-cases (p x)) [
    | inl e ↦ let bad : x ∷ select p xs ≡ [] = rw e at h in cc
    | inr e ↦
        let (none_met, same) = select-none p xs (rw e at h) in rw e (none_met, ap (λ l. x ∷ l) same)
  ]

-- A key, that one row at most has, and a condition that asks for the key.
module _ {ℓ} {A : Type ℓ} (q p : A → Bool) (within : (x : A) → p x ≡ true → q x ≡ true) where
  count_where-le : (xs : List A) → count_where p xs ≤ count_where q xs
  count_where-le [] = omega arith
  count_where-le (x ∷ xs) = ground (arith, within x, count_where-le xs)

  -- The row that the key finds is the one that the condition reaches.
  pub find-only :
      (xs : List A) {a : A}
      → count_where q xs ≡ 1
      → count_where p xs ≡ 1
      → find q xs ≡ some a
      → p a ≡ true
  find-only [] one hit h = cc
  find-only (x ∷ xs) {a} one hit h = elim (Bool-cases (q x)) [
    | inl e ↦
        let same : x ≡ a = let found : some x ≡ some a = rw e at h in cc in
        subst (λ y. p y ≡ true) same (ground (arith, count_where-le xs))
    | inr e ↦ ground (arith, within x, find-only xs {a = a})
  ]

  -- Once the condition took that row, nothing else that asks for the key and refuses what was taken
  -- finds a row.
  pub count_where-taken :
      (r : A → Bool) (f : A → A) (xs : List A)
      → ((x : A) → r x ≡ true → q x ≡ true)
      → ((x : A) → r (f x) ≡ false)
      → count_where q xs ≡ 1
      → count_where p xs ≡ 1
      → count_where r (update_where p f xs) ≡ 0
  count_where-taken r f [] asks refuses one hit = cc
  count_where-taken r f (x ∷ xs) asks refuses one hit = elim (Bool-cases (p x)) [
    | inl e ↦
        let rest : count_where q xs ≡ 0 = ground (arith, within x) in
        rw (e, refuses x) (taken_none xs rest)
    | inr e ↦ elim (Bool-cases (q x)) [
      | inl k ↦ absurd (ground (arith, count_where-le xs))
      | inr k ↦ ground (arith, asks x, count_where-taken r f xs asks refuses)
    ]
  ]
    where
      taken_none : (ys : List A) → count_where q ys ≡ 0 → count_where r (update_where p f ys) ≡ 0
      taken_none [] h = refl
      taken_none (y ∷ ys) h = ground (arith, within y, asks y, taken_none ys)
