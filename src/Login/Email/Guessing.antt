-- ===== src/Login/Email/Guessing.antt =====
-- Wrong codes spend the right one.
use fastkit.Scope.{belongs_to_tenant}
use fastkit.Login.Email.Attempts.{answers_code-token}
use fastkit.Base.{
  ◌==◌, ==_iff, Bool-cases, ℕ, ◌≤◌, ◌≡◌, refl, sym, ◌∙◌, inl, inr, Bool, true, false, Option, some,
  List, [], ◌∷◌, arith, ltb, if◌then◌else◌, length, suc, ◌+◌, min, none,
}
use fastkit.Base.Table.{
  find, update_where, count_where, find-only, All, find-holds, find-update_where,
}
use fastkit.Base.Text.{Text, text_eq}
use fastkit.Dates.{DateTime, before}
use fastkit.Errors.{sign_in_code_invalid, raise}
use fastkit.Login.{User, Surface}
use fastkit.Login.Email.{
  answers_code, tried, confirm, EmailLoginChallenge, Post, EmailSettings, same_surface, misses_code,
  consumed,
}

-- A code that somebody tries at a moment.
pub record Guess : Type 0 where
  pub now : DateTime
  pub code : Text

module _ (s : EmailSettings) (cross : List User → List User) (tenant : Option ℕ) (token : Text)
    (surface : Surface) where
  abbrev by_token : EmailLoginChallenge → Bool
  by_token c = text_eq c.token token

  -- The guesses, one after the other.
  abbrev pub guess_all : List Guess → Post → Post
  guess_all [] p = p
  guess_all (g ∷ gs) p = guess_all gs (confirm s g.now cross tenant token g.code surface p).1

  count_where-same :
      (p : EmailLoginChallenge → Bool) (f : EmailLoginChallenge → EmailLoginChallenge)
      (rows : List EmailLoginChallenge)
      → ((c : EmailLoginChallenge) → by_token (f c) ≡ by_token c)
      → count_where by_token (update_where p f rows) ≡ count_where by_token rows
  count_where-same p f [] keeps = refl
  count_where-same p f (c ∷ rows) keeps = ground (arith, keeps c, count_where-same p f rows keeps)

  -- A code that the one challenge does not answer to is not claimed.
  not_claimed :
      (now : DateTime) (code : Text) (p : Post) (c : EmailLoginChallenge)
      → find by_token p.challenges ≡ some c
      → count_where by_token p.challenges ≡ 1
      → answers_code s now tenant token code surface c ≡ false
      → (count_where (answers_code s now tenant token code surface) p.challenges == 1) ≡ false
  not_claimed now code p c here only missed =
      elim (Bool-cases
        (count_where (answers_code s now tenant token code surface) p.challenges == 1)) [
          | inr e ↦ e
          | inl e ↦
              let one =
                (==_iff (count_where (answers_code s now tenant token code surface) p.challenges)
                    1).0
                  e in
              let hit =
                find-only by_token (answers_code s now tenant token code surface)
                  (answers_code-token s now tenant token code surface) p.challenges only one here in
              let bad : true ≡ false = sym hit ∙ missed in cc
        ]

module _ (s : EmailSettings) (cross : List User → List User) (tenant : Option ℕ) (token : Text)
    (surface : Surface) (c : EmailLoginChallenge) where
  abbrev after_tries : ℕ → EmailLoginChallenge
  after_tries k = record c { attempts = k }

  -- The one challenge of the token was tried so often, and is the same in all else.
  abbrev pub Stands : ℕ → Post → Type 0
  Stands k p =
      (find (λ x. text_eq x.token token) p.challenges ≡ some (record c { attempts = k }))
      × (count_where (λ x. text_eq x.token token) p.challenges ≡ 1)

  -- A guess that comes in time, on the surface and for the tenant of the challenge, and is wrong.
  abbrev pub IsWrong : Guess → Type 0
  IsWrong g =
      (belongs_to_tenant c.tenant_id tenant ≡ true)
      × (same_surface c.surface surface ≡ true)
      × (c.consumed_at ≡ none)
      × (before g.now c.expires_at ≡ true)
      × (text_eq c.code_digest (s.digest token g.code) ≡ false)

  abbrev one_more : ℕ → ℕ
  one_more k = if ltb k s.max_attempts then suc k else k

  confirm-Stands :
      (g : Guess) (k : ℕ) (p : Post)
      → s.offered surface ≡ true
      → IsWrong g
      → Stands k p
      → Stands (one_more k) (confirm s g.now cross tenant token g.code surface p).1
  unfolding confirm
  confirm-Stands g k p offers (own, same, unspent, in_time, wrong_code) (here, only) =
      let right_one = answers_code s g.now tenant token g.code surface in
      let wrong_one = misses_code s g.now tenant token g.code surface in
      let by_tok = λ (x : EmailLoginChallenge). text_eq x.token token in
      let tokened = find-holds by_tok p.challenges here in
      let missed : right_one (after_tries k) ≡ false = ground arith in
      let not_one =
        not_claimed s cross tenant token surface g.now g.code p (after_tries k) here only missed in
      let spent_rows = update_where right_one (consumed g.now) p.challenges in
      let first : find by_tok spent_rows ≡ some (after_tries k) =
        rw missed at
          (find-update_where by_tok right_one (consumed g.now) p.challenges (λ x. refl) here) in
      let second = find-update_where by_tok wrong_one tried spent_rows (λ x. refl) first in
      let counted =
        count_where-same s cross tenant token surface wrong_one tried spent_rows (λ x. refl)
        ∙ count_where-same s cross tenant token surface right_one (consumed g.now) p.challenges
            (λ x. refl)
        ∙ only in
      let seen : find by_tok (update_where wrong_one tried spent_rows)
          ≡ some (after_tries (one_more k)) =
        elim (Bool-cases (ltb k s.max_attempts)) [
          | inl few ↦
              let hit : wrong_one (after_tries k) ≡ true =
                rw (tokened, own, same, unspent, in_time, few, wrong_code) refl in
              rw few (rw hit at second)
          | inr many ↦
              let out : wrong_one (after_tries k) ≡ false = ground arith in
              rw many (rw out at second)
        ] in
      simp (offers, not_one, confirm) (seen, counted)

  guess_all-Stands :
      (gs : List Guess) (k : ℕ) (p : Post)
      → s.offered surface ≡ true
      → All IsWrong gs
      → Stands k p
      → (n : ℕ) × Stands n (guess_all s cross tenant token surface gs p)
        × (min s.max_attempts (k + length gs) ≤ n)
  guess_all-Stands [] k p offers wrong_all h = (k, h, omega arith)
  guess_all-Stands (g ∷ gs) k p offers (wrong_one, wrong_all) h =
      let (n, stands, le) =
        guess_all-Stands gs (one_more k) (confirm s g.now cross tenant token g.code surface p).1
          offers wrong_all (confirm-Stands g k p offers wrong_one h) in
      (n, stands, ground arith)

  -- Once as many wrong codes have come in time as a challenge may be tried, no code is taken any
  -- more, the right one included, at any time. The surface offers the email method, and a token is
  -- the key of one challenge.
  pub guess_all_refused :
      (gs : List Guess) (p : Post) (last : Guess)
      → s.offered surface ≡ true
      → All IsWrong gs
      → Stands c.attempts p
      → s.max_attempts ≤ length gs
      → (confirm s last.now cross tenant token last.code surface
          (guess_all s cross tenant token surface gs p)).0
        ≡ raise sign_in_code_invalid
  unfolding confirm
  guess_all_refused gs p last offers wrong_all h enough =
      let (n, (here, only), le) = guess_all-Stands gs c.attempts p offers wrong_all h in
      let over : answers_code s last.now tenant token last.code surface (after_tries n) ≡ false =
        ground arith in
      let not_one =
        not_claimed s cross tenant token surface last.now last.code
          (guess_all s cross tenant token surface gs p) (after_tries n) here only over in
      simp (offers, not_one, confirm) refl
