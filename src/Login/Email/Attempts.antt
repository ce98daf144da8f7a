-- ===== src/Login/Email/Attempts.antt =====
-- How often a code may be tried, and that it opens the door once.
use fastkit.Login.Email.Request.{cannot_wait, may_renew, renewed, request}
use fastkit.Errors.{
  missing_row, sign_in_code_invalid, authentication_method_disabled, raise, Result, ok,
}
use fastkit.Base.{
  ◌==◌, Bool-cases, Option-cases, ℕ, ◌≤◌, ◌≡◌, refl, inl, inr, Bool, Option, List, arith, ==_iff,
  sym, ap, ◌∙◌, true,
}
use fastkit.Base.Table.{
  All, find, update_where, count_where, exists, All-update_where, count_where-taken,
}
use fastkit.Base.Text.{Text, text_eq}
use fastkit.Dates.{DateTime}
use fastkit.Login.{is_admin, User, Surface}
use fastkit.Login.Email.{
  answers_code, misses_code, consumed, tried, by_email, is_taken, let_in, enter_by_code, confirm,
  EmailLoginChallenge, Post, EmailSettings, of_scope, Drawn,
}

-- No challenge was tried more often than the settings allow.
abbrev pub Bounded : EmailSettings → List EmailLoginChallenge → Type 0
Bounded s = All (λ c. c.attempts ≤ s.max_attempts)

let_in-challenges :
    (now : DateTime) (cross : List User → List User) (tenant : Option ℕ) (surface : Surface)
    (u : User) (p : Post)
    → (let_in now cross tenant surface u p).1.challenges ≡ p.challenges
unfolding let_in
let_in-challenges now cross tenant surface u p = refl

enter_by_code-challenges :
    (now : DateTime) (cross : List User → List User) (tenant : Option ℕ) (surface : Surface)
    (c : EmailLoginChallenge) (p : Post)
    → (enter_by_code now cross tenant surface c p).1.challenges ≡ p.challenges
unfolding enter_by_code
enter_by_code-challenges now cross tenant surface c p =
    elim (Option-cases (by_email tenant c.email surface p.doors.users)) [
      | inr (u, e) ↦ rw (e, enter_by_code) (let_in-challenges now cross tenant surface u p)
      | inl e ↦ elim (Bool-cases (is_admin surface)) [
        | inl panel ↦ simp (e, panel, enter_by_code) refl
        | inr public ↦ elim (Bool-cases (exists (is_taken tenant c.email) p.doors.users)) [
          | inl taken ↦ simp (e, public, taken, enter_by_code) refl
          | inr free ↦ simp (e, public, free, enter_by_code) refl
        ]
      ]
    ]

module _ (s : EmailSettings) (now : DateTime) (cross : List User → List User) (tenant : Option ℕ)
    (token code : Text) (surface : Surface) (p : Post) where
  abbrev right : EmailLoginChallenge → Bool
  right = answers_code s now tenant token code surface

  abbrev spent : Post
  spent = record p { challenges = update_where right (consumed now) p.challenges }

  abbrev wrong : Post
  wrong = record p {
    challenges = update_where (misses_code s now tenant token code surface) tried spent.challenges;
  }

  spent-Bounded : Bounded s p.challenges → Bounded s spent.challenges
  spent-Bounded h =
      All-update_where (λ c. c.attempts ≤ s.max_attempts) (λ c. c.attempts ≤ s.max_attempts) right
        (consumed now) p.challenges (λ c _ k. k) (λ c _ k. k) h

  wrong-Bounded : Bounded s p.challenges → Bounded s wrong.challenges
  wrong-Bounded h =
      All-update_where (λ c. c.attempts ≤ s.max_attempts) (λ c. c.attempts ≤ s.max_attempts)
        (misses_code s now tenant token code surface) tried spent.challenges
        (λ c missed k. ground arith) (λ c _ k. k) (spent-Bounded h)

  confirm-Bounded :
      Bounded s p.challenges
      → Bounded s (confirm s now cross tenant token code surface p).1.challenges
  unfolding confirm
  confirm-Bounded h = elim (Bool-cases (s.offered surface)) [
    | inr closed ↦ simp (closed, confirm) h
    | inl offers ↦ elim (Bool-cases (count_where right p.challenges == 1)) [
      | inr missed ↦ simp (offers, missed, confirm) (wrong-Bounded h)
      | inl hit ↦ elim (Option-cases (find (λ c. text_eq c.token token) spent.challenges)) [
        | inl gone ↦ simp (offers, hit, gone, confirm) (spent-Bounded h)
        | inr (c, e) ↦
            simp (offers, hit, e, confirm)
              (rw (enter_by_code-challenges now cross tenant surface c spent) (spent-Bounded h))
      ]
    ]
  ]

request-Bounded :
    (s : EmailSettings) (now : DateTime) (new : Drawn) (tenant : Option ℕ) (scope : Text)
    (surface : Surface) (address : Text) (p : Post)
    → Bounded s p.challenges
    → Bounded s (request s now new tenant scope surface address p).1.challenges
unfolding request
request-Bounded s now new tenant scope surface address p h = elim (Bool-cases (s.offered surface)) [
  | inr closed ↦ simp (closed, request) h
  | inl offers ↦ elim (Option-cases (find (of_scope scope) p.challenges)) [
    | inl none_yet ↦ simp (offers, none_yet, request) (omega arith, h)
    | inr (c, e) ↦
        let claimed = may_renew now c in
        let renewed_all : Bounded s (update_where claimed (renewed s now new) p.challenges) =
          All-update_where (λ c. c.attempts ≤ s.max_attempts) (λ c. c.attempts ≤ s.max_attempts)
            claimed (renewed s now new) p.challenges (λ c _ k. omega arith) (λ c _ k. k) h in
        elim (Bool-cases (count_where claimed p.challenges == 1)) [
          | inl hit ↦ simp (offers, e, hit, request) renewed_all
          | inr early ↦ elim (Bool-cases (cannot_wait s now c)) [
            | inl over ↦ simp (offers, e, early, over, request) renewed_all
            | inr running ↦ simp (offers, e, early, running, request) renewed_all
          ]
        ]
  ]
]

-- What the calls of anybody, in any order and at any moments, make of the post.
pub data Calls (s : EmailSettings) : Post → Post → Type 0 where
  none_made : {p : Post} → Calls s p p
  then_request :
      {p q : Post} (now : DateTime) (new : Drawn) (tenant : Option ℕ) (scope : Text)
      (surface : Surface) (address : Text)
      → Calls s p q
      → Calls s p (request s now new tenant scope surface address q).1
  then_confirm :
      {p q : Post} (now : DateTime) (cross : List User → List User) (tenant : Option ℕ)
      (token code : Text) (surface : Surface)
      → Calls s p q
      → Calls s p (confirm s now cross tenant token code surface q).1

-- Whatever requests and confirmations follow one another, no challenge is tried more often than the
-- settings allow, where none was before them.
Calls-Bounded :
    (s : EmailSettings) {p q : Post} → Calls s p q → Bounded s p.challenges → Bounded s q.challenges
Calls-Bounded s none_made h = h
Calls-Bounded s (then_request {q} now new tenant scope surface address before_it) h =
    request-Bounded s now new tenant scope surface address q (Calls-Bounded s before_it h)
Calls-Bounded s (then_confirm {q} now cross tenant token code surface before_it) h =
    confirm-Bounded s now cross tenant token code surface q (Calls-Bounded s before_it h)

pub answers_code-token :
    (s : EmailSettings) (now : DateTime) (tenant : Option ℕ) (token code : Text) (surface : Surface)
    (c : EmailLoginChallenge)
    → answers_code s now tenant token code surface c ≡ true
    → text_eq c.token token ≡ true
answers_code-token s now tenant token code surface c h = ground arith

confirm-ok :
    (s : EmailSettings) (now : DateTime) (cross : List User → List User) (tenant : Option ℕ)
    (token code : Text) (surface : Surface) (p : Post) {u : User} {p' : Post}
    → confirm s now cross tenant token code surface p ≡ (ok u, p')
    → (count_where (answers_code s now tenant token code surface) p.challenges ≡ 1)
      × (p'.challenges
          ≡ update_where (answers_code s now tenant token code surface) (consumed now) p.challenges)
unfolding confirm
confirm-ok s now cross tenant token code surface p {u} {p'} h =
    elim (Bool-cases (s.offered surface)) [
      | inr closed ↦
          let bad : ◌≡◌ {A = Result User × Post} (raise authentication_method_disabled, p)
              (ok u, p') =
            simp (closed, confirm) at h in
          absurd (cc)
      | inl offers ↦
          let right_one = answers_code s now tenant token code surface in
          let spent_all = record p {
            challenges = update_where right_one (consumed now) p.challenges;
          } in
          let wrong_all = record spent_all {
            challenges =
                update_where (misses_code s now tenant token code surface) tried
                  spent_all.challenges;
          } in
          elim (Bool-cases (count_where right_one p.challenges == 1)) [
            | inr missed ↦
                let bad : ◌≡◌ {A = Result User × Post} (raise sign_in_code_invalid, wrong_all)
                    (ok u, p') =
                  simp (offers, missed, confirm) at h in
                absurd (cc)
            | inl hit ↦
                elim (Option-cases (find (λ c. text_eq c.token token) spent_all.challenges)) [
                  | inl gone ↦
                      let bad : ◌≡◌ {A = Result User × Post} (raise missing_row, spent_all)
                          (ok u, p') =
                        simp (offers, hit, gone, confirm) at h in
                      absurd (cc)
                  | inr (c, e) ↦
                      let good : enter_by_code now cross tenant surface c spent_all ≡ (ok u, p') =
                        simp (offers, hit, e, confirm) at h in
                      (
                        (==_iff (count_where right_one p.challenges) 1).0 hit,
                        sym (ap (λ r. r.1.challenges) good)
                            ∙ enter_by_code-challenges now cross tenant surface c spent_all,
                      )
                ]
          ]
    ]

-- A code that let somebody in lets nobody in again: the same token is refused with any code, at any
-- time, on any surface and for any tenant, whatever became of the accounts, where the email method
-- is still offered. A token is the key of one challenge.
pub confirm_once :
    (s : EmailSettings) (now later : DateTime) (cross cross' : List User → List User)
    (tenant tenant' : Option ℕ) (token code code' : Text) (surface surface' : Surface) (p q : Post)
    {u : User} {p' : Post}
    → count_where (λ c. text_eq c.token token) p.challenges ≡ 1
    → confirm s now cross tenant token code surface p ≡ (ok u, p')
    → q.challenges ≡ p'.challenges
    → s.offered surface' ≡ true
    → (confirm s later cross' tenant' token code' surface' q).0 ≡ raise sign_in_code_invalid
unfolding confirm
confirm_once s now later cross cross' tenant tenant' token code code' surface surface' p q {u} {p'}
      one h same offers =
    let (hit, left) = confirm-ok s now cross tenant token code surface p h in
    let again = answers_code s later tenant' token code' surface' in
    let none_left =
      count_where-taken (λ c. text_eq c.token token) (answers_code s now tenant token code surface)
        (answers_code-token s now tenant token code surface) again (consumed now) p.challenges
        (answers_code-token s later tenant' token code' surface') (λ c. ground arith) one hit in
    let nothing : count_where again q.challenges ≡ 0 = rw (same ∙ left) none_left in
    simp (offers, nothing, confirm) refl
