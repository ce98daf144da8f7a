-- ===== src/Idempotency/Kept.antt =====
-- An answer is kept while other calls come in between.
use fastkit.Base.{
  ◌==◌, Bool-cases, Option-cases, ℕ, ◌≡◌, sym, ◌∙◌, inl, inr, true, false, ◌&&◌, Option, none, some,
  List, [], ◌∷◌, arith, subst, ap,
}
use fastkit.Base.Table.{find}
use fastkit.Base.Text.{Text, text_eq, text_eq_iff, text_eq_self}
use fastkit.Dates.{DateTime}
use fastkit.Errors.{Result, Result-cases, ok}
use fastkit.Idempotency.{is_named, once, run_unnamed, Desk}
use fastkit.Idempotency.Memo.{Memo, memo_once, memo_of, IsQuiet, once-Refines}
use fastkit.Idempotency.Replay.{Answered, once-Answered, once-Outcome, Outcome}

-- A call of some client: when, whose, under which key, at which endpoint, and its work.
pub record Call (W : Type 0) : Type 0 where
  pub at : DateTime
  pub user : ℕ
  pub key : Option Text
  pub endpoint : Text
  pub work : W → Result Text × W

module _ {W : Type 0} where
  abbrev pub play : List (Call W) → Desk W → Desk W
  play [] d = d
  play (c ∷ cs) d = play cs (once c.at c.user c.key c.endpoint c.work d).1

  -- A desk that nobody is writing at, and that keeps an answer.
  abbrev Holds : ℕ → Text → Text → Text → Desk W → Type 0
  Holds user key endpoint answer d = IsQuiet d × (memo_of d user key ≡ some (endpoint, answer))

  -- Whatever a call does, what the table of answers had it has.
  memo_once-keeps :
      (user u : ℕ) (key k endpoint : Text) (work : W → Result Text × W) (memo : Memo) (w : W)
      {e : Text × Text}
      → memo user key ≡ some e
      → (memo_once u k endpoint work (memo, w)).1 user key ≡ some e
  unfolding memo_once
  memo_once-keeps user u key k endpoint work memo w {e} h = elim (Option-cases (memo u k)) [
    | inr (old, p) ↦ rw (p, memo_once) h
    | inl new ↦ elim (Result-cases (work w).0) [
      | inl (f, r) ↦ rw (new, r, memo_once) h
      | inr (a, r) ↦ elim (Bool-cases (u == user && text_eq k key)) [
        | inr other ↦ rw (new, r, other, memo_once) h
        | inl same ↦
            let who : u ≡ user = ground arith in
            let what : k ≡ key = (text_eq_iff k key).0 (ground arith) in
            let bad : ◌≡◌ {A = Option (Text × Text)} none (some e) =
              sym new ∙ ap (λ i. memo i k) who ∙ ap (memo user) what ∙ h in
            cc
      ]
    ]
  ]

  unnamed_kept :
      (user : ℕ) (key endpoint answer : Text) (c : Call W) (d : Desk W)
      → Holds user key endpoint answer d
      → Holds user key endpoint answer (once c.at c.user none c.endpoint c.work d).1
  unfolding once run_unnamed
  unnamed_kept user key endpoint answer c d h = h

  blank_kept :
      (user : ℕ) (key k endpoint answer : Text) (c : Call W) (d : Desk W)
      → text_eq k [] ≡ true
      → Holds user key endpoint answer d
      → Holds user key endpoint answer (once c.at c.user (some k) c.endpoint c.work d).1
  unfolding once run_unnamed
  blank_kept user key k endpoint answer c d blank h = rw (blank, once) h

  once-Holds :
      (user : ℕ) (key endpoint answer : Text) (c : Call W) (d : Desk W)
      → Holds user key endpoint answer d
      → Holds user key endpoint answer (once c.at c.user c.key c.endpoint c.work d).1
  once-Holds user key endpoint answer c d h = by_key c.key
    where
      by_key :
          (k : Option Text)
          → Holds user key endpoint answer (once c.at c.user k c.endpoint c.work d).1
      by_key none = unnamed_kept user key endpoint answer c d h
      by_key (some k) = elim (Bool-cases (text_eq k [])) [
        | inl blank ↦ blank_kept user key k endpoint answer c d blank h
        | inr named ↦
            let (_, _, same, quiet) = once-Refines c.user k c.endpoint c.at c.work d named h.0 in
            (
              quiet,
              same user key
                  ∙ memo_once-keeps user c.user key k c.endpoint c.work (memo_of d) d.world h.1,
            )
      ]

  play-Holds :
      (user : ℕ) (key endpoint answer : Text) (cs : List (Call W)) (d : Desk W)
      → Holds user key endpoint answer d
      → Holds user key endpoint answer (play cs d)
  play-Holds user key endpoint answer [] d h = h
  play-Holds user key endpoint answer (c ∷ cs) d h =
      play-Holds user key endpoint answer cs (once c.at c.user c.key c.endpoint c.work d).1
        (once-Holds user key endpoint answer c d h)

  Answered-memo :
      (user : ℕ) (key endpoint answer : Text) (d : Desk W)
      → Answered user key endpoint answer d
      → memo_of d user key ≡ some (endpoint, answer)
  Answered-memo user key endpoint answer d (r, found, at, kept) =
      rw (found, kept, memo_of)
        (ap (λ e. some (e, answer)) ((text_eq_iff r.endpoint endpoint).0 at))

  memo-Answered :
      (user : ℕ) (key endpoint answer : Text) (d : Desk W)
      → memo_of d user key ≡ some (endpoint, answer)
      → Answered user key endpoint answer d
  memo-Answered user key endpoint answer d h =
      elim (Option-cases (find (is_named user key) d.requests)) [
        | inl new ↦
            let bad : ◌≡◌ {A = Option (Text × Text)} none (some (endpoint, answer)) =
              rw (new, memo_of) at h in
            cc
        | inr (r, found) ↦ elim (Option-cases r.answer) [
          | inl pending ↦
              let bad : ◌≡◌ {A = Option (Text × Text)} none (some (endpoint, answer)) =
                rw (found, pending, memo_of) at h in
              cc
          | inr (a, kept) ↦
              let both : ◌≡◌ {A = Option (Text × Text)} (some (r.endpoint, a))
                  (some (endpoint, answer)) =
                rw (found, kept, memo_of) at h in
              let pair : ◌≡◌ {A = Text × Text} (r.endpoint, a) (endpoint, answer) = cc in
              (
                r,
                found,
                rw (ap (λ p. p.0) pair) (text_eq_self endpoint),
                kept ∙ ap (λ p. some (p.1)) pair,
              )
        ]
      ]

-- A write that a client named and that succeeded answers the same thing every time it is sent
-- again, as long as its row is kept: after any number of other calls, of this client and of others,
-- a call by the same user with the same key and endpoint, whatever work it brings, answers what the
-- first answered, and runs and writes nothing. The key is not the empty text, and no call was under
-- way when the first came.
pub once_again :
    {W : Type 0} (now later : DateTime) (user : ℕ) (key endpoint : Text)
    (work other_work : W → Result Text × W) (cs : List (Call W)) (d : Desk W) {answer : Text}
    {d' : Desk W}
    → text_eq key [] ≡ false
    → IsQuiet d
    → once now user (some key) endpoint work d ≡ (ok answer, d')
    → once later user (some key) endpoint other_work (play cs d') ≡ (ok answer, play cs d')
once_again now later user key endpoint work other_work cs d {answer} {d'} named quiet h =
    let answered =
      subst (Outcome user key endpoint) h (once-Outcome user key endpoint now work d named) in
    let (_, _, _, quiet') = once-Refines user key endpoint now work d named quiet in
    let calm : IsQuiet d' = subst (λ p. IsQuiet p.1) h quiet' in
    let held =
      play-Holds user key endpoint answer cs d'
        (calm, Answered-memo user key endpoint answer d' answered) in
    once-Answered user key endpoint later other_work answer (play cs d') named
      (memo-Answered user key endpoint answer (play cs d') held.1)
