-- ===== src/Reconciliation/Window.antt =====
-- `claim_window`: an account is asked about once in a while, whoever asks.
use fastkit.Base.{◌==◌, ℕ, ◌*◌, ◌≡◌, Bool, true, false, ◌&&◌, Option, none, some, List, arith}
use fastkit.Base.Table.{update_where, count_where}
use fastkit.Dates.{add_time, before, DateTime}

-- The column of an account that the window reads.
pub record Account : Type 0 where
  pub id : ℕ
  pub reconciled_at : Option DateTime

-- `COOLDOWN`
abbrev pub cooldown : ℕ
cooldown = 10 * 1000000

abbrev pub is_cold : DateTime → ℕ → Account → Bool
is_cold now id a =
    a.id == id
    && elim a.reconciled_at [ none ↦ true | some asked ↦ before (add_time cooldown asked) now ]

abbrev pub asked_now : DateTime → Account → Account
asked_now now a = record a { reconciled_at = some now }

unfoldable pub claim_window : DateTime → ℕ → List Account → Bool × List Account
claim_window now id accounts = (
  count_where (is_cold now id) accounts == 1,
  update_where (is_cold now id) (asked_now now) accounts,
)

-- Right after an account was asked about, nobody is let through to ask again.
asked_is_warm :
    (now later : DateTime) (id : ℕ) (a : Account)
    → before (add_time cooldown now) later ≡ false
    → is_cold later id (asked_now now a) ≡ false
asked_is_warm now later id a soon = ground (arith, soon)
