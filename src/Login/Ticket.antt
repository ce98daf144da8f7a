-- ===== src/Login/Ticket.antt =====
-- Whom a ticket lets in, and that it does so once.
use fastkit.Scope.{belongs_to_tenant}
use fastkit.Base.Text.{Text, text_eq_iff}
use fastkit.Dates.{DateTime, stamp}
use fastkit.Base.{
  ◌==◌, ==_iff, Bool-cases, Option-cases, ℕ, ◌≡◌, inl, inr, true, Option, none, arith, ap, ◌∙◌,
  List, refl, some, ◌<◌,
}
use fastkit.Base.Table.{find, update_where, count_where, find-only, count_where-taken}
use fastkit.Errors.{ok, raise, social_attempt_invalid, Result}
use fastkit.Login.{
  User, Doors, admin, enter_by, LoginTicket, of_token, is_redeemable, spent_at, redeem, is_unspent,
}
use fastkit.Login.Entering.{Admitted, enter_by-Entered}

redeemable-of_token :
    (now : DateTime) (tenant : Option ℕ) (token browser : Text) (t : LoginTicket)
    → is_redeemable now tenant token browser t ≡ true
    → of_token token t ≡ true
redeemable-of_token now tenant token browser t h = ground arith

-- The ticket that let somebody in: made for that tenant, that browser and that account on its
-- session, not over and not spent.
abbrev pub Opens : DateTime → Option ℕ → Text → User → LoginTicket → Type 0
Opens now tenant browser u t =
    (t.tenant_id ≡ tenant)
    × (t.browser_digest ≡ browser)
    × (stamp now < stamp t.expires_at)
    × (t.consumed_at ≡ none)
    × (u.id ≡ t.user_id)
    × (u.session_epoch ≡ t.session_epoch)

belongs_to_tenant-eq : (a b : Option ℕ) → belongs_to_tenant a b ≡ true → a ≡ b
belongs_to_tenant-eq none none h = refl
belongs_to_tenant-eq none (some b) h = cc
belongs_to_tenant-eq (some a) none h = cc
belongs_to_tenant-eq (some a) (some b) h = ap some ((==_iff a b).0 h)

is_unspent-none : (d : Option DateTime) → is_unspent d ≡ true → d ≡ none
is_unspent-none none h = refl
is_unspent-none (some d) h = cc

is_redeemable-Opens :
    (now : DateTime) (tenant : Option ℕ) (token browser : Text) (u : User) (t : LoginTicket)
    → is_redeemable now tenant token browser t ≡ true
    → u.id ≡ t.user_id
    → u.session_epoch ≡ t.session_epoch
    → Opens now tenant browser u t
is_redeemable-Opens now tenant token browser u t h own session = (
  belongs_to_tenant-eq t.tenant_id tenant (ground arith),
  (text_eq_iff t.browser_digest browser).0 (ground arith),
  ground arith,
  is_unspent-none t.consumed_at (ground arith),
  own,
  session,
)

-- The row of the ticket and what is left of the tickets.
redeem-ok :
    (now : DateTime) (cross : List User → List User) (tenant : Option ℕ) (token browser : Text)
    (d : Doors) {u : User} {d' : Doors}
    → count_where (of_token token) d.tickets ≡ 1
    → redeem now cross tenant token browser d ≡ (ok u, d')
    → (t : LoginTicket) × (find (of_token token) d.tickets ≡ some t)
      × Opens now tenant browser u t
      × Admitted tenant admin u
      × (count_where (is_redeemable now tenant token browser) d.tickets ≡ 1)
      × (d'.tickets
          ≡ update_where (is_redeemable now tenant token browser) (spent_at now) d.tickets)
unfolding redeem
redeem-ok now cross tenant token browser d {u} {d'} one h =
    elim (Option-cases (find (of_token token) d.tickets)) [
      | inl gone ↦
          let bad : ◌≡◌ {A = Result User × Doors} (raise social_attempt_invalid, d) (ok u, d') =
            rw (gone, redeem) at h in
          absurd (cc)
      | inr (t, here) ↦
          let p = is_redeemable now tenant token browser in
          let written = record d { tickets = update_where p (spent_at now) d.tickets } in
          elim (Bool-cases (count_where p d.tickets == 1)) [
            | inr lost ↦
                let bad : ◌≡◌ {A = Result User × Doors} (raise social_attempt_invalid, written)
                    (ok u, d') =
                  simp (here, lost, redeem) at h in
                absurd (cc)
            | inl won ↦
                let good : enter_by now cross t tenant written ≡ (ok u, d') =
                  simp (here, won, redeem) at h in
                let (own, session, admitted, kept) =
                  enter_by-Entered now cross t tenant written good in
                let hit = (==_iff (count_where p d.tickets) 1).0 won in
                (
                  t,
                  here,
                  is_redeemable-Opens now tenant token browser u t
                      (find-only (of_token token) p (redeemable-of_token now tenant token browser)
                        d.tickets one hit here)
                      own session,
                  admitted,
                  hit,
                  kept,
                )
          ]
    ]

-- Whoever a ticket lets in is the account that it was made for, on the session that it was made on,
-- active, of the panel, and of that tenant or of none; and the ticket was made for the very tenant
-- and browser that redeem it, was not over and had not been spent, whatever others wrote to the
-- accounts meanwhile. A token is the key of one ticket.
pub redeem-Opens :
    (now : DateTime) (cross : List User → List User) (tenant : Option ℕ) (token browser : Text)
    (d : Doors) {u : User} {d' : Doors}
    → count_where (of_token token) d.tickets ≡ 1
    → redeem now cross tenant token browser d ≡ (ok u, d')
    → ((t : LoginTicket) × (find (of_token token) d.tickets ≡ some t)
        × Opens now tenant browser u t)
      × Admitted tenant admin u
redeem-Opens now cross tenant token browser d one h =
    let (t, here, opens, admitted, _, _) = redeem-ok now cross tenant token browser d one h in
    ((t, here, opens), admitted)

-- A ticket that let somebody in lets nobody in again: with the same token, at any time, from any
-- browser, for any tenant and whatever became of the accounts, a redemption is refused. A token is
-- the key of one ticket.
pub redeem_once :
    (now later : DateTime) (cross cross' : List User → List User) (tenant tenant' : Option ℕ)
    (token browser browser' : Text) (d e : Doors) {u : User} {d' : Doors}
    → count_where (of_token token) d.tickets ≡ 1
    → redeem now cross tenant token browser d ≡ (ok u, d')
    → e.tickets ≡ d'.tickets
    → (redeem later cross' tenant' token browser' e).0 ≡ raise social_attempt_invalid
unfolding redeem
redeem_once now later cross cross' tenant tenant' token browser browser' d e {u} {d'} one h same =
    let (_, _, _, _, hit, left) = redeem-ok now cross tenant token browser d one h in
    let p' = is_redeemable later tenant' token browser' in
    let none_left =
      count_where-taken (of_token token) (is_redeemable now tenant token browser)
        (redeemable-of_token now tenant token browser) p' (spent_at now) d.tickets
        (redeemable-of_token later tenant' token browser') (λ t. ground arith) one hit in
    let nothing : count_where p' e.tickets ≡ 0 = rw (same ∙ left) none_left in
    elim (Option-cases (find (of_token token) e.tickets)) [
      | inl gone ↦ rw (gone, redeem) refl
      | inr (t, here) ↦ simp (here, nothing, redeem) refl
    ]
