-- ===== src/Login.antt =====
-- helpers/authentication_helper.py, services/login_ticket_service.py and
-- services/email_login_service.py: who may sign in where, the ticket that a browser is handed and
-- redeems once, and the code that is sent by email and may be tried a few times. The digest is a
-- keyed hash of the platform and the token of a ticket or a challenge is drawn at random, so both
-- are arguments. An account with no address has the empty one.
use fastkit.Scope.{is_global, belongs_to_tenant, reaches_tenant}
use fastkit.Base.{
  ◌==◌, if◌then◌else◌, ℕ, Bool, true, false, ◌&&◌, ◌||◌, not, Option, none, some, List, ◌∷◌, ◌∙◌,
}
use fastkit.Base.Table.{find, update_where, count_where}
use fastkit.Base.Text.{Text, text_eq}
use fastkit.Dates.{add_time, before, DateTime}
use fastkit.Errors.{
  Fault, social_attempt_invalid, invalid_credentials, account_blocked, panel_not_allowed,
  account_of_another_brand, missing_row, Result, ok, raise,
}
pub mod Email
pub mod Entering
pub mod Ticket
mod Tests

pub data Surface : Type 0 where
  site admin : Surface

pub data UserRole : Type 0 where
  normal editor administrator : UserRole

pub data UserStatus : Type 0 where
  pending active blocked erased : UserStatus

pub record User : Type 0 where
  pub id : ℕ
  pub tenant_id : Option ℕ
  pub email : Text
  pub username : Option Text
  pub role : UserRole
  pub status : UserStatus
  pub session_epoch : ℕ
  pub last_login_at : Option DateTime
  pub failed_sign_ins : ℕ

pub record LoginTicket : Type 0 where
  pub tenant_id : Option ℕ
  pub user_id : ℕ
  pub session_epoch : ℕ
  pub token_digest : Text
  pub browser_digest : Text
  pub expires_at : DateTime
  pub consumed_at : Option DateTime

pub record Doors : Type 0 where
  pub users : List User
  pub tickets : List LoginTicket

abbrev pub is_active : UserStatus → Bool
is_active active = true
is_active _ = false

abbrev pub is_blocked : UserStatus → Bool
is_blocked blocked = true
is_blocked _ = false

-- `user.role in PANEL_ROLES`
abbrev pub works_in_panel : UserRole → Bool
works_in_panel normal = false
works_in_panel _ = true

abbrev pub is_admin : Surface → Bool
is_admin admin = true
is_admin site = false

-- `scope`
unfoldable pub in_scope : Option ℕ → Surface → User → Bool
in_scope tenant admin u = reaches_tenant u.tenant_id tenant
in_scope tenant site u = belongs_to_tenant u.tenant_id tenant

-- `ensure_access`, of an account that is there
unfoldable pub ensure_access : User → Surface → Option Fault
ensure_access u surface =
    if not (is_active u.status)
    then (if is_blocked u.status then some account_blocked else some invalid_credentials)
    else if is_admin surface && not (works_in_panel u.role)
    then some panel_not_allowed
    else none

-- `ensure_scope`
unfoldable pub ensure_scope : User → Option ℕ → Surface → Option Fault
ensure_scope u tenant surface =
    if is_admin surface && is_global u.tenant_id
    then none
    else if belongs_to_tenant u.tenant_id tenant
    then none
    else some account_of_another_brand

-- Both, in their order, as `signed_in` asks twice.
unfoldable pub ensure_entry : User → Option ℕ → Surface → Option Fault
unfolding ensure_access ensure_scope
ensure_entry u tenant surface = elim (ensure_access u surface) [
  | some f ↦ some f
  | none ↦ ensure_scope u tenant surface
]

abbrev pub with_id : ℕ → User → Bool
with_id id u = u.id == id

abbrev pub may_enter : User → Option ℕ → Surface → User → Bool
may_enter read tenant surface u =
    u.id == read.id
    && (is_active u.status && (u.session_epoch == read.session_epoch && in_scope tenant surface u))

abbrev pub entered : DateTime → User → User
entered now u = record u { last_login_at = some now; failed_sign_ins = 0 }

-- The account as it is read back, with the checks made again.
unfoldable pub read_back : ℕ → User → Option ℕ → Surface → Doors → Result User
unfolding ensure_entry
read_back id read tenant surface d = elim (find (with_id id) d.users) [
  | none ↦ raise missing_row
  | some u ↦ elim (ensure_entry u tenant surface) [
    | some f ↦ raise f
    | none ↦ if u.session_epoch == read.session_epoch then ok u else raise invalid_credentials
  ]
]

-- `signed_in`, of the account that the caller read; `cross` is what others commit to the accounts
-- in the meantime.
unfoldable pub signed_in :
    DateTime → (List User → List User) → User → Option ℕ → Surface → Doors → Result User × Doors
unfolding read_back ensure_entry in_scope
signed_in now cross read tenant surface d = elim (ensure_entry read tenant surface) [
  | some f ↦ (raise f, d)
  | none ↦
      let met = record d { users = cross d.users } in
      let written = record met {
        users = update_where (may_enter read tenant surface) (entered now) met.users;
      } in
      if count_where (may_enter read tenant surface) met.users == 1
      then (read_back read.id read tenant surface written, written)
      else (raise invalid_credentials, written)
]

-- The ticket of a token, by what is kept of it.
abbrev pub of_token : Text → LoginTicket → Bool
of_token digest t = text_eq t.token_digest digest

abbrev pub is_unspent : Option DateTime → Bool
is_unspent none = true
is_unspent (some d) = false

-- What `redeem` asks of the row that it spends.
abbrev pub is_redeemable : DateTime → Option ℕ → Text → Text → LoginTicket → Bool
is_redeemable now tenant token browser t =
    belongs_to_tenant t.tenant_id tenant
    && (of_token token t
        && (text_eq t.browser_digest browser
            && (before now t.expires_at && is_unspent t.consumed_at)))

abbrev pub spent_at : DateTime → LoginTicket → LoginTicket
spent_at now t = record t { consumed_at = some now }

-- `create`, with the digests of the token that is drawn and of the browser.
unfoldable pub create_ticket : DateTime → ℕ → Option ℕ → User → Text → Text → Doors → Doors
create_ticket now ttl tenant u token browser d =
    let t : LoginTicket = record {
      tenant_id = tenant;
      user_id = u.id;
      session_epoch = u.session_epoch;
      token_digest = token;
      browser_digest = browser;
      expires_at = add_time ttl now;
      consumed_at = none;
    } in
    record d { tickets = t ∷ d.tickets }

-- The account of a spent ticket, still on the session the ticket was made for.
unfoldable pub enter_by :
    DateTime → (List User → List User) → LoginTicket → Option ℕ → Doors → Result User × Doors
unfolding signed_in
enter_by now cross t tenant d = elim (find (with_id t.user_id) d.users) [
  | none ↦ (raise social_attempt_invalid, d)
  | some u ↦
      if u.session_epoch == t.session_epoch
      then signed_in now cross u tenant admin d
      else (raise social_attempt_invalid, d)
]

-- `redeem`, with the digests of the token and of the browser.
unfoldable pub redeem :
    DateTime → (List User → List User) → Option ℕ → Text → Text → Doors → Result User × Doors
unfolding enter_by
redeem now cross tenant token browser d = elim (find (of_token token) d.tickets) [
  | none ↦ (raise social_attempt_invalid, d)
  | some t ↦
      let p = is_redeemable now tenant token browser in
      let written = record d { tickets = update_where p (spent_at now) d.tickets } in
      if count_where p d.tickets == 1
      then enter_by now cross t tenant written
      else (raise social_attempt_invalid, written)
]
