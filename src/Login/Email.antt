-- ===== src/Login/Email.antt =====
-- services/email_login_service.py: the code that is sent by email. The digests, the token and the
-- code that are drawn, and the settings are arguments; `Post` is the tables that it writes, with
-- the messages that were queued. No other session writes between two statements of a call.
use fastkit.Scope.{is_global, belongs_to_tenant}
use fastkit.Base.{
  ltb, leb, ◌==◌, if◌then◌else◌, ℕ, suc, Bool, true, false, ◌&&◌, ◌||◌, not, Option, none, some,
  List, ◌∷◌, ◌∙◌,
}
use fastkit.Base.Table.{find, update_where, count_where, exists}
use fastkit.Base.Text.{Text, text_eq}
use fastkit.Dates.{add_time, before, not_after, DateTime}
use fastkit.Errors.{
  sign_in_code_wait, authentication_method_disabled, Result, ok, raise, panel_not_allowed,
  sign_in_code_invalid, email_taken, missing_row, other,
}
use fastkit.Login.{
  belongs_to_tenant, works_in_panel, is_global, in_scope, is_unspent, User, Doors, Surface, site,
  admin, is_admin, signed_in, normal, UserStatus, pending, active,
}
pub mod Attempts
pub mod Guessing
pub mod Request

pub record EmailLoginChallenge : Type 0 where
  pub id : ℕ
  pub tenant_id : Option ℕ
  pub scope_key : Text
  pub surface : Surface
  pub email : Text
  pub token : Text
  pub code_digest : Text
  pub attempts : ℕ
  pub expires_at : DateTime
  pub resend_at : DateTime
  pub consumed_at : Option DateTime

pub record Post : Type 0 where
  pub doors : Doors
  pub challenges : List EmailLoginChallenge
  pub sent : List (Text × Text)
  pub serial : ℕ

-- `settings.authentication.email`, its spans in microseconds, and the digest of a token with its
-- code.
pub record EmailSettings : Type 0 where
  pub offered : Surface → Bool
  pub code_ttl : ℕ
  pub resend_interval : ℕ
  pub max_attempts : ℕ
  pub digest : Text → Text → Text

abbrev pub same_surface : Surface → Surface → Bool
same_surface site site = true
same_surface admin admin = true
same_surface _ _ = false

-- What a request draws: a token and a code.
pub record Drawn : Type 0 where
  pub token : Text
  pub code : Text

abbrev pub of_scope : Text → EmailLoginChallenge → Bool
of_scope scope c = text_eq c.scope_key scope

-- `live`
abbrev pub is_open :
    EmailSettings → DateTime → Option ℕ → Text → Surface → EmailLoginChallenge → Bool
is_open s now tenant token surface c =
    text_eq c.token token
    && (belongs_to_tenant c.tenant_id tenant
        && (same_surface c.surface surface
            && (is_unspent c.consumed_at
                && (before now c.expires_at && ltb c.attempts s.max_attempts))))

abbrev pub answers_code :
    EmailSettings → DateTime → Option ℕ → Text → Text → Surface → EmailLoginChallenge → Bool
answers_code s now tenant token code surface c =
    is_open s now tenant token surface c && text_eq c.code_digest (s.digest token code)

abbrev pub misses_code :
    EmailSettings → DateTime → Option ℕ → Text → Text → Surface → EmailLoginChallenge → Bool
misses_code s now tenant token code surface c =
    is_open s now tenant token surface c && not (text_eq c.code_digest (s.digest token code))

abbrev pub consumed : DateTime → EmailLoginChallenge → EmailLoginChallenge
consumed now c = record c { consumed_at = some now }

abbrev pub tried : EmailLoginChallenge → EmailLoginChallenge
tried c = record c { attempts = suc c.attempts }

-- The order in which accounts of one address are preferred: who works in the panel first, and then
-- the tenant's own.
abbrev pub is_kind : Bool → Bool → User → Bool
is_kind panel shared u =
    (if works_in_panel u.role then panel else not panel)
    && (if is_global u.tenant_id then shared else not shared)

abbrev pub has_address : Option ℕ → Text → Surface → User → Bool
has_address tenant email surface u = text_eq u.email email && in_scope tenant surface u

abbrev pub first_some : Option User → Option User → Option User
first_some (some u) k = some u
first_some none k = k

-- `by_email`
unfoldable pub by_email : Option ℕ → Text → Surface → List User → Option User
by_email tenant email surface users =
    let kind = λ (panel shared : Bool).
      find (λ u. has_address tenant email surface u && is_kind panel shared u) users in
    first_some (kind true false)
      (first_some (kind true true) (first_some (kind false false) (kind false true)))

abbrev pub equals : Option Text → Text → Bool
equals none t = false
equals (some s) t = text_eq s t

-- `ensure_free` of an address, which carries a letter, and the row that `confirm` proposes.
abbrev pub is_taken : Option ℕ → Text → User → Bool
is_taken tenant email u =
    (equals u.username email || text_eq u.email email) && belongs_to_tenant u.tenant_id tenant

abbrev pub newcomer : Option ℕ → Text → ℕ → User
newcomer tenant email id = record {
  id = id;
  tenant_id = tenant;
  email = email;
  username = none;
  role = normal;
  status = active;
  session_epoch = 0;
  last_login_at = none;
  failed_sign_ins = 0;
}

abbrev pub is_pending : UserStatus → Bool
is_pending pending = true
is_pending _ = false

-- What confirming an address makes of an account that never did.
abbrev pub confirmed : User → User
confirmed u = record u { status = active; session_epoch = suc u.session_epoch }

abbrev pub with_users : List User → Post → Post
with_users users p = record p { doors = record p.doors { users = users } }

-- The account is let in, once its address is confirmed.
unfoldable pub let_in :
    DateTime → (List User → List User) → Option ℕ → Surface → User → Post → Result User × Post
unfolding signed_in
let_in now cross tenant surface u p =
    let pends = λ (x : User). x.id == u.id && is_pending x.status in
    let ready =
      if is_pending u.status then update_where pends confirmed p.doors.users else p.doors.users in
    let account = if is_pending u.status then confirmed u else u in
    let (result, doors) =
      signed_in now cross account tenant surface (record p.doors { users = ready }) in
    (result, record p { doors = doors })

-- The end of `confirm`, of a code that was claimed.
unfoldable pub enter_by_code :
    DateTime
    → (List User → List User)
    → Option ℕ
    → Surface
    → EmailLoginChallenge
    → Post
    → Result User × Post
unfolding by_email let_in
enter_by_code now cross tenant surface c p = elim (by_email tenant c.email surface p.doors.users) [
  | some u ↦ let_in now cross tenant surface u p
  | none ↦
      if is_admin surface
      then (raise panel_not_allowed, p)
      else if exists (is_taken tenant c.email) p.doors.users
      then (raise email_taken, p)
      else (let u = newcomer tenant c.email p.serial in
          let_in now cross tenant surface u (record p {
            doors = record p.doors { users = u ∷ p.doors.users };
            serial = suc p.serial;
          }))
]

-- `confirm`
unfoldable pub confirm :
    EmailSettings
    → DateTime
    → (List User → List User)
    → Option ℕ
    → Text
    → Text
    → Surface
    → Post
    → Result User × Post
unfolding enter_by_code
confirm s now cross tenant token code surface p =
    let right = answers_code s now tenant token code surface in
    let spent = record p { challenges = update_where right (consumed now) p.challenges } in
    let wrong = record p {
      challenges =
          update_where (misses_code s now tenant token code surface) tried spent.challenges;
    } in
    if not (s.offered surface)
    then (raise authentication_method_disabled, p)
    else if count_where right p.challenges == 1
    then (elim (find (λ c. text_eq c.token token) spent.challenges) [
      | none ↦ (raise missing_row, spent)
      | some c ↦ enter_by_code now cross tenant surface c spent
    ])
    else (raise sign_in_code_invalid, wrong)
