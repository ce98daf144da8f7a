-- ===== src/Login/Email/Request.antt =====
-- services/email_login_service.py: `request`, which sends a code or renews the one that was sent.
use fastkit.Login.Email.{of_scope, EmailLoginChallenge, Post, EmailSettings, Drawn}
use fastkit.Base.{leb, ◌==◌, if◌then◌else◌, ℕ, suc, Bool, ◌&&◌, ◌||◌, not, Option, none, some, ◌∷◌}
use fastkit.Base.Table.{find, update_where, count_where}
use fastkit.Base.Text.{Text}
use fastkit.Dates.{add_time, not_after, DateTime}
use fastkit.Errors.{sign_in_code_wait, authentication_method_disabled, Result, ok, raise}
use fastkit.Login.{is_unspent, Surface}

-- `changes`
abbrev pub renewed : EmailSettings → DateTime → Drawn → EmailLoginChallenge → EmailLoginChallenge
renewed s now new c = record c {
  token = new.token;
  code_digest = s.digest new.token new.code;
  attempts = 0;
  expires_at = add_time s.code_ttl now;
  resend_at = add_time s.resend_interval now;
  consumed_at = none;
}

abbrev pub proposed :
    EmailSettings → DateTime → Drawn → Option ℕ → Text → Surface → Text → ℕ → EmailLoginChallenge
proposed s now new tenant scope surface address id = record {
  id = id;
  tenant_id = tenant;
  scope_key = scope;
  surface = surface;
  email = address;
  token = new.token;
  code_digest = s.digest new.token new.code;
  attempts = 0;
  expires_at = add_time s.code_ttl now;
  resend_at = add_time s.resend_interval now;
  consumed_at = none;
}

abbrev pub cannot_wait : EmailSettings → DateTime → EmailLoginChallenge → Bool
cannot_wait s now c =
    not (is_unspent c.consumed_at) || (not_after c.expires_at now || leb s.max_attempts c.attempts)

abbrev pub may_renew : DateTime → EmailLoginChallenge → EmailLoginChallenge → Bool
may_renew now c x = x.id == c.id && not_after x.resend_at now

-- `request`, of a lowered address and the digest of its scope.
unfoldable pub request :
    EmailSettings
    → DateTime
    → Drawn
    → Option ℕ
    → Text
    → Surface
    → Text
    → Post
    → Result EmailLoginChallenge × Post
request s now new tenant scope surface address p =
    if not (s.offered surface)
    then (raise authentication_method_disabled, p)
    else (elim (find (of_scope scope) p.challenges) [
      | none ↦
          let c = proposed s now new tenant scope surface address p.serial in
          (
            ok c,
            record p {
              challenges = c ∷ p.challenges;
              sent = (address, new.code) ∷ p.sent;
              serial = suc p.serial;
            },
          )
      | some c ↦
          let claimed = may_renew now c in
          let written = record p {
            challenges = update_where claimed (renewed s now new) p.challenges;
          } in
          if count_where claimed p.challenges == 1
          then (ok (renewed s now new c), record written { sent = (address, new.code) ∷ p.sent })
          else if cannot_wait s now c
          then (raise sign_in_code_wait, written)
          else (ok c, written)
    ])
