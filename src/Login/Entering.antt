-- ===== src/Login/Entering.antt =====
-- Whom `ensure_entry`, `signed_in` and `enter_by` let in.
use fastkit.Dates.{DateTime}
use fastkit.Base.{
  ◌==◌, ==_iff, Bool-cases, Option-cases, ℕ, ◌≡◌, subst, inl, inr, true, Option, none, arith, sym,
  ap, ◌∙◌, List,
}
use fastkit.Base.Table.{find, find-holds, update_where, count_where}
use fastkit.Errors.{invalid_credentials, missing_row, ok, raise, social_attempt_invalid, Result}
use fastkit.Login.{
  is_active, works_in_panel, is_admin, in_scope, ensure_access, ensure_scope, ensure_entry, with_id,
  read_back, User, Doors, Surface, site, admin, may_enter, entered, signed_in, enter_by,
  LoginTicket,
}

-- An account that may enter a surface of a tenant.
abbrev pub Admitted : Option ℕ → Surface → User → Type 0
Admitted tenant surface u =
    (is_active u.status ≡ true)
    × ((is_admin surface ≡ true) → works_in_panel u.role ≡ true)
    × (in_scope tenant surface u ≡ true)

ensure_entry-Admitted :
    (u : User) (tenant : Option ℕ) (surface : Surface)
    → ensure_entry u tenant surface ≡ none
    → Admitted tenant surface u
unfolding ensure_entry ensure_access ensure_scope in_scope
ensure_entry-Admitted u tenant site h = (ground arith, (λ e. cc), ground arith)
ensure_entry-Admitted u tenant admin h = (ground arith, (λ e. ground arith), ground arith)

-- What `signed_in` answers: the account that it was given, on the same session, and admitted.
abbrev pub Entered : User → Option ℕ → Surface → User → Type 0
Entered read tenant surface u =
    (u.id ≡ read.id) × (u.session_epoch ≡ read.session_epoch) × Admitted tenant surface u

read_back-Entered :
    (read : User) (tenant : Option ℕ) (surface : Surface) (d : Doors) {u : User}
    → read_back read.id read tenant surface d ≡ ok u
    → Entered read tenant surface u
unfolding read_back
read_back-Entered read tenant surface d {u} h =
    elim (Option-cases (find (with_id read.id) d.users)) [
      | inl gone ↦
          let bad : ◌≡◌ {A = Result User} (raise missing_row) (ok u) = rw (gone, read_back) at h in
          cc
      | inr (stored, here) ↦ elim (Option-cases (ensure_entry stored tenant surface)) [
        | inr (f, no_entry) ↦
            let bad : ◌≡◌ {A = Result User} (raise f) (ok u) =
              rw (here, no_entry, read_back) at h in
            cc
        | inl entry ↦ elim (Bool-cases (stored.session_epoch == read.session_epoch)) [
          | inr other_session ↦
              let bad : ◌≡◌ {A = Result User} (raise invalid_credentials) (ok u) =
                rw (here, entry, other_session, read_back) at h in
              cc
          | inl same ↦
              let good : ◌≡◌ {A = Result User} (ok stored) (ok u) =
                rw (here, entry, same, read_back) at h in
              let e : stored ≡ u = cc in
              subst (Entered read tenant surface) e (
                (==_iff stored.id read.id).0 (find-holds (with_id read.id) d.users here),
                (==_iff stored.session_epoch read.session_epoch).0 same,
                ensure_entry-Admitted stored tenant surface entry,
              )
        ]
      ]
    ]

signed_in-Entered :
    (now : DateTime) (cross : List User → List User) (read : User) (tenant : Option ℕ)
    (surface : Surface) (d : Doors) {u : User} {d' : Doors}
    → signed_in now cross read tenant surface d ≡ (ok u, d')
    → Entered read tenant surface u × (d'.tickets ≡ d.tickets)
unfolding signed_in
signed_in-Entered now cross read tenant surface d {u} {d'} h =
    elim (Option-cases (ensure_entry read tenant surface)) [
      | inr (f, no_entry) ↦
          let bad : ◌≡◌ {A = Result User × Doors} (raise f, d) (ok u, d') =
            rw (no_entry, signed_in) at h in
          absurd (cc)
      | inl entry ↦
          let p = may_enter read tenant surface in
          let written = record d { users = update_where p (entered now) (cross d.users) } in
          elim (Bool-cases (count_where p (cross d.users) == 1)) [
            | inr lost ↦
                let bad : ◌≡◌ {A = Result User × Doors} (raise invalid_credentials, written)
                    (ok u, d') =
                  simp (entry, lost, signed_in) at h in
                absurd (cc)
            | inl won ↦
                let good : ◌≡◌ {A = Result User × Doors}
                    (read_back read.id read tenant surface written, written) (ok u, d') =
                  simp (entry, won, signed_in) at h in
                (
                  read_back-Entered read tenant surface written (ap (λ r. r.0) good),
                  sym (ap (λ r. r.1.tickets) good),
                )
          ]
    ]

pub enter_by-Entered :
    (now : DateTime) (cross : List User → List User) (t : LoginTicket) (tenant : Option ℕ)
    (d : Doors) {u : User} {d' : Doors}
    → enter_by now cross t tenant d ≡ (ok u, d')
    → (u.id ≡ t.user_id)
      × (u.session_epoch ≡ t.session_epoch)
      × Admitted tenant admin u
      × (d'.tickets ≡ d.tickets)
unfolding enter_by
enter_by-Entered now cross t tenant d {u} {d'} h =
    elim (Option-cases (find (with_id t.user_id) d.users)) [
      | inl gone ↦
          let bad : ◌≡◌ {A = Result User × Doors} (raise social_attempt_invalid, d) (ok u, d') =
            rw (gone, enter_by) at h in
          absurd (cc)
      | inr (read, here) ↦ elim (Bool-cases (read.session_epoch == t.session_epoch)) [
        | inr ended ↦
            let bad : ◌≡◌ {A = Result User × Doors} (raise social_attempt_invalid, d) (ok u, d') =
              simp (here, ended, enter_by) at h in
            absurd (cc)
        | inl same ↦
            let good : signed_in now cross read tenant admin d ≡ (ok u, d') =
              simp (here, same, enter_by) at h in
            let (entered, kept) = signed_in-Entered now cross read tenant admin d good in
            (
              entered.0
                  ∙ (==_iff read.id t.user_id).0 (find-holds (with_id t.user_id) d.users here),
              entered.1 ∙ (==_iff read.session_epoch t.session_epoch).0 same,
              entered.2,
              kept,
            )
      ]
    ]
