-- ===== src/Scope.antt =====
-- helpers/scope.py: which tenant a row belongs to, and which ones a reader reaches, by the row's
-- `tenant_id`.
use fastkit.Base.{ℕ, Bool, true, false, ◌||◌, ◌==◌, Option, none, some}

-- A row of no tenant.
abbrev pub is_global : Option ℕ → Bool
is_global none = true
is_global (some t) = false

abbrev pub belongs_to_tenant : Option ℕ → Option ℕ → Bool
belongs_to_tenant none none = true
belongs_to_tenant (some a) (some b) = a == b
belongs_to_tenant _ _ = false

abbrev pub reaches_tenant : Option ℕ → Option ℕ → Bool
reaches_tenant column tenant = belongs_to_tenant column tenant || is_global column
