-- ===== src/Delivery/Handing/Atomic.antt =====
-- One attempt is all or nothing, and what each ending leaves behind.
use fastkit.Ledger.{Ledger}
use fastkit.Errors.{Fault}
use fastkit.Base.{ℕ, ◌≡◌, refl, ◌⊎◌, some, Option, none}
use fastkit.Delivery.{grant_of, BenefitGrant, Store, completed}

-- Two states in which every account holds the same: the ledger, what is owned and the rights.
pub record SameHoldings (s t : Store) : Type 0 where
  pub same_ledger : t.shop.ledger ≡ s.shop.ledger
  pub same_owned : t.shop.owned ≡ s.shop.owned
  pub same_entitlements : t.entitlements ≡ s.entitlements

-- A grant is completed: what the row of the grant says after `deliver`.
abbrev pub CompletedIn : ℕ → Store → Type 0
CompletedIn id s = (g : BenefitGrant) × (grant_of id s ≡ some g) × (g.status ≡ completed)

-- What the body of the `try` did to a grant `g` that it raised nothing about.
abbrev Tried : BenefitGrant → Store → Option Fault × Store → Type 0
Tried g s (some f, t) = Unit {0}
Tried g s (none, t) = CompletedIn g.id t ⊎ SameHoldings s t

pub SameHoldings-refl : (s : Store) → SameHoldings s s
SameHoldings-refl s = record { same_ledger = refl; same_owned = refl; same_entitlements = refl }
