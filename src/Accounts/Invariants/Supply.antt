-- ===== src/Accounts/Invariants/Supply.antt =====
-- Ids are only ever drawn: the writes of a transaction leave the supply where it is, or further.
use orbitplay_api.Prelude.{ℕ, ◌≤◌, Option, none, some, List, arith}
use orbitplay_api.Exec.Keeps.{Keeps, keeps_rules}
use orbitplay_api.Accounts.{
  Env, UserRow, OrganizationRow, MembershipRow, RefreshTokenRow, Accounts, new_id, insert_user,
  insert_organization, insert_membership,
}
use orbitplay_api.Accounts.Orgs.Service.{invited_user}
use orbitplay_api.Accounts.Invariants.{
  Writes, Keeps-new_id, Keeps-insert_user, Keeps-insert_organization, Keeps-insert_membership,
}

abbrev Beyond : ℕ → List MembershipRow → List RefreshTokenRow → ℕ → Type 0
Beyond n ms ts m = n ≤ m

beyond : (n : ℕ) → Writes (Beyond n)
beyond n = record {
  later = λ ms ts m k le h. omega arith;
  add_member = λ m ms ts k new h. h;
  accept = λ u ms ts k h. h;
  change = λ f org id c a safe e h. h;
  revoke = λ p now ms ts k h. h;
  issue = λ t ms ts k m le lt live h. omega arith;
  rotate = λ now hash stored t ms ts k m e live same new le h. omega arith;
}

module _ (n : ℕ) where
  pub Grows-new_id : Keeps (λ (a : Accounts). n ≤ a.next_id) new_id
  Grows-new_id = Keeps-new_id (Beyond n) (beyond n)

  pub Grows-insert_user : (u : UserRow) → Keeps (λ (a : Accounts). n ≤ a.next_id) (insert_user u)
  Grows-insert_user = Keeps-insert_user (Beyond n) (beyond n)

  pub Grows-insert_organization :
      (o : OrganizationRow) → Keeps (λ (a : Accounts). n ≤ a.next_id) (insert_organization o)
  Grows-insert_organization = Keeps-insert_organization (Beyond n) (beyond n)

  pub Grows-insert_membership :
      (m : MembershipRow) → Keeps (λ (a : Accounts). n ≤ a.next_id) (insert_membership m)
  Grows-insert_membership = Keeps-insert_membership (Beyond n) (beyond n)

  pub ruleset grow_rules = (
    keeps_rules, Grows-new_id, Grows-insert_user, Grows-insert_organization,
    Grows-insert_membership,
  )

  pub Grows-invited_user :
      (env : Env) (u : Option UserRow) (email name hash : ℕ)
      → Keeps (λ (a : Accounts). n ≤ a.next_id) (invited_user env u email name hash)
  Grows-invited_user env none email name hash = search grow_rules depth 40
  Grows-invited_user env (some u) email name hash = search grow_rules depth 40
