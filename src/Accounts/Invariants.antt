-- ===== src/Accounts/Invariants.antt =====
-- Invariants of accounts over every history: what keeps a predicate of the memberships and the refresh
-- tokens at each single write keeps it over the handlers of auth.service.ts and orgs.service.ts.
pub mod Supply
pub mod Members
pub mod Sessions
pub mod Handlers
pub mod Steps
use orbitplay_api.Prelude.{
  ℕ, suc, ◌+◌, ◌≤◌, ◌<◌, ◌≡◌, refl, inl, inr, Bool, true, false, ◌&&◌, Option, none, some, List, [],
  ◌∷◌, ◌++◌, arith, any, find, map, length, update, ◌⊎◌, get, is_none, ltb, ◌==◌, Bool-cases,
  Option-cases, if◌then◌else◌,
}
use orbitplay_api.Uuid.{Text}
use orbitplay_api.Errors.{Result, ok, err, Failure, AppException, UniqueIndex}
use orbitplay_api.Exec.{Exec, pure, fail, raise, gets, modify, ◌>>=◌}
use orbitplay_api.Exec.Keeps.{
  Keeps, Keeps-modify, Keeps-bind, Keeps-pure, Keeps-ensure, keeps_rules,
}
use orbitplay_api.Eligibility.{Date}
use orbitplay_api.Accounts.{
  Role, MembershipStatus, Env, LimitKind, UserRow, OrganizationRow, MembershipRow, RefreshTokenRow,
  PasswordResetTokenRow, Accounts, settle, atomically, new_id, insert_user, insert_organization,
  insert_membership, insert_row, has_role, Mail, CookieChange,
}
use orbitplay_api.Accounts.Tokens.{
  revoke_row, update_where, is_live_token, replaced_row, accept_row, insert_refresh_token,
  revoke_family, rotate_refresh_token, invalidate_unused_tokens, insert_reset_token,
  apply_password_reset, reset_found, is_consumable, reset_account, set_refresh_tokens,
}
use orbitplay_api.Accounts.Limits.{enforce_identifier_limit, count_attempt, clear_identifier_limit}
use orbitplay_api.Accounts.Orgs.{
  MemberRecord, require_role, find_membership_for_update, lock_active_owners, is_active_owner,
}

-- A predicate of the memberships, the refresh tokens and the next id, at a state.
abbrev pub At : (List MembershipRow → List RefreshTokenRow → ℕ → Type 0) → Accounts → Type 0
At R a = R a.memberships a.refresh_tokens a.next_id

abbrev pub AccountsKeep :
    {A : Type 0}
    → (List MembershipRow → List RefreshTokenRow → ℕ → Type 0)
    → Exec Accounts A
    → Type 0
AccountsKeep R m = Keeps (At R) m

-- A change of a member's row that keeps its key and its organization, and that either leaves an active
-- owner one or finds two of them.
pub record IsSafe (organization_id : ℕ) (c : MemberRecord) (f : MembershipRow → MembershipRow)
    (a : Accounts) : Type 0 where
  pub key : (m : MembershipRow) → (f m).id ≡ m.id
  pub organization : (m : MembershipRow) → (f m).organization_id ≡ m.organization_id
  pub owner :
      ((m : MembershipRow)
        → m.role ≡ c.role
        → m.status ≡ c.status
        → is_active_owner organization_id m ≡ true
        → is_active_owner organization_id (f m) ≡ true)
      ⊎ (2 ≤ length (lock_active_owners organization_id a))

-- One field for each write.
pub record Writes (R : List MembershipRow → List RefreshTokenRow → ℕ → Type 0) : Type 0 where
  -- ids are drawn
  pub later :
      (ms : List MembershipRow) (ts : List RefreshTokenRow) (n m : ℕ)
      → n ≤ m
      → R ms ts n
      → R ms ts m
  pub add_member :
      (m : MembershipRow) (ms : List MembershipRow) (ts : List RefreshTokenRow) (n : ℕ)
      → any (λ (r : MembershipRow). r.id == m.id) ms ≡ false
      → R ms ts n
      → R (ms ++ m ∷ []) ts n
  pub accept :
      (user_id : ℕ) (ms : List MembershipRow) (ts : List RefreshTokenRow) (n : ℕ)
      → R ms ts n
      → R (map (accept_row user_id) ms) ts n
  pub change :
      (f : MembershipRow → MembershipRow) (organization_id id : ℕ) (c : MemberRecord) (a : Accounts)
      → IsSafe organization_id c f a
      → find_membership_for_update organization_id id a ≡ some c
      → At R a
      → R (update MembershipRow.id c.membership_id f a.memberships) a.refresh_tokens a.next_id
  pub revoke :
      (p : RefreshTokenRow → Bool) (now : ℕ) (ms : List MembershipRow) (ts : List RefreshTokenRow)
      (n : ℕ)
      → R ms ts n
      → R ms (update_where p (revoke_row now) ts) n
  -- a token of a family that is new
  pub issue :
      (t : RefreshTokenRow) (ms : List MembershipRow) (ts : List RefreshTokenRow) (n m : ℕ)
      → n ≤ t.family_id
      → t.family_id < m
      → is_live_token t ≡ true
      → R ms ts n
      → R ms (ts ++ t ∷ []) m
  -- a live token that is replaced by one of its family
  pub rotate :
      (now hash : ℕ) (stored t : RefreshTokenRow) (ms : List MembershipRow)
      (ts : List RefreshTokenRow) (n m : ℕ)
      → get RefreshTokenRow.token_hash hash ts ≡ some stored
      → is_live_token stored ≡ true
      → t.family_id ≡ stored.family_id
      → is_live_token t ≡ true
      → n ≤ m
      → R ms ts n
      → R ms
          (update_where
              (λ (r : RefreshTokenRow). (r.id == stored.id) && is_live_token r)
              (replaced_row now t.id)
              ts
            ++ t ∷ [])
          m

-- An action that only draws ids.
abbrev Grows : {A : Type 0} → Exec Accounts A → Type 0
Grows m = (n : ℕ) → Keeps (λ (a : Accounts). n ≤ a.next_id) m

module _ (R : List MembershipRow → List RefreshTokenRow → ℕ → Type 0) (K : Writes R) where
  settled :
      {A : Type 0} (r : Result A) (a after : Accounts)
      → At R a
      → a.next_id ≤ after.next_id
      → At R after
      → At R (settle r a after).1
  settled (ok x) a after h le h' = h'
  settled (err e) a after h le h' =
      K.later a.memberships a.refresh_tokens a.next_id after.next_id le h

  pub Keeps-atomically :
      {A : Type 0} (m : Exec Accounts A)
      → AccountsKeep R m
      → Grows m
      → AccountsKeep R (atomically m)
  unfolding atomically
  Keeps-atomically m k g = record {
    at = λ a h. settled (m a).0 a (m a).1 h ((g a.next_id).at a (omega arith)) (k.at a h);
  }

  pub Keeps-new_id : AccountsKeep R new_id
  unfolding new_id
  Keeps-new_id = record {
    at = λ a h. K.later a.memberships a.refresh_tokens a.next_id (suc a.next_id) (omega arith) h;
  }

  pub inserted :
      (b c : Bool) (i : UniqueIndex) (write : Accounts → Accounts) (a : Accounts)
      → At R a
      → (b ≡ false → At R (write a))
      → At R (insert_row b c i write a).1
  unfolding insert_row
  inserted true c i write a h k = h
  inserted false true i write a h k = h
  inserted false false i write a h k = k refl

  pub Keeps-insert_user : (u : UserRow) → AccountsKeep R (insert_user u)
  unfolding insert_user
  Keeps-insert_user u = record { at = λ a h. inserted _ _ _ _ a h (λ e. h) }

  pub Keeps-insert_organization : (o : OrganizationRow) → AccountsKeep R (insert_organization o)
  unfolding insert_organization
  Keeps-insert_organization o = record { at = λ a h. inserted _ _ _ _ a h (λ e. h) }

  pub Keeps-insert_membership : (m : MembershipRow) → AccountsKeep R (insert_membership m)
  unfolding insert_membership
  Keeps-insert_membership m = record {
    at = λ a h.
        inserted _ _ _ _ a h (λ e. K.add_member m a.memberships a.refresh_tokens a.next_id e h);
  }

  pub Keeps-insert_reset_token : (t : PasswordResetTokenRow) → AccountsKeep R (insert_reset_token t)
  unfolding insert_reset_token
  Keeps-insert_reset_token t = record { at = λ a h. inserted _ _ _ _ a h (λ e. h) }

  pub Keeps-enforce :
      (env : Env) (now : ℕ) (kind : LimitKind) (email : ℕ)
      → AccountsKeep R (enforce_identifier_limit env now kind email)
  unfolding enforce_identifier_limit count_attempt
  Keeps-enforce env now kind email = record {
    at = λ a h. (Keeps-ensure {P = At R} _ _).at (count_attempt env now kind email a).1 h;
  }

  pub Keeps-clear :
      (kind : LimitKind) (email : ℕ) → AccountsKeep R (clear_identifier_limit kind email)
  unfolding clear_identifier_limit
  Keeps-clear kind email = Keeps-modify _ (λ a h. h)

  pub Keeps-require_role : (r : Role) → AccountsKeep R (require_role r)
  unfolding require_role pure fail
  Keeps-require_role r = record {
    at = λ a h. elim (Bool-cases (has_role r a.roles)) [ inl e ↦ rw e h | inr e ↦ rw e h ];
  }

  pub Keeps-invalidate_tokens :
      (now user_id : ℕ) → AccountsKeep R (invalidate_unused_tokens now user_id)
  unfolding invalidate_unused_tokens
  Keeps-invalidate_tokens now user_id = Keeps-modify _ (λ a h. h)

  pub Keeps-revoke_family : (now family_id : ℕ) → AccountsKeep R (revoke_family now family_id)
  unfolding revoke_family
  Keeps-revoke_family now family_id = Keeps-modify _ (λ a h.
      K.revoke (λ t. t.family_id == family_id) now a.memberships a.refresh_tokens a.next_id h)

  reset_kept :
      (now hash password_hash : ℕ) (t : Option PasswordResetTokenRow) (a : Accounts)
      → At R a
      → At R (reset_found now hash password_hash t a).1
  reset_kept now hash password_hash none a h = h
  reset_kept now hash password_hash (some t) a h =
      K.revoke (λ r. r.user_id == t.user_id) now (map (accept_row t.user_id) a.memberships)
        a.refresh_tokens a.next_id (K.accept t.user_id a.memberships a.refresh_tokens a.next_id h)

  pub Keeps-apply_reset :
      (now hash password_hash : ℕ) → AccountsKeep R (apply_password_reset now hash password_hash)
  unfolding apply_password_reset
  Keeps-apply_reset now hash password_hash = record {
    at = λ a h. reset_kept now hash password_hash _ a h;
  }

  -- Mails and the cookie of the reply are no part of what is kept.
  pub Keeps-mails :
      (f : Accounts → List Mail) → AccountsKeep R (modify (λ a. record a { mails = f a }))
  Keeps-mails f = Keeps-modify _ (λ a h. h)

  pub Keeps-cookie : (c : CookieChange) → AccountsKeep R (modify (λ a. record a { cookie = c }))
  Keeps-cookie c = Keeps-modify _ (λ a h. h)

  pub ruleset account_rules = (
    keeps_rules, Keeps-new_id, Keeps-insert_user, Keeps-insert_organization,
    Keeps-insert_membership, Keeps-insert_reset_token, Keeps-enforce, Keeps-clear,
    Keeps-require_role, Keeps-invalidate_tokens, Keeps-revoke_family, Keeps-apply_reset,
    Keeps-mails, Keeps-cookie,
  )
