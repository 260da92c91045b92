-- ===== src/Accounts/Tokens.antt =====
-- modules/auth/auth.repository.ts: refresh tokens, password reset tokens and the lookups of a login.
use orbitplay_api.Prelude.{
  ℕ, Bool, true, false, ◌&&◌, Option, none, some, List, [], ◌∷◌, ◌++◌, any, find, filter, map, get,
  is_none, ltb, ◌==◌, if◌then◌else◌,
}
use orbitplay_api.Errors.{ok, UniqueIndex}
use orbitplay_api.Exec.{Exec, pure, gets, modify, ◌>>=◌, ◌>>◌}
use orbitplay_api.Accounts.{
  active, is_active_status, is_invited, Env, UserRow, MembershipRow, RefreshTokenRow,
  PasswordResetTokenRow, Accounts, insert_row, atomically,
}

-- `findUserById`
unfoldable pub find_user_by_id : ℕ → Accounts → Option UserRow
find_user_by_id id a = find (λ u. (u.id == id) && is_none u.deleted_at) a.users

module _ (env : Env) where
  -- `findUserByEmail`
  unfoldable pub find_user_by_email : ℕ → Accounts → Option UserRow
  find_user_by_email email a =
      find (λ u. (env.sql_lower u.email == env.lower email) && is_none u.deleted_at) a.users

  -- `emailExists`: deleted users count too.
  unfoldable pub email_exists : ℕ → Accounts → Bool
  email_exists email a = any (λ u. env.sql_lower u.email == env.lower email) a.users

abbrev pub is_active_member : ℕ → MembershipRow → Bool
is_active_member user_id m =
    (m.user_id == user_id) && is_active_status m.status && is_none m.deleted_at

-- `findActiveMemberships`: rows are kept in the order in which they were created.
unfoldable pub find_active_memberships : ℕ → Accounts → List MembershipRow
find_active_memberships user_id a = filter (is_active_member user_id) a.memberships

-- `findActiveMembershipForOrg`
unfoldable pub find_active_membership_for_org : ℕ → ℕ → Accounts → Option MembershipRow
find_active_membership_for_org user_id organization_id a =
    find (λ m. is_active_member user_id m && (m.organization_id == organization_id)) a.memberships

abbrev pub set_refresh_tokens : List RefreshTokenRow → Accounts → Accounts
set_refresh_tokens rows a = record a { db = record a.db { refresh_tokens = rows } }

-- `insertRefreshToken`, under the primary key and `refresh_tokens_hash_unique`.
unfoldable pub insert_refresh_token : RefreshTokenRow → Exec Accounts (Unit {0})
insert_refresh_token t a =
    insert_row (any (λ r. r.id == t.id) a.refresh_tokens)
      (any (λ r. r.token_hash == t.token_hash) a.refresh_tokens) UniqueIndex.token_hash
      (λ a. set_refresh_tokens (a.refresh_tokens ++ t ∷ []) a) a

-- `findRefreshTokenByHash`
unfoldable pub find_refresh_token_by_hash : ℕ → Accounts → Option RefreshTokenRow
unfolding get
find_refresh_token_by_hash hash a = get RefreshTokenRow.token_hash hash a.refresh_tokens

-- `set({ revokedAt }).where(isNull(revokedAt))`
abbrev pub revoke_row : ℕ → RefreshTokenRow → RefreshTokenRow
revoke_row now t = elim t.revoked_at [ none ↦ record t { revoked_at = some now } | some at ↦ t ]

-- `UPDATE … WHERE p`
abbrev pub update_where {ℓ} : {A : Type ℓ} → (A → Bool) → (A → A) → List A → List A
update_where p f rows = map (λ r. if p r then f r else r) rows

-- `revokeFamily`
unfoldable pub revoke_family : ℕ → ℕ → Exec Accounts (Unit {0})
revoke_family now family_id = modify (λ a.
    set_refresh_tokens
      (update_where (λ t. t.family_id == family_id) (revoke_row now) a.refresh_tokens) a)

-- `revokeAllRefreshTokensForUser`
unfoldable pub revoke_all_for_user : ℕ → ℕ → Exec Accounts (Unit {0})
revoke_all_for_user now user_id = modify (λ a.
    set_refresh_tokens (update_where (λ t. t.user_id == user_id) (revoke_row now) a.refresh_tokens)
      a)

abbrev pub is_live_token : RefreshTokenRow → Bool
is_live_token t = is_none t.revoked_at

-- The row that a rotation leaves in place of the current one.
abbrev pub replaced_row : ℕ → ℕ → RefreshTokenRow → RefreshTokenRow
replaced_row now next_id t = record t { revoked_at = some now; replaced_by_token_id = some next_id }

-- The body of the rotation, from whether the current row was still live.
abbrev pub rotate_live : ℕ → ℕ → RefreshTokenRow → Bool → Exec Accounts Bool
rotate_live now current_id next true = do
  modify (λ a.
      set_refresh_tokens
        (update_where (λ t. (t.id == current_id) && is_live_token t) (replaced_row now next.id)
          a.refresh_tokens)
        a)
  insert_refresh_token next
  pure true
rotate_live now current_id next false = pure false

-- `rotateRefreshToken`: the successor is inserted only if the current row was still live.
unfoldable pub rotate_refresh_token : ℕ → ℕ → RefreshTokenRow → Exec Accounts Bool
rotate_refresh_token now current_id next = atomically (
    gets (λ a. any (λ t. (t.id == current_id) && is_live_token t) a.refresh_tokens)
    >>= rotate_live now current_id next)

abbrev pub set_reset_tokens : List PasswordResetTokenRow → Accounts → Accounts
set_reset_tokens rows a = record a { db = record a.db { reset_tokens = rows } }

abbrev pub is_unused : PasswordResetTokenRow → Bool
is_unused t = is_none t.used_at

-- `invalidateUnusedTokens`
unfoldable pub invalidate_unused_tokens : ℕ → ℕ → Exec Accounts (Unit {0})
invalidate_unused_tokens now user_id = modify (λ a.
    set_reset_tokens
      (update_where (λ t. (t.user_id == user_id) && is_unused t)
        (λ t. record t { used_at = some now }) a.reset_tokens)
      a)

-- `insertPasswordResetToken`, under the primary key and `password_reset_tokens_hash_unique`.
unfoldable pub insert_reset_token : PasswordResetTokenRow → Exec Accounts (Unit {0})
insert_reset_token t a =
    insert_row (any (λ r. r.id == t.id) a.reset_tokens)
      (any (λ r. r.token_hash == t.token_hash) a.reset_tokens) UniqueIndex.token_hash
      (λ a. set_reset_tokens (a.reset_tokens ++ t ∷ []) a) a

-- Whether the token can still be consumed.
abbrev pub is_consumable : ℕ → ℕ → PasswordResetTokenRow → Bool
is_consumable now hash t = (t.token_hash == hash) && is_unused t && ltb now t.expires_at

-- Accepts the pending invitations of the user.
abbrev pub accept_row : ℕ → MembershipRow → MembershipRow
accept_row user_id m =
    if (m.user_id == user_id) && is_invited m.status && is_none m.deleted_at
    then record m { status = active }
    else m

-- What the transaction of `applyPasswordReset` writes once a token of the user is consumed.
abbrev pub reset_account : ℕ → ℕ → ℕ → ℕ → Accounts → Accounts
reset_account now hash user_id password_hash a = record a {
  db = record a.db {
    reset_tokens =
        update_where (is_consumable now hash) (λ t. record t { used_at = some now }) a.reset_tokens;
    users =
        update_where (λ u. u.id == user_id) (λ u. record u { password_hash = password_hash })
          a.users;
    memberships = map (accept_row user_id) a.memberships;
    refresh_tokens = update_where (λ t. t.user_id == user_id) (revoke_row now) a.refresh_tokens;
  };
}

abbrev pub reset_found : ℕ → ℕ → ℕ → Option PasswordResetTokenRow → Exec Accounts (Option ℕ)
reset_found now hash password_hash none a = (ok none, a)
reset_found now hash password_hash (some t) a =
    (ok (some t.user_id), reset_account now hash t.user_id password_hash a)

-- `applyPasswordReset`
unfoldable pub apply_password_reset : ℕ → ℕ → ℕ → Exec Accounts (Option ℕ)
apply_password_reset now hash password_hash a =
    reset_found now hash password_hash (find (is_consumable now hash) a.reset_tokens) a
