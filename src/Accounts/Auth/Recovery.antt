-- ===== src/Accounts/Auth/Recovery.antt =====
-- modules/auth/auth.service.ts: the recovery of a password, and OrgsService.triggerMemberPasswordReset.
use orbitplay_api.Prelude.{ℕ, ◌+◌, Option, none, some, [], ◌∷◌, ◌++◌, if◌then◌else◌}
use orbitplay_api.Uuid.{Text, as_uuid}
use orbitplay_api.Errors.{validation, not_found, named, Message}
use orbitplay_api.Exec.{Exec, pure, raise, gets, require, modify, ◌>>=◌, ◌>>◌}
use orbitplay_api.Accounts.{Env, LimitKind, UserRow, Accounts, password_reset, new_id}
use orbitplay_api.Accounts.Tokens.{
  find_user_by_id, find_user_by_email, invalidate_unused_tokens, insert_reset_token,
  apply_password_reset,
}
use orbitplay_api.Accounts.Limits.{enforce_identifier_limit}
use orbitplay_api.Accounts.Orgs.{MemberRecord, find_membership_for_update}

module _ (env : Env) where
  -- `issuePasswordResetToken`, with the random token.
  unfoldable pub issue_password_reset_token : ℕ → ℕ → UserRow → Exec Accounts (Unit {0})
  unfolding invalidate_unused_tokens insert_reset_token new_id
  issue_password_reset_token now raw_token user = do
    invalidate_unused_tokens now user.id
    id ← new_id
    insert_reset_token (record {
      id = id;
      user_id = user.id;
      token_hash = env.hash_token raw_token;
      expires_at = now + env.password_reset_ttl_ms;
      used_at = none;
    })
    modify (λ a. record a { mails = a.mails ++ password_reset user.email raw_token ∷ [] })

  abbrev pub mail_active_user : ℕ → ℕ → Option UserRow → Exec Accounts (Unit {0})
  mail_active_user now raw_token none = pure tt
  mail_active_user now raw_token (some u) =
      if u.is_active then issue_password_reset_token now raw_token u else pure tt

  -- `forgotPassword`; the reply is the same whether the account exists.
  unfoldable pub forgot_password : ℕ → ℕ → ℕ → Exec Accounts (Unit {0})
  unfolding enforce_identifier_limit find_user_by_email issue_password_reset_token
  forgot_password now raw_token dto_email = do
    let email = env.trim (env.lower dto_email)
    enforce_identifier_limit env now LimitKind.forgot email
    user ← gets (find_user_by_email env email)
    mail_active_user now raw_token user

  abbrev pub limit_and_mail : ℕ → ℕ → Option UserRow → Exec Accounts (Unit {0})
  limit_and_mail now raw_token none = pure tt
  limit_and_mail now raw_token (some u) =
      if u.is_active
      then (enforce_identifier_limit env now LimitKind.forgot (env.trim (env.lower u.email))
          >> issue_password_reset_token now raw_token u)
      else pure tt

  -- `triggerPasswordReset`
  unfoldable pub trigger_password_reset : ℕ → ℕ → ℕ → Exec Accounts (Unit {0})
  unfolding find_user_by_id enforce_identifier_limit issue_password_reset_token
  trigger_password_reset now raw_token user_id = do
    user ← gets (find_user_by_id user_id)
    limit_and_mail now raw_token user

  -- `findMembership`: a malformed id is not a member.
  abbrev pub find_membership : ℕ → Text → Accounts → Option MemberRecord
  find_membership organization_id target a = elim (as_uuid target) [
    | none ↦ none
    | some id ↦ find_membership_for_update organization_id id a
  ]

  -- `OrgsService.triggerMemberPasswordReset`
  unfoldable pub trigger_member_password_reset : ℕ → ℕ → ℕ → Text → Exec Accounts (Unit {0})
  unfolding find_membership_for_update trigger_password_reset
  trigger_member_password_reset now raw_token organization_id target = do
    member ← gets (find_membership organization_id target)
    found ← require member (not_found "Membro não encontrado")
    trigger_password_reset now raw_token found.user_id

  abbrev pub reset_done : Option ℕ → Exec Accounts (Unit {0})
  reset_done none = raise (
      validation "Token inválido ou expirado"
        ((named "token", Message.text "Token inválido ou expirado") ∷ []))
  reset_done (some user_id) = pure tt

  -- `resetPassword`
  unfoldable pub reset_password : ℕ → ℕ → ℕ → ℕ → Exec Accounts (Unit {0})
  unfolding apply_password_reset
  reset_password now salt token password = do
    user_id ← apply_password_reset now (env.hash_token token) (env.hash_password salt password)
    reset_done user_id
