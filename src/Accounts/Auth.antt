-- ===== src/Accounts/Auth.antt =====
-- modules/auth/auth.service.ts and token.service.ts: login, the rotation of refresh tokens, logout and
-- the recovery of a password. The audit trail and the text of the mails are left out.
pub mod Signup
pub mod Recovery
use orbitplay_api.Prelude.{
  ℕ, ◌+◌, Bool, true, false, not, ◌&&◌, ◌||◌, String, Option, none, some, List, [], ◌∷◌, ◌++◌, find,
  map, ltb, is_some, ◌==◌, if◌then◌else◌,
}
use orbitplay_api.Errors.{
  AppException, unauthorized, validation, not_found, named, Message, Result, ok, err,
}
use orbitplay_api.Exec.{Exec, pure, fail, raise, gets, require, modify, ensure, catch, ◌>>=◌, ◌>>◌}
use orbitplay_api.Uuid.{Text, as_uuid}
use orbitplay_api.Accounts.{
  Role, Env, LimitKind, UserRow, MembershipRow, RefreshTokenRow, PasswordResetTokenRow, Accounts,
  Mail, password_reset, CookieChange, cleared, set_cookie, new_id,
}
use orbitplay_api.Accounts.Tokens.{
  find_user_by_id, find_user_by_email, find_active_memberships, find_active_membership_for_org,
  insert_refresh_token, find_refresh_token_by_hash, revoke_family, rotate_refresh_token,
  invalidate_unused_tokens, insert_reset_token, apply_password_reset,
}
use orbitplay_api.Accounts.Limits.{enforce_identifier_limit, clear_identifier_limit}
use orbitplay_api.Accounts.Orgs.{find_membership_for_update}

pub record Principal : Type 0 where
  pub user_id : ℕ
  pub email : ℕ
  pub display_name : ℕ
  pub organization_id : ℕ
  pub role : Role

pub record LoginResponse : Type 0 where
  pub access_token : ℕ
  pub user : Principal

-- `LoginResult`: a session, or the organizations to select from with the roles there.
pub data LoginResult : Type 0 where
  session : LoginResponse → LoginResult
  select_organization : List (ℕ × Role) → LoginResult

-- The organization is a text, which names none where it is no organization's id.
pub record LoginDto : Type 0 where
  pub email : ℕ
  pub password : ℕ
  pub organization_id : Option ℕ

abbrev pub generic_login_error : AppException
generic_login_error = unauthorized "Credenciais inválidas"

abbrev pub set_reply : CookieChange → Exec Accounts (Unit {0})
set_reply c = modify (λ a. record a { cookie = c })

module _ (env : Env) where
  -- `createRefreshToken` with the family of a rotation, or a new one, as a row to store.
  abbrev pub token_row : ℕ → ℕ → ℕ → ℕ → ℕ → RefreshTokenRow
  token_row now user_id organization_id token_id family_id = record {
    id = token_id;
    user_id = user_id;
    organization_id = organization_id;
    family_id = family_id;
    token_hash = env.hash_token (env.sign_refresh user_id organization_id family_id token_id now);
    expires_at = now + env.refresh_ttl_ms;
    revoked_at = none;
    replaced_by_token_id = none;
  }

  abbrev pub response : ℕ → Principal → LoginResponse
  response now p = record {
    access_token = env.sign_access p.user_id p.organization_id p.role p.email now;
    user = p;
  }

  -- Stores the row and hands its token out.
  unfoldable pub store_token : RefreshTokenRow → ℕ → LoginResponse → Exec Accounts LoginResponse
  store_token row token r = do insert_refresh_token row; set_reply (set_cookie token); pure r

  -- `issueSession`
  unfoldable pub issue_session : ℕ → Principal → Exec Accounts LoginResponse
  unfolding new_id
  issue_session now p = do
    token_id ← new_id
    family_id ← new_id
    store_token (token_row now p.user_id p.organization_id token_id family_id)
        (env.sign_refresh p.user_id p.organization_id family_id token_id now) (response now p)

  abbrev pub principal : UserRow → MembershipRow → Principal
  principal u m = record {
    user_id = u.id;
    email = u.email;
    display_name = u.display_name;
    organization_id = m.organization_id;
    role = m.role;
  }

  abbrev pub log_in_to : ℕ → ℕ → UserRow → MembershipRow → Exec Accounts LoginResult
  log_in_to now email u m = do
    clear_identifier_limit LimitKind.login email
    opened ← issue_session now (principal u m)
    pure (session opened)

  -- The membership that the session is for, of those that are active.
  abbrev pub select_membership :
      ℕ → ℕ → UserRow → Option ℕ → List MembershipRow → Exec Accounts LoginResult
  select_membership now email u wanted [] = raise generic_login_error
  select_membership now email u (some org) (m ∷ ms) = do
    chosen ← require (find (λ r. r.organization_id == org) (m ∷ ms)) generic_login_error
    log_in_to now email u chosen
  select_membership now email u none (m ∷ []) = log_in_to now email u m
  select_membership now email u none (m ∷ n ∷ ms) = do
    clear_identifier_limit LimitKind.login email
    pure (select_organization (map (λ r. (r.organization_id, r.role)) (m ∷ n ∷ ms)))

  -- `login`; for an unknown user it verifies against a dummy hash, whose result it ignores.
  unfoldable pub login : ℕ → LoginDto → Exec Accounts LoginResult
  unfolding enforce_identifier_limit find_user_by_email find_active_memberships
      clear_identifier_limit issue_session
  login now dto = do
    let email = env.trim (env.lower dto.email)
    enforce_identifier_limit env now LimitKind.login email
    found ← gets (find_user_by_email env email)
    user ← require found generic_login_error
    ensure (env.verify_password user.password_hash dto.password && user.is_active)
        generic_login_error
    memberships ← gets (find_active_memberships user.id)
    select_membership now email user dto.organization_id memberships

  -- `clearRefreshCookie(res); throw AppException.unauthorized(…)`
  abbrev pub refuse : {A : Type 0} → String → Exec Accounts A
  refuse m = set_reply cleared >> raise (unauthorized m)

  abbrev pub revoke_and_refuse : {A : Type 0} → ℕ → ℕ → Exec Accounts A
  revoke_and_refuse now family_id = revoke_family now family_id >> refuse "Sessão inválida"

  abbrev pub active_user : Option UserRow → Option UserRow
  active_user none = none
  active_user (some u) = if u.is_active then some u else none

  -- What follows the rotation: a lost race counts as a reuse.
  abbrev pub hand_out :
      ℕ → RefreshTokenRow → RefreshTokenRow → LoginResponse → Bool → Exec Accounts LoginResponse
  hand_out now stored next r true =
      set_reply
        (set_cookie (env.sign_refresh next.user_id next.organization_id next.family_id next.id now))
      >> pure r
  hand_out now stored next r false = revoke_and_refuse now stored.family_id

  -- The rotation within the family.
  unfoldable pub rotate_session :
      ℕ → RefreshTokenRow → UserRow → MembershipRow → Exec Accounts LoginResponse
  unfolding new_id
  rotate_session now stored user membership = do
    token_id ← new_id
    let next = token_row now user.id stored.organization_id token_id stored.family_id
    rotated ← rotate_refresh_token now stored.id next
    hand_out now stored next (response now (principal user membership)) rotated

  -- The user must still be active in the organization that the token was issued for.
  abbrev pub with_member :
      ℕ → RefreshTokenRow → UserRow → Option MembershipRow → Exec Accounts LoginResponse
  with_member now stored user none = refuse "Sessão inválida"
  with_member now stored user (some m) = rotate_session now stored user m

  abbrev pub with_user : ℕ → RefreshTokenRow → Option UserRow → Exec Accounts LoginResponse
  with_user now stored none = refuse "Sessão inválida"
  with_user now stored (some u) =
      gets (find_active_membership_for_org u.id stored.organization_id) >>= with_member now stored u

  -- A row that was already rotated or revoked takes its family with it.
  abbrev pub with_stored : ℕ → Option RefreshTokenRow → Exec Accounts LoginResponse
  with_stored now none = refuse "Sessão inválida"
  with_stored now (some t) =
      if is_some t.revoked_at
      then revoke_and_refuse now t.family_id
      else (if ltb t.expires_at now
          then refuse "Sessão expirada"
          else gets (find_user_by_id t.user_id) >>= (λ u. with_user now t (active_user u)))

  -- `refresh`, from the cookie of the request.
  unfoldable pub refresh : ℕ → Option ℕ → Exec Accounts LoginResponse
  unfolding find_refresh_token_by_hash find_user_by_id find_active_membership_for_org rotate_session
  refresh now none = raise (unauthorized "Sessão ausente")
  refresh now (some raw) =
      if env.verify_refresh raw now
      then gets (find_refresh_token_by_hash (env.hash_token raw)) >>= with_stored now
      else refuse "Sessão inválida"

  abbrev pub revoke_stored : ℕ → Option RefreshTokenRow → Exec Accounts (Unit {0})
  revoke_stored now none = pure tt
  revoke_stored now (some t) = revoke_family now t.family_id

  abbrev pub revoke_presented : ℕ → Option ℕ → Exec Accounts (Unit {0})
  revoke_presented now none = pure tt
  revoke_presented now (some raw) = do
    stored ← gets (find_refresh_token_by_hash (env.hash_token raw))
    revoke_stored now stored

  -- `logout`
  unfoldable pub logout : ℕ → Option ℕ → Exec Accounts (Unit {0})
  unfolding find_refresh_token_by_hash
  logout now cookie = revoke_presented now cookie >> set_reply cleared
