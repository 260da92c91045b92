-- ===== src/Accounts.antt =====
-- infra/database/schema/{users,organizations,memberships,refresh-tokens,password-reset-tokens}.ts:
-- the tables behind accounts, with the state that their handlers keep beside them: the attempt
-- counters of Redis, the mails sent and what the reply does to the refresh cookie.
--
-- An email, a name, a slug, a password, a hash and a token are texts that the code only compares and
-- passes on, so each is a number that stands for the text. A role's row is known by its unique key.
pub mod Tokens
pub mod Limits
pub mod Orgs
pub mod Auth
pub mod Invariants
pub mod Owners
pub mod Families
pub mod Reuse
pub mod Logins
pub mod Attempts
pub mod Resets
pub mod Adults
use orbitplay_api.Prelude.{
  ℕ, ◌+◌, suc, Bool, true, false, Option, none, some, List, [], ◌∷◌, ◌++◌, any, ltb, ◌==◌,
  if◌then◌else◌, is_none,
}
use orbitplay_api.Errors.{Result, ok, err, Failure, violates, UniqueIndex, AppException, app}
use orbitplay_api.Exec.{Exec, fail, modify}
use orbitplay_api.Eligibility.{Date}

pub data Role : Type 0 where
  owner admin studio player : Role

pub data MembershipStatus : Type 0 where
  active invited disabled : MembershipStatus

abbrev pub is_owner : Role → Bool
is_owner owner = true
is_owner _ = false

abbrev pub role_eq : Role → Role → Bool
role_eq owner owner = true
role_eq admin admin = true
role_eq studio studio = true
role_eq player player = true
role_eq _ _ = false

abbrev pub is_active_status : MembershipStatus → Bool
is_active_status active = true
is_active_status _ = false

abbrev pub is_invited : MembershipStatus → Bool
is_invited invited = true
is_invited _ = false

pub data LimitKind : Type 0 where
  login forgot availability : LimitKind

-- What the code takes from other libraries: text functions of the language and of the database,
-- argon2 with its salt, SHA-256, and the signing and the check of tokens, which depend on the time.
-- The figures stand in the configuration.
pub record Env : Type 0 where
  pub lower : ℕ → ℕ
  pub trim : ℕ → ℕ
  pub sql_lower : ℕ → ℕ
  pub hash_password : ℕ → ℕ → ℕ
  pub verify_password : ℕ → ℕ → Bool
  pub hash_token : ℕ → ℕ
  pub sign_access : ℕ → ℕ → Role → ℕ → ℕ → ℕ
  pub sign_refresh : ℕ → ℕ → ℕ → ℕ → ℕ → ℕ
  pub verify_refresh : ℕ → ℕ → Bool
  pub refresh_ttl_ms : ℕ
  pub password_reset_ttl_ms : ℕ
  -- `limit` and `ttl` of each kind of attempt, the time in milliseconds
  pub limit : LimitKind → ℕ
  pub limit_ttl_ms : LimitKind → ℕ

pub record UserRow : Type 0 where
  pub id : ℕ
  pub email : ℕ
  pub password_hash : ℕ
  pub display_name : ℕ
  pub birthdate : Option Date
  pub is_active : Bool
  pub deleted_at : Option ℕ

pub record OrganizationRow : Type 0 where
  pub id : ℕ
  pub name : ℕ
  pub slug : ℕ
  pub owner_user_id : ℕ
  pub deleted_at : Option ℕ

pub record MembershipRow : Type 0 where
  pub id : ℕ
  pub organization_id : ℕ
  pub user_id : ℕ
  pub role : Role
  pub status : MembershipStatus
  pub deleted_at : Option ℕ

-- `ip` and `user_agent`, which no code reads, are left out.
pub record RefreshTokenRow : Type 0 where
  pub id : ℕ
  pub user_id : ℕ
  pub organization_id : ℕ
  pub family_id : ℕ
  pub token_hash : ℕ
  pub expires_at : ℕ
  pub revoked_at : Option ℕ
  pub replaced_by_token_id : Option ℕ

pub record PasswordResetTokenRow : Type 0 where
  pub id : ℕ
  pub user_id : ℕ
  pub token_hash : ℕ
  pub expires_at : ℕ
  pub used_at : Option ℕ

pub record AccountsDb : Type 0 where
  -- the keys of the role catalogue
  pub roles : List Role
  pub users : List UserRow
  pub organizations : List OrganizationRow
  pub memberships : List MembershipRow
  pub refresh_tokens : List RefreshTokenRow
  pub reset_tokens : List PasswordResetTokenRow

-- A counter of Redis, the key `${kind}:id:${email}`.
pub record LimitRow : Type 0 where
  pub kind : LimitKind
  pub email : ℕ
  pub count : ℕ
  pub expires_at : Option ℕ

-- A mail, by its recipient: an invitation with the organization's name, or a reset link with the
-- raw token.
pub data Mail : Type 0 where
  invitation : ℕ → ℕ → Mail
  password_reset : ℕ → ℕ → Mail

-- What the reply does to the refresh cookie.
pub data CookieChange : Type 0 where
  untouched cleared : CookieChange
  set_cookie : ℕ → CookieChange

pub record Accounts : Type 0 where
  pub db : AccountsDb
  pub open db use *
  pub limits : List LimitRow
  pub mails : List Mail
  pub cookie : CookieChange
  -- the next id that `newId()` returns; its UUIDs never repeat
  pub next_id : ℕ

module _ {A : Type 0} where
  abbrev pub settle : Result A → Accounts → Accounts → Result A × Accounts
  settle (ok a) before after = (ok a, after)
  settle (err e) before after = (err e, record after { db = before.db })

  -- `db.transaction(fn)`: a raise takes back every write to the database.
  unfoldable pub atomically : Exec Accounts A → Exec Accounts A
  atomically m a = settle (m a).0 a (m a).1

-- `newId()`
unfoldable pub new_id : Exec Accounts ℕ
new_id a = (ok a.next_id, record a { next_id = suc a.next_id })

-- An `insert`, from whether its primary key is taken and whether its other unique index is.
unfoldable pub insert_row :
    Bool → Bool → UniqueIndex → (Accounts → Accounts) → Exec Accounts (Unit {0})
unfolding fail modify
insert_row true taken i write = fail (violates UniqueIndex.primary_key)
insert_row false true i write = fail (violates i)
insert_row false false i write = modify write

abbrev pub same_member : ℕ → ℕ → MembershipRow → Bool
same_member organization_id user_id m =
    if m.organization_id == organization_id then m.user_id == user_id else false

-- `insert(memberships)`, under the primary key and `memberships_org_user_unique`.
unfoldable pub insert_membership : MembershipRow → Exec Accounts (Unit {0})
insert_membership m a =
    insert_row (any (λ r. r.id == m.id) a.memberships)
      (any (same_member m.organization_id m.user_id) a.memberships) UniqueIndex.memberships_org_user
      (λ a. record a { db = record a.db { memberships = a.memberships ++ m ∷ [] } }) a

-- `insert(users)`, under the primary key and `users_email_unique`.
unfoldable pub insert_user : UserRow → Exec Accounts (Unit {0})
insert_user u a =
    insert_row (any (λ r. r.id == u.id) a.users) (any (λ r. r.email == u.email) a.users)
      UniqueIndex.users_email (λ a. record a { db = record a.db { users = a.users ++ u ∷ [] } }) a

-- `insert(organizations)`, under the primary key and `organizations_slug_unique`.
unfoldable pub insert_organization : OrganizationRow → Exec Accounts (Unit {0})
insert_organization o a =
    insert_row (any (λ r. r.id == o.id) a.organizations)
      (any (λ r. r.slug == o.slug) a.organizations) UniqueIndex.organizations_slug
      (λ a. record a { db = record a.db { organizations = a.organizations ++ o ∷ [] } }) a

abbrev pub has_role : Role → List Role → Bool
has_role r xs = any (role_eq r) xs
