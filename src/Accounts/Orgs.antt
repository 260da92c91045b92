-- ===== src/Accounts/Orgs.antt =====
-- modules/orgs: the members of an organization, orgs.repository.ts and orgs.service.ts.
-- Searching by name and the audit trail are left out. This file is the repository.
pub mod Service
use orbitplay_api.Prelude.{
  ℕ, Bool, true, false, not, ◌&&◌, ◌||◌, String, Option, none, some, List, [], ◌∷◌, any, find,
  filter, length, get, get_or, update, is_none, leb, ◌==◌, option_map, if◌then◌else◌,
}
use orbitplay_api.Uuid.{Text, uuid, text_eq, as_uuid}
use orbitplay_api.Errors.{
  Failure, error, violates, repository, RepositoryError, UniqueIndex, not_found, conflict,
  forbidden,
}
use orbitplay_api.Exec.{Exec, pure, fail, raise, gets, require, modify, ensure, catch, ◌>>=◌, ◌>>◌}
use orbitplay_api.Accounts.{
  Role, owner, MembershipStatus, active, invited, disabled, is_owner, is_active_status, is_invited,
  has_role, UserRow, OrganizationRow, MembershipRow, Accounts, Mail, invitation, atomically, new_id,
  insert_user, insert_membership, role_eq,
}

-- What a member shows to the organization.
pub record MemberView : Type 0 where
  pub user_id : ℕ
  pub email : ℕ
  pub display_name : ℕ
  pub role : Role
  pub status : MembershipStatus

-- A member as `findMembershipForUpdate` reads it.
pub record MemberRecord : Type 0 where
  pub membership_id : ℕ
  pub view : MemberView
  pub open view use *

-- An invited member shows the email that the organization typed, else the account's name.
abbrev pub member_display_name : MembershipRow → UserRow → ℕ
member_display_name m u = if is_invited m.status then u.email else u.display_name

abbrev pub member_view : MembershipRow → UserRow → MemberView
member_view m u = record {
  user_id = u.id;
  email = u.email;
  display_name = member_display_name m u;
  role = m.role;
  status = m.status;
}

abbrev pub is_membership : ℕ → ℕ → MembershipRow → Bool
is_membership organization_id user_id m =
    (m.organization_id == organization_id) && (m.user_id == user_id) && is_none m.deleted_at

-- The inner join with the user.
abbrev pub member_of : Option MembershipRow → Accounts → Option MemberRecord
member_of none a = none
member_of (some m) a =
    option_map (λ u. record { membership_id = m.id; view = member_view m u })
      (get UserRow.id m.user_id a.users)

unfoldable pub find_membership_for_update : ℕ → ℕ → Accounts → Option MemberRecord
unfolding get
find_membership_for_update organization_id user_id a =
    member_of (find (is_membership organization_id user_id) a.memberships) a

abbrev pub is_active_owner : ℕ → MembershipRow → Bool
is_active_owner organization_id m =
    (m.organization_id == organization_id)
    && is_owner m.role
    && is_active_status m.status
    && is_none m.deleted_at

unfoldable pub lock_active_owners : ℕ → Accounts → List MembershipRow
lock_active_owners organization_id a = filter (is_active_owner organization_id) a.memberships

-- `findRoleIdByKey`, or the error for a catalogue without the role.
unfoldable pub require_role : Role → Exec Accounts (Unit {0})
unfolding fail pure
require_role r a =
    if has_role r a.roles
    then pure tt a
    else fail (error "Role missing from catalogue — run db:migrate") a

-- `update(memberships).set(f).where(id)`
unfoldable pub update_membership : ℕ → (MembershipRow → MembershipRow) → Exec Accounts (Unit {0})
unfolding update
update_membership id f = modify (λ a. record a {
  db = record a.db { memberships = update MembershipRow.id id f a.memberships };
})

-- `if (losesAnActiveOwner && activeOwners.length <= 1) throw new LastOwnerError()`
unfoldable pub keep_an_owner : Bool → List MembershipRow → Exec Accounts (Unit {0})
unfolding pure fail
keep_an_owner loses owners =
    if loses && leb (length owners) 1 then fail (repository RepositoryError.last_owner) else pure tt

-- Whether the member is an active owner of the organization.
abbrev pub counts_as_owner : MemberRecord → Bool
counts_as_owner current = is_owner current.role && is_active_status current.status

-- A change of the member's row under the locks, from the member that is found.
unfoldable pub locked_member :
    {A : Type 0}
    → ℕ
    → ℕ
    → (MemberRecord → List MembershipRow → Exec Accounts A)
    → Exec Accounts (Option A)
unfolding find_membership_for_update lock_active_owners
locked_member organization_id user_id change = atomically (do
  active_owners ← gets (lock_active_owners organization_id)
  current ← gets (find_membership_for_update organization_id user_id)
  elim current [
    | none ↦ pure none
    | some member ↦ change member active_owners >>= (λ r. pure (some r))
  ])

pub record RoleChangeResult : Type 0 where
  pub previous_role : Role
  pub member : MemberView

-- `changeMemberRole`
unfoldable pub change_role_row :
    Role → MemberRecord → List MembershipRow → Exec Accounts RoleChangeResult
unfolding keep_an_owner update_membership
change_role_row role current active_owners = do
  keep_an_owner (counts_as_owner current && not (is_owner role)) active_owners
  update_membership current.membership_id (λ m. record m { role = role })
  pure (record { previous_role = current.role; member = record current.view { role = role } })

pub record StatusChangeResult : Type 0 where
  pub previous_status : MembershipStatus
  pub member : MemberView

-- `if (current.status === 'invited') throw new PendingInviteError()`
abbrev pub settled_invite : MembershipStatus → Exec Accounts (Unit {0})
settled_invite s =
    if is_invited s then fail (repository RepositoryError.pending_invite) else pure tt

-- `changeMemberStatus`
unfoldable pub change_status_row :
    MembershipStatus → MemberRecord → List MembershipRow → Exec Accounts StatusChangeResult
unfolding keep_an_owner update_membership
change_status_row status current active_owners = do
  settled_invite current.status
  keep_an_owner (counts_as_owner current && not (is_active_status status)) active_owners
  update_membership current.membership_id (λ m. record m { status = status })
  pure (record {
    previous_status = current.status;
    member = record current.view { status = status };
  })

-- `removeMember`
unfoldable pub remove_row : ℕ → MemberRecord → List MembershipRow → Exec Accounts MembershipStatus
unfolding keep_an_owner update_membership
remove_row now current active_owners = do
  keep_an_owner (counts_as_owner current) active_owners
  update_membership current.membership_id
      (λ m. record m { status = disabled; deleted_at = some now })
  pure current.status

-- A malformed id is not a member.
abbrev pub for_uuid :
    {A : Type 0} → Text → (ℕ → Exec Accounts (Option A)) → Exec Accounts (Option A)
for_uuid user_id m = elim (as_uuid user_id) [ none ↦ pure none | some i ↦ m i ]

unfoldable pub change_member_role : ℕ → Text → Role → Exec Accounts (Option RoleChangeResult)
unfolding require_role locked_member change_role_row
change_member_role organization_id user_id role = for_uuid user_id (λ id. do
  require_role role
  require_role owner
  locked_member organization_id id (change_role_row role))

unfoldable pub change_member_status :
    ℕ → Text → MembershipStatus → Exec Accounts (Option StatusChangeResult)
unfolding require_role locked_member change_status_row
change_member_status organization_id user_id status =
    for_uuid user_id
      (λ id. do require_role owner; locked_member organization_id id (change_status_row status))

unfoldable pub remove_member : ℕ → ℕ → Text → Exec Accounts (Option MembershipStatus)
unfolding require_role locked_member remove_row
remove_member now organization_id user_id =
    for_uuid user_id
      (λ id. do require_role owner; locked_member organization_id id (remove_row now))
