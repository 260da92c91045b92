-- ===== src/Accounts/Orgs/Service.antt =====
-- modules/orgs/orgs.service.ts, with `createInvitedMember` of the repository.
use orbitplay_api.Prelude.{
  ℕ, Bool, true, false, not, ◌&&◌, ◌||◌, Option, none, some, List, [], ◌∷◌, ◌++◌, any, find, get_or,
  update, is_none, ◌==◌, if◌then◌else◌,
}
use orbitplay_api.Uuid.{Text, uuid, text_eq}
use orbitplay_api.Errors.{
  Failure, violates, repository, RepositoryError, UniqueIndex, is_last_owner, is_pending_invite,
  is_member_already_exists, violates_member, violates_email, not_found, conflict, forbidden,
}
use orbitplay_api.Exec.{Exec, pure, fail, raise, gets, require, modify, ensure, catch, ◌>>=◌, ◌>>◌}
use orbitplay_api.Accounts.{
  Role, MembershipStatus, invited, is_owner, Env, UserRow, OrganizationRow, Accounts, Mail,
  invitation, atomically, new_id, insert_user, insert_membership,
}
use orbitplay_api.Accounts.Orgs.{
  MemberView, require_role, change_member_role, change_member_status, remove_member,
}

-- `findById`, of an organization that is not deleted.
abbrev pub is_organization : ℕ → OrganizationRow → Bool
is_organization id o = (o.id == id) && is_none o.deleted_at

unfoldable pub find_organization : ℕ → Accounts → Option OrganizationRow
find_organization id a = find (is_organization id) a.organizations

-- `findBySlug`
unfoldable pub find_by_slug : ℕ → Accounts → Option OrganizationRow
find_by_slug slug a = find (λ o. (o.slug == slug) && is_none o.deleted_at) a.organizations

pub record UpdateOrgInput : Type 0 where
  pub name : Option ℕ
  pub slug : Option ℕ

abbrev pub organization_patch : UpdateOrgInput → OrganizationRow → OrganizationRow
organization_patch dto o = record o { name = get_or dto.name o.name; slug = get_or dto.slug o.slug }

-- Whether another organization, deleted or not, holds the slug: `organizations_slug_unique`.
abbrev pub slug_taken : ℕ → OrganizationRow → List OrganizationRow → Bool
slug_taken slug o rows = any (λ (r : OrganizationRow). (r.slug == slug) && not (r.id == o.id)) rows

abbrev pub write_organization : OrganizationRow → Exec Accounts OrganizationRow
write_organization o a =
    if slug_taken o.slug o a.organizations
    then fail (violates UniqueIndex.organizations_slug) a
    else pure o (record a {
      db = record a.db { organizations = update OrganizationRow.id o.id (λ _. o) a.organizations };
    })

-- `if (clash && clash.id !== organizationId) throw …`, for a slug that changes.
abbrev pub slug_clash : Option ℕ → OrganizationRow → Accounts → Bool
slug_clash none before a = false
slug_clash (some slug) before a =
    not (slug == before.slug)
    && elim (find_by_slug slug a) [ none ↦ false | some o ↦ not (o.id == before.id) ]

-- `updateCurrent`
unfoldable pub update_current : ℕ → UpdateOrgInput → Exec Accounts OrganizationRow
unfolding find_organization find_by_slug update
update_current organization_id dto = do
  found ← gets (find_organization organization_id)
  before ← require found (not_found "Organização não encontrada")
  clash ← gets (slug_clash dto.slug before)
  ensure (not clash) (conflict "Já existe uma organização com o slug")
  if is_none dto.name && is_none dto.slug
      then pure before
      else write_organization (organization_patch dto before)

pub record InviteMemberInput : Type 0 where
  pub email : ℕ
  pub display_name : Option ℕ
  pub role : Role

module _ (env : Env) where
  -- The user with the email, or a new one.
  abbrev pub invited_user : Option UserRow → ℕ → ℕ → ℕ → Exec Accounts ℕ
  invited_user (some u) email display_name password_hash = pure u.id
  invited_user none email display_name password_hash = do
    id ← new_id
    insert_user (record {
      id = id;
      email = email;
      password_hash = password_hash;
      display_name = display_name;
      birthdate = none;
      is_active = true;
      deleted_at = none;
    })
    pure id

  abbrev pub already_member : {A : Type 0} → Failure → Exec Accounts A
  already_member e =
      if violates_member e || violates_email e
      then fail (repository RepositoryError.member_already_exists)
      else fail e

  -- `createInvitedMember`
  unfoldable pub create_invited_member : ℕ → ℕ → ℕ → Role → ℕ → Exec Accounts MemberView
  unfolding require_role insert_user insert_membership new_id
  create_invited_member organization_id email display_name role password_hash = do
    require_role role
    catch
        (atomically (do
          existing ← gets (λ a. find (λ u. env.sql_lower u.email == email) a.users)
          user_id ← invited_user existing email display_name password_hash
          id ← new_id
          insert_membership (record {
            id = id;
            organization_id = organization_id;
            user_id = user_id;
            role = role;
            status = invited;
            deleted_at = none;
          })
          pure (record {
            user_id = user_id;
            email = email;
            display_name = display_name;
            role = role;
            status = invited;
          })))
        already_member

  abbrev pub send_mail : Mail → Exec Accounts (Unit {0})
  send_mail m = modify (λ a. record a { mails = a.mails ++ m ∷ [] })

  abbrev pub member_conflict : {A : Type 0} → Failure → Exec Accounts A
  member_conflict e =
      if is_member_already_exists e
      then raise (conflict "Usuário já é membro da organização")
      else fail e

  -- `inviteMember`; the password that it hashes is random.
  unfoldable pub invite_member : ℕ → Role → InviteMemberInput → ℕ → ℕ → Exec Accounts MemberView
  unfolding find_organization create_invited_member
  invite_member organization_id caller_role dto salt random = do
    ensure (not (is_owner dto.role && not (is_owner caller_role)))
        (forbidden "Somente owners podem convidar owners")
    found ← gets (find_organization organization_id)
    org ← require found (not_found "Organização não encontrada")
    let email = env.trim (env.lower dto.email)
    created ←
        catch
          (create_invited_member organization_id email (get_or dto.display_name email) dto.role
            (env.hash_password salt random))
          member_conflict
    send_mail (invitation created.email org.name)
    pure created

abbrev pub owner_conflict : {A : Type 0} → Failure → Exec Accounts A
owner_conflict e =
    if is_last_owner e
    then raise (conflict "A organização precisa de pelo menos um owner ativo")
    else fail e

abbrev pub status_conflict : {A : Type 0} → Failure → Exec Accounts A
status_conflict e =
    if is_pending_invite e
    then raise (
        conflict
          "Convite pendente: só o convidado o aceita, ao definir a senha. Para cancelar, remova o membro")
    else owner_conflict e

-- `OrgsService.changeMemberRole`
unfoldable pub change_role : ℕ → Text → Role → Exec Accounts MemberView
unfolding change_member_role
change_role organization_id target role = do
  changed ← catch (change_member_role organization_id target role) owner_conflict
  result ← require changed (not_found "Membro não encontrado")
  pure result.member

-- `OrgsService.changeMemberStatus`; the schema admits the statuses `active` and `disabled`.
unfoldable pub change_status : ℕ → ℕ → Text → MembershipStatus → Exec Accounts MemberView
unfolding change_member_status text_eq
change_status organization_id caller target status = do
  ensure (not (text_eq target (uuid caller)))
      (forbidden "Você não pode alterar o status da sua própria membership")
  changed ← catch (change_member_status organization_id target status) status_conflict
  result ← require changed (not_found "Membro não encontrado")
  pure result.member

-- `OrgsService.removeMember`
unfoldable pub remove : ℕ → ℕ → ℕ → Text → Exec Accounts (Unit {0})
unfolding remove_member text_eq
remove now organization_id caller target = do
  ensure (not (text_eq target (uuid caller)))
      (forbidden "Você não pode remover sua própria membership")
  removed ← catch (remove_member now organization_id target) owner_conflict
  before ← require removed (not_found "Membro não encontrado")
  pure tt
