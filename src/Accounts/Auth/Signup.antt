-- ===== src/Accounts/Auth/Signup.antt =====
-- modules/auth: signing up a studio or a player, and the age that it takes (age.ts).
use orbitplay_api.Prelude.{
  ℕ, ◌+◌, Bool, true, not, ◌&&◌, ◌||◌, none, some, [], ◌∷◌, leb, ltb, ◌==◌, if◌then◌else◌,
}
use orbitplay_api.Errors.{
  Failure, repository, RepositoryError, is_email_already_taken, violates_email, violates_slug,
  conflict, validation, named, Message,
}
use orbitplay_api.Exec.{Exec, fail, raise, gets, ensure, catch, ◌>>=◌, ◌>>◌}
use orbitplay_api.Eligibility.{Date, is_before, is_leap_year, utc_date}
use orbitplay_api.Accounts.{
  Role, owner, player, active, Env, LimitKind, Accounts, atomically, new_id, insert_user,
  insert_organization, insert_membership,
}
use orbitplay_api.Accounts.Tokens.{email_exists}
use orbitplay_api.Accounts.Limits.{enforce_identifier_limit}
use orbitplay_api.Accounts.Orgs.{require_role}
use orbitplay_api.Accounts.Auth.{LoginResponse, issue_session}

-- The days of a month, or none for a number that is no month.
abbrev pub days_in_month : ℕ → ℕ → ℕ
days_in_month year month =
    if month == 2
    then if is_leap_year year then 29 else 28
    else if (month == 4) || (month == 6) || (month == 9) || (month == 11)
    then 30
    else if (month == 0) || ltb 12 month
    then 0
    else 31

-- Whether `new Date(Date.UTC(year, month - 1, day))` gives back the same year, month and day; a year
-- below 100 counts from 1900 there.
abbrev pub is_calendar_date : Date → Bool
is_calendar_date d = leb 100 d.year && leb 1 d.day && leb d.day (days_in_month d.year d.month)

-- `isAtLeast18`, of a text that has the form `YYYY-MM-DD`.
unfoldable pub is_at_least_18 : Date → Date → Bool
is_at_least_18 today birth =
    is_calendar_date birth
    && not (is_before today birth)
    && not (is_before today (utc_date (birth.year + 18) birth.month birth.day))

pub record SignupInput : Type 0 where
  pub email : ℕ
  pub password : ℕ
  pub display_name : ℕ
  pub birthdate : Date
  pub organization_name : ℕ

-- `CreateStudioAccountInput`, which is also `CreatePlayerAccountInput`.
pub record CreateAccountInput : Type 0 where
  pub user_id : ℕ
  pub email : ℕ
  pub password_hash : ℕ
  pub display_name : ℕ
  pub birthdate : Date
  pub organization_id : ℕ
  pub organization_name : ℕ
  pub organization_slug : ℕ

-- `insertStudioAccount` and `insertPlayerAccount`, which differ in the role only.
unfoldable pub insert_account : Role → CreateAccountInput → ℕ → Exec Accounts (Unit {0})
unfolding insert_user insert_organization insert_membership new_id
insert_account role input slug = atomically (do
  insert_user (record {
    id = input.user_id;
    email = input.email;
    password_hash = input.password_hash;
    display_name = input.display_name;
    birthdate = some input.birthdate;
    is_active = true;
    deleted_at = none;
  })
  insert_organization (record {
    id = input.organization_id;
    name = input.organization_name;
    slug = slug;
    owner_user_id = input.user_id;
    deleted_at = none;
  })
  id ← new_id
  insert_membership (record {
    id = id;
    organization_id = input.organization_id;
    user_id = input.user_id;
    role = role;
    status = active;
    deleted_at = none;
  }))

abbrev pub email_taken : Failure → Exec Accounts (Unit {0})
email_taken e =
    if violates_email e then fail (repository RepositoryError.email_already_taken) else fail e

-- The texts that are made from others: the slug of a studio by its name or its id (`slugifyOrgName`),
-- the slug and the name of a player's organization, and a slug with the digits of a new id behind it.
pub record Slugs : Type 0 where
  pub of_name : ℕ → ℕ → ℕ
  pub of_player : ℕ → ℕ
  pub name_of_player : ℕ → ℕ
  pub with_suffix : ℕ → ℕ → ℕ

module _ (env : Env) (slugs : Slugs) where
  abbrev pub retry_slug : Role → CreateAccountInput → Failure → Exec Accounts (Unit {0})
  retry_slug role input e =
      if violates_email e
      then fail (repository RepositoryError.email_already_taken)
      else if violates_slug e
      then (new_id >>= (λ id.
          catch (insert_account role input (slugs.with_suffix input.organization_slug id))
            email_taken))
      else fail e

  -- `createStudioAccount` and `createPlayerAccount`
  unfoldable pub create_account : Role → CreateAccountInput → Exec Accounts (Unit {0})
  unfolding require_role insert_account new_id
  create_account role input = do
    require_role role
    catch (insert_account role input input.organization_slug) (retry_slug role input)

  abbrev pub email_conflict : Failure → Exec Accounts (Unit {0})
  email_conflict e =
      if is_email_already_taken e then raise (conflict "E-mail já cadastrado") else fail e

  abbrev pub require_age : Date → Date → Exec Accounts (Unit {0})
  require_age today birthdate = ensure (is_at_least_18 today birthdate) (
      validation "É necessário ter 18 anos ou mais para se cadastrar" (
        (named "birthdate", Message.text "É necessário ter 18 anos ou mais para se cadastrar")
        ∷ []))

  abbrev pub open_account : ℕ → Role → CreateAccountInput → Exec Accounts LoginResponse
  open_account now role input = do
    catch (create_account role input) email_conflict
    issue_session env now (record {
      user_id = input.user_id;
      email = input.email;
      display_name = input.display_name;
      organization_id = input.organization_id;
      role = role;
    })

  -- `signupStudio`
  unfoldable pub signup_studio : ℕ → Date → ℕ → SignupInput → Exec Accounts LoginResponse
  unfolding is_at_least_18 create_account new_id issue_session
  signup_studio now today salt dto = do
    require_age today dto.birthdate
    user_id ← new_id
    organization_id ← new_id
    open_account now owner (record {
      user_id = user_id;
      email = env.trim (env.lower dto.email);
      password_hash = env.hash_password salt dto.password;
      display_name = env.trim dto.display_name;
      birthdate = dto.birthdate;
      organization_id = organization_id;
      organization_name = env.trim dto.organization_name;
      organization_slug = slugs.of_name dto.organization_name organization_id;
    })

  -- `signupPlayer`; the organization is named after the player.
  unfoldable pub signup_player : ℕ → Date → ℕ → SignupInput → Exec Accounts LoginResponse
  unfolding is_at_least_18 create_account new_id issue_session
  signup_player now today salt dto = do
    require_age today dto.birthdate
    user_id ← new_id
    organization_id ← new_id
    open_account now player (record {
      user_id = user_id;
      email = env.trim (env.lower dto.email);
      password_hash = env.hash_password salt dto.password;
      display_name = env.trim dto.display_name;
      birthdate = dto.birthdate;
      organization_id = organization_id;
      organization_name = slugs.name_of_player (env.trim dto.display_name);
      organization_slug = slugs.of_player organization_id;
    })

  -- `checkSignupAvailability`
  unfoldable pub check_signup_availability : ℕ → ℕ → Exec Accounts Bool
  unfolding enforce_identifier_limit email_exists
  check_signup_availability now raw_email = do
    let email = env.trim (env.lower raw_email)
    enforce_identifier_limit env now LimitKind.availability email
    gets (λ a. not (email_exists env email a))
