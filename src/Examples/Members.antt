-- ===== src/Examples/Members.antt =====
-- Runs of accounts: two owners of a studio, a login and its rotation, a recovery and the limits.
use orbitplay_api.Prelude.{
  ℕ, ◌+◌, ◌≤◌, ◌<◌, ◌≡◌, refl, min, true, Option, none, some, [], ◌∷◌, arith, count_if, leb, any,
  get, option_map, ◌==◌,
}
use orbitplay_api.Uuid.{uuid}
use orbitplay_api.Errors.{ok, err, app, unauthorized, validation, named, Message}
use orbitplay_api.Exec.{◌>>=◌}
use orbitplay_api.Eligibility.{Date}
use orbitplay_api.Accounts.{
  Role, MembershipStatus, Env, UserRow, MembershipRow, RefreshTokenRow, Accounts, LimitKind,
  LimitRow, CookieChange, insert_row,
}
use orbitplay_api.Accounts.Tokens.{
  find_user_by_email, find_active_memberships, insert_refresh_token,
}
use orbitplay_api.Accounts.Limits.{find_limit, clear_identifier_limit}
use orbitplay_api.Accounts.Orgs.{is_active_owner}
use orbitplay_api.Accounts.Orgs.Service.{change_role}
use orbitplay_api.Accounts.Auth.{
  LoginDto, LoginResponse, session, principal, response, store_token, login, refresh,
}
use orbitplay_api.Accounts.Auth.Recovery.{reset_password}
use orbitplay_api.Accounts.Auth.Signup.{Slugs, is_at_least_18}
use orbitplay_api.Accounts.Invariants.Steps.{stay, then_step, changes_role, refreshes}
use orbitplay_api.Accounts.Owners.{always_owned}
use orbitplay_api.Accounts.Families.{IsSound, age, lineage, lives_in}
use orbitplay_api.Accounts.Families.Refined.{families_refine}
use orbitplay_api.Accounts.Reuse.{reuse_kills_family}
use orbitplay_api.Accounts.Logins.{is_session_of, login_needs}
use orbitplay_api.Accounts.Attempts.{passes, attempts, limit_exact}
use orbitplay_api.Accounts.Resets.{is_live_of, is_pending_of, is_accepted_of, reset_works_once}
use orbitplay_api.Accounts.Adults.{age_in_years, adult_exact}

-- Texts are numbers here: nothing is changed by `lower` and `trim`, a hash is the text plus 1000, and a
-- refresh token is made of its id.
abbrev test_env : Env
test_env = record {
  lower = λ s. s;
  trim = λ s. s;
  sql_lower = λ s. s;
  hash_password = λ salt s. s + 1000;
  verify_password = λ hash s. hash == (s + 1000);
  hash_token = λ s. s + 1000;
  sign_access = λ user org role email now. user;
  sign_refresh = λ user org family token now. token;
  verify_refresh = λ token now. true;
  refresh_ttl_ms = 10000;
  password_reset_ttl_ms = 1000;
  limit = λ kind. 2;
  limit_ttl_ms = λ kind. 60;
}

abbrev test_slugs : Slugs
test_slugs = record {
  of_name = λ name id. name;
  of_player = λ id. id;
  name_of_player = λ name. name;
  with_suffix = λ slug id. id;
}

abbrev account : ℕ → ℕ → UserRow
account i email = record {
  id = i;
  email = email;
  password_hash = 1007;
  display_name = email;
  birthdate = none;
  is_active = true;
  deleted_at = none;
}

abbrev member : ℕ → ℕ → Role → MembershipStatus → MembershipRow
member i user role status = record {
  id = i;
  organization_id = 30;
  user_id = user;
  role = role;
  status = status;
  deleted_at = none;
}

abbrev token : ℕ → Option ℕ → RefreshTokenRow
token i revoked = record {
  id = i;
  user_id = 1;
  organization_id = 30;
  family_id = 50;
  token_hash = i + 1000;
  expires_at = 90000;
  revoked_at = revoked;
  replaced_by_token_id = none;
}

-- Two owners, and a third member whose invitation is pending; a family whose first token was rotated.
abbrev studio : Accounts
studio = record {
  db = record {
    roles = Role.owner ∷ Role.admin ∷ Role.studio ∷ Role.player ∷ [];
    users = account 1 11 ∷ account 2 12 ∷ account 3 13 ∷ [];
    organizations =
        record { id = 30; name = 300; slug = 300; owner_user_id = 1; deleted_at = none } ∷ [];
    memberships =
        member 61 1 Role.owner MembershipStatus.active
        ∷ member 62 2 Role.owner MembershipStatus.active
        ∷ member 63 3 Role.admin MembershipStatus.invited
        ∷ [];
    refresh_tokens = token 71 (some 5) ∷ token 72 none ∷ [];
    reset_tokens =
        record { id = 81; user_id = 3; token_hash = 1099; expires_at = 500; used_at = none } ∷ [];
  };
  limits = [];
  mails = [];
  cookie = CookieChange.untouched;
  next_id = 100;
}

one_key : (i : ℕ) → count_if (λ (m : MembershipRow). m.id == i) studio.memberships ≤ 1
one_key i = ground arith

-- The first owner steps down, and then the second cannot.
abbrev stepped_down : Accounts
stepped_down = (change_role 30 (uuid 1) Role.admin studio).1

always_owned_example :
    1
    ≤ count_if (is_active_owner 30) (change_role 30 (uuid 2) Role.admin stepped_down).1.memberships
always_owned_example =
    always_owned test_env test_slugs 30 studio (change_role 30 (uuid 2) Role.admin stepped_down).1
      (then_step (then_step (stay studio) (changes_role 30 (uuid 1) Role.admin studio))
        (changes_role 30 (uuid 2) Role.admin stepped_down))
      (omega arith) one_key

studio-IsSound : IsSound studio.refresh_tokens studio.next_id
studio-IsSound = record { drawn = omega arith; single = λ f. ground arith }

abbrev refreshed : Accounts
refreshed = (refresh test_env 20 (some 72) studio).1

families_refine_example :
    IsSound refreshed.refresh_tokens refreshed.next_id
    × ((f : ℕ) → age (lineage f studio.refresh_tokens) ≤ age (lineage f refreshed.refresh_tokens))
families_refine_example =
    families_refine test_env test_slugs studio refreshed
      (then_step (stay studio) (refreshes 20 (some 72) studio)) studio-IsSound

-- The rotated token again, and after it the live one.
abbrev replayed : Accounts
replayed = (refresh test_env 21 (some 71) studio).1

reuse_kills_family_example :
    ((refresh test_env 21 (some 71) studio).0 ≡ err (app (unauthorized "Sessão inválida")))
    × (replayed.cookie ≡ CookieChange.cleared)
    × (count_if (lives_in 50) (refresh test_env 22 (some 72) replayed).1.refresh_tokens ≡ 0)
unfolding get
reuse_kills_family_example =
    reuse_kills_family test_env test_slugs 21 71 studio (refresh test_env 22 (some 72) replayed).1
      (token 71 (some 5)) studio-IsSound refl refl refl
      (then_step (stay replayed) (refreshes 22 (some 72) replayed))

abbrev credentials : LoginDto
credentials = record { email = 11; password = 7; organization_id = none }

abbrev signed_in : LoginResponse
signed_in =
    response test_env 20
      (principal test_env (account 1 11) (member 61 1 Role.owner MembershipStatus.active))

signed_in_lem : (login test_env 20 credentials studio).0 ≡ ok (session signed_in)
unfolding login insert_row insert_refresh_token ◌>>=◌ store_token
signed_in_lem = refl

login_needs_example :
    (u : UserRow) × (find_user_by_email test_env 11 studio ≡ some u)
    × ((u.password_hash == 1007) ≡ true)
    × (u.is_active ≡ true)
    × (1 ≡ u.id)
    × (any (is_session_of signed_in.user) (find_active_memberships u.id studio) ≡ true)
login_needs_example = login_needs test_env 20 credentials studio signed_in signed_in_lem

limit_exact_example :
    (passes test_env LimitKind.login 11 (20 ∷ 21 ∷ 22 ∷ 79 ∷ []) studio ≡ min 4 2)
    × ((later : ℕ)
        → later < 20 + test_env.limit_ttl_ms LimitKind.login
        → option_map LimitRow.count (
            find_limit later LimitKind.login 11
              (attempts test_env LimitKind.login 11 (20 ∷ 21 ∷ 22 ∷ 79 ∷ []) studio).limits)
          ≡ some 4)
    × ((later : ℕ)
        → find_limit later LimitKind.login 11
            (clear_identifier_limit LimitKind.login 11
              (attempts test_env LimitKind.login 11 (20 ∷ 21 ∷ 22 ∷ 79 ∷ []) studio)).1.limits
          ≡ none)
unfolding find_limit
limit_exact_example =
    limit_exact test_env LimitKind.login 11 20 (21 ∷ 22 ∷ 79 ∷ []) studio refl (omega arith)

abbrev recovered : Accounts
recovered = (reset_password test_env 20 4 99 8 studio).1

reset_works_once_example :
    ((reset_password test_env 20 4 99 8 studio).0 ≡ ok tt)
    × (get UserRow.id 3 recovered.users
        ≡ option_map
            (λ (u : UserRow). record u { password_hash = 1008 })
            (get UserRow.id 3 studio.users))
    × (count_if (is_live_of 3) recovered.refresh_tokens ≡ 0)
    × (count_if (is_pending_of 3) recovered.memberships ≡ 0)
    × (count_if (is_accepted_of 3) recovered.memberships
        ≡ count_if (is_accepted_of 3) studio.memberships
          + count_if (is_pending_of 3) studio.memberships)
    × ((later salt' password' : ℕ)
        → 20 ≤ later
        → reset_password test_env later salt' 99 password' recovered ≡ (
          err (
              app (
                validation "Token inválido ou expirado"
                  ((named "token", Message.text "Token inválido ou expirado") ∷ []))),
          recovered,
        ))
reset_works_once_example =
    reset_works_once test_env 20 4 99 8 studio
      (record { id = 81; user_id = 3; token_hash = 1099; expires_at = 500; used_at = none }) refl

-- Born on 29 February: 18 on 1 March.
abbrev day : ℕ → ℕ → ℕ → Date
day y m d = record { year = y; month = m; day = d }

adult_exact_example :
    is_at_least_18 (day 2026 2 28) (day 2008 2 29)
    ≡ leb 18 (age_in_years (day 2026 2 28) (day 2008 2 29))
adult_exact_example = adult_exact (day 2026 2 28) (day 2008 2 29) refl refl
