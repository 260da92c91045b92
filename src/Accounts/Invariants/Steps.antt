-- ===== src/Accounts/Invariants/Steps.antt =====
-- Histories of accounts: the requests to auth.service.ts and orgs.service.ts, in any order and at any
-- times, and what every history keeps.
use orbitplay_api.Prelude.{ℕ, Option, List}
use orbitplay_api.Uuid.{Text}
use orbitplay_api.Eligibility.{Date}
use orbitplay_api.Accounts.{
  Role, MembershipStatus, Env, MembershipRow, RefreshTokenRow, Accounts, CookieChange,
}
use orbitplay_api.Accounts.Orgs.Service.{
  UpdateOrgInput, update_current, InviteMemberInput, invite_member, change_role, change_status,
  remove,
}
use orbitplay_api.Accounts.Auth.{LoginDto, login, refresh, logout}
use orbitplay_api.Accounts.Auth.Recovery.{
  forgot_password, trigger_member_password_reset, reset_password,
}
use orbitplay_api.Accounts.Auth.Signup.{
  SignupInput, Slugs, signup_studio, signup_player, check_signup_availability,
}
use orbitplay_api.Accounts.Invariants.{At, Writes}
use orbitplay_api.Accounts.Invariants.Sessions.{Keeps-login, Keeps-logout, Keeps-refresh}
use orbitplay_api.Accounts.Invariants.Handlers.{
  Keeps-change_role, Keeps-change_status, Keeps-remove, Keeps-update_current, Keeps-invite,
  Keeps-forgot, Keeps-trigger, Keeps-reset, Keeps-signup_studio, Keeps-signup_player,
  Keeps-availability,
}

module _ (env : Env) (slugs : Slugs) where
  -- One request, with what it leaves behind.
  pub data Step : Accounts → Accounts → Type 0 where
    logs_in : (now : ℕ) (dto : LoginDto) (a : Accounts) → Step a (login env now dto a).1
    refreshes : (now : ℕ) (cookie : Option ℕ) (a : Accounts) → Step a (refresh env now cookie a).1
    logs_out : (now : ℕ) (cookie : Option ℕ) (a : Accounts) → Step a (logout env now cookie a).1
    forgets : (now raw email : ℕ) (a : Accounts) → Step a (forgot_password env now raw email a).1
    resets :
        (now salt token password : ℕ) (a : Accounts)
        → Step a (reset_password env now salt token password a).1
    signs_up_studio :
        (now : ℕ) (today : Date) (salt : ℕ) (dto : SignupInput) (a : Accounts)
        → Step a (signup_studio env slugs now today salt dto a).1
    signs_up_player :
        (now : ℕ) (today : Date) (salt : ℕ) (dto : SignupInput) (a : Accounts)
        → Step a (signup_player env slugs now today salt dto a).1
    asks_email :
        (now email : ℕ) (a : Accounts) → Step a (check_signup_availability env slugs now email a).1
    updates_organization :
        (org : ℕ) (dto : UpdateOrgInput) (a : Accounts) → Step a (update_current org dto a).1
    invites :
        (org : ℕ) (caller : Role) (dto : InviteMemberInput) (salt random : ℕ) (a : Accounts)
        → Step a (invite_member env org caller dto salt random a).1
    changes_role :
        (org : ℕ) (target : Text) (r : Role) (a : Accounts) → Step a (change_role org target r a).1
    changes_status :
        (org caller : ℕ) (target : Text) (s : MembershipStatus) (a : Accounts)
        → Step a (change_status org caller target s a).1
    removes :
        (now org caller : ℕ) (target : Text) (a : Accounts)
        → Step a (remove now org caller target a).1
    triggers_reset :
        (now raw org : ℕ) (target : Text) (a : Accounts)
        → Step a (trigger_member_password_reset env now raw org target a).1
    -- a new request begins with no cookie set
    begins : (a : Accounts) → Step a (record a { cookie = CookieChange.untouched })

  pub data Reach : Accounts → Accounts → Type 0 where
    stay : (a : Accounts) → Reach a a
    then_step : {a b c : Accounts} → Reach a b → Step b c → Reach a c

  module _ (R : List MembershipRow → List RefreshTokenRow → ℕ → Type 0) (K : Writes R) where
    pub Step-keeps : (a b : Accounts) → Step a b → At R a → At R b
    Step-keeps _ _ (logs_in now dto a) h = (Keeps-login R K env now dto).at a h
    Step-keeps _ _ (refreshes now cookie a) h = (Keeps-refresh R K env now cookie).at a h
    Step-keeps _ _ (logs_out now cookie a) h = (Keeps-logout R K env now cookie).at a h
    Step-keeps _ _ (forgets now raw email a) h = (Keeps-forgot R K env now raw email).at a h
    Step-keeps _ _ (resets now salt token password a) h =
        (Keeps-reset R K env now salt token password).at a h
    Step-keeps _ _ (signs_up_studio now today salt dto a) h =
        (Keeps-signup_studio R K env slugs now today salt dto).at a h
    Step-keeps _ _ (signs_up_player now today salt dto a) h =
        (Keeps-signup_player R K env slugs now today salt dto).at a h
    Step-keeps _ _ (asks_email now email a) h = (Keeps-availability R K env slugs now email).at a h
    Step-keeps _ _ (updates_organization org dto a) h = (Keeps-update_current R K org dto).at a h
    Step-keeps _ _ (invites org caller dto salt random a) h =
        (Keeps-invite R K env org caller dto salt random).at a h
    Step-keeps _ _ (changes_role org target r a) h = (Keeps-change_role R K org target r).at a h
    Step-keeps _ _ (changes_status org caller target s a) h =
        (Keeps-change_status R K org caller target s).at a h
    Step-keeps _ _ (removes now org caller target a) h =
        (Keeps-remove R K now org caller target).at a h
    Step-keeps _ _ (triggers_reset now raw org target a) h =
        (Keeps-trigger R K env now raw org target).at a h
    Step-keeps _ _ (begins a) h = h

    pub Reach-keeps : (a b : Accounts) → Reach a b → At R a → At R b
    Reach-keeps _ _ (stay a) h = h
    Reach-keeps _ _ (then_step {a} {b} {c} r s) h = Step-keeps b c s (Reach-keeps a b r h)
