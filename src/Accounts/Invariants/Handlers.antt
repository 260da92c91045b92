-- ===== src/Accounts/Invariants/Handlers.antt =====
-- Each handler of accounts keeps what each of its writes keeps.
use orbitplay_api.Prelude.{ℕ, inl, inr, Option, none, some, List, Bool-cases}
use orbitplay_api.Uuid.{Text}
use orbitplay_api.Exec.{pure, fail}
use orbitplay_api.Eligibility.{Date}
use orbitplay_api.Accounts.{
  Role, MembershipStatus, Env, UserRow, OrganizationRow, MembershipRow, RefreshTokenRow,
}
use orbitplay_api.Accounts.Orgs.{change_member_role, change_member_status, remove_member}
use orbitplay_api.Accounts.Orgs.Service.{
  UpdateOrgInput, update_current, invited_user, InviteMemberInput, create_invited_member,
  invite_member, change_role, change_status, remove, write_organization, slug_taken,
}
use orbitplay_api.Accounts.Auth.Recovery.{
  issue_password_reset_token, forgot_password, trigger_password_reset,
  trigger_member_password_reset, reset_password, mail_active_user, limit_and_mail, reset_done,
}
use orbitplay_api.Accounts.Auth.Signup.{
  SignupInput, CreateAccountInput, Slugs, insert_account, create_account, signup_studio,
  signup_player, check_signup_availability,
}
use orbitplay_api.Accounts.Invariants.Supply.{grow_rules, Grows-invited_user}
use orbitplay_api.Accounts.Invariants.Members.{Keeps-role, Keeps-status, Keeps-leave}
use orbitplay_api.Accounts.Invariants.Sessions.{Keeps-issue}
use orbitplay_api.Accounts.Invariants.{
  Keeps-mails, Writes, AccountsKeep, account_rules, Keeps-atomically,
}

module _ (R : List MembershipRow → List RefreshTokenRow → ℕ → Type 0) (K : Writes R) where
  pub Keeps-change_role :
      (org : ℕ) (target : Text) (r : Role) → AccountsKeep R (change_role org target r)
  unfolding change_role change_member_role
  Keeps-change_role org (Text.uuid i) r = search (account_rules, Keeps-role) depth 40
  Keeps-change_role org (Text.other s) r = search account_rules depth 40

  pub Keeps-change_status :
      (org caller : ℕ) (target : Text) (s : MembershipStatus)
      → AccountsKeep R (change_status org caller target s)
  unfolding change_status change_member_status
  Keeps-change_status org caller (Text.uuid i) s = search (account_rules, Keeps-status) depth 40
  Keeps-change_status org caller (Text.other t) s = search account_rules depth 40

  pub Keeps-remove :
      (now org caller : ℕ) (target : Text) → AccountsKeep R (remove now org caller target)
  unfolding remove remove_member
  Keeps-remove now org caller (Text.uuid i) = search (account_rules, Keeps-leave) depth 40
  Keeps-remove now org caller (Text.other s) = search account_rules depth 40

  Keeps-write_organization : (o : OrganizationRow) → AccountsKeep R (write_organization o)
  unfolding pure fail
  Keeps-write_organization o = record {
    at = λ a h. elim (Bool-cases (slug_taken o.slug o a.organizations)) [
      | inl e ↦ rw e h
      | inr e ↦ rw e h
    ];
  }

  pub Keeps-update_current :
      (org : ℕ) (dto : UpdateOrgInput) → AccountsKeep R (update_current org dto)
  unfolding update_current
  Keeps-update_current org dto = search (account_rules, Keeps-write_organization) depth 40

  Keeps-invited_user :
      (env : Env) (u : Option UserRow) (email name hash : ℕ)
      → AccountsKeep R (invited_user env u email name hash)
  Keeps-invited_user env none email name hash = search account_rules depth 40
  Keeps-invited_user env (some u) email name hash = search account_rules depth 40

  Keeps-create_invited :
      (env : Env) (org email name : ℕ) (r : Role) (hash : ℕ)
      → AccountsKeep R (create_invited_member env org email name r hash)
  unfolding create_invited_member
  Keeps-create_invited env org email name r hash =
      search
        (account_rules, Keeps-atomically R K, Keeps-invited_user, Grows-invited_user, grow_rules)
        depth 40

  pub Keeps-invite :
      (env : Env) (org : ℕ) (caller : Role) (dto : InviteMemberInput) (salt random : ℕ)
      → AccountsKeep R (invite_member env org caller dto salt random)
  unfolding invite_member
  Keeps-invite env org caller dto salt random =
      search (account_rules, Keeps-mails R K, Keeps-create_invited) depth 40

  Keeps-issue_reset :
      (env : Env) (now raw : ℕ) (u : UserRow)
      → AccountsKeep R (issue_password_reset_token env now raw u)
  unfolding issue_password_reset_token
  Keeps-issue_reset env now raw u = search (account_rules, Keeps-mails R K) depth 40

  Keeps-mail_active :
      (env : Env) (now raw : ℕ) (u : Option UserRow)
      → AccountsKeep R (mail_active_user env now raw u)
  Keeps-mail_active env now raw none = search account_rules depth 40
  Keeps-mail_active env now raw (some u) = search (account_rules, Keeps-issue_reset) depth 40

  pub Keeps-forgot :
      (env : Env) (now raw email : ℕ) → AccountsKeep R (forgot_password env now raw email)
  unfolding forgot_password
  Keeps-forgot env now raw email = search (account_rules, Keeps-mail_active) depth 40

  Keeps-limit_and_mail :
      (env : Env) (now raw : ℕ) (u : Option UserRow) → AccountsKeep R (limit_and_mail env now raw u)
  Keeps-limit_and_mail env now raw none = search account_rules depth 40
  Keeps-limit_and_mail env now raw (some u) = search (account_rules, Keeps-issue_reset) depth 40

  Keeps-trigger_reset :
      (env : Env) (now raw i : ℕ) → AccountsKeep R (trigger_password_reset env now raw i)
  unfolding trigger_password_reset
  Keeps-trigger_reset env now raw i = search (account_rules, Keeps-limit_and_mail) depth 40

  pub Keeps-trigger :
      (env : Env) (now raw org : ℕ) (target : Text)
      → AccountsKeep R (trigger_member_password_reset env now raw org target)
  unfolding trigger_member_password_reset
  Keeps-trigger env now raw org target = search (account_rules, Keeps-trigger_reset) depth 40

  Keeps-reset_done : (env : Env) (i : Option ℕ) → AccountsKeep R (reset_done env i)
  Keeps-reset_done env none = search account_rules depth 40
  Keeps-reset_done env (some i) = search account_rules depth 40

  pub Keeps-reset :
      (env : Env) (now salt token password : ℕ)
      → AccountsKeep R (reset_password env now salt token password)
  unfolding reset_password
  Keeps-reset env now salt token password = search (account_rules, Keeps-reset_done) depth 40

  Keeps-insert_account :
      (r : Role) (input : CreateAccountInput) (slug : ℕ)
      → AccountsKeep R (insert_account r input slug)
  unfolding insert_account
  Keeps-insert_account r input slug =
      Keeps-atomically R K _ (search account_rules depth 40) (λ n. search grow_rules depth 40)

  Keeps-create_account :
      (env : Env) (slugs : Slugs) (r : Role) (input : CreateAccountInput)
      → AccountsKeep R (create_account env slugs r input)
  unfolding create_account
  Keeps-create_account env slugs r input = search (account_rules, Keeps-insert_account) depth 40

  pub Keeps-signup_studio :
      (env : Env) (slugs : Slugs) (now : ℕ) (today : Date) (salt : ℕ) (dto : SignupInput)
      → AccountsKeep R (signup_studio env slugs now today salt dto)
  unfolding signup_studio
  Keeps-signup_studio env slugs now today salt dto =
      search (account_rules, Keeps-create_account, Keeps-issue) depth 40

  pub Keeps-signup_player :
      (env : Env) (slugs : Slugs) (now : ℕ) (today : Date) (salt : ℕ) (dto : SignupInput)
      → AccountsKeep R (signup_player env slugs now today salt dto)
  unfolding signup_player
  Keeps-signup_player env slugs now today salt dto =
      search (account_rules, Keeps-create_account, Keeps-issue) depth 40

  pub Keeps-availability :
      (env : Env) (slugs : Slugs) (now email : ℕ)
      → AccountsKeep R (check_signup_availability env slugs now email)
  unfolding check_signup_availability
  Keeps-availability env slugs now email = search account_rules depth 40
