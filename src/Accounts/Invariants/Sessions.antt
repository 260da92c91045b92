-- ===== src/Accounts/Invariants/Sessions.antt =====
-- Logins, refreshes and logouts keep what each of their writes keeps.
use orbitplay_api.Prelude.{
  ℕ, suc, ◌≤◌, ◌≡◌, refl, inl, inr, Bool, true, false, ◌&&◌, String, Option, none, some, List, [],
  ◌∷◌, arith, any, get, is_none, is_some, ltb, ◌==◌, Bool-cases,
}
use orbitplay_api.Errors.{UniqueIndex}
use orbitplay_api.Exec.{pure, raise, modify, continue, ◌>>=◌, ◌>>◌}
use orbitplay_api.Exec.Keeps.{Keeps-bind, continued}
use orbitplay_api.Accounts.{
  Env, UserRow, MembershipRow, RefreshTokenRow, set_cookie, Accounts, insert_row, settle,
  atomically, new_id, insert_row,
}
use orbitplay_api.Accounts.Tokens.{
  is_live_token, insert_refresh_token, rotate_refresh_token, rotate_live, set_refresh_tokens,
}
use orbitplay_api.Accounts.Auth.{
  revoke_presented, revoke_stored, store_token, set_reply, response, rotate_session, hand_out,
  with_member, with_user, with_stored, principal, Principal, LoginDto, LoginResponse, refuse,
  revoke_and_refuse, token_row, issue_session, login, select_membership, refresh, logout,
}
use orbitplay_api.Accounts.Invariants.{
  Writes, At, AccountsKeep, account_rules, Keeps-revoke_family, inserted,
}

none_if_not_some : {A : Type 0} (o : Option A) → is_some o ≡ false → is_none o ≡ true
none_if_not_some none h = refl
none_if_not_some (some a) h = cc

module _ (R : List MembershipRow → List RefreshTokenRow → ℕ → Type 0) (K : Writes R) where
  pub Keeps-issue : (env : Env) (now : ℕ) (p : Principal) → AccountsKeep R (issue_session env now p)
  unfolding issue_session store_token insert_refresh_token new_id ◌>>=◌
  Keeps-issue env now p = record {
    at = λ a h.
        let t : RefreshTokenRow =
          token_row env now p.user_id p.organization_id a.next_id (suc a.next_id) in
        continued {P = At R} _
          (λ _.
            set_reply (
              set_cookie
                (env.sign_refresh p.user_id p.organization_id (suc a.next_id) a.next_id now))
            >> pure (response env now p))
          _ (λ _. search account_rules depth 40)
          (inserted R K _ _ _ _ (record a { next_id = suc (suc a.next_id) })
            (K.later a.memberships a.refresh_tokens a.next_id (suc (suc a.next_id)) (omega arith) h)
            (λ e.
              K.issue t a.memberships a.refresh_tokens a.next_id (suc (suc a.next_id)) (omega arith)
                (omega arith) refl h));
  }

  pub Keeps-select :
      (env : Env) (now email : ℕ) (u : UserRow) (wanted : Option ℕ) (ms : List MembershipRow)
      → AccountsKeep R (select_membership env now email u wanted ms)
  Keeps-select env now email u none [] = search account_rules depth 40
  Keeps-select env now email u (some org) [] = search account_rules depth 40
  Keeps-select env now email u (some org) (m ∷ ms) = search (account_rules, Keeps-issue) depth 40
  Keeps-select env now email u none (m ∷ []) = search (account_rules, Keeps-issue) depth 40
  Keeps-select env now email u none (m ∷ n ∷ ms) = search account_rules depth 40

  pub Keeps-login : (env : Env) (now : ℕ) (dto : LoginDto) → AccountsKeep R (login env now dto)
  unfolding login
  Keeps-login env now dto = search (account_rules, Keeps-select) depth 40

  Keeps-revoke_stored :
      (env : Env) (now : ℕ) (t : Option RefreshTokenRow) → AccountsKeep R (revoke_stored env now t)
  Keeps-revoke_stored env now none = search account_rules depth 40
  Keeps-revoke_stored env now (some t) = search account_rules depth 40

  Keeps-presented :
      (env : Env) (now : ℕ) (cookie : Option ℕ) → AccountsKeep R (revoke_presented env now cookie)
  Keeps-presented env now none = search account_rules depth 40
  Keeps-presented env now (some raw) = search (account_rules, Keeps-revoke_stored) depth 40

  pub Keeps-logout :
      (env : Env) (now : ℕ) (cookie : Option ℕ) → AccountsKeep R (logout env now cookie)
  unfolding logout ◌>>=◌
  Keeps-logout env now cookie = search (account_rules, Keeps-presented) depth 40

  inserted_rotation :
      (b c : Bool) (write : Accounts → Accounts) (a : Accounts) (rows : List RefreshTokenRow)
      → At R a
      → (c ≡ false → At R (write (set_refresh_tokens rows a)))
      → At R
          (settle
            (continue
              (insert_row b c UniqueIndex.token_hash write (set_refresh_tokens rows a)).0
              (λ _. pure true)
              (insert_row b c UniqueIndex.token_hash write (set_refresh_tokens rows a)).1).0
            a
            (continue
              (insert_row b c UniqueIndex.token_hash write (set_refresh_tokens rows a)).0
              (λ _. pure true)
              (insert_row b c UniqueIndex.token_hash write (set_refresh_tokens rows a)).1).1).1
  unfolding insert_row pure
  inserted_rotation true c write a rows h k = h
  inserted_rotation false true write a rows h k = h
  inserted_rotation false false write a rows h k = k refl

  rotated :
      (now hash : ℕ) (stored t : RefreshTokenRow) (a : Accounts) (m : ℕ) (live : Bool)
      → get RefreshTokenRow.token_hash hash a.refresh_tokens ≡ some stored
      → is_live_token stored ≡ true
      → t.family_id ≡ stored.family_id
      → is_live_token t ≡ true
      → a.next_id ≤ m
      → At R a
      → At R (atomically (rotate_live now stored.id t live) (record a { next_id = m })).1
  unfolding atomically insert_refresh_token modify ◌>>=◌
  rotated now hash stored t a m false e l f new le h =
      K.later a.memberships a.refresh_tokens a.next_id m le h
  rotated now hash stored t a m true e l f new le h =
      inserted_rotation _ _ _ (record a { next_id = m }) _
        (K.later a.memberships a.refresh_tokens a.next_id m le h)
        (λ unused.
          K.rotate now hash stored t a.memberships a.refresh_tokens a.next_id m e l f new le h)

  Keeps-refuse : {A : Type 0} (env : Env) (s : String) → AccountsKeep R (refuse env {A = A} s)
  unfolding ◌>>=◌ modify raise
  Keeps-refuse env s = record { at = λ a h. h }

  Keeps-reuse :
      {A : Type 0} (env : Env) (now family_id : ℕ)
      → AccountsKeep R (revoke_and_refuse env {A = A} now family_id)
  Keeps-reuse env now family_id =
      Keeps-bind _ _ (Keeps-revoke_family R K now family_id)
        (λ _. Keeps-refuse env "Sessão inválida")

  Keeps-hand_out :
      (env : Env) (now : ℕ) (stored t : RefreshTokenRow) (r : LoginResponse) (b : Bool)
      → AccountsKeep R (hand_out env now stored t r b)
  unfolding ◌>>=◌ modify pure
  Keeps-hand_out env now stored t r true = record { at = λ a h. h }
  Keeps-hand_out env now stored t r false = Keeps-reuse env now stored.family_id

  -- What is left to do once the stored row is found to be live.
  session_rotated :
      (env : Env) (now hash : ℕ) (stored : RefreshTokenRow) (u : UserRow) (m : MembershipRow)
      (a : Accounts)
      → get RefreshTokenRow.token_hash hash a.refresh_tokens ≡ some stored
      → is_live_token stored ≡ true
      → At R a
      → At R (rotate_session env now stored u m a).1
  unfolding rotate_session rotate_refresh_token new_id ◌>>=◌ atomically
  session_rotated env now hash stored u m a e l h =
      let t : RefreshTokenRow =
        token_row env now u.id stored.organization_id a.next_id stored.family_id in
      continued {P = At R} _ (hand_out env now stored t (response env now (principal env u m))) _
        (Keeps-hand_out env now stored t (response env now (principal env u m)))
        (rotated now hash stored t a (suc a.next_id)
          (any (λ (r : RefreshTokenRow). (r.id == stored.id) && is_live_token r) a.refresh_tokens) e
          l refl refl (omega arith) h)

  member_rotated :
      (env : Env) (now hash : ℕ) (stored : RefreshTokenRow) (u : UserRow) (m : Option MembershipRow)
      (a : Accounts)
      → get RefreshTokenRow.token_hash hash a.refresh_tokens ≡ some stored
      → is_live_token stored ≡ true
      → At R a
      → At R (with_member env now stored u m a).1
  member_rotated env now hash stored u none a e l h =
      (Keeps-refuse {A = LoginResponse} env "Sessão inválida").at a h
  member_rotated env now hash stored u (some m) a e l h =
      session_rotated env now hash stored u m a e l h

  user_rotated :
      (env : Env) (now hash : ℕ) (stored : RefreshTokenRow) (u : Option UserRow) (a : Accounts)
      → get RefreshTokenRow.token_hash hash a.refresh_tokens ≡ some stored
      → is_live_token stored ≡ true
      → At R a
      → At R (with_user env now stored u a).1
  unfolding ◌>>=◌
  user_rotated env now hash stored none a e l h =
      (Keeps-refuse {A = LoginResponse} env "Sessão inválida").at a h
  user_rotated env now hash stored (some u) a e l h = member_rotated env now hash stored u _ a e l h

  stored_rotated :
      (env : Env) (now hash : ℕ) (stored : Option RefreshTokenRow) (a : Accounts)
      → get RefreshTokenRow.token_hash hash a.refresh_tokens ≡ stored
      → At R a
      → At R (with_stored env now stored a).1
  unfolding ◌>>=◌
  stored_rotated env now hash none a e h =
      (Keeps-refuse {A = LoginResponse} env "Sessão inválida").at a h
  stored_rotated env now hash (some t) a e h = elim (Bool-cases (is_some t.revoked_at)) [
    | inl revoked ↦ rw revoked ((Keeps-reuse env now t.family_id).at a h)
    | inr live ↦ elim (Bool-cases (ltb t.expires_at now)) [
      | inl late ↦ rw (live, late) ((Keeps-refuse {A = LoginResponse} env "Sessão expirada").at a h)
      | inr young ↦
          rw (live, young)
            (user_rotated env now hash t _ a e (none_if_not_some t.revoked_at live) h)
    ]
  ]

  pub Keeps-refresh :
      (env : Env) (now : ℕ) (cookie : Option ℕ) → AccountsKeep R (refresh env now cookie)
  unfolding refresh ◌>>=◌
  Keeps-refresh env now none = record { at = λ a h. h }
  Keeps-refresh env now (some raw) = record {
    at = λ a h. elim (Bool-cases (env.verify_refresh raw now)) [
      | inl genuine ↦ rw genuine (stored_rotated env now (env.hash_token raw) _ a refl h)
      | inr forged ↦ rw forged ((Keeps-refuse {A = LoginResponse} env "Sessão inválida").at a h)
    ];
  }
