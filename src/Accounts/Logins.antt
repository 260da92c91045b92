-- ===== src/Accounts/Logins.antt =====
-- What a login takes.
use orbitplay_api.Prelude.{
  ℕ, ◌≡◌, refl, sym, ap, ◌∙◌, subst, Bool, true, ◌&&◌, Option, none, some, List, [], ◌∷◌, arith,
  any, find, filter, is_none, ◌==◌, inl, inr, Bool-cases,
}
use orbitplay_api.Errors.{Result, ok, err}
use orbitplay_api.Exec.{pure, raise, modify, require, continue, ◌>>=◌, ◌>>◌}
use orbitplay_api.Exec.Returns.{>>=-eq-ok, require-eq-ok, ensure-state, read, required, ensured}
use orbitplay_api.Accounts.{
  Role, role_eq, Env, LimitKind, UserRow, MembershipRow, AccountsDb, Accounts, set_cookie, new_id,
}
use orbitplay_api.Accounts.Tokens.{is_active_member, find_user_by_email, find_active_memberships}
use orbitplay_api.Accounts.Limits.{count_attempt, enforce_identifier_limit, clear_identifier_limit}
use orbitplay_api.Accounts.Auth.{
  set_reply, generic_login_error, LoginDto, LoginResponse, session, Principal, principal, response,
  issue_session, store_token, log_in_to, select_membership, login,
}

-- The session is for a membership of the list, and has its role.
abbrev pub is_session_of : Principal → MembershipRow → Bool
is_session_of p m = (m.organization_id == p.organization_id) && role_eq m.role p.role

role_eq_refl : (r : Role) → role_eq r r ≡ true
role_eq_refl Role.owner = refl
role_eq_refl Role.admin = refl
role_eq_refl Role.studio = refl
role_eq_refl Role.player = refl

find-any :
    (org : ℕ) (p : Principal) (ms : List MembershipRow) (m : MembershipRow)
    → find (λ (r : MembershipRow). r.organization_id == org) ms ≡ some m
    → is_session_of p m ≡ true
    → any (is_session_of p) ms ≡ true
find-any org p [] m e h = cc
find-any org p (x ∷ ms) m e h = elim (Bool-cases (x.organization_id == org)) [
  | inl y ↦ let same : x ≡ m = ground (arith, e, y) in ground (arith, ap (is_session_of p) same)
  | inr n ↦ ground (arith, find-any org p ms m (ground (arith, e, n)) h)
]

own_session :
    (env : Env) (u : UserRow) (m : MembershipRow) → is_session_of (principal env u m) m ≡ true
own_session env u m = rw role_eq_refl (ground arith)

kept_reply :
    (r : Result (Unit {0})) (token : ℕ) (x y : LoginResponse) (a : Accounts)
    → (continue r (λ _. set_reply (set_cookie token) >> pure x) a).0 ≡ ok y
    → x ≡ y
unfolding ◌>>=◌ pure modify
kept_reply (ok t) token x y a h = cc
kept_reply (err e) token x y a h = cc

issue_returns :
    (env : Env) (now : ℕ) (p : Principal) (a : Accounts) (r : LoginResponse)
    → (issue_session env now p a).0 ≡ ok r
    → response env now p ≡ r
unfolding issue_session store_token new_id ◌>>=◌
issue_returns env now p a r h = kept_reply _ _ _ r _ h

opened :
    (env : Env) (now email : ℕ) (u : UserRow) (m : MembershipRow) (a : Accounts) (r : LoginResponse)
    → (log_in_to env now email u m a).0 ≡ ok (session r)
    → principal env u m ≡ r.user
unfolding pure
opened env now email u m a r h =
    let (t, cleared, h1) =
      >>=-eq-ok (clear_identifier_limit LimitKind.login email) _ a (session r) h in
    let after = (clear_identifier_limit LimitKind.login email a).1 in
    let (o, issued, h2) =
      >>=-eq-ok (issue_session env now (principal env u m)) (λ x. pure (session x)) after
        (session r) h1 in
    let same : o ≡ r = cc in
    ap LoginResponse.user (issue_returns env now (principal env u m) after o issued ∙ same)

selected :
    (env : Env) (now email : ℕ) (u : UserRow) (wanted : Option ℕ) (ms : List MembershipRow)
    (a : Accounts) (r : LoginResponse)
    → (select_membership env now email u wanted ms a).0 ≡ ok (session r)
    → (r.user.user_id ≡ u.id) × (any (is_session_of r.user) ms ≡ true)
unfolding raise pure
selected env now email u none [] a r h = cc
selected env now email u (some org) [] a r h = cc
selected env now email u none (m ∷ []) a r h =
    let same = opened env now email u m a r h in
    (sym (ap Principal.user_id same), rw (← same) (rw (own_session env u m) refl))
selected env now email u none (m ∷ n ∷ ms) a r h =
    let (t, cleared, h1) =
      >>=-eq-ok (clear_identifier_limit LimitKind.login email) _ a (session r) h in
    cc
selected env now email u (some org) (m ∷ ms) a r h =
    let chosen = find (λ (x : MembershipRow). x.organization_id == org) (m ∷ ms) in
    let (c, found, h1) =
      >>=-eq-ok (require chosen generic_login_error) (log_in_to env now email u) a (session r) h in
    let same = opened env now email u c _ r h1 in
    (
      sym (ap Principal.user_id same),
      find-any org r.user (m ∷ ms) c (require-eq-ok chosen generic_login_error a c found)
          (rw (← same) (own_session env u c)),
    )

-- Counting an attempt touches the counters only.
enforced :
    (env : Env) (now : ℕ) (kind : LimitKind) (email : ℕ) (a : Accounts)
    → (enforce_identifier_limit env now kind email a).1.db ≡ a.db
unfolding enforce_identifier_limit count_attempt
enforced env now kind email a =
    ap Accounts.db (ensure-state _ _ (count_attempt env now kind email a).1)

-- The lookups read the database only.
found_in_db :
    (env : Env) (email : ℕ) (b a : Accounts) (u : UserRow)
    → b.db ≡ a.db
    → find_user_by_email env email b ≡ some u
    → find_user_by_email env email a ≡ some u
unfolding find_user_by_email
found_in_db env email b a u same found =
    subst
      (λ (d : AccountsDb).
        find (λ (v : UserRow). (env.sql_lower v.email == env.lower email) && is_none v.deleted_at)
          d.users
        ≡ some u)
      same found

active_in_db :
    (i : ℕ) (p : MembershipRow → Bool) (b a : Accounts)
    → b.db ≡ a.db
    → any p (find_active_memberships i b) ≡ true
    → any p (find_active_memberships i a) ≡ true
unfolding find_active_memberships
active_in_db i p b a same h =
    subst (λ (d : AccountsDb). any p (filter (is_active_member i) d.memberships) ≡ true) same h

-- A login that opens a session takes the email of a user that is not deleted, the right password and an
-- active account; the session is the user's, for an organization of which the user is an active
-- member, in the role of that membership, whatever organization the request names.
pub login_needs :
    (env : Env) (now : ℕ) (dto : LoginDto) (a : Accounts) (r : LoginResponse)
    → (login env now dto a).0 ≡ ok (session r)
    → (u : UserRow) × (find_user_by_email env (env.trim (env.lower dto.email)) a ≡ some u)
      × (env.verify_password u.password_hash dto.password ≡ true)
      × (u.is_active ≡ true)
      × (r.user.user_id ≡ u.id)
      × (any (is_session_of r.user) (find_active_memberships u.id a) ≡ true)
unfolding login
login_needs env now dto a r h =
    let email = env.trim (env.lower dto.email) in
    let b = (enforce_identifier_limit env now LimitKind.login email a).1 in
    let same : b.db ≡ a.db = enforced env now LimitKind.login email a in
    let (t, passed, h1) =
      >>=-eq-ok (enforce_identifier_limit env now LimitKind.login email) _ a (session r) h in
    let h2 = read (find_user_by_email env email) _ b (session r) h1 in
    let (u, found, h3) = required (find_user_by_email env email b) _ _ b (session r) h2 in
    let (right, h4) =
      ensured (env.verify_password u.password_hash dto.password && u.is_active) _ _ b (session r)
        h3 in
    let h5 = read (find_active_memberships u.id) _ b (session r) h4 in
    let (own, member) =
      selected env now email u dto.organization_id (find_active_memberships u.id b) b r h5 in
    (
      u,
      found_in_db env email b a u same found,
      ground (arith, right),
      ground (arith, right),
      own,
      active_in_db u.id (is_session_of r.user) b a same member,
    )
