-- ===== src/Accounts/Resets.antt =====
-- What using a password reset token does, and that it works once.
use orbitplay_api.Prelude.{
  ℕ, ◌+◌, ◌≤◌, ◌≡◌, refl, Bool, ◌&&◌, none, some, List, [], ◌∷◌, arith, count_if, find, map, get,
  is_none, ◌==◌, option_map,
}
use orbitplay_api.Errors.{ok, err, app, validation, named, Message}
use orbitplay_api.Exec.{◌>>=◌}
use orbitplay_api.Accounts.{
  Env, UserRow, MembershipRow, RefreshTokenRow, PasswordResetTokenRow, Accounts, active, invited,
  disabled, is_invited, is_active_status,
}
use orbitplay_api.Accounts.Tokens.{
  is_consumable, is_live_token, revoke_row, accept_row, update_where,
}
use orbitplay_api.Accounts.Auth.Recovery.{reset_password}

use_row : ℕ → PasswordResetTokenRow → PasswordResetTokenRow
use_row now t = record t { used_at = some now }

-- A token that was used cannot be consumed again, then or later.
spent :
    (now later hash : ℕ) (ts : List PasswordResetTokenRow)
    → now ≤ later
    → find (is_consumable later hash) (
        update_where
          (is_consumable now hash)
          (λ (t : PasswordResetTokenRow). record t { used_at = some now })
          ts)
      ≡ none
spent now later hash [] le = refl
spent now later hash (t ∷ ts) le = ground (arith, spent now later hash ts le)

abbrev pub is_live_of : ℕ → RefreshTokenRow → Bool
is_live_of user_id t = (t.user_id == user_id) && is_live_token t

abbrev pub is_pending_of : ℕ → MembershipRow → Bool
is_pending_of user_id m = (m.user_id == user_id) && is_invited m.status && is_none m.deleted_at

signed_out :
    (now user_id : ℕ) (ts : List RefreshTokenRow)
    → count_if
        (is_live_of user_id)
        (update_where (λ (t : RefreshTokenRow). t.user_id == user_id) (revoke_row now) ts)
      ≡ 0
signed_out now user_id [] = refl
signed_out now user_id (t ∷ ts) = ground (arith, signed_out now user_id ts)

accepted :
    (user_id : ℕ) (ms : List MembershipRow)
    → count_if (is_pending_of user_id) (map (accept_row user_id) ms) ≡ 0
accepted user_id [] = refl
accepted user_id (m ∷ ms) = ground (arith, accepted user_id ms)

abbrev pub is_accepted_of : ℕ → MembershipRow → Bool
is_accepted_of user_id m =
    (m.user_id == user_id) && is_active_status m.status && is_none m.deleted_at

-- The pending ones are added to the accepted ones.
joined :
    (user_id : ℕ) (ms : List MembershipRow)
    → count_if (is_accepted_of user_id) (map (accept_row user_id) ms)
      ≡ count_if (is_accepted_of user_id) ms + count_if (is_pending_of user_id) ms
joined user_id [] = refl
joined user_id (m ∷ ms) = elim m.status [
  | active ↦ ground (arith, joined user_id ms)
  | invited ↦ ground (arith, joined user_id ms)
  | disabled ↦ ground (arith, joined user_id ms)
]

rehashed :
    (user_id hash : ℕ) (us : List UserRow)
    → get UserRow.id user_id (
        update_where
          (λ (u : UserRow). u.id == user_id)
          (λ (u : UserRow). record u { password_hash = hash })
          us)
      ≡ option_map (λ (u : UserRow). record u { password_hash = hash }) (get UserRow.id user_id us)
unfolding get
rehashed user_id hash [] = refl
rehashed user_id hash (u ∷ us) = ground (arith, rehashed user_id hash us)

-- A reset token that is unused and not expired sets the password of its user: the user then has the hash
-- of the new password, no live refresh token, and every pending invitation of the user is an active membership,
-- so that none is pending. The same token is refused from then on, with any password, and changes nothing.
pub reset_works_once :
    (env : Env) (now salt token password : ℕ) (a : Accounts) (t : PasswordResetTokenRow)
    → find (is_consumable now (env.hash_token token)) a.reset_tokens ≡ some t
    → let b = (reset_password env now salt token password a).1 in
      ((reset_password env now salt token password a).0 ≡ ok tt)
      × (get UserRow.id t.user_id b.users
          ≡ option_map
              (λ (u : UserRow). record u { password_hash = env.hash_password salt password })
              (get UserRow.id t.user_id a.users))
      × (count_if (is_live_of t.user_id) b.refresh_tokens ≡ 0)
      × (count_if (is_pending_of t.user_id) b.memberships ≡ 0)
      × (count_if (is_accepted_of t.user_id) b.memberships
          ≡ count_if (is_accepted_of t.user_id) a.memberships
            + count_if (is_pending_of t.user_id) a.memberships)
      × ((later salt' password' : ℕ)
          → now ≤ later
          → reset_password env later salt' token password' b ≡ (
            err (
                app (
                  validation "Token inválido ou expirado"
                    ((named "token", Message.text "Token inválido ou expirado") ∷ []))),
            b,
          ))
unfolding reset_password ◌>>=◌
reset_works_once env now salt token password a t found = rw found (
  refl,
  rehashed t.user_id (env.hash_password salt password) a.users,
  signed_out now t.user_id a.refresh_tokens,
  accepted t.user_id a.memberships,
  joined t.user_id a.memberships,
  λ later salt' password' le. rw (spent now later (env.hash_token token) a.reset_tokens le) refl,
)
