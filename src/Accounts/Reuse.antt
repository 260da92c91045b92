-- ===== src/Accounts/Reuse.antt =====
-- What presenting a refresh token that was already used does.
use orbitplay_api.Prelude.{
  ℕ, ◌≤◌, ◌<◌, ◌≡◌, refl, subst, true, some, List, [], ◌∷◌, arith, count_if, get, is_some, ◌==◌,
  ==_refl, inl, inr, Bool-cases,
}
use orbitplay_api.Errors.{err, app, unauthorized}
use orbitplay_api.Exec.{◌>>=◌}
use orbitplay_api.Accounts.{Env, RefreshTokenRow, Accounts, CookieChange}
use orbitplay_api.Accounts.Tokens.{revoke_row, revoke_family, set_refresh_tokens, update_where}
use orbitplay_api.Accounts.Auth.{refresh}
use orbitplay_api.Accounts.Auth.Signup.{Slugs}
use orbitplay_api.Accounts.Families.{age, lineage, lineage_of, in_family, lives_in, IsSound}
use orbitplay_api.Accounts.Families.Refined.{families_refine}
use orbitplay_api.Accounts.Invariants.Steps.{Reach, refreshes, stay, then_step}

-- A family without a live token, though it has tokens, is dead.
age_dead : (tokens live : ℕ) → 0 < tokens → live ≡ 0 → age (lineage_of tokens live) ≡ 2
age_dead tokens live h e = ground arith

dead_age : (tokens live : ℕ) → 2 ≤ age (lineage_of tokens live) → live ≡ 0
dead_age tokens live h = ground arith

revoked_family :
    (now f : ℕ) (ts : List RefreshTokenRow)
    → count_if
        (lives_in f)
        (update_where (λ (t : RefreshTokenRow). t.family_id == f) (revoke_row now) ts)
      ≡ 0
revoked_family now f [] = refl
revoked_family now f (t ∷ ts) = ground (arith, revoked_family now f ts)

family_total :
    (now f : ℕ) (ts : List RefreshTokenRow)
    → count_if
        (in_family f)
        (update_where (λ (t : RefreshTokenRow). t.family_id == f) (revoke_row now) ts)
      ≡ count_if (in_family f) ts
family_total now f [] = refl
family_total now f (t ∷ ts) = ground (arith, family_total now f ts)

stored_counts :
    (hash : ℕ) (ts : List RefreshTokenRow) (t : RefreshTokenRow)
    → get RefreshTokenRow.token_hash hash ts ≡ some t
    → 0 < count_if (in_family t.family_id) ts
unfolding get
stored_counts hash [] t e = cc
stored_counts hash (x ∷ ts) t e = elim (Bool-cases (x.token_hash == hash)) [
  | inl here ↦
      let same : x ≡ t = ground (arith, e, here) in
      subst (λ (y : RefreshTokenRow). 0 < count_if (in_family y.family_id) (x ∷ ts)) same
        (rw (==_refl x.family_id) (omega arith))
  | inr there ↦ ground (arith, stored_counts hash ts t (ground (arith, e, there)))
]

-- The state in which a reuse leaves the accounts.
abbrev pub revoked_world : ℕ → ℕ → Accounts → Accounts
revoked_world now f a =
    record (set_refresh_tokens
      (update_where (λ (t : RefreshTokenRow). t.family_id == f) (revoke_row now) a.refresh_tokens)
      a) { cookie = CookieChange.cleared }

reused :
    (env : Env) (now raw : ℕ) (a : Accounts) (t : RefreshTokenRow)
    → env.verify_refresh raw now ≡ true
    → get RefreshTokenRow.token_hash (env.hash_token raw) a.refresh_tokens ≡ some t
    → is_some t.revoked_at ≡ true
    → refresh env now (some raw) a
      ≡ (err (app (unauthorized "Sessão inválida")), revoked_world now t.family_id a)
unfolding refresh revoke_family ◌>>=◌
reused env now raw a t genuine found used = rw (genuine, found, used) refl

-- A refresh token that was rotated or revoked and is presented again, in a state with sound families,
-- is refused, the cookie is cleared, and from then on no token of its family is live, whatever
-- is requested later: the successors that others hold are of no use either.
pub reuse_kills_family :
    (env : Env) (slugs : Slugs) (now raw : ℕ) (a b : Accounts) (t : RefreshTokenRow)
    → IsSound a.refresh_tokens a.next_id
    → env.verify_refresh raw now ≡ true
    → get RefreshTokenRow.token_hash (env.hash_token raw) a.refresh_tokens ≡ some t
    → is_some t.revoked_at ≡ true
    → Reach env slugs (refresh env now (some raw) a).1 b
    → ((refresh env now (some raw) a).0 ≡ err (app (unauthorized "Sessão inválida")))
      × ((refresh env now (some raw) a).1.cookie ≡ CookieChange.cleared)
      × (count_if (lives_in t.family_id) b.refresh_tokens ≡ 0)
reuse_kills_family env slugs now raw a b t sound genuine found used later =
    let e = reused env now raw a t genuine found used in
    let f = t.family_id in
    let after = (revoked_world now f a).refresh_tokens in
    let sound_after =
      (families_refine env slugs a (refresh env now (some raw) a).1
        (then_step (stay a) (refreshes now (some raw) a)) sound).0 in
    let further : age (lineage f (refresh env now (some raw) a).1.refresh_tokens)
        ≤ age (lineage f b.refresh_tokens) =
      (families_refine env slugs (refresh env now (some raw) a).1 b later sound_after).1 f in
    let dead : age (lineage f (refresh env now (some raw) a).1.refresh_tokens) ≡ 2 = rw e (
      age_dead (count_if (in_family f) after) (count_if (lives_in f) after)
        (rw (family_total now f a.refresh_tokens)
          (stored_counts (env.hash_token raw) a.refresh_tokens t found))
        (revoked_family now f a.refresh_tokens)) in
    (
      rw e refl,
      rw e refl,
      dead_age (count_if (in_family f) b.refresh_tokens) (count_if (lives_in f) b.refresh_tokens)
          (omega (arith, further, dead)),
    )
