-- ===== src/Accounts/Limits.antt =====
-- modules/auth/auth.service.ts: the limit of attempts for one email, `enforceIdentifierLimit`, over the
-- counters of Redis, which drops a key when its time is over.
use orbitplay_api.Prelude.{
  ℕ, suc, ◌+◌, Bool, true, false, not, ◌&&◌, ◌||◌, ◌==◌, Option, none, some, List, ◌∷◌, filter,
  find, ltb, leb, is_none, if◌then◌else◌,
}
use orbitplay_api.Errors.{too_many_requests}
use orbitplay_api.Exec.{Exec, modify, ensure}
use orbitplay_api.Accounts.{LimitKind, login, forgot, availability, LimitRow, Env, Accounts}

abbrev pub kind_eq : LimitKind → LimitKind → Bool
kind_eq login login = true
kind_eq forgot forgot = true
kind_eq availability availability = true
kind_eq _ _ = false

abbrev pub is_key : LimitKind → ℕ → LimitRow → Bool
is_key kind email r = kind_eq r.kind kind && (r.email == email)

abbrev pub is_live_key : ℕ → Option ℕ → Bool
is_live_key now none = true
is_live_key now (some at) = ltb now at

-- The live counter of a key.
unfoldable pub find_limit : ℕ → LimitKind → ℕ → List LimitRow → Option LimitRow
find_limit now kind email rows =
    find (λ r. is_key kind email r && is_live_key now r.expires_at) rows

abbrev pub without_key : LimitKind → ℕ → List LimitRow → List LimitRow
without_key kind email rows = filter (λ r. not (is_key kind email r)) rows

-- `INCR`: a missing key counts from 0 and has no end. The second number is its end.
abbrev pub counted : Option LimitRow → ℕ × Option ℕ
counted none = (1, none)
counted (some r) = (suc r.count, r.expires_at)

-- `INCR`, then `EXPIRE` for a first attempt or a key that has no end (`TTL` is -1).
unfoldable pub count_attempt : Env → ℕ → LimitKind → ℕ → Accounts → ℕ × Accounts
unfolding find_limit
count_attempt env now kind email a =
    let (count, expires_at) = counted (find_limit now kind email a.limits) in
    (
      count,
      record a {
        limits =
            record {
              kind = kind;
              email = email;
              count = count;
              expires_at =
                  if (count == 1) || is_none expires_at
                  then some (now + env.limit_ttl_ms kind)
                  else expires_at;
            }
            ∷ without_key kind email a.limits;
      },
    )

-- `enforceIdentifierLimit`
unfoldable pub enforce_identifier_limit : Env → ℕ → LimitKind → ℕ → Exec Accounts (Unit {0})
unfolding count_attempt ensure
enforce_identifier_limit env now kind email a =
    let (count, b) = count_attempt env now kind email a in
    ensure (leb count (env.limit kind))
      (too_many_requests "Muitas tentativas para esta conta. Tente novamente em instantes.") b

-- `clearIdentifierLimit`
unfoldable pub clear_identifier_limit : LimitKind → ℕ → Exec Accounts (Unit {0})
clear_identifier_limit kind email =
    modify (λ a. record a { limits = without_key kind email a.limits })
