-- ===== src/Idempotency.antt =====
-- shared/interceptors/idempotency.interceptor.ts: which requests have a slot in Redis, and what is
-- done with it before and after the handler runs.
pub mod Payload
pub mod Canonical
pub mod Keys
pub mod Traffic
pub mod Coherent
pub mod Single
use orbitplay_api.Prelude.{
  ℕ, ◌+◌, ◌*◌, Bool, true, false, Option, none, some, List, [], ◌∷◌, ◌++◌, ◌&&◌, ltb, any, get_or,
  if◌then◌else◌, ◌==◌,
}
use orbitplay_api.Uuid.{units_eq}
use orbitplay_api.Idempotency.Payload.{Units, Json, hash_payload}

-- A request as the interceptor reads it.
pub record Request : Type 0 where
  pub method : Units
  pub path : Units
  pub original_url : Units
  pub idempotency_key : Option Units
  pub user_id : Option Units
  pub body : Option Json

-- 'POST', 'PUT', 'PATCH' and 'DELETE'
abbrev pub mutation_methods : List Units
mutation_methods =
    (80 ∷ 79 ∷ 83 ∷ 84 ∷ [])
    ∷ (80 ∷ 85 ∷ 84 ∷ [])
    ∷ (80 ∷ 65 ∷ 84 ∷ 67 ∷ 72 ∷ [])
    ∷ (68 ∷ 69 ∷ 76 ∷ 69 ∷ 84 ∷ 69 ∷ [])
    ∷ []

-- '/auth/'
abbrev pub excluded_path_prefixes : List Units
excluded_path_prefixes = (47 ∷ 97 ∷ 117 ∷ 116 ∷ 104 ∷ 47 ∷ []) ∷ []

-- `text.startsWith(prefix)`
abbrev pub starts_with : Units → Units → Bool
starts_with text [] = true
starts_with [] (p ∷ ps) = false
starts_with (a ∷ us) (p ∷ ps) = (a == p) && starts_with us ps

abbrev pub colon : ℕ
colon = 58

-- 'anon'
abbrev pub scope : Request → Units
scope r = get_or r.user_id (97 ∷ 110 ∷ 111 ∷ 110 ∷ [])

-- `idem:${scope}:${method}:${originalUrl}:${key}:${payloadHash}`
unfoldable pub redis_key : (Json → Units) → Request → Units → Units
unfolding hash_payload
redis_key digest r key =
    (105 ∷ 100 ∷ 101 ∷ 109 ∷ colon ∷ [])
    ++ (scope r
        ++ colon
          ∷ (r.method
              ++ colon ∷ (r.original_url ++ colon ∷ (key ++ colon ∷ hash_payload digest r.body))))

-- `!key`, of a header that is missing or empty
abbrev pub keyed : (Json → Units) → Request → Option Units → Option Units
keyed digest r none = none
keyed digest r (some []) = none
keyed digest r (some (u ∷ us)) = some (redis_key digest r (u ∷ us))

-- The slot of a request, where the interceptor gives it one.
unfoldable pub slot_of : (Json → Units) → Request → Option Units
slot_of digest r =
    if any (units_eq r.method) mutation_methods
    then if any (starts_with r.path) excluded_path_prefixes
      then none
      else keyed digest r r.idempotency_key
    else none

abbrev pub processing_ttl_ms : ℕ
processing_ttl_ms = 60 * 1000

abbrev pub result_ttl_ms : ℕ
result_ttl_ms = 60 * 60 * 24 * 1000

-- `StoredResult`; a body is a number that stands for it.
pub data StoredResult : Type 0 where
  processing : StoredResult
  done : ℕ → ℕ → StoredResult

pub record Slot : Type 0 where
  pub result : StoredResult
  pub expires_at : ℕ

abbrev pub Redis : Type 0
Redis = Units → Option Slot

-- A key at the end of its life is gone.
abbrev pub live_result : ℕ → Option Slot → Option StoredResult
live_result now none = none
live_result now (some s) = if ltb now s.expires_at then some s.result else none

-- `redis.get`
abbrev pub stored_result : ℕ → Units → Redis → Option StoredResult
stored_result now k redis = live_result now (redis k)

unfoldable pub set_slot : Units → Option Slot → Redis → Redis
set_slot k slot redis x = if units_eq x k then slot else redis x

-- What a request is answered with: a 409, a status with a body, or the handler's error.
pub data Outcome : Type 0 where
  conflicted failed : Outcome
  replied : ℕ → ℕ → Outcome

-- Where a request stands: it may run without a slot, be about to claim its slot, or run under it
-- since a time.
pub data Phase : Type 0 where
  idle unguarded : Phase
  claiming : Units → Phase
  running : Units → ℕ → Phase
  answered : Outcome → Phase

-- From what `get` found: a 409, a replay, or the claim.
abbrev pub after_read : Units → Option StoredResult → Phase
after_read k none = claiming k
after_read k (some processing) = answered conflicted
after_read k (some (done status body)) = answered (replied status body)

abbrev pub first_phase : ℕ → Redis → Option Units → Phase
first_phase now redis none = unguarded
first_phase now redis (some k) = after_read k (stored_result now k redis)

-- `set(key, processing, 'EX', 60, 'NX')`: refused where the key has a value.
abbrev pub claimed : ℕ → Units → Redis → Option StoredResult → Phase × Redis
claimed now k redis (some r) = (answered conflicted, redis)
claimed now k redis none = (
  running k now,
  set_slot k (some (record { result = processing; expires_at = now + processing_ttl_ms })) redis,
)

unfoldable pub claim : ℕ → Units → Redis → Phase × Redis
claim now k redis = claimed now k redis (stored_result now k redis)

-- `set(key, done, 'EX', 24 h)`, whatever the key holds
abbrev pub done_slot : ℕ → ℕ → ℕ → Slot
done_slot now status body = record { result = done status body; expires_at = now + result_ttl_ms }
