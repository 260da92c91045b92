-- ===== src/Idempotency/Traffic.antt =====
-- Requests in flight at once: each reads its slot, claims it, runs and answers in steps of its own,
-- in any order, while time passes.
use orbitplay_api.Prelude.{ℕ, ◌+◌, ◌<◌, ◌≡◌, none, some, List, ◌∷◌, ◌==◌, if◌then◌else◌}
use orbitplay_api.Idempotency.{
  Request, slot_of, Redis, set_slot, failed, replied, Phase, claiming, running, answered,
  first_phase, claim, done_slot, processing_ttl_ms,
}
use orbitplay_api.Idempotency.Payload.{Units, Json}

-- A run that ended well, with what it replied.
pub record Completed : Type 0 where
  pub slot : Units
  pub at : ℕ
  pub status : ℕ
  pub body : ℕ

pub record Traffic : Type 0 where
  pub now : ℕ
  pub redis : Redis
  pub phase : ℕ → Phase
  pub results : List Completed

unfoldable pub set_phase : ℕ → Phase → (ℕ → Phase) → ℕ → Phase
set_phase i p f j = if j == i then p else f j

abbrev pub read_slot : (Json → Units) → ℕ → Request → Traffic → Traffic
read_slot digest i r t = record t {
  phase = set_phase i (first_phase t.now t.redis (slot_of digest r)) t.phase;
}

abbrev pub claim_slot : ℕ → Units → Traffic → Traffic
claim_slot i k t =
    let (p, redis) = claim t.now k t.redis in
    record t { redis = redis; phase = set_phase i p t.phase }

abbrev pub complete : ℕ → Units → ℕ → ℕ → Traffic → Traffic
complete i k status body t = record t {
  redis = set_slot k (some (done_slot t.now status body)) t.redis;
  phase = set_phase i (answered (replied status body)) t.phase;
  results = (record { slot = k; at = t.now; status = status; body = body }) ∷ t.results;
}

-- `redis.del(key)`, then the error.
abbrev pub release : ℕ → Units → Traffic → Traffic
release i k t = record t {
  redis = set_slot k none t.redis;
  phase = set_phase i (answered failed) t.phase;
}

abbrev pub wait : ℕ → Traffic → Traffic
wait d t = record t { now = t.now + d }

pub data Step : Traffic → Traffic → Type 0 where
  reads :
      (digest : Json → Units) (i : ℕ) (r : Request) (t : Traffic)
      → t.phase i ≡ Phase.idle
      → Step t (read_slot digest i r t)
  claims : (i : ℕ) (k : Units) (t : Traffic) → t.phase i ≡ claiming k → Step t (claim_slot i k t)
  completes :
      (i : ℕ) (k : Units) (since status body : ℕ) (t : Traffic)
      → t.phase i ≡ running k since
      → Step t (complete i k status body t)
  fails :
      (i : ℕ) (k : Units) (since : ℕ) (t : Traffic)
      → t.phase i ≡ running k since
      → Step t (release i k t)
  waits : (d : ℕ) (t : Traffic) → Step t (wait d t)

-- No run under a slot has outlived its claim.
abbrev pub IsTimely : Traffic → Type 0
IsTimely t =
    (i : ℕ) (k : Units) (since : ℕ)
    → t.phase i ≡ running k since
    → t.now < since + processing_ttl_ms

-- The histories in which no run outlives its claim.
pub data Reach : Traffic → Traffic → Type 0 where
  stay : (t : Traffic) → Reach t t
  then_step : {s t u : Traffic} → Reach s t → Step t u → IsTimely u → Reach s u
