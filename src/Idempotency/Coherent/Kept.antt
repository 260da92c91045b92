-- ===== src/Idempotency/Coherent/Kept.antt =====
-- Every step keeps the traffic coherent while no run outlives its claim.
use orbitplay_api.Prelude.{
  ℕ, ◌+◌, ◌<◌, ◌≡◌, ◌≢◌, ◌⊎◌, inl, inr, sym, ◌∙◌, ap, subst, false, Option, none, some, List, [],
  ◌∷◌, All, All-mono, arith, Bool-cases, Option-cases,
}
use orbitplay_api.Uuid.{units_eq, units_eq-eq}
use orbitplay_api.Idempotency.{
  slot_of, Redis, Slot, StoredResult, processing, done, set_slot, stored_result, live_result,
  Outcome, failed, replied, Phase, running, answered, first_phase, claim, claimed, done_slot,
  result_ttl_ms, after_read,
}
use orbitplay_api.Idempotency.Payload.{Units}
use orbitplay_api.Idempotency.Traffic.{
  Completed, Traffic, set_phase, claim_slot, complete, release, wait, Step, reads, claims,
  completes, fails, waits, IsTimely,
}
use orbitplay_api.Idempotency.Coherent.{
  IsCoherent, IsKept, IsTaken, held_slot, IsKept-elsewhere, quiet_alone, quiet_before, quiet_held,
  run-IsTaken, set_phase_runs, slot_other, slot_same,
}

abbrev NeverRuns : Phase → Type 0
NeverRuns p = (k : Units) (a : ℕ) → p ≢ running k a

outcome_quiet : (o : Outcome) → NeverRuns (answered o)
outcome_quiet o k a e = cc

read_quiet : (now : ℕ) (redis : Redis) (s : Option Units) → NeverRuns (first_phase now redis s)
read_quiet now redis none k a e = cc
read_quiet now redis (some x) k a e = found (stored_result now x redis) e
  where
    found : (r : Option StoredResult) → after_read x r ≢ running k a
    found none h = cc
    found (some processing) h = cc
    found (some (done st b)) h = cc

-- The steps, one by one.
Coherent-quiet :
    (t : Traffic) (i : ℕ) (p : Phase)
    → NeverRuns p
    → IsCoherent t
    → IsCoherent (record t { phase = set_phase i p t.phase })
Coherent-quiet t i p q c = record {
  held = λ j k a e. c.held j k a (quiet_before t i p q j k a e).1;
  alone = quiet_alone t i p q c;
  kept = c.kept;
}

Coherent-complete :
    (t : Traffic) (i : ℕ) (k : Units) (since status body : ℕ)
    → t.phase i ≡ running k since
    → IsCoherent t
    → IsCoherent (complete i k status body t)
Coherent-complete t i k since status body e c =
    let taken = run-IsTaken t i k since c e in
    let slot = some (done_slot t.now status body) in
    record {
      held =
          quiet_held t i (answered (replied status body)) (outcome_quiet (replied status body)) c k
            slot taken;
      alone =
          quiet_alone t i (answered (replied status body)) (outcome_quiet (replied status body)) c;
      kept = (
        λ l. slot_same k slot t.redis,
        IsKept-elsewhere t.now t.redis k slot t.results taken.no_result c.kept,
      );
    }

Coherent-release :
    (t : Traffic) (i : ℕ) (k : Units) (since : ℕ)
    → t.phase i ≡ running k since
    → IsCoherent t
    → IsCoherent (release i k t)
Coherent-release t i k since e c =
    let taken = run-IsTaken t i k since c e in
    record {
      held = quiet_held t i (answered failed) (outcome_quiet failed) c k none taken;
      alone = quiet_alone t i (answered failed) (outcome_quiet failed) c;
      kept = IsKept-elsewhere t.now t.redis k none t.results taken.no_result c.kept;
    }

Coherent-wait : (d : ℕ) (t : Traffic) → IsCoherent t → IsCoherent (wait d t)
Coherent-wait d t c = record {
  held = c.held;
  alone = c.alone;
  kept =
      All-mono (IsKept t.now t.redis) (IsKept (t.now + d) t.redis) t.results
        (λ x h l. h (omega arith)) c.kept;
}

pub live_lem : (now : ℕ) (s : Slot) → now < s.expires_at → live_result now (some s) ≡ some s.result
live_lem now s l = ground arith

-- A slot that is empty or out of date can be claimed.
empty-IsTaken :
    (t : Traffic) (i : ℕ) (k : Units)
    → IsTimely t
    → IsCoherent t
    → stored_result t.now k t.redis ≡ none
    → IsTaken t i k
empty-IsTaken t i k timely c e = record { no_other = others; no_result = none_of t.results c.kept }
  where
    dead : (s : Slot) → t.redis k ≡ some s → t.now < s.expires_at → none ≡ some s.result
    dead s h l = sym e ∙ ap (live_result t.now) h ∙ live_lem t.now s l

    others : (j : ℕ) (a : ℕ) → j ≢ i → t.phase j ≢ running k a
    others j a n h =
        let x : none ≡ some processing = dead (held_slot a) (c.held j k a h) (timely j k a h) in cc

    none_of :
        (cs : List Completed)
        → All (IsKept t.now t.redis) cs
        → All (λ (x : Completed). t.now < x.at + result_ttl_ms → units_eq x.slot k ≡ false) cs
    none_of [] h = tt
    none_of (x ∷ cs) h = (go, none_of cs h.1)
      where
        go : t.now < x.at + result_ttl_ms → units_eq x.slot k ≡ false
        go l = elim (Bool-cases (units_eq x.slot k)) [
          | inl q ↦
              let slot = done_slot x.at x.status x.body in
              let y : none ≡ some slot.result =
                dead slot (subst (λ z. t.redis z ≡ some slot) (units_eq-eq x.slot k q) (h.0 l)) l in
              cc
          | inr q ↦ q
        ]

module _ (t : Traffic) (i : ℕ) (k : Units) (c : IsCoherent t) (taken : IsTaken t i k) where
  -- The state after a claim that was granted.
  abbrev granted : Traffic
  granted = record t {
    redis = set_slot k (some (held_slot t.now)) t.redis;
    phase = set_phase i (running k t.now) t.phase;
  }

  same_run : (x : Units) (a : ℕ) → running k t.now ≡ running x a → (k ≡ x) × (t.now ≡ a)
  same_run x a e = (cc, cc)

  granted_held :
      (j : ℕ) (x : Units) (a : ℕ)
      → granted.phase j ≡ running x a
      → granted.redis x ≡ some (held_slot a)
  granted_held j x a e = elim (set_phase_runs i j (running k t.now) (running x a) t.phase e) [
    | inl h ↦
        let (same, at) = same_run x a h.1 in
        subst (λ y. granted.redis y ≡ some (held_slot a)) same
          (slot_same k (some (held_slot t.now)) t.redis ∙ ap (λ n. some (held_slot n)) at)
    | inr h ↦ elim (Bool-cases (units_eq x k)) [
      | inl q ↦
          elim (taken.no_other j a h.0
            (subst (λ y. t.phase j ≡ running y a) (units_eq-eq x k q) h.1)) [ ]
      | inr q ↦ slot_other k x (some (held_slot t.now)) t.redis q ∙ c.held j x a h.1
    ]
  ]

  granted_alone :
      (x y : ℕ) (s : Units) (a b : ℕ)
      → granted.phase x ≡ running s a
      → granted.phase y ≡ running s b
      → x ≡ y
  granted_alone x y s a b e f =
      both (set_phase_runs i x (running k t.now) (running s a) t.phase e)
        (set_phase_runs i y (running k t.now) (running s b) t.phase f)
    where
      clash : (z : ℕ) (n m : ℕ) → running k t.now ≡ running s n → z ≢ i → t.phase z ≢ running s m
      clash z n m h d r =
          taken.no_other z m d (subst (λ u. t.phase z ≡ running u m) (sym (same_run s n h).0) r)

      both :
          ((x ≡ i) × (running k t.now ≡ running s a)) ⊎ ((x ≢ i) × (t.phase x ≡ running s a))
          → ((y ≡ i) × (running k t.now ≡ running s b)) ⊎ ((y ≢ i) × (t.phase y ≡ running s b))
          → x ≡ y
      both (inl g) (inl h) = g.0 ∙ sym h.0
      both (inl g) (inr h) = elim (clash y a b g.1 h.0 h.1) [ ]
      both (inr g) (inl h) = elim (clash x b a h.1 g.0 g.1) [ ]
      both (inr g) (inr h) = c.alone x y s a b g.1 h.1

  Coherent-granted : IsCoherent granted
  Coherent-granted = record {
    held = granted_held;
    alone = granted_alone;
    kept =
        IsKept-elsewhere t.now t.redis k (some (held_slot t.now)) t.results taken.no_result c.kept;
  }

Coherent-claim :
    (t : Traffic) (i : ℕ) (k : Units) → IsTimely t → IsCoherent t → IsCoherent (claim_slot i k t)
unfolding claim
Coherent-claim t i k timely c = elim (Option-cases (stored_result t.now k t.redis)) [
  | inl e ↦
      subst (λ r. IsCoherent (after r)) (sym e)
        (Coherent-granted t i k c (empty-IsTaken t i k timely c e))
  | inr (r, e) ↦
      subst (λ r. IsCoherent (after r)) (sym e)
        (Coherent-quiet t i (answered Outcome.conflicted) (outcome_quiet Outcome.conflicted) c)
]
  where
    after : Option StoredResult → Traffic
    after r =
        let (p, redis) = claimed t.now k t.redis r in
        record t { redis = redis; phase = set_phase i p t.phase }

pub Step-keeps : (t u : Traffic) → IsTimely t → Step t u → IsCoherent t → IsCoherent u
Step-keeps _ _ timely (reads digest i r t e) c =
    Coherent-quiet t i (first_phase t.now t.redis (slot_of digest r))
      (read_quiet t.now t.redis (slot_of digest r)) c
Step-keeps _ _ timely (claims i k t e) c = Coherent-claim t i k timely c
Step-keeps _ _ timely (completes i k since status body t e) c =
    Coherent-complete t i k since status body e c
Step-keeps _ _ timely (fails i k since t e) c = Coherent-release t i k since e c
Step-keeps _ _ timely (waits d t) c = Coherent-wait d t c
