-- ===== src/Idempotency/Coherent.antt =====
-- What ties the runs, the slots and the results of the traffic together.
pub mod Kept
use orbitplay_api.Prelude.{
  ℕ, ◌+◌, ◌≤◌, ◌<◌, ◌≡◌, ◌≢◌, ◌⊎◌, inl, inr, refl, sym, ◌∙◌, ap, subst, Bool, true, false, Option,
  none, some, List, [], ◌∷◌, All, All-mono, arith, ◌==◌, ==_refl, Bool-cases, Option-cases,
  if◌then◌else◌,
}
use orbitplay_api.Uuid.{units_eq, units_eq_refl, units_eq-eq}
use orbitplay_api.Idempotency.{
  Request, slot_of, Redis, Slot, StoredResult, processing, done, set_slot, stored_result,
  live_result, Outcome, failed, replied, Phase, claiming, running, answered, unguarded, first_phase,
  claim, claimed, done_slot, processing_ttl_ms, result_ttl_ms, after_read,
}
use orbitplay_api.Idempotency.Payload.{Units}
use orbitplay_api.Idempotency.Traffic.{
  Completed, Traffic, set_phase, read_slot, claim_slot, complete, release, wait, Step, reads,
  claims, completes, fails, waits, IsTimely, Reach, stay, then_step,
}

abbrev pub held_slot : ℕ → Slot
held_slot since = record { result = processing; expires_at = since + processing_ttl_ms }

abbrev pub IsKept : ℕ → Redis → Completed → Type 0
IsKept now redis c =
    now < c.at + result_ttl_ms → redis c.slot ≡ some (done_slot c.at c.status c.body)

-- Every run holds its slot, alone, and every result of the last day is in its slot.
pub record IsCoherent (t : Traffic) : Type 0 where
  pub held :
      (i : ℕ) (k : Units) (since : ℕ)
      → t.phase i ≡ running k since
      → t.redis k ≡ some (held_slot since)
  pub alone :
      (i j : ℕ) (k : Units) (a b : ℕ) → t.phase i ≡ running k a → t.phase j ≡ running k b → i ≡ j
  pub kept : All (IsKept t.now t.redis) t.results

pub slot_same : (k : Units) (o : Option Slot) (r : Redis) → set_slot k o r k ≡ o
unfolding set_slot
slot_same k o r = rw (units_eq_refl k) refl

pub slot_other :
    (k x : Units) (o : Option Slot) (r : Redis) → units_eq x k ≡ false → set_slot k o r x ≡ r x
unfolding set_slot
slot_other k x o r e = rw e refl

-- Who runs after a phase was set ran before, or it is the phase that was set.
pub set_phase_runs :
    (i j : ℕ) (p q : Phase) (f : ℕ → Phase)
    → set_phase i p f j ≡ q
    → ((j ≡ i) × (p ≡ q)) ⊎ ((j ≢ i) × (f j ≡ q))
unfolding set_phase
set_phase_runs i j p q f e = elim (Bool-cases (j == i)) [
  | inl h ↦ inl (ground (arith, h), subst (λ b. (if b then p else f j) ≡ q) h e)
  | inr h ↦ inr (ground (arith, h), subst (λ b. (if b then p else f j) ≡ q) h e)
]

-- No run holds the slot.
abbrev IsFree : Traffic → Units → Type 0
IsFree t k = (i : ℕ) (since : ℕ) → t.phase i ≢ running k since

-- The slot `k` is written for another use: no other run holds it, and no result of the last day is
-- in it.
pub record IsTaken (t : Traffic) (i : ℕ) (k : Units) : Type 0 where
  pub no_other : (j : ℕ) (since : ℕ) → j ≢ i → t.phase j ≢ running k since
  pub no_result :
      All (λ (c : Completed). t.now < c.at + result_ttl_ms → units_eq c.slot k ≡ false) t.results

result_not_held :
    (t : Traffic) (k : Units) (s : Slot) (cs : List Completed)
    → t.redis k ≡ some s
    → s.result ≡ processing
    → All (IsKept t.now t.redis) cs
    → All (λ (c : Completed). t.now < c.at + result_ttl_ms → units_eq c.slot k ≡ false) cs
result_not_held t k s [] e p h = tt
result_not_held t k s (c ∷ cs) e p h = (go, result_not_held t k s cs e p h.1)
  where
    go : t.now < c.at + result_ttl_ms → units_eq c.slot k ≡ false
    go l = elim (Bool-cases (units_eq c.slot k)) [
      | inl q ↦
          let here : t.redis k ≡ some (done_slot c.at c.status c.body) =
            subst (λ x. t.redis x ≡ some (done_slot c.at c.status c.body)) (units_eq-eq c.slot k q)
              (h.0 l) in
          let same : s ≡ done_slot c.at c.status c.body = cc in
          let wrong : processing ≡ done c.status c.body = sym p ∙ ap Slot.result same in cc
      | inr q ↦ q
    ]

-- A run's slot is its own.
pub run-IsTaken :
    (t : Traffic) (i : ℕ) (k : Units) (since : ℕ)
    → IsCoherent t
    → t.phase i ≡ running k since
    → IsTaken t i k
run-IsTaken t i k since c e = record {
  no_other = λ j a n h. n (c.alone j i k a since h e);
  no_result = result_not_held t k (held_slot since) t.results (c.held i k since e) refl c.kept;
}

pub IsKept-elsewhere :
    (now : ℕ) (redis : Redis) (k : Units) (o : Option Slot) (cs : List Completed)
    → All (λ (c : Completed). now < c.at + result_ttl_ms → units_eq c.slot k ≡ false) cs
    → All (IsKept now redis) cs
    → All (IsKept now (set_slot k o redis)) cs
IsKept-elsewhere now redis k o [] n h = tt
IsKept-elsewhere now redis k o (c ∷ cs) n h =
    (λ l. slot_other k c.slot o redis (n.0 l) ∙ h.0 l, IsKept-elsewhere now redis k o cs n.1 h.1)

-- The phases after `i` was set to one that does not run.
module _ (t : Traffic) (i : ℕ) (p : Phase) (quiet : (k : Units) (a : ℕ) → p ≢ running k a) where
  pub quiet_before :
      (j : ℕ) (k : Units) (a : ℕ)
      → set_phase i p t.phase j ≡ running k a
      → (j ≢ i) × (t.phase j ≡ running k a)
  quiet_before j k a e = elim (set_phase_runs i j p (running k a) t.phase e) [
    | inl h ↦ elim (quiet k a h.1) [ ]
    | inr h ↦ h
  ]

  pub quiet_alone :
      IsCoherent t
      → (x y : ℕ) (k : Units) (a b : ℕ) → set_phase i p t.phase x ≡ running k a
      → set_phase i p t.phase y ≡ running k b
      → x ≡ y
  quiet_alone c x y k a b e f = c.alone x y k a b (quiet_before x k a e).1 (quiet_before y k b f).1

  pub quiet_held :
      IsCoherent t
      → (s : Units) (o : Option Slot) → IsTaken t i s
      → (j : ℕ) (k : Units) (a : ℕ) → set_phase i p t.phase j ≡ running k a
      → set_slot s o t.redis k ≡ some (held_slot a)
  quiet_held c s o taken j k a e = elim (Bool-cases (units_eq k s)) [
    | inl h ↦
        elim (taken.no_other j a (quiet_before j k a e).0
          (subst (λ x. t.phase j ≡ running x a) (units_eq-eq k s h) (quiet_before j k a e).1)) [ ]
    | inr h ↦ slot_other s k o t.redis h ∙ c.held j k a (quiet_before j k a e).1
  ]
