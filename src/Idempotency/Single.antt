-- ===== src/Idempotency/Single.antt =====
-- What the slots promise while no run outlives its claim, and what they do after that.
use orbitplay_api.Prelude.{
  ℕ, ◌+◌, ◌≤◌, ◌<◌, ◌≡◌, ◌≢◌, refl, ◌∙◌, ap, false, none, some, [], All, All-mono, arith, ◌==◌,
  ==_refl,
}
use orbitplay_api.Idempotency.{
  Request, slot_of, Slot, processing, done, stored_result, live_result, replied, Phase, claiming,
  running, answered, first_phase, claim, claimed, done_slot, processing_ttl_ms, result_ttl_ms,
  after_read,
}
use orbitplay_api.Idempotency.Payload.{Units, Json}
use orbitplay_api.Idempotency.Traffic.{
  Completed, Traffic, set_phase, read_slot, claim_slot, wait, IsTimely, Reach, stay, then_step,
}
use orbitplay_api.Idempotency.Coherent.{IsCoherent, IsKept, held_slot}
use orbitplay_api.Idempotency.Coherent.Kept.{Step-keeps, live_lem}

-- Nothing has happened yet.
abbrev pub no_traffic : ℕ → Traffic
no_traffic now = record { now = now; redis = λ k. none; phase = λ i. Phase.idle; results = [] }

Reach-IsTimely : (now : ℕ) (t : Traffic) → Reach (no_traffic now) t → IsTimely t
Reach-IsTimely now _ (stay _) = λ i k since e. cc
Reach-IsTimely now _ (then_step r s timely) = timely

Coherent-Reach : (now : ℕ) (t : Traffic) → Reach (no_traffic now) t → IsCoherent t
Coherent-Reach now _ (stay _) = record {
  held = λ i k since e. cc;
  alone = λ i j k a b e f. cc;
  kept = tt;
}
Coherent-Reach now _ (then_step {s} {t} {u} r x timely) =
    Step-keeps t u (Reach-IsTimely now t r) x (Coherent-Reach now t r)

-- While no run outlives the 60 seconds of its claim, no two requests ever run under the same slot at
-- once.
pub one_run_at_a_time :
    (now : ℕ) (t : Traffic)
    → Reach (no_traffic now) t
    → (i j : ℕ) (k : Units) (a b : ℕ) → t.phase i ≡ running k a
    → t.phase j ≡ running k b
    → i ≡ j
one_run_at_a_time now t r = (Coherent-Reach now t r).alone

replay_lem :
    (t : Traffic)
    → IsTimely t
    → IsCoherent t
    → (c : Completed) → IsKept t.now t.redis c
    → t.now < c.at + result_ttl_ms
    → (first_phase t.now t.redis (some c.slot) ≡ answered (replied c.status c.body))
      × ((i : ℕ) (since : ℕ) → t.phase i ≢ running c.slot since)
replay_lem t timely h c kept l =
    let here : stored_result t.now c.slot t.redis ≡ some (done c.status c.body) =
      ap (live_result t.now) (kept l) ∙ live_lem t.now (done_slot c.at c.status c.body) l in
    (
      ap (after_read c.slot) here,
      λ i since e.
          let held : stored_result t.now c.slot t.redis ≡ some processing =
            ap (live_result t.now) (h.held i c.slot since e)
            ∙ live_lem t.now (held_slot since) (timely i c.slot since e) in
          cc,
    )

-- While no run outlives the 60 seconds of its claim, for a day from every reply of a handler its slot
-- has no other run, and a request that reads the slot is answered with the same status and body.
pub replays_for_a_day :
    (now : ℕ) (t : Traffic)
    → Reach (no_traffic now) t
    → All
        (λ (c : Completed).
          t.now < c.at + result_ttl_ms
          → (first_phase t.now t.redis (some c.slot) ≡ answered (replied c.status c.body))
            × ((i : ℕ) (since : ℕ) → t.phase i ≢ running c.slot since))
        t.results
replays_for_a_day now t r =
    let c = Coherent-Reach now t r in
    All-mono (IsKept t.now t.redis)
      (λ (x : Completed).
        t.now < x.at + result_ttl_ms
        → (first_phase t.now t.redis (some x.slot) ≡ answered (replied x.status x.body))
          × ((i : ℕ) (since : ℕ) → t.phase i ≢ running x.slot since))
      t.results (replay_lem t (Reach-IsTimely now t r) c) c.kept

-- The phases of two requests, one set after the other.
set_phase_same : (i : ℕ) (p : Phase) (f : ℕ → Phase) → set_phase i p f i ≡ p
unfolding set_phase
set_phase_same i p f = rw (==_refl i) refl

set_phase_other : (i j : ℕ) (p : Phase) (f : ℕ → Phase) → (j == i) ≡ false → set_phase i p f j ≡ f j
unfolding set_phase
set_phase_other i j p f e = rw e refl

dead_lem : (now : ℕ) (s : Slot) → s.expires_at ≤ now → live_result now (some s) ≡ none
dead_lem now s l = ground arith

-- A run that lasts 60 seconds or more loses its claim: an identical request that comes then is let
-- through, and both run under the same slot at once.
pub slow_run_repeats :
    (digest : Json → Units) (now : ℕ) (t : Traffic)
    → Reach (no_traffic now) t
    → (i j : ℕ) (q : Request) (k : Units) (since d : ℕ) → t.phase i ≡ running k since
    → (i == j) ≡ false
    → slot_of digest q ≡ some k
    → since + processing_ttl_ms ≤ t.now + d
    → ((claim_slot j k (read_slot digest j q (wait d t))).phase i ≡ running k since)
      × ((read_slot digest j q (wait d t)).phase j ≡ claiming k)
      × ((claim_slot j k (read_slot digest j q (wait d t))).phase j ≡ running k (t.now + d))
unfolding claim
slow_run_repeats digest now t r i j q k since d e n s l = (
  set_phase_other j i granted_phase (read_slot digest j q (wait d t)).phase n
      ∙ set_phase_other j i (first_phase (t.now + d) t.redis (slot_of digest q)) t.phase n
      ∙ e,
  set_phase_same j (first_phase (t.now + d) t.redis (slot_of digest q)) t.phase
      ∙ ap (first_phase (t.now + d) t.redis) s
      ∙ ap (after_read k) gone,
  set_phase_same j granted_phase (read_slot digest j q (wait d t)).phase
      ∙ ap (λ x. (claimed (t.now + d) k t.redis x).0) gone,
)
  where
    granted_phase : Phase
    granted_phase = (claim (t.now + d) k t.redis).0

    gone : stored_result (t.now + d) k t.redis ≡ none
    gone =
        ap (live_result (t.now + d)) ((Coherent-Reach now t r).held i k since e)
        ∙ dead_lem (t.now + d) (held_slot since) l
