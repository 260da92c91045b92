-- ===== src/Examples/Requests.antt =====
-- Runs of identical requests: one runs, its retries are refused and then replayed.
use orbitplay_api.Prelude.{
  ℕ, false, true, length, ◌↔◌, ◌+◌, ◌<◌, ◌≡◌, ◌≢◌, refl, sym, ◌∙◌, ap, subst, inl, inr, none, some,
  [], ◌∷◌, ◌++◌, arith,
}
use orbitplay_api.Idempotency.{
  Request, colon, scope, slot_of, redis_key, Phase, claiming, running, answered, replied,
  first_phase, claim, processing_ttl_ms, result_ttl_ms,
}
use orbitplay_api.Uuid.{units_eq}
use orbitplay_api.Idempotency.Payload.{
  Units, Json, null, bool, number, text, object, Entries, end, entry, is_proto_key, hash_payload,
  canonicalize, payload,
}
use orbitplay_api.Idempotency.Keys.{slot_key_binds}
use orbitplay_api.Idempotency.Traffic.{
  Traffic, set_phase, read_slot, claim_slot, complete, wait, reads, claims, completes, IsTimely,
  Reach, stay, then_step,
}
use orbitplay_api.Idempotency.Coherent.{set_phase_runs}
use orbitplay_api.Idempotency.Single.{
  no_traffic, one_run_at_a_time, replays_for_a_day, slow_run_repeats,
}

-- POST /t?a with the key 'k' of the caller '7'
abbrev creation : Request
creation = record {
  method = 80 ∷ 79 ∷ 83 ∷ 84 ∷ [];
  path = 47 ∷ 116 ∷ [];
  original_url = 47 ∷ 116 ∷ 63 ∷ 97 ∷ [];
  idempotency_key = some (107 ∷ []);
  user_id = some (55 ∷ []);
  body = some (object (entry (98 ∷ []) (number 1) (entry (97 ∷ []) null end)));
}

-- POST /t?a:k with the key 'k'
abbrev crossed : Request
crossed = record creation { original_url = 47 ∷ 116 ∷ 63 ∷ 97 ∷ 58 ∷ 107 ∷ [] }

-- 'k:k'
abbrev crossed_key : Units
crossed_key = 107 ∷ 58 ∷ 107 ∷ []

abbrev fifteen : Units
fifteen = 48 ∷ 48 ∷ 48 ∷ 48 ∷ 48 ∷ 48 ∷ 48 ∷ 48 ∷ 48 ∷ 48 ∷ 48 ∷ 48 ∷ 48 ∷ 48 ∷ 48 ∷ []

abbrev sixteen : Units
sixteen = 48 ∷ fifteen

abbrev proto_key : Units
proto_key = 95 ∷ 95 ∷ 112 ∷ 114 ∷ 111 ∷ 116 ∷ 111 ∷ 95 ∷ 95 ∷ []

-- A text of 64 units for each body, as a digest has: whether it is the empty object.
abbrev test_digest : Json → Units
test_digest (object end) = 49 ∷ sixteen ++ sixteen ++ sixteen ++ fifteen
test_digest _ = 48 ∷ sixteen ++ sixteen ++ sixteen ++ fifteen

digest_length : (j : Json) → length (test_digest j) ≡ 64
digest_length j = ground arith

-- The order of keys is no matter, `__proto__` is left out, and array indices come first.
canonical_lem :
    canonicalize (
      object (
        entry (98 ∷ []) (number 1) (
          entry proto_key null (entry (49 ∷ 48 ∷ []) (text []) (entry (57 ∷ []) (bool true) end)))))
    ≡ object (
        entry
          (57 ∷ [])
          (bool true)
          (entry (49 ∷ 48 ∷ []) (text []) (entry (98 ∷ []) (number 1) end)))
unfolding canonicalize
canonical_lem = refl

slot_key_binds_example :
    ((redis_key test_digest creation crossed_key ≡ redis_key test_digest crossed (107 ∷ [])) ↔ (
      (scope creation ≡ scope crossed)
      × (creation.method ≡ crossed.method)
      × (test_digest (canonicalize (payload creation.body))
          ≡ test_digest (canonicalize (payload crossed.body)))
      × (creation.original_url ++ colon ∷ crossed_key
          ≡ crossed.original_url ++ colon ∷ (107 ∷ []))))
    × ((i j : Units) (v x : Json) (es : Entries)
        → units_eq i j ≡ false
        → hash_payload test_digest (some (object (entry i v (entry j x es))))
          ≡ hash_payload test_digest (some (object (entry j x (entry i v es)))))
    × ((i : Units) (v : Json) (es : Entries)
        → is_proto_key i ≡ true
        → hash_payload test_digest (some (object (entry i v es)))
          ≡ hash_payload test_digest (some (object es)))
slot_key_binds_example =
    slot_key_binds test_digest creation crossed crossed_key (107 ∷ []) digest_length refl refl refl
      refl

-- Both have the same slot.
crossed_lem : redis_key test_digest creation crossed_key ≡ redis_key test_digest crossed (107 ∷ [])
crossed_lem = slot_key_binds_example.0.1 (refl, refl, refl, refl)

slot : Units
unfolding redis_key canonicalize
slot = redis_key test_digest creation (107 ∷ [])

slot_lem : slot_of test_digest creation ≡ some slot
unfolding slot slot_of
slot_lem = refl

abbrev read_one : Traffic
read_one = read_slot test_digest 1 creation (no_traffic 5)

abbrev run_one : Traffic
run_one = claim_slot 1 slot read_one

-- Request 1 alone has begun.
nobody_runs : IsTimely read_one
nobody_runs j k a e =
    elim (set_phase_runs 1 j (first_phase 5 (λ x. none) (slot_of test_digest creation))
      (running k a) (λ i. Phase.idle) e) [
        | inl h ↦
            let same : claiming slot ≡ running k a =
              sym (ap (first_phase 5 (λ x. none)) slot_lem) ∙ h.1 in
            cc
        | inr h ↦ cc
      ]

one_runs : IsTimely run_one
unfolding claim
one_runs j k a e =
    elim (set_phase_runs 1 j (claim 5 slot (λ x. none)).0 (running k a) read_one.phase e) [
      | inl h ↦
          let same : 5 ≡ a = started k a h.1 in
          subst (λ n. 5 < n + processing_ttl_ms) same (omega arith)
      | inr h ↦ nobody_runs j k a h.1
    ]
  where
    started : (k : Units) (a : ℕ) → (claim 5 slot (λ x. none)).0 ≡ running k a → 5 ≡ a
    started k a e = cc

Reach-run : Reach (no_traffic 5) run_one
unfolding set_phase
Reach-run =
    then_step
      (then_step (stay (no_traffic 5)) (reads test_digest 1 creation (no_traffic 5) refl)
        nobody_runs)
      (claims 1 slot read_one (ap (first_phase 5 (λ x. none)) slot_lem)) one_runs

runs_lem : run_one.phase 1 ≡ running slot 5
unfolding claim set_phase
runs_lem = refl

one_run_at_a_time_example : ◌≡◌ {A = ℕ} 1 1
one_run_at_a_time_example = one_run_at_a_time 5 run_one Reach-run 1 1 slot 5 5 runs_lem runs_lem

-- Request 1 has been answered.
abbrev answered_one : Traffic
answered_one = complete 1 slot 201 9 run_one

Reach-answer : Reach (no_traffic 5) answered_one
Reach-answer = then_step Reach-run (completes 1 slot 5 201 9 run_one runs_lem) (λ j k a e.
    elim (set_phase_runs 1 j (answered (replied 201 9)) (running k a) run_one.phase e) [
      | inl h ↦ cc
      | inr h ↦ one_runs j k a h.1
    ])

replays_for_a_day_example :
    ((5 < 5 + result_ttl_ms)
      → (first_phase 5 answered_one.redis (some slot) ≡ answered (replied 201 9))
        × ((i : ℕ) (since : ℕ) → answered_one.phase i ≢ running slot since))
    × Unit {0}
replays_for_a_day_example = replays_for_a_day 5 answered_one Reach-answer

slow_run_repeats_example :
    ((claim_slot 2 slot (read_slot test_digest 2 creation (wait 60000 run_one))).phase 1
      ≡ running slot 5)
    × ((read_slot test_digest 2 creation (wait 60000 run_one)).phase 2 ≡ claiming slot)
    × ((claim_slot 2 slot (read_slot test_digest 2 creation (wait 60000 run_one))).phase 2
        ≡ running slot 60005)
slow_run_repeats_example =
    slow_run_repeats test_digest 5 run_one Reach-run 1 2 creation slot 5 60000 runs_lem refl
      slot_lem (omega arith)
