-- ===== src/Examples/Players.antt =====
-- Runs of the player's side: joining, a session, its validation.
use orbitplay_api.Prelude.{
  ℕ, ◌-◌, ◌≤◌, ◌≡◌, ◌↔◌, ◌≢◌, ◌<◌, refl, ◌⊎◌, true, false, Option, none, some, [], ◌∷◌, arith, any,
  count_if, get, update,
}
use orbitplay_api.Uuid.{uuid, other}
use orbitplay_api.Errors.{ok, err, app, conflict}
use orbitplay_api.Schema.Enums.{
  rejected, abandoned, ParticipationStatus, playing, in_review, SessionStatus, recording,
  processing, invalidated,
}
use orbitplay_api.Schema.Rows.{TestRow, SessionRow, ParticipationRow, ValidationRow}
use orbitplay_api.Eligibility.{age_eligible, too_old, too_young}
use orbitplay_api.PlayerCta.{test_unavailable_reason, is_open_test, test_cta, TestCta}
use orbitplay_api.PlayerCta.InSync.{open_in_sync, cta_start}
use orbitplay_api.World.{World, Clock}
use orbitplay_api.Participations.Repository.{
  set_status, holds_slot, take_slot, new_participation, reserve_participation,
  has_completed_participation, find_audience_age_range, find_user_birthdate,
}
use orbitplay_api.Participations.Service.{join}
use orbitplay_api.Participations.Sessions.{finish, duration_of}
use orbitplay_api.Participations.Slots.{IsSound, SlotsOf, of_test}
use orbitplay_api.Participations.Slots.Overbooking.{never_overbooked}
use orbitplay_api.Participations.Invariants.Steps.{joins, validates, stay, then_step}
use orbitplay_api.Participations.Joins.{
  Joinable, Refused, joins_open_test, join-Refused_or_Joinable,
}
use orbitplay_api.Participations.Joins.Late.{late_completion_takes_slot}
use orbitplay_api.Participations.Sessions.Final.{IsFinal, closed_session-IsFinal}
use orbitplay_api.Participations.Sessions.Finish.{Owned, ended, refusal, finish_ends_once}
use orbitplay_api.Queue.{session_validate_job_id}
use orbitplay_api.Queue.Ensure.{IsEnsured}
use orbitplay_api.Workers.SessionValidate.{
  process_session_validate, verdict_of, validated_status, rewards, is_failed_recording,
}
use orbitplay_api.Workers.SessionValidate.Once.{verdict_row, validation_settles_once}
use orbitplay_api.Workers.SessionValidate.Rewards.{IsRewarded}
use orbitplay_api.Workers.SessionValidate.Rewards.Always.{rewarded_at_most_once}
use orbitplay_api.Workers.SessionValidate.Verdicts.{verdict_exact}
use orbitplay_api.Workers.Reconcile.{reconcile_timed_out_sessions}
use orbitplay_api.Workers.Reconcile.Alive.{alive_session_untouched}
use orbitplay_api.Examples.{
  noon, later, open_test, taken_test, world_of, session_in, participation_in, session_world,
}

empty-IsSound : (i : ℕ) (t : TestRow) → get TestRow.id i (open_test ∷ []) ≡ some t → IsSound [] i t
unfolding get
empty-IsSound i t e = record {
  fits = ground arith;
  counted = ground arith;
  unused = λ d. ground arith;
}

empty_slots : SlotsOf (world_of open_test).db
empty_slots = record { at_test = empty-IsSound; one_active = λ i u. omega arith }

abbrev joined_world : World
joined_world = (join (uuid 1) 7 noon 5 (world_of open_test)).1

never_overbooked_example :
    ((i : ℕ) (t : TestRow)
      → get TestRow.id i joined_world.tests ≡ some t
      → count_if (of_test i) joined_world.participations ≤ t.slots_total)
    × ((i u : ℕ) → count_if (holds_slot i u) joined_world.participations ≤ 1)
never_overbooked_example =
    never_overbooked (world_of open_test) joined_world empty_slots
      (then_step (stay (world_of open_test)) (joins (uuid 1) 7 noon 5 (world_of open_test)))

player_can_join : Joinable 1 7 noon (world_of open_test) open_test
unfolding get test_unavailable_reason age_eligible find_audience_age_range find_user_birthdate
    has_completed_participation too_old too_young
player_can_join = record {
  found = refl;
  available = refl;
  eligible = refl;
  not_done = refl;
  not_active = refl;
}

joins_open_test_example :
    ((join (uuid 1) 7 noon 5 (world_of open_test)).0 ≡ ok (new_participation 5 1 7))
    × ((join (uuid 1) 7 noon 5 (world_of open_test)).1.tests
        ≡ update TestRow.id 1 take_slot (open_test ∷ []))
    × ((join (uuid 1) 7 noon 5 (world_of open_test)).1.participations
        ≡ new_participation 5 1 7 ∷ [])
joins_open_test_example = joins_open_test 1 7 5 noon (world_of open_test) open_test player_can_join

join-Refused_or_Joinable_example :
    Refused (world_of open_test) (join (other []) 7 noon 5 (world_of open_test))
    ⊎ ((i : ℕ) × (other [] ≡ uuid i) × ((t : TestRow) × Joinable i 7 noon (world_of open_test) t))
join-Refused_or_Joinable_example = join-Refused_or_Joinable (other []) 7 noon 5 (world_of open_test)

abbrev completed_world : World
completed_world = session_world ParticipationStatus.completed SessionStatus.completed

late_completion_takes_slot_example :
    (join (uuid 1) 7 noon 6 completed_world
      ≡ (err (app (conflict "Você já concluiu este teste")), completed_world))
    × ((reserve_participation noon.now 1 7 6 completed_world).0 ≡ ok (new_participation 6 1 7))
    × ((reserve_participation noon.now 1 7 6 completed_world).1.tests
        ≡ update TestRow.id 1 take_slot completed_world.tests)
unfolding get test_unavailable_reason age_eligible find_audience_age_range find_user_birthdate
    has_completed_participation too_old too_young
late_completion_takes_slot_example =
    late_completion_takes_slot 1 7 6 noon completed_world taken_test refl refl refl refl refl

abbrev playing_world : World
playing_world = session_world playing recording

abbrev finished_world : World
finished_world = (finish (uuid 9) 7 30000 noon playing_world).1

own_session : Owned 9 7 playing_world (session_in recording) (participation_in playing)
unfolding get
own_session = record { session = refl; participation = refl; owner = refl }

finish_ends_once_example :
    ((finish (uuid 9) 7 30000 noon playing_world).0 ≡ ok (ended 30000 noon (session_in recording)))
    × (duration_of 30000 20000 50000 ≤ 30000)
    × (duration_of 30000 20000 50000 ≤ 50000 - 20000)
    × (get SessionRow.id 9 finished_world.sessions ≡ some (ended 30000 noon (session_in recording)))
    × (get ParticipationRow.id 5 finished_world.participations
        ≡ some (set_status in_review (participation_in playing)))
    × IsEnsured (session_validate_job_id 9) playing_world.queue finished_world.queue
    × ((t_ms' : ℕ) (late : Clock)
        → finish (uuid 9) 7 t_ms' late finished_world
          ≡ (err (refusal (duration_of t_ms' 20000 late.now)), finished_world))
unfolding get
finish_ends_once_example =
    finish_ends_once 9 7 30000 noon playing_world (session_in recording) (participation_in playing)
      own_session refl refl (omega arith) (omega arith) refl

abbrev processing_world : World
processing_world = session_world in_review processing

abbrev validated_world : World
validated_world = (process_session_validate 9 noon processing_world).1

closed_session-IsFinal_example : IsFinal 9 processing_world.db validated_world.db
unfolding get
closed_session-IsFinal_example =
    closed_session-IsFinal 9 (session_in processing) processing_world validated_world refl refl
      (then_step (stay processing_world) (validates 9 noon processing_world))

active_once : (i u : ℕ) → count_if (holds_slot i u) (participation_in in_review ∷ []) ≤ 1
active_once i u = ground arith

validation_settles_once_example :
    ((process_session_validate 9 noon processing_world).0 ≡ ok tt)
    × (get ValidationRow.session_id 9 validated_world.validations
        ≡ some (verdict_row (session_in processing) (verdict_of (session_in processing) []) 50000))
    × (get SessionRow.id 9 validated_world.sessions
        ≡ some (record (session_in processing) {
          status = validated_status (verdict_of (session_in processing) []).valid;
        }))
    × (process_session_validate 9 later validated_world ≡ (ok tt, validated_world))
unfolding get
validation_settles_once_example =
    validation_settles_once 9 noon later processing_world (session_in processing) refl refl
      active_once

none-IsRewarded : IsRewarded processing_world.sessions processing_world.xp_events
none-IsRewarded = record { once = λ u t. omega arith; sourced = tt }

rewarded_at_most_once_example :
    count_if (rewards 7 1 validated_world.sessions) validated_world.xp_events ≤ 1
rewarded_at_most_once_example =
    rewarded_at_most_once processing_world validated_world none-IsRewarded
      (then_step (stay processing_world) (validates 9 noon processing_world)) 7 1

verdict_exact_example :
    (((verdict_of (session_in processing) []).valid ≡ true) ↔ (
      (processing ≢ invalidated)
      × ((d : ℕ) × (some 30000 ≡ some d) × (0 < d))
      × (any (is_failed_recording 9) [] ≡ false)))
    × (((verdict_of (session_in processing) []).reason ≡ none)
        ↔ ((verdict_of (session_in processing) []).valid ≡ true))
verdict_exact_example = verdict_exact (session_in processing) []

alive_session_untouched_example :
    get SessionRow.id 9 (reconcile_timed_out_sessions 95000 playing_world).1.sessions
    ≡ some (session_in recording)
unfolding get
alive_session_untouched_example =
    alive_session_untouched 95000 9 (session_in recording) playing_world refl refl

open_in_sync_example :
    (is_open_test 2 50000 open_test ≡ true) ↔ (test_unavailable_reason open_test 50000 ≡ none)
open_in_sync_example = open_in_sync 2 50000 open_test refl

abbrev no_status : Option ParticipationStatus
no_status = none

cta_start_example :
    ((test_cta no_status (test_unavailable_reason open_test 50000)).cta ≡ TestCta.start) ↔ (
      ((no_status ≡ none) ⊎ (no_status ≡ some rejected) ⊎ (no_status ≡ some abandoned))
      × (test_unavailable_reason open_test 50000 ≡ none))
cta_start_example = cta_start no_status 50000 open_test
