-- ===== src/Examples/Starts.antt =====
-- Runs of starting a session.
use orbitplay_api.Prelude.{ℕ, ◌≤◌, ◌≡◌, refl, ◌⊎◌, true, none, [], ◌∷◌, arith, count_if, get}
use orbitplay_api.Uuid.{uuid, other}
use orbitplay_api.Errors.{ok, err, app, conflict}
use orbitplay_api.Participations.Service.{is_empty}
use orbitplay_api.Tests.Publish.{pending_validations_for}
use orbitplay_api.Tests.Buildless.{buildless_never_starts}
use orbitplay_api.Schema.Rows.{TestRow}
use orbitplay_api.Schema.Enums.{ab_test_images, screen_recording, reserved}
use orbitplay_api.TestModels.{required_consents}
use orbitplay_api.World.{World}
use orbitplay_api.Participations.Repository.{
  holds_slot, participation_for_user, get_test, find_consent,
}
use orbitplay_api.Participations.SessionQueries.{is_open_of, new_session}
use orbitplay_api.Participations.Sessions.{start, any_kind}
use orbitplay_api.Participations.Sessions.OneOpen.{HasOneOpen, one_open_session}
use orbitplay_api.Participations.Sessions.Starting.{
  Unchanged, Startable, start_needs, starts_session,
}
use orbitplay_api.Participations.Invariants.Steps.{stay, starts, then_step}
use orbitplay_api.Examples.{noon, taken_test, world_of, participation_in}

-- The player has joined and consented.
abbrev ready_world : World
ready_world = record (world_of taken_test) {
  db = record (world_of taken_test).db {
    participations = participation_in reserved ∷ [];
    consents =
        record {
          participation_id = 5;
          screen_recording = true;
          audio = true;
          microphone = true;
          webcam = true;
          accepted_at = none;
        }
        ∷ [];
  };
}

can_start : Startable (uuid 5) 7 noon ready_world
unfolding get participation_for_user get_test find_consent required_consents
can_start = record {
  participation = participation_in reserved;
  test = taken_test;
  owned = refl;
  found = refl;
  playable = refl;
  running = refl;
  built = refl;
  consented = refl;
  not_played = refl;
  none_open = refl;
}

reserved_once : (i u : ℕ) → count_if (holds_slot i u) (participation_in reserved ∷ []) ≤ 1
reserved_once i u = ground arith

starts_session_example :
    ((start (uuid 5) 7 noon 9 ready_world).0
      ≡ ok (record {
        session_id = 9;
        started_at = 50000;
        recording_required = any_kind screen_recording (required_consents taken_test.model_key);
      }))
    × ((start (uuid 5) 7 noon 9 ready_world).1.sessions ≡ new_session 9 5 1 3 50000 ∷ [])
unfolding can_start
starts_session_example = starts_session (uuid 5) 7 noon 9 ready_world can_start reserved_once

start_needs_example :
    Unchanged ready_world (start (other []) 7 noon 9 ready_world)
    ⊎ Startable (other []) 7 noon ready_world
start_needs_example = start_needs (other []) 7 noon 9 ready_world

none_open : HasOneOpen ready_world.db
none_open p = omega arith

one_open_session_example :
    count_if (is_open_of 5) (start (uuid 5) 7 noon 9 ready_world).1.sessions ≤ 1
one_open_session_example =
    one_open_session ready_world (start (uuid 5) 7 noon 9 ready_world).1 none_open
      (then_step (stay ready_world) (starts (uuid 5) 7 noon 9 ready_world)) 5

-- A published comparison of images that the player has joined.
abbrev image_test : TestRow
image_test = record taken_test { model_key = ab_test_images }

abbrev image_world : World
image_world = record (world_of image_test) {
  db = record (world_of image_test).db {
    participations = participation_in reserved ∷ [];
    builds = [];
  };
}

buildless_never_starts_example :
    (is_empty (pending_validations_for image_test image_world) ≡ true)
    × (start (uuid 5) 7 noon 9 image_world
        ≡ (err (app (conflict "Build não validada")), image_world))
unfolding get participation_for_user get_test
buildless_never_starts_example =
    buildless_never_starts (uuid 5) 7 noon 9 image_world (participation_in reserved) image_test refl
      refl refl refl refl refl refl refl
