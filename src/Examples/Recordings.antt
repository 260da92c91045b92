-- ===== src/Examples/Recordings.antt =====
-- The upload of a screen recording in parts, by a player who has consented to it.
use orbitplay_api.Prelude.{◌≡◌, ◌⊎◌, true, false, some, [], ◌∷◌}
use orbitplay_api.Uuid.{uuid}
use orbitplay_api.Schema.Enums.{RecordingKind, ParticipationStatus, SessionStatus}
use orbitplay_api.Schema.Rows.{ConsentRow, StorageKey, parsed}
use orbitplay_api.World.{World}
use orbitplay_api.Media.{Media, CompleteRequest}
use orbitplay_api.Media.Completion.{complete_upload}
use orbitplay_api.Media.Uploads.{Uploadable, upload_needs}
use orbitplay_api.Examples.{session_world}

abbrev screen_consent : ConsentRow
screen_consent = record {
  participation_id = 5;
  screen_recording = true;
  audio = false;
  microphone = false;
  webcam = false;
  accepted_at = some 10;
}

abbrev recorded_world : World
recorded_world = record (session_world ParticipationStatus.playing SessionStatus.recording) {
  db = record (session_world ParticipationStatus.playing SessionStatus.recording).db {
    consents = screen_consent ∷ [];
  };
}

abbrev recording_key : StorageKey
recording_key = parsed (record {
  organization_id = 3;
  session_id = 9;
  kind = some RecordingKind.screen;
  object_id = 44;
})

abbrev uploading : Media
uploading = record {
  world = recorded_world;
  uploads =
      (record {
        upload_id = 66;
        storage_key = recording_key;
        session_id = 9;
        user_id = 7;
        expires_at = 90000;
      })
      ∷ [];
  stored = [];
}

abbrev completion : CompleteRequest
completion = record {
  storage_key = recording_key;
  duration_ms = 30000;
  upload_id = some 66;
  has_parts = true;
}

upload_needs_example :
    ((complete_upload 60000 81 7 (uuid 9) completion (some 4096) uploading).1.world.db
      ≡ uploading.world.db)
    ⊎ Uploadable 60000 7 (uuid 9) completion (some 4096) uploading
upload_needs_example = upload_needs 60000 81 7 (uuid 9) completion (some 4096) uploading
