-- ===== src/Schema/Enums.antt =====
-- infra/database/schema/enums.ts: the enumerations of the database, and the status lists that the
-- code tests them against.
use orbitplay_api.Prelude.{Bool, true, false}

pub data TestStatus : Type 0 where
  draft published paused finished expired : TestStatus

pub data WizardStep : Type 0 where
  model form build audience review : WizardStep

pub data TestModelKey : Type 0 where
  free_exploration_telemetry free_exploration ab_test ab_test_images : TestModelKey

pub data QuestionType : Type 0 where
  scale single_choice multiple_choice open_text boolean nps : QuestionType

pub data BuildStatus : Type 0 where
  awaiting_upload uploading processing validated failed : BuildStatus

pub data BuildStepKey : Type 0 where
  checksum malware_scan metadata plugin_manifest : BuildStepKey

pub data ProcessingStatus : Type 0 where
  processing ready failed unavailable : ProcessingStatus

pub data ParticipationStatus : Type 0 where
  reserved tutorial downloading ready playing form_pending in_review completed rejected abandoned :
      ParticipationStatus

pub data SessionStatus : Type 0 where
  starting recording paused finishing processing completed invalidated : SessionStatus

-- `recordingKindEnum`
pub data RecordingKind : Type 0 where
  screen webcam microphone : RecordingKind

pub data ConsentKind : Type 0 where
  screen_recording audio microphone webcam : ConsentKind

-- `ACTIVE_PARTICIPATION_STATUSES`: what the partial unique index on (test, user) covers.
abbrev pub is_active : ParticipationStatus → Bool
is_active completed = false
is_active rejected = false
is_active abandoned = false
is_active _ = true

-- `STARTABLE_PARTICIPATION_STATUSES`
abbrev pub is_startable : ParticipationStatus → Bool
is_startable reserved = true
is_startable tutorial = true
is_startable downloading = true
is_startable ready = true
is_startable _ = false

-- `OPEN_SESSION_STATUSES` of the repository.
abbrev pub is_open_session : SessionStatus → Bool
is_open_session completed = false
is_open_session invalidated = false
is_open_session _ = true

-- `UNFINISHED_SESSION_STATUSES`
abbrev pub is_unfinished : SessionStatus → Bool
is_unfinished starting = true
is_unfinished recording = true
is_unfinished paused = true
is_unfinished _ = false

abbrev pub is_published : TestStatus → Bool
is_published published = true
is_published _ = false

abbrev pub is_draft : TestStatus → Bool
is_draft draft = true
is_draft _ = false

abbrev pub same_kind : ConsentKind → ConsentKind → Bool
same_kind screen_recording screen_recording = true
same_kind audio audio = true
same_kind microphone microphone = true
same_kind webcam webcam = true
same_kind _ _ = false
