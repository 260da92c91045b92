-- ===== src/Schema/Rows.antt =====
-- infra/database/schema/{tests,participations,player}.ts: one record for each table that the
-- modelled code reads or writes. An id is the 128-bit number of its UUID, a time is in
-- milliseconds. Left out are the columns that no modelled operation decides on: names, labels and other
-- copy, the targeting of an audience beyond its ages, media details, idempotency keys of sessions and
-- forms, the audit columns where no code reads them, and `source_type`, which is always `session`.
use orbitplay_api.Prelude.{ℕ, Bool, String, Option, List}
use orbitplay_api.Schema.Enums.{
  TestStatus, WizardStep, TestModelKey, QuestionType, BuildStatus, BuildStepKey, ProcessingStatus,
  ParticipationStatus, SessionStatus, ConsentKind, RecordingKind,
}

pub record TestRow : Type 0 where
  pub id : ℕ
  pub organization_id : ℕ
  pub game_id : ℕ
  pub name : Option String
  pub model_key : TestModelKey
  pub status : TestStatus
  pub current_step : WizardStep
  pub slots_total : ℕ
  pub slots_taken : ℕ
  pub duration_days : Option ℕ
  pub starts_at : Option ℕ
  pub ends_at : Option ℕ
  pub published_at : Option ℕ
  pub publish_idempotency_key : Option ℕ
  pub reward_amount_cents : Option ℕ
  pub gamepad_supported : Bool

pub record AudienceRow : Type 0 where
  pub test_id : ℕ
  pub age_min : Option ℕ
  pub age_max : Option ℕ
  pub tester_count : Option ℕ
  pub estimated_reach : Option ℕ

pub record OptionRow : Type 0 where
  pub id : ℕ
  pub position : ℕ

-- A row of `test_form_questions` with its options, as `FormQuestionWithOptions` joins them.
pub record QuestionRow : Type 0 where
  pub id : ℕ
  pub test_id : ℕ
  pub type : QuestionType
  pub required : Bool
  pub position : ℕ
  pub scale_min : Option ℕ
  pub scale_max : Option ℕ
  pub options : List OptionRow

-- The file name and the checksum by their UTF-16 units.
pub record BuildRow : Type 0 where
  pub id : ℕ
  pub organization_id : ℕ
  pub test_id : ℕ
  pub file_name : List ℕ
  pub size_bytes : Option ℕ
  pub checksum : Option (List ℕ)
  pub storage_key : ℕ
  pub status : BuildStatus
  pub failure_reason : Option String
  pub created_at : ℕ

-- The message of a step is left out.
pub record BuildStepRow : Type 0 where
  pub build_id : ℕ
  pub key : BuildStepKey
  pub status : ProcessingStatus
  pub finished_at : Option ℕ

pub record ParticipationRow : Type 0 where
  pub id : ℕ
  pub test_id : ℕ
  pub user_id : ℕ
  pub status : ParticipationStatus
  pub resume_point : Option String

pub record ConsentRow : Type 0 where
  pub participation_id : ℕ
  pub screen_recording : Bool
  pub audio : Bool
  pub microphone : Bool
  pub webcam : Bool
  pub accepted_at : Option ℕ

pub record SessionRow : Type 0 where
  pub id : ℕ
  pub participation_id : ℕ
  pub test_id : ℕ
  pub organization_id : ℕ
  pub status : SessionStatus
  pub started_at : ℕ
  pub ended_at : Option ℕ
  pub duration_ms : Option ℕ

pub record DeviceEventRow : Type 0 where
  pub session_id : ℕ
  pub t_ms : ℕ
  pub kind : ConsentKind
  pub value : Bool

-- The parts of a recording's storage key, whose pattern takes capitals as well. A kind with capitals is
-- none of the database's kinds; `object_id` stands for the object's id and for the spelling of the
-- words of the key.
pub record RecordingKey : Type 0 where
  pub organization_id : ℕ
  pub session_id : ℕ
  pub kind : Option RecordingKind
  pub object_id : ℕ

-- A storage key of a recording: a text that `parseRecordingStorageKey` takes, or any other, by a
-- number that stands for it. A key whose ids are not spelled as the database writes them is of no
-- session and counts as one of the others.
pub data StorageKey : Type 0 where
  parsed : RecordingKey → StorageKey
  unparsed : ℕ → StorageKey

pub record RecordingRow : Type 0 where
  pub id : ℕ
  pub session_id : ℕ
  pub kind : RecordingKind
  pub storage_key : StorageKey
  pub size_bytes : Option ℕ
  pub duration_ms : Option ℕ
  pub status : ProcessingStatus

pub record ValidationRow : Type 0 where
  pub session_id : ℕ
  pub valid : Bool
  pub reason : Option String
  pub validated_at : ℕ

pub record XpEventRow : Type 0 where
  pub user_id : ℕ
  pub source_id : ℕ
  pub xp : ℕ
