-- ===== src/Media.antt =====
-- modules/media: media.service.ts with media.repository.ts, the upload of a session's recordings. The
-- storage of objects is not part of the repository: a multipart upload has the id that it answers
-- with, and closing one makes an object of some size or throws.
pub mod Completion
pub mod Links
pub mod Uploads
use orbitplay_api.Prelude.{
  ℕ, ◌+◌, ◌*◌, Bool, true, false, String, not, ◌&&◌, ◌||◌, Option, none, some, List, [], ◌∷◌, ◌++◌,
  find, filter, update, get_or, is_some, ltb, option_map, ◌==◌, if◌then◌else◌,
}
use orbitplay_api.Uuid.{Text}
use orbitplay_api.Errors.{Failure, AppException, validation, named, Message, not_found_default}
use orbitplay_api.Exec.{Exec, pure, fail, raise, gets, modify, require, ensure, catch, ◌>>=◌, ◌>>◌}
use orbitplay_api.Schema.Enums.{RecordingKind, screen, webcam, microphone, ProcessingStatus}
use orbitplay_api.Schema.Rows.{
  SessionRow, ConsentRow, RecordingRow, RecordingKey, StorageKey, parsed, unparsed,
}
use orbitplay_api.Queue.{media_transcode_job_id, media_extract_audio_job_id}
use orbitplay_api.World.{World, ensure_enqueued}
use orbitplay_api.Participations.Repository.{find_consent}
use orbitplay_api.Participations.SessionQueries.{session_for_user}

abbrev pub max_recording_bytes : ℕ
max_recording_bytes = 2 * 1024 * 1024 * 1024

abbrev pub recording_upload_ttl_ms : ℕ
recording_upload_ttl_ms = 3600 * 1000

-- `UploadSession`, under `recording-upload:${uploadId}` in Redis; the fields that no code reads
-- again are left out.
pub record UploadSession : Type 0 where
  pub upload_id : ℕ
  pub storage_key : StorageKey
  pub session_id : ℕ
  pub user_id : ℕ
  pub expires_at : ℕ

-- The world, with the upload sessions of Redis and the sizes of the recordings' objects.
pub record Media : Type 0 where
  pub world : World
  pub open world use *
  pub uploads : List UploadSession
  pub stored : List (StorageKey × ℕ)

abbrev pub lift : {A : Type 0} → Exec World A → Exec Media A
lift m s = ((m s.world).0, record s { world = (m s.world).1 })

abbrev pub same_recording_kind : RecordingKind → RecordingKind → Bool
same_recording_kind screen screen = true
same_recording_kind webcam webcam = true
same_recording_kind microphone microphone = true
same_recording_kind _ _ = false

abbrev pub same_key_kind : Option RecordingKind → Option RecordingKind → Bool
same_key_kind none none = true
same_key_kind (some a) (some b) = same_recording_kind a b
same_key_kind _ _ = false

-- `a === b`, of storage keys
abbrev pub same_key : StorageKey → StorageKey → Bool
same_key (parsed a) (parsed b) =
    (a.organization_id == b.organization_id)
    && ((a.session_id == b.session_id)
        && (same_key_kind a.kind b.kind && (a.object_id == b.object_id)))
same_key (unparsed a) (unparsed b) = a == b
same_key _ _ = false

-- `consentGranted`
abbrev pub consent_granted : Option RecordingKind → ConsentRow → Bool
consent_granted (some screen) c = c.screen_recording
consent_granted (some webcam) c = c.webcam
consent_granted _ c = c.microphone

-- What `assertConsent` asks for.
unfoldable pub has_consent : ℕ → Option RecordingKind → World → Bool
has_consent participation_id kind w =
    get_or (option_map (consent_granted kind) (find_consent participation_id w)) false

-- `throw AppException.validation(title, { [field]: message })`
abbrev pub invalid : {A : Type 0} → String → String → String → Exec Media A
invalid title field message = raise (validation title ((named field, Message.text message) ∷ []))

-- `findRecordingByStorageKey`
unfoldable pub find_recording : StorageKey → World → Option RecordingRow
find_recording key w = find (λ r. same_key r.storage_key key) w.recordings

-- `loadUploadSession`
unfoldable pub load_upload : ℕ → ℕ → List UploadSession → Option UploadSession
load_upload now id uploads = find (λ u. (u.upload_id == id) && ltb now u.expires_at) uploads

-- `ensureRecordingJobsEnqueued`
unfoldable pub ensure_recording_jobs : ℕ → Exec World (Unit {0})
ensure_recording_jobs id = do
  ensure_enqueued (media_transcode_job_id id)
  ensure_enqueued (media_extract_audio_job_id id)
  pure tt

-- `storageKeyBelongsToSession`; the id of the path counts as the database writes it.
abbrev pub belongs : RecordingKey → SessionRow → Bool
belongs k s = (k.organization_id == s.organization_id) && (k.session_id == s.id)

pub record CompleteRequest : Type 0 where
  pub storage_key : StorageKey
  pub duration_ms : ℕ
  pub upload_id : Option ℕ
  pub has_parts : Bool

pub record RecordingView : Type 0 where
  pub id : ℕ
  pub session_id : ℕ
  pub status : ProcessingStatus
  pub duration_ms : Option ℕ

abbrev pub to_recording_view : RecordingRow → RecordingView
to_recording_view r = record {
  id = r.id;
  session_id = r.session_id;
  status = r.status;
  duration_ms = r.duration_ms;
}

abbrev pub drop_object : StorageKey → Exec Media (Unit {0})
drop_object key = modify (λ s. record s { stored = filter (λ o. not (same_key o.0 key)) s.stored })

abbrev pub put_object : StorageKey → ℕ → Exec Media (Unit {0})
put_object key size =
    modify (λ s. record s { stored = (key, size) ∷ filter (λ o. not (same_key o.0 key)) s.stored })

-- What was sent without consent is discarded: an open upload is aborted, an object removed.
abbrev pub discard : Option ℕ → StorageKey → Exec Media (Unit {0})
discard (some upload_id) key = pure tt
discard none key = drop_object key

abbrev pub is_pending : StorageKey → Option UploadSession → Bool
is_pending key none = false
is_pending key (some u) = same_key u.storage_key key

abbrev pub is_processing : ProcessingStatus → Bool
is_processing ProcessingStatus.processing = true
is_processing _ = false
