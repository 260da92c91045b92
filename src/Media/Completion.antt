-- ===== src/Media/Completion.antt =====
-- modules/media/media.service.ts: `completeUpload`.
use orbitplay_api.Prelude.{
  ℕ, Bool, true, false, not, ◌||◌, Option, none, some, List, [], ◌∷◌, ◌++◌, find, filter, update,
  ltb, option_map, ◌==◌, if◌then◌else◌,
}
use orbitplay_api.Uuid.{Text}
use orbitplay_api.Errors.{Failure, error, not_found_default}
use orbitplay_api.Exec.{Exec, pure, fail, raise, gets, modify, catch, ◌>>=◌, ◌>>◌}
use orbitplay_api.Schema.Enums.{RecordingKind, ProcessingStatus}
use orbitplay_api.Schema.Rows.{SessionRow, RecordingRow, StorageKey, parsed, unparsed}
use orbitplay_api.World.{World}
use orbitplay_api.Participations.SessionQueries.{session_for_user}
use orbitplay_api.Media.{
  CompleteRequest, Media, RecordingView, UploadSession, belongs, discard, drop_object,
  ensure_recording_jobs, find_recording, has_consent, invalid, is_pending, is_processing, lift,
  load_upload, max_recording_bytes, put_object, same_key, to_recording_view,
}

-- `completeMultipartUpload`, from the size of the object that it makes, or none where it throws.
abbrev pub closed_object : StorageKey → Option ℕ → Exec Media (Unit {0})
closed_object key (some size) = put_object key size
closed_object key none =
    invalid "Partes do envio incompletas" "parts" "ETags ou partNumber inválidos"

abbrev pub close_pending : StorageKey → Option ℕ → Bool → Exec Media (Unit {0})
close_pending key closed true = closed_object key closed
close_pending key closed false =
    invalid "Partes do envio incompletas ou expiradas" "uploadId"
      "uploadId não corresponde a este storageKey"

-- `if (dto.uploadId && dto.parts)`
abbrev pub close_parts : ℕ → CompleteRequest → Option ℕ → Option ℕ → Exec Media (Unit {0})
close_parts now dto closed none = pure tt
close_parts now dto closed (some id) =
    if dto.has_parts
    then gets (λ s. is_pending dto.storage_key (load_upload now id s.uploads))
      >>= close_pending dto.storage_key closed
    else pure tt

-- `if (dto.uploadId) await this.redis.del(…)`
abbrev pub delete_upload : Option ℕ → Exec Media (Unit {0})
delete_upload none = pure tt
delete_upload (some id) =
    modify (λ s. record s {
      uploads = filter (λ (u : UploadSession). not (u.upload_id == id)) s.uploads;
    })

abbrev pub new_recording : ℕ → CompleteRequest → ℕ → RecordingKind → ℕ → RecordingRow
new_recording id dto session_id kind size = record {
  id = id;
  session_id = session_id;
  kind = kind;
  storage_key = dto.storage_key;
  size_bytes = some size;
  duration_ms = some dto.duration_ms;
  status = ProcessingStatus.processing;
}

abbrev pub write_recordings : (List RecordingRow → List RecordingRow) → Exec World (Unit {0})
write_recordings f = modify (λ w. record w { db = record w.db { recordings = f w.recordings } })

abbrev pub fail_recording : RecordingRow → RecordingRow
fail_recording r = record r { status = ProcessingStatus.failed }

-- The jobs of a new row; where they cannot be enqueued the row is settled as failed.
unfoldable pub enqueue_or_fail : RecordingRow → Exec World RecordingRow
unfolding ensure_recording_jobs
enqueue_or_fail row =
    catch (do ensure_recording_jobs row.id; pure row)
      (λ e. do
        write_recordings (update RecordingRow.id row.id fail_recording)
        pure (fail_recording row))

abbrev pub insert_recording : CompleteRequest → RecordingRow → Exec Media RecordingView
insert_recording dto row = do
  lift (write_recordings (λ rows. rows ++ row ∷ []))
  delete_upload dto.upload_id
  settled ← lift (enqueue_or_fail row)
  pure (to_recording_view settled)

-- The database has no kind with capitals.
abbrev pub bad_kind : Failure
bad_kind = error "invalid input value for enum"

abbrev pub insert_of_kind :
    ℕ → CompleteRequest → ℕ → Option RecordingKind → ℕ → Exec Media RecordingView
insert_of_kind new_id dto session_id none size = fail bad_kind
insert_of_kind new_id dto session_id (some kind) size =
    insert_recording dto (new_recording new_id dto session_id kind size)

-- From what `stat` gave.
abbrev pub check_size :
    ℕ → CompleteRequest → ℕ → Option RecordingKind → Option ℕ → Exec Media RecordingView
check_size new_id dto session_id kind none =
    invalid "Objeto ausente no storage" "storageKey"
      "Upload não encontrado — envie o arquivo antes de confirmar"
check_size new_id dto session_id kind (some size) =
    if ltb size 1 || ltb max_recording_bytes size
    then (do
      drop_object dto.storage_key
      invalid "Tamanho de gravação inválido" "sizeBytes" "Tamanho fora dos limites")
    else insert_of_kind new_id dto session_id kind size

unfoldable pub stat : StorageKey → Media → Option ℕ
stat key s = option_map (λ o. o.1) (find (λ o. same_key o.0 key) s.stored)

abbrev pub with_consent :
    ℕ → ℕ → CompleteRequest → Option ℕ → ℕ → Option RecordingKind → Bool → Exec Media RecordingView
with_consent now new_id dto closed session_id kind true = do
  close_parts now dto closed dto.upload_id
  size ← gets (stat dto.storage_key)
  check_size new_id dto session_id kind size
with_consent now new_id dto closed session_id kind false = do
  discard dto.upload_id dto.storage_key
  invalid "Consentimento de gravação ausente" "kind"
      "A gravação só começa após o consentimento (Tela 17 RN-01)"

-- A retry: the jobs of a row that is still processing are ensured, and an error there is ignored.
abbrev pub retried : RecordingRow → Exec Media RecordingView
retried row =
    if is_processing row.status
    then (do
      lift (catch (ensure_recording_jobs row.id) (λ e. pure tt))
      pure (to_recording_view row))
    else pure (to_recording_view row)

abbrev pub fresh_upload :
    ℕ
    → ℕ
    → CompleteRequest
    → Option ℕ
    → SessionRow
    → Option RecordingKind
    → Exec Media RecordingView
fresh_upload now new_id dto closed session kind = do
  consent ← gets (λ s. has_consent session.participation_id kind s.world)
  with_consent now new_id dto closed session.id kind consent

-- From the row that has the storage key.
abbrev pub with_row :
    ℕ
    → ℕ
    → CompleteRequest
    → Option ℕ
    → SessionRow
    → Option RecordingKind
    → Option RecordingRow
    → Exec Media RecordingView
with_row now new_id dto closed session kind none = fresh_upload now new_id dto closed session kind
with_row now new_id dto closed session kind (some row) =
    if row.session_id == session.id
    then retried row
    else fresh_upload now new_id dto closed session kind

abbrev pub foreign_key : Exec Media RecordingView
foreign_key =
    invalid "storageKey não pertence a esta sessão" "storageKey"
      "Chave de storage inválida para esta sessão"

abbrev pub with_session :
    ℕ → ℕ → CompleteRequest → Option ℕ → SessionRow → StorageKey → Exec Media RecordingView
with_session now new_id dto closed session (unparsed t) = foreign_key
with_session now new_id dto closed session (parsed k) =
    if belongs k session
    then gets (λ s. find_recording dto.storage_key s.world)
      >>= with_row now new_id dto closed session k.kind
    else foreign_key

abbrev pub of_session :
    ℕ → ℕ → CompleteRequest → Option ℕ → Option SessionRow → Exec Media RecordingView
of_session now new_id dto closed none = raise not_found_default
of_session now new_id dto closed (some session) =
    with_session now new_id dto closed session dto.storage_key

-- `completeUpload`
unfoldable pub complete_upload :
    ℕ → ℕ → ℕ → Text → CompleteRequest → Option ℕ → Exec Media RecordingView
unfolding enqueue_or_fail
complete_upload now new_id user_id session_id dto closed =
    gets (λ s. session_for_user session_id user_id s.world) >>= of_session now new_id dto closed
