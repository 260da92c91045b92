-- ===== src/Media/Links.antt =====
-- modules/media/media.service.ts: `createUploadUrl`.
use orbitplay_api.Prelude.{
  ℕ, ◌+◌, not, ◌&&◌, Option, none, some, [], ◌∷◌, filter, get_or, ◌==◌, if◌then◌else◌,
}
use orbitplay_api.Uuid.{Text}
use orbitplay_api.Errors.{validation, named, Message, not_found_default}
use orbitplay_api.Exec.{Exec, pure, gets, modify, require, ensure, ◌>>=◌, ◌>>◌}
use orbitplay_api.Schema.Enums.{RecordingKind, screen}
use orbitplay_api.Schema.Rows.{SessionRow, StorageKey, parsed}
use orbitplay_api.Participations.SessionQueries.{session_for_user}
use orbitplay_api.Media.{
  Media, UploadSession, has_consent, invalid, load_upload, recording_upload_ttl_ms,
}

pub record UploadUrlRequest : Type 0 where
  pub kind : Option RecordingKind
  pub upload_id : Option ℕ

-- `saveUploadSession`
abbrev pub save_upload : UploadSession → Exec Media (Unit {0})
save_upload u = modify (λ s. record s {
  uploads = u ∷ filter (λ (v : UploadSession). not (v.upload_id == u.upload_id)) s.uploads;
})

-- An upload that goes on, of the same session and player.
abbrev pub resumed : ℕ → ℕ → Option UploadSession → Exec Media (StorageKey × ℕ)
resumed session_id user_id none =
    invalid "Upload expirado ou inválido" "uploadId" "Inicie o envio novamente"
resumed session_id user_id (some u) =
    if (u.session_id == session_id) && (u.user_id == user_id)
    then pure (u.storage_key, u.upload_id)
    else invalid "Upload expirado ou inválido" "uploadId" "Inicie o envio novamente"

-- The storage key and the id of the upload: of the one that is named, or of a new one, for which the
-- storage answers with an id.
abbrev pub upload_of :
    ℕ → ℕ → ℕ → ℕ → SessionRow → RecordingKind → Option ℕ → Exec Media (StorageKey × ℕ)
upload_of now object_id new_upload user_id session kind (some id) =
    gets (λ s. load_upload now id s.uploads) >>= resumed session.id user_id
upload_of now object_id new_upload user_id session kind none =
    let key = parsed (record {
      organization_id = session.organization_id;
      session_id = session.id;
      kind = some kind;
      object_id = object_id;
    }) in
    (save_upload (record {
      upload_id = new_upload;
      storage_key = key;
      session_id = session.id;
      user_id = user_id;
      expires_at = now + recording_upload_ttl_ms;
    })
      >> pure (key, new_upload))

-- `createUploadUrl`, less the signed URL of the part.
unfoldable pub create_upload_url :
    ℕ → ℕ → ℕ → ℕ → Text → UploadUrlRequest → Exec Media (StorageKey × ℕ)
create_upload_url now object_id new_upload user_id session_id dto = do
  found ← gets (λ s. session_for_user session_id user_id s.world)
  session ← require found not_found_default
  let kind = get_or dto.kind screen
  consent ← gets (λ s. has_consent session.participation_id (some kind) s.world)
  ensure consent (
      validation "Consentimento de gravação ausente" (
        (named "kind", Message.text "A gravação só começa após o consentimento (Tela 17 RN-01)")
        ∷ []))
  upload_of now object_id new_upload user_id session kind dto.upload_id
