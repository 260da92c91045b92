-- ===== src/Media/Uploads.antt =====
-- What it takes to store a recording.
use orbitplay_api.Prelude.{
  ℕ, ◌≤◌, ◌≡◌, refl, ◌∙◌, ap, subst, inl, inr, ◌⊎◌, Bool, true, false, ◌||◌, Option, none, some,
  arith, ltb, ◌==◌, Bool-cases, if◌then◌else◌,
}
use orbitplay_api.Uuid.{Text}
use orbitplay_api.Errors.{Result, ok, err}
use orbitplay_api.Exec.{gets, pure, catch, continue, ◌>>=◌, ◌>>◌}
use orbitplay_api.Exec.Keeps.{keeps_rules, Keeps-pure, continued}
use orbitplay_api.Schema.Enums.{RecordingKind}
use orbitplay_api.Schema.Rows.{SessionRow, RecordingRow, RecordingKey, StorageKey, parsed, unparsed}
use orbitplay_api.World.{World, Db}
use orbitplay_api.World.Keeps.{DbKeeps, Keeps-ensure_enqueued}
use orbitplay_api.Participations.SessionQueries.{session_for_user}
use orbitplay_api.Media.{
  Media, CompleteRequest, RecordingView, max_recording_bytes, has_consent, find_recording, belongs,
  ensure_recording_jobs, load_upload, is_pending, is_processing, to_recording_view, lift, discard,
  invalid,
}
use orbitplay_api.Media.Completion.{
  close_parts, close_pending, stat, check_size, with_consent, retried, fresh_upload, with_row,
  with_session, of_session, complete_upload, foreign_key,
}

-- Everything that storing the recording of a request needs.
pub record Uploadable (now user_id : ℕ) (session_id : Text) (dto : CompleteRequest)
    (closed : Option ℕ) (s : Media) : Type 0 where
  pub session : SessionRow
  pub found : session_for_user session_id user_id s.world ≡ some session
  pub key : RecordingKey
  pub written : dto.storage_key ≡ parsed key
  pub belonging : belongs key session ≡ true
  pub absent :
      (row : RecordingRow)
      → find_recording dto.storage_key s.world ≡ some row
      → (row.session_id == session.id) ≡ false
  pub kind : RecordingKind
  pub spelled : key.kind ≡ some kind
  pub consent : has_consent session.participation_id key.kind s.world ≡ true
  pub closes : (close_parts now dto closed dto.upload_id s).0 ≡ ok tt
  pub size : ℕ
  pub measured : stat dto.storage_key (close_parts now dto closed dto.upload_id s).1 ≡ some size
  pub not_empty : 1 ≤ size
  pub not_too_large : size ≤ max_recording_bytes

-- The size of an object, within the bounds.
abbrev Bounded : Option ℕ → Type 0
Bounded o = (size : ℕ) × ((o ≡ some size) × ((1 ≤ size) × (size ≤ max_recording_bytes)))

-- A kind as the code writes it.
abbrev IsSpelled : Option RecordingKind → Type 0
IsSpelled o = (kind : RecordingKind) × (o ≡ some kind)

abbrev SameDb : Media → Result RecordingView × Media → Type 0
SameDb s r = r.1.world.db ≡ s.world.db

jobs_keep :
    (d : Db) (id : ℕ) → DbKeeps (λ x. x ≡ d) (catch (ensure_recording_jobs id) (λ e. pure tt))
unfolding ensure_recording_jobs
jobs_keep d id = search (keeps_rules, Keeps-ensure_enqueued (λ x. x ≡ d)) depth 40

retried_lem : (row : RecordingRow) (s : Media) → SameDb s (retried row s)
unfolding ◌>>=◌
retried_lem row s = go (is_processing row.status)
  where
    after : Result (Unit {0}) × World
    after = catch (ensure_recording_jobs row.id) (λ e. pure tt) s.world

    go :
        (b : Bool)
        → SameDb s (
            (if b
                then (do
                  lift (catch (ensure_recording_jobs row.id) (λ e. pure tt))
                  pure (to_recording_view row))
                else pure (to_recording_view row))
              s)
    go true =
        continued {P = λ (t : Media). t.world.db ≡ s.world.db} after.0
          (λ _. pure (to_recording_view row)) (record s { world = after.1 })
          (λ _. Keeps-pure (to_recording_view row)) ((jobs_keep s.world.db row.id).at s.world refl)
    go false = refl

module _ (now new_id : ℕ) (dto : CompleteRequest) (closed : Option ℕ) where
  sized :
      (session_id : ℕ) (kind : Option RecordingKind) (o : Option ℕ) (s : Media)
      → SameDb s (check_size new_id dto session_id kind o s) ⊎ (IsSpelled kind × Bounded o)
  unfolding ◌>>=◌
  sized session_id kind none s = inl refl
  sized session_id none (some size) s =
      elim (Bool-cases (ltb size 1 || ltb max_recording_bytes size)) [
        | inl e ↦ inl (rw e refl)
        | inr e ↦ inl (rw e refl)
      ]
  sized session_id (some kind) (some size) s =
      elim (Bool-cases (ltb size 1 || ltb max_recording_bytes size)) [
        | inl e ↦ inl (rw e refl)
        | inr e ↦ inr ((kind, refl), (size, (refl, (ground (arith, e), ground (arith, e)))))
      ]

  closes_world : (id : Option ℕ) (s : Media) → (close_parts now dto closed id s).1.world ≡ s.world
  unfolding ◌>>=◌
  closes_world none s = refl
  closes_world (some id) s = go dto.has_parts
    where
      closed_world :
          (pending : Bool) (c : Option ℕ)
          → (close_pending dto.storage_key c pending s).1.world ≡ s.world
      closed_world true (some n) = refl
      closed_world true none = refl
      closed_world false c = refl

      go :
          (b : Bool)
          → ((if b
                then gets (λ t. is_pending dto.storage_key (load_upload now id t.uploads))
                  >>= close_pending dto.storage_key closed
                else pure tt)
              s).1.world
            ≡ s.world
      go true = closed_world (is_pending dto.storage_key (load_upload now id s.uploads)) closed
      go false = refl

  -- After the parts were closed, or closing them failed.
  sized_after :
      (session_id : ℕ) (kind : Option RecordingKind) (d : Db) (r : Result (Unit {0})) (s : Media)
      → s.world.db ≡ d
      → ((continue r
            (λ _. gets (stat dto.storage_key) >>= check_size new_id dto session_id kind)
            s).1.world.db
          ≡ d)
        ⊎ ((r ≡ ok tt) × (IsSpelled kind × Bounded (stat dto.storage_key s)))
  unfolding ◌>>=◌
  sized_after session_id kind d (err x) s e = inl e
  sized_after session_id kind d (ok u) s e =
      elim (sized session_id kind (stat dto.storage_key s) s) [
        | inl h ↦ inl (h ∙ e)
        | inr h ↦ inr (refl, h)
      ]

  -- The parts were closed, and the object's size is within the bounds.
  abbrev Closed : Option RecordingKind → Media → Type 0
  Closed kind s =
      ((close_parts now dto closed dto.upload_id s).0 ≡ ok tt)
      × (IsSpelled kind
          × Bounded (stat dto.storage_key (close_parts now dto closed dto.upload_id s).1))

  consented :
      (session_id : ℕ) (kind : Option RecordingKind) (b : Bool) (s : Media)
      → SameDb s (with_consent now new_id dto closed session_id kind b s)
        ⊎ ((b ≡ true) × Closed kind s)
  unfolding ◌>>=◌
  consented session_id kind true s =
      elim (sized_after session_id kind s.world.db (close_parts now dto closed dto.upload_id s).0
        (close_parts now dto closed dto.upload_id s).1
        (ap World.db (closes_world dto.upload_id s))) [ inl h ↦ inl h | inr h ↦ inr (refl, h) ]
  consented session_id kind false s = inl (discarded dto.upload_id)
    where
      discarded :
          (id : Option ℕ)
          → (continue
              (discard id dto.storage_key s).0
              (λ _.
                invalid {A = RecordingView} "Consentimento de gravação ausente" "kind"
                  "A gravação só começa após o consentimento (Tela 17 RN-01)")
              (discard id dto.storage_key s).1).1.world.db
            ≡ s.world.db
      discarded none = refl
      discarded (some id) = refl

  -- What a fresh upload into a session needs.
  abbrev Fresh : SessionRow → Option RecordingKind → Media → Type 0
  Fresh session kind s = (has_consent session.participation_id kind s.world ≡ true) × Closed kind s

  abbrev Absent : SessionRow → Option RecordingRow → Type 0
  Absent session o = (row : RecordingRow) → o ≡ some row → (row.session_id == session.id) ≡ false

  rowed :
      (session : SessionRow) (kind : Option RecordingKind) (o : Option RecordingRow) (s : Media)
      → SameDb s (with_row now new_id dto closed session kind o s)
        ⊎ (Absent session o × Fresh session kind s)
  unfolding ◌>>=◌
  rowed session kind none s =
      elim (consented session.id kind (has_consent session.participation_id kind s.world) s) [
        | inl h ↦ inl h
        | inr h ↦ inr (λ row e. cc, h)
      ]
  rowed session kind (some row) s = go (row.session_id == session.id) refl
    where
      go :
          (b : Bool)
          → (row.session_id == session.id) ≡ b
          → SameDb s
              ((if b then retried row else fresh_upload now new_id dto closed session kind) s)
            ⊎ (Absent session (some row) × Fresh session kind s)
      go true e = inl (retried_lem row s)
      go false e =
          elim (consented session.id kind (has_consent session.participation_id kind s.world) s) [
            | inl h ↦ inl h
            | inr h ↦ inr (
              λ r q.
                  let same : row ≡ r = cc in
                  subst (λ (x : RecordingRow). (x.session_id == session.id) ≡ false) same e,
              h,
            )
          ]

  keyed :
      (session : SessionRow) (k : RecordingKey) (s : Media)
      → SameDb s (with_session now new_id dto closed session (parsed k) s)
        ⊎ ((belongs k session ≡ true)
            × (Absent session (find_recording dto.storage_key s.world) × Fresh session k.kind s))
  unfolding ◌>>=◌
  keyed session k s = go (belongs k session)
    where
      go :
          (b : Bool)
          → SameDb s (
              (if b
                  then gets (λ t. find_recording dto.storage_key t.world)
                    >>= with_row now new_id dto closed session k.kind
                  else foreign_key)
                s)
            ⊎ ((b ≡ true)
                × (Absent session (find_recording dto.storage_key s.world)
                    × Fresh session k.kind s))
      go true = elim (rowed session k.kind (find_recording dto.storage_key s.world) s) [
        | inl h ↦ inl h
        | inr h ↦ inr (refl, h)
      ]
      go false = inl refl

-- Completing an upload either leaves the database as it was, or everything that storing a recording
-- needs held: the session is the player's, the storage key is one of that session, with a kind of
-- recording as the code writes it, and had no row in it, the consent for that kind of recording is given, the parts of the upload were closed, and the
-- size of the object that the storage then has under the key is within the bounds.
pub upload_needs :
    (now new_id user_id : ℕ) (session_id : Text) (dto : CompleteRequest) (closed : Option ℕ)
    (s : Media)
    → ((complete_upload now new_id user_id session_id dto closed s).1.world.db ≡ s.world.db)
      ⊎ Uploadable now user_id session_id dto closed s
unfolding complete_upload ◌>>=◌
upload_needs now new_id user_id session_id dto closed s =
    of_found (session_for_user session_id user_id s.world) refl
  where
    go :
        (session : SessionRow)
        → session_for_user session_id user_id s.world ≡ some session
        → (x : StorageKey) → dto.storage_key ≡ x
        → SameDb s (with_session now new_id dto closed session x s)
          ⊎ Uploadable now user_id session_id dto closed s
    go session e (unparsed t) q = inl refl
    go session e (parsed k) q = elim (keyed now new_id dto closed session k s) [
      | inl h ↦ inl h
      | inr (b, (absent, (consent, (closes, ((kind, spelled), (size, (measured, (low, high)))))))) ↦
          inr (record {
            session = session;
            found = e;
            key = k;
            written = q;
            belonging = b;
            absent = absent;
            kind = kind;
            spelled = spelled;
            consent = consent;
            closes = closes;
            size = size;
            measured = measured;
            not_empty = low;
            not_too_large = high;
          })
    ]

    of_found :
        (o : Option SessionRow)
        → session_for_user session_id user_id s.world ≡ o
        → SameDb s (of_session now new_id dto closed o s)
          ⊎ Uploadable now user_id session_id dto closed s
    of_found none e = inl refl
    of_found (some session) e = go session e dto.storage_key refl
