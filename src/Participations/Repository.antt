-- ===== src/Participations/Repository.antt =====
-- modules/participations/participations.repository.ts: the queries and transactions on
-- participations and consents.
use orbitplay_api.Prelude.{
  ℕ, ◌+◌, Bool, true, false, ◌&&◌, Option, none, some, List, [], ◌∷◌, ◌++◌, ltb, leb, any, count_if,
  get_or, get, update, option_map, ◌==◌, if◌then◌else◌,
}
use orbitplay_api.Uuid.{Text, as_uuid}
use orbitplay_api.Errors.{conflict, unique_violation, ok}
use orbitplay_api.Exec.{Exec, pure, fail, raise, gets, modify, ◌>>=◌, ◌>>◌}
use orbitplay_api.Schema.Enums.{
  ConsentKind, screen_recording, audio, microphone, webcam, same_kind, ParticipationStatus,
  reserved, is_active, is_published,
}
use orbitplay_api.Schema.Rows.{TestRow, AudienceRow, ParticipationRow, ConsentRow}
use orbitplay_api.Eligibility.{Date, AgeRange}
use orbitplay_api.World.{UserRow, World, transaction}
use orbitplay_api.PlayerCta.{still_open}

abbrev pub find_by : {A : Type 0} → (ℕ → Option A) → Option ℕ → Option A
find_by f none = none
find_by f (some i) = f i

unfoldable pub find_test_by_id : Text → World → Option TestRow
find_test_by_id t w = find_by (λ i. get TestRow.id i w.tests) (as_uuid t)

-- `findTestById` with an id that the database gave.
unfoldable pub get_test : ℕ → World → Option TestRow
get_test i w = get TestRow.id i w.tests

-- `findAudienceAgeRange`
unfoldable pub find_audience_age_range : ℕ → World → Option AgeRange
find_audience_age_range test_id w =
    option_map (λ (r : AudienceRow). record { age_min = r.age_min; age_max = r.age_max })
      (get AudienceRow.test_id test_id w.audience)

abbrev join_option : {A : Type 0} → Option (Option A) → Option A
join_option none = none
join_option (some o) = o

unfoldable pub find_user_birthdate : ℕ → World → Option Date
find_user_birthdate user_id w =
    join_option (option_map (λ (r : UserRow). r.birthdate) (get UserRow.id user_id w.users))

abbrev pub same_pair : ℕ → ℕ → ParticipationRow → Bool
same_pair test_id user_id p = (p.test_id == test_id) && (p.user_id == user_id)

-- What the index `participations_active_test_user_unique` counts.
abbrev pub holds_slot : ℕ → ℕ → ParticipationRow → Bool
holds_slot test_id user_id p = same_pair test_id user_id p && is_active p.status

-- A write that leaves two active rows of one test and user violates that index.
abbrev pub write_participations : ℕ → ℕ → List ParticipationRow → Exec World (Unit {0})
write_participations test_id user_id rows w =
    if ltb 1 (count_if (holds_slot test_id user_id) rows)
    then fail unique_violation w
    else (ok tt, record w { db = record w.db { participations = rows } })

abbrev pub set_status : ParticipationStatus → ParticipationRow → ParticipationRow
set_status st p = record p { status = st }

abbrev pub update_found : Option ParticipationRow → ℕ → ParticipationStatus → Exec World (Unit {0})
update_found none id st w = pure tt w
update_found (some p) id st w =
    write_participations p.test_id p.user_id
      (update ParticipationRow.id id (set_status st) w.participations) w

-- `UPDATE participations SET status = st WHERE id = id`
unfoldable pub set_participation_status : ℕ → ParticipationStatus → Exec World (Unit {0})
set_participation_status id st w =
    update_found (get ParticipationRow.id id w.participations) id st w

unfoldable pub insert_participation : ParticipationRow → Exec World ParticipationRow
insert_participation p = do
  rows ← gets (λ w. w.participations ++ p ∷ [])
  write_participations p.test_id p.user_id rows
  pure p

abbrev pub take_slot : TestRow → TestRow
take_slot t = record t { slots_taken = t.slots_taken + 1 }

-- The `WHERE` of the compare-and-set in `reserveParticipation`.
unfoldable pub is_reservable : ℕ → TestRow → Bool
is_reservable now t =
    is_published t.status && still_open t.ends_at now && ltb t.slots_taken t.slots_total

abbrev pub new_participation : ℕ → ℕ → ℕ → ParticipationRow
new_participation id test_id user_id = record {
  id = id;
  test_id = test_id;
  user_id = user_id;
  status = reserved;
  resume_point = none;
}

abbrev reserve_found : Option TestRow → ℕ → ℕ → ℕ → ℕ → Exec World ParticipationRow
reserve_found none now test_id user_id new_id =
    raise (conflict "Teste não está aberto para participação")
reserve_found (some t) now test_id user_id new_id =
    if is_reservable now t
    then (do
      modify (λ w. record w {
        db = record w.db { tests = update TestRow.id test_id take_slot w.tests };
      })
      insert_participation (new_participation new_id test_id user_id))
    else if is_published t.status && leb t.slots_total t.slots_taken
    then raise (conflict "Vagas esgotadas")
    else raise (conflict "Teste não está aberto para participação")

-- `reserveParticipation`; `new_id` is what `newId()` returns.
unfoldable pub reserve_participation : ℕ → ℕ → ℕ → ℕ → Exec World ParticipationRow
unfolding insert_participation
reserve_participation now test_id user_id new_id =
    transaction (λ w. reserve_found (get TestRow.id test_id w.tests) now test_id user_id new_id w)

abbrev pub is_completed : ParticipationStatus → Bool
is_completed ParticipationStatus.completed = true
is_completed _ = false

unfoldable pub has_completed_participation : ℕ → ℕ → World → Bool
has_completed_participation test_id user_id w =
    any (λ p. same_pair test_id user_id p && is_completed p.status) w.participations

abbrev owned_by : ℕ → Option ParticipationRow → Option ParticipationRow
owned_by user_id none = none
owned_by user_id (some p) = if p.user_id == user_id then some p else none

-- `getByIdForUserOrThrow`: another player's participation reads as absent.
unfoldable pub participation_for_user : Text → ℕ → World → Option ParticipationRow
participation_for_user id user_id w =
    owned_by user_id (find_by (λ i. get ParticipationRow.id i w.participations) (as_uuid id))

unfoldable pub find_consent : ℕ → World → Option ConsentRow
find_consent participation_id w = get ConsentRow.participation_id participation_id w.consents

-- `Object.fromEntries(…)[kind]`: of two entries of one kind the later wins.
abbrev pub granted_for : ConsentKind → List (ConsentKind × Bool) → Option Bool
granted_for k [] = none
granted_for k ((j, b) ∷ cs) = elim (granted_for k cs) [
  | some c ↦ some c
  | none ↦ if same_kind j k then some b else none
]

abbrev pub consent_row : ℕ → List (ConsentKind × Bool) → ℕ → ConsentRow
consent_row participation_id consents now = record {
  participation_id = participation_id;
  screen_recording = get_or (granted_for screen_recording consents) false;
  audio = get_or (granted_for audio consents) false;
  microphone = get_or (granted_for microphone consents) false;
  webcam = get_or (granted_for webcam consents) false;
  accepted_at = some now;
}

abbrev upsert : ConsentRow → Option ConsentRow → List ConsentRow → List ConsentRow
upsert c none rows = rows ++ c ∷ []
upsert c (some old) rows = update ConsentRow.participation_id c.participation_id (λ r. c) rows

-- `upsertConsent`; the address and the user agent of the request are not kept in the model.
unfoldable pub upsert_consent : ℕ → List (ConsentKind × Bool) → ℕ → Exec World ConsentRow
unfolding find_consent
upsert_consent participation_id consents now w =
    let c = consent_row participation_id consents now in
    (
      ok c,
      record w {
        db = record w.db { consents = upsert c (find_consent participation_id w) w.consents };
      },
    )
