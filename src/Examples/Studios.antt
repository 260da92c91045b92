-- ===== src/Examples/Studios.antt =====
-- Runs of the studio's side: the wizard and the publication of a test.
use orbitplay_api.Prelude.{
  ℕ, ◌≡◌, ◌↔◌, ◌⊎◌, refl, true, false, Option, some, [], ◌∷◌, arith, any, get, ◌==◌,
}
use orbitplay_api.Uuid.{uuid}
use orbitplay_api.Errors.{ok, err, app, conflict}
use orbitplay_api.Schema.Enums.{TestStatus, published, paused}
use orbitplay_api.Schema.Rows.{TestRow, QuestionRow, BuildRow, AudienceRow}
use orbitplay_api.TestModels.{test_model}
use orbitplay_api.World.{World, Clock}
use orbitplay_api.Participations.Service.{is_empty}
use orbitplay_api.Participations.Slots.{IsSound, SlotsOf}
use orbitplay_api.Tests.Publish.{
  AudienceRequest, set_audience, publish, publish_patch, set_test_status, status_patch,
  pending_validations_for, has_reach, is_validated_build,
}
use orbitplay_api.Tests.Publishing.{Publishable, publishes_once, nothing_pending_iff}
use orbitplay_api.Tests.Outcomes.{Published, publish-Published}
use orbitplay_api.Tests.StatusChanges.{Moves, status_changes_allowed}
use orbitplay_api.Tests.Slots.{wizard_keeps_slots}
use orbitplay_api.Examples.{noon, open_test, draft_test, world_of}

abbrev draft_world : World
draft_world = world_of draft_test

nothing_pending_iff_example : (is_empty (pending_validations_for draft_test draft_world) ≡ true) ↔ (
    ((test_model draft_test.model_key).available ≡ true)
    × (any (λ (q : QuestionRow). q.test_id == draft_test.id) draft_world.questions ≡ true)
    × (((test_model draft_test.model_key).requires_build ≡ false)
        ⊎ (is_validated_build (get BuildRow.test_id draft_test.id draft_world.builds) ≡ true))
    × (has_reach (get AudienceRow.test_id draft_test.id draft_world.audience) ≡ true))
nothing_pending_iff_example = nothing_pending_iff draft_test draft_world

complete_draft : Publishable 3 1 44 draft_world draft_test
unfolding get pending_validations_for test_model
complete_draft = record { found = refl; org = refl; in_draft = refl; complete = refl; fresh = refl }

publishes_once_example :
    ((publish 3 (uuid 1) (some 44) noon draft_world).0 ≡ ok (publish_patch 50000 44 draft_test))
    × (get TestRow.id 1 (publish 3 (uuid 1) (some 44) noon draft_world).1.tests
        ≡ some (publish_patch 50000 44 draft_test))
    × ((key' : ℕ) (late : Clock)
        → publish 3 (uuid 1) (some key') late (publish 3 (uuid 1) (some 44) noon draft_world).1 ≡ (
          ok (publish_patch 50000 44 draft_test),
          (publish 3 (uuid 1) (some 44) noon draft_world).1,
        ))
publishes_once_example = publishes_once 3 1 44 noon draft_world draft_test complete_draft

-- The draft without its form.
abbrev bare_world : World
bare_world = record draft_world { db = record draft_world.db { questions = [] } }

publish-Published_example : Published 3 1 44 noon bare_world draft_test
unfolding get
publish-Published_example = publish-Published 3 1 44 noon bare_world draft_test refl refl

status_changes_allowed_example :
    (Moves published paused
      × ((set_test_status 3 (uuid 1) paused (world_of open_test)).0
          ≡ ok (status_patch paused open_test))
      × (get TestRow.id 1 (set_test_status 3 (uuid 1) paused (world_of open_test)).1.tests
          ≡ some (status_patch paused open_test)))
    ⊎ ((¬ Moves published paused)
        × (set_test_status 3 (uuid 1) paused (world_of open_test)
            ≡ (err (app (conflict "Não é possível mudar de status")), world_of open_test)))
unfolding get
status_changes_allowed_example =
    status_changes_allowed 3 1 paused (world_of open_test) open_test refl refl

draft-IsSound : (i : ℕ) (t : TestRow) → get TestRow.id i (draft_test ∷ []) ≡ some t → IsSound [] i t
unfolding get
draft-IsSound i t e = record {
  fits = ground arith;
  counted = ground arith;
  unused = λ d. ground arith;
}

draft_slots : SlotsOf draft_world.db
draft_slots = record { at_test = draft-IsSound; one_active = λ i u. omega arith }

wizard_keeps_slots_example :
    ((dto : AudienceRequest) (eligible : ℕ)
      → SlotsOf (set_audience 3 (uuid 1) dto eligible draft_world).1.db)
    × ((key : Option ℕ) (clock : Clock) → SlotsOf (publish 3 (uuid 1) key clock draft_world).1.db)
    × ((st : TestStatus) → SlotsOf (set_test_status 3 (uuid 1) st draft_world).1.db)
wizard_keeps_slots_example = wizard_keeps_slots 3 (uuid 1) draft_world draft_slots
