-- ===== src/Tests/Buildless.antt =====
-- Tests whose model needs no build, between their publication and the start of a session.
use orbitplay_api.Prelude.{ℕ, ◌≡◌, refl, true, false, none, some, any, get, ◌==◌}
use orbitplay_api.Uuid.{Text}
use orbitplay_api.Errors.{err, app, conflict}
use orbitplay_api.Exec.{◌>>=◌}
use orbitplay_api.Schema.Enums.{ab_test_images}
use orbitplay_api.Schema.Rows.{TestRow, AudienceRow, QuestionRow, BuildRow, ParticipationRow}
use orbitplay_api.PlayerCta.{ended_by}
use orbitplay_api.TestModels.{test_model}
use orbitplay_api.World.{World, Clock}
use orbitplay_api.Participations.Repository.{get_test, participation_for_user}
use orbitplay_api.Participations.Service.{is_empty}
use orbitplay_api.Participations.Sessions.{start, is_playable}
use orbitplay_api.Tests.Publish.{pending_validations_for, has_reach}

-- A test of the image comparison model that has questions and an audience has nothing pending
-- without a build, so it can be published; but while it has no build, a player who has joined it is
-- refused a session, though the test is playable and not over, since the start asks for a validated
-- build whatever the model.
pub buildless_never_starts :
    (id : Text) (user_id : ℕ) (clock : Clock) (new_id : ℕ) (w : World) (p : ParticipationRow)
    (t : TestRow)
    → t.model_key ≡ ab_test_images
    → get BuildRow.test_id t.id w.builds ≡ none
    → any (λ (q : QuestionRow). q.test_id == t.id) w.questions ≡ true
    → has_reach (get AudienceRow.test_id t.id w.audience) ≡ true
    → participation_for_user id user_id w ≡ some p
    → get_test p.test_id w ≡ some t
    → is_playable t.status ≡ true
    → ended_by t.ends_at clock.now ≡ false
    → (is_empty (pending_validations_for t w) ≡ true)
      × (start id user_id clock new_id w ≡ (err (app (conflict "Build não validada")), w))
unfolding pending_validations_for test_model start ◌>>=◌
buildless_never_starts id user_id clock new_id w p t m b q a own found y o =
    (rw (m, q, a) refl, rw (own, found, y, o, b) refl)
