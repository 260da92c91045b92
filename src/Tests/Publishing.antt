-- ===== src/Tests/Publishing.antt =====
-- When a test is published, what that does, and that it is done once.
use orbitplay_api.Prelude.{
  ℕ, ◌≡◌, ◌↔◌, ◌⊎◌, refl, true, false, not, ◌&&◌, some, arith, any, get, get-key, get-update,
  update, ◌==◌,
}
use orbitplay_api.Uuid.{uuid}
use orbitplay_api.Errors.{ok}
use orbitplay_api.Exec.{◌>>=◌}
use orbitplay_api.Schema.Enums.{draft, published}
use orbitplay_api.Schema.Rows.{TestRow, AudienceRow, QuestionRow, BuildRow}
use orbitplay_api.TestModels.{test_model}
use orbitplay_api.World.{World, Clock, transaction, invalidate_dashboard_kpis}
use orbitplay_api.Participations.Service.{is_empty}
use orbitplay_api.Tests.{find_in_org}
use orbitplay_api.Tests.Publish.{
  pending_validations_for, publish, publish_patch, has_key, has_reach, is_validated_build,
}

-- The list of what is pending is empty exactly when the test's model is available, its form has a
-- question, its build is validated where the model needs one, and its audience reaches someone.
pub nothing_pending_iff :
    (t : TestRow) (w : World)
    → (is_empty (pending_validations_for t w) ≡ true) ↔ (
        ((test_model t.model_key).available ≡ true)
        × (any (λ (q : QuestionRow). q.test_id == t.id) w.questions ≡ true)
        × (((test_model t.model_key).requires_build ≡ false)
            ⊎ (is_validated_build (get BuildRow.test_id t.id w.builds) ≡ true))
        × (has_reach (get AudienceRow.test_id t.id w.audience) ≡ true))
unfolding pending_validations_for
nothing_pending_iff t w =
    (λ h. (ground arith, ground arith, ground arith, ground arith), λ h. ground arith)

-- A test of the organization that is ready to be published, with a fresh key.
pub record Publishable (organization_id i key : ℕ) (w : World) (t : TestRow) : Type 0 where
  pub found : get TestRow.id i w.tests ≡ some t
  pub org : t.organization_id ≡ organization_id
  pub in_draft : t.status ≡ draft
  pub complete : is_empty (pending_validations_for t w) ≡ true
  pub fresh : any (λ (r : TestRow). not (r.id == t.id) && has_key key r) w.tests ≡ false

pub in_organization :
    (organization_id i : ℕ) (w : World) (t : TestRow)
    → get TestRow.id i w.tests ≡ some t
    → t.organization_id ≡ organization_id
    → find_in_org organization_id (uuid i) w ≡ some t
unfolding find_in_org
in_organization organization_id i w t e o = ground (arith, e, o)

-- Publishing a published test returns it and writes nothing.
pub published_again :
    (organization_id i key : ℕ) (clock : Clock) (w : World) (t : TestRow)
    → get TestRow.id i w.tests ≡ some t
    → t.organization_id ≡ organization_id
    → t.status ≡ published
    → publish organization_id (uuid i) (some key) clock w ≡ (ok t, w)
unfolding publish transaction ◌>>=◌
published_again organization_id i key clock w t e o s =
    rw (in_organization organization_id i w t e o, s) refl

publish_result :
    (organization_id i key : ℕ) (clock : Clock) (w : World) (t : TestRow)
    → Publishable organization_id i key w t
    → ((publish organization_id (uuid i) (some key) clock w).0 ≡ ok (publish_patch clock.now key t))
      × ((publish organization_id (uuid i) (some key) clock w).1.tests
          ≡ update TestRow.id t.id (publish_patch clock.now key) w.tests)
unfolding publish transaction ◌>>=◌ invalidate_dashboard_kpis
publish_result organization_id i key clock w t p =
    rw (in_organization organization_id i w t p.found p.org, p.in_draft, p.complete, p.fresh)
      (refl, refl)

-- Publishing a complete draft with a fresh key returns it published from now on until the end of its
-- days, and stores it so; publishing it again, at any later time and with any key, returns the same
-- row and changes nothing.
pub publishes_once :
    (organization_id i key : ℕ) (clock : Clock) (w : World) (t : TestRow)
    → Publishable organization_id i key w t
    → ((publish organization_id (uuid i) (some key) clock w).0 ≡ ok (publish_patch clock.now key t))
      × (get TestRow.id i (publish organization_id (uuid i) (some key) clock w).1.tests
          ≡ some (publish_patch clock.now key t))
      × ((key' : ℕ) (later : Clock)
          → publish organization_id
              (uuid i)
              (some key')
              later
              (publish organization_id (uuid i) (some key) clock w).1
            ≡ (
              ok (publish_patch clock.now key t),
              (publish organization_id (uuid i) (some key) clock w).1,
            ))
publishes_once organization_id i key clock w t p =
    let r = publish_result organization_id i key clock w t p in
    let same : t.id ≡ i = get-key TestRow.id i w.tests t p.found in
    let stored : get TestRow.id i (publish organization_id (uuid i) (some key) clock w).1.tests
        ≡ some (publish_patch clock.now key t) =
      rw r.1 (
        ground (
          arith,
          same,
          get-update TestRow.id t.id i (publish_patch clock.now key) w.tests (λ x. refl),
          p.found,
        )) in
    (
      r.0,
      stored,
      λ key' later.
          published_again organization_id i key' later _ (publish_patch clock.now key t) stored
            p.org refl,
    )
