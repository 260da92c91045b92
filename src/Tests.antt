-- ===== src/Tests.antt =====
-- modules/tests/tests.service.ts and tests.repository.ts: the wizard of a test, its publication and
-- its status. Views and the audit trail are not modelled; an operation returns the row of its view.
pub mod Publish
pub mod Publishing
pub mod Outcomes
pub mod StatusChanges
pub mod Slots
pub mod Buildless
use orbitplay_api.Prelude.{
  ℕ, ◌+◌, ◌*◌, Bool, true, false, not, ◌&&◌, String, Option, none, some, List, [], ◌∷◌, ◌++◌, map,
  any, filter, get_or, get, update, leb, ltb, min, ◌==◌, if◌then◌else◌, is_some,
}
use orbitplay_api.Uuid.{Text, as_uuid}
use orbitplay_api.Errors.{
  Failure, AppException, conflict, not_found, not_found_default, validation, named, Field, Message,
  unique_violation, is_unique_violation, ok,
}
use orbitplay_api.Exec.{Exec, pure, fail, raise, gets, modify, require, ensure, catch, ◌>>=◌, ◌>>◌}
use orbitplay_api.Schema.Enums.{
  TestStatus, draft, published, paused, finished, expired, is_draft, is_published, WizardStep,
  model, form, build, audience, review, TestModelKey, BuildStatus, QuestionType,
}
use orbitplay_api.Schema.Rows.{TestRow, AudienceRow, QuestionRow, BuildRow, BuildStepRow, OptionRow}
use orbitplay_api.TestModels.{TestModelView, test_model}
use orbitplay_api.World.{World, Clock, transaction, invalidate_dashboard_kpis}
use orbitplay_api.Participations.Repository.{find_by}
use orbitplay_api.Participations.Service.{is_empty}

-- `STEP_ORDER.indexOf`
abbrev pub step_index : WizardStep → ℕ
step_index model = 0
step_index form = 1
step_index build = 2
step_index audience = 3
step_index review = 4

-- `advance`
unfoldable pub advance : WizardStep → WizardStep → WizardStep
advance current at_least =
    if ltb (step_index current) (step_index at_least) then at_least else current

-- `STATUS_TRANSITIONS[from] ?? []).includes(to)`
unfoldable pub transition_allowed : TestStatus → TestStatus → Bool
transition_allowed published paused = true
transition_allowed published finished = true
transition_allowed paused published = true
transition_allowed paused finished = true
transition_allowed _ _ = false

abbrev in_org : ℕ → Option TestRow → Option TestRow
in_org organization_id none = none
in_org organization_id (some t) = if t.organization_id == organization_id then some t else none

-- `orgScope` with the id: the row of the organization, or nothing.
unfoldable pub find_in_org : ℕ → Text → World → Option TestRow
find_in_org organization_id id w =
    in_org organization_id (find_by (λ i. get TestRow.id i w.tests) (as_uuid id))

-- `withRowLock`: the row is read and written in one transaction.
abbrev pub with_row_lock : {A : Type 0} → ℕ → Text → (TestRow → Exec World A) → Exec World A
with_row_lock organization_id id fn = transaction (do
  found ← gets (find_in_org organization_id id)
  test ← require found not_found_default
  fn test)

-- `updateTest`
abbrev pub update_test : TestRow → (TestRow → TestRow) → Exec World TestRow
update_test t patch w =
    (ok (patch t), record w { db = record w.db { tests = update TestRow.id t.id patch w.tests } })

abbrev pub assert_draft : TestRow → Exec World (Unit {0})
assert_draft t =
    ensure (is_draft t.status)
      (conflict "Esta etapa só pode ser editada enquanto o teste é um rascunho")

-- `requireAvailableModel`
unfoldable pub require_available_model : TestModelKey → Exec World TestModelView
require_available_model key =
    let m : TestModelView = test_model key in
    if m.available
    then pure m
    else raise (
        validation "Modelo de teste indisponível" (
          (
            named "testModelKey",
            Message.text (get_or m.unavailable_reason "Modelo indisponível nesta fase"),
          )
          ∷ []))

abbrev pub model_patch : TestModelKey → TestRow → TestRow
model_patch key t = record t { model_key = key; current_step = advance t.current_step form }

-- `setModel`
unfoldable pub set_model : ℕ → Text → TestModelKey → Exec World TestRow
unfolding require_available_model find_in_org
set_model organization_id id key = do
  m ← require_available_model key
  with_row_lock organization_id id (λ t. do assert_draft t; update_test t (model_patch m.key))

abbrev pub form_patch : TestRow → TestRow
form_patch t = record t { current_step = advance t.current_step build }

-- The rows that `replaceForm` inserts, with the ids that `newId()` gave them.
abbrev pub replace_form : ℕ → List QuestionRow → Exec World (Unit {0})
replace_form test_id questions = modify (λ w. record w {
  db = record w.db {
    questions =
        filter (λ (q : QuestionRow). not (q.test_id == test_id)) w.questions
        ++ map (λ (q : QuestionRow). record q { test_id = test_id }) questions;
  };
})

-- `putForm`
unfoldable pub put_form : ℕ → Text → List QuestionRow → Exec World TestRow
unfolding find_in_org
put_form organization_id id questions =
    with_row_lock organization_id id
      (λ t. do assert_draft t; replace_form t.id questions; update_test t form_patch)

abbrev pub build_removed_patch : TestRow → TestRow
build_removed_patch t = record t { current_step = build }

-- `deleteBuild`; the steps go with the build. The object is removed after the transaction, and a
-- failure to remove it is ignored.
unfoldable pub delete_build : ℕ → Text → Exec World BuildRow
unfolding find_in_org
delete_build organization_id id = do
  existing ← with_row_lock organization_id id (λ t. do
    ensure (is_draft t.status) (conflict "Teste já publicado — build não pode ser trocada")
    latest ← gets (λ w. get BuildRow.test_id t.id w.builds)
    b ← require latest (not_found "Este teste ainda não tem build enviada")
    modify (λ w. record w {
      db = record w.db {
        builds = filter (λ (r : BuildRow). not (r.id == b.id)) w.builds;
        build_steps = filter (λ (r : BuildStepRow). not (r.build_id == b.id)) w.build_steps;
      };
    })
    update_test t build_removed_patch
    pure b)
  modify (λ w. record w { objects = filter (λ o. not (o.0 == existing.storage_key)) w.objects })
  pure existing

abbrev pub settings_patch : Bool → TestRow → TestRow
settings_patch gamepad_supported t = record t { gamepad_supported = gamepad_supported }

-- `setBuildSettings`
unfoldable pub set_build_settings : ℕ → Text → Bool → Exec World TestRow
unfolding find_in_org
set_build_settings organization_id id gamepad_supported =
    with_row_lock organization_id id
      (λ t. do assert_draft t; update_test t (settings_patch gamepad_supported))
