-- ===== src/Tests/Publish.antt =====
-- modules/tests/tests.service.ts: the audience of a test, its publication and its changes of status.
use orbitplay_api.Prelude.{
  ℕ, ◌+◌, ◌*◌, Bool, true, false, not, ◌&&◌, String, Option, none, some, List, [], ◌∷◌, ◌++◌, map,
  any, get_or, get, update, ltb, min, ◌==◌, if◌then◌else◌, is_some,
}
use orbitplay_api.Uuid.{Text}
use orbitplay_api.Errors.{
  conflict, not_found_default, validation, named, Message, unique_violation, is_unique_violation,
}
use orbitplay_api.Exec.{Exec, pure, fail, gets, modify, require, ensure, catch, ◌>>=◌, ◌>>◌}
use orbitplay_api.Schema.Enums.{TestStatus, published, is_draft, is_published, review, BuildStatus}
use orbitplay_api.Schema.Rows.{TestRow, AudienceRow, BuildRow}
use orbitplay_api.TestModels.{TestModelView, test_model}
use orbitplay_api.World.{World, Clock, invalidate_dashboard_kpis}
use orbitplay_api.Participations.Service.{is_empty}
use orbitplay_api.Tests.{
  advance, transition_allowed, find_in_org, with_row_lock, update_test, assert_draft,
}

-- `AudienceRequest`, of the fields that the model keeps.
pub record AudienceRequest : Type 0 where
  pub age_min : ℕ
  pub age_max : ℕ
  pub quantity : ℕ
  pub duration_days : ℕ

abbrev pub audience_patch : AudienceRequest → TestRow → TestRow
audience_patch dto t = record t {
  duration_days = some dto.duration_days;
  slots_total = dto.quantity;
  current_step = advance t.current_step review;
}

abbrev upsert : AudienceRow → Bool → List AudienceRow → List AudienceRow
upsert a true rows = update AudienceRow.test_id a.test_id (λ r. a) rows
upsert a false rows = rows ++ a ∷ []

-- `upsertAudience`
abbrev pub upsert_audience : AudienceRow → Exec World (Unit {0})
upsert_audience a = modify (λ w. record w {
  db = record w.db {
    audience = upsert a (is_some (get AudienceRow.test_id a.test_id w.audience)) w.audience;
  };
})

-- `setAudience`; `eligible` is what `countEligiblePlayers` counted.
unfoldable pub set_audience : ℕ → Text → AudienceRequest → ℕ → Exec World TestRow
unfolding find_in_org
set_audience organization_id id dto eligible = with_row_lock organization_id id (λ t. do
  assert_draft t
  upsert_audience (record {
    test_id = t.id;
    age_min = some dto.age_min;
    age_max = some dto.age_max;
    tester_count = some dto.quantity;
    estimated_reach = some (min dto.quantity eligible);
  })
  update_test t (audience_patch dto))

-- The codes of `PendingValidationView`.
pub data PendingCode : Type 0 where
  model_unavailable form_empty build_not_validated audience_not_configured : PendingCode

abbrev pub pending_if : Bool → PendingCode × String → List (PendingCode × String)
pending_if true p = p ∷ []
pending_if false p = []

abbrev pub is_validated_build : Option BuildRow → Bool
is_validated_build none = false
is_validated_build (some b) = elim b.status [ BuildStatus.validated ↦ true | _ ↦ false ]

abbrev build_message : Option BuildRow → String
build_message none = "Build ainda não validada"
build_message (some b) = get_or b.failure_reason "Build ainda não validada"

-- `audience && audience.estimatedReach && audience.estimatedReach > 0`
abbrev pub has_reach : Option AudienceRow → Bool
has_reach none = false
has_reach (some a) = ltb 0 (get_or a.estimated_reach 0)

-- `pendingValidationsFor`
unfoldable pub pending_validations_for : TestRow → World → List (PendingCode × String)
pending_validations_for t w =
    let m : TestModelView = test_model t.model_key in
    let b : Option BuildRow = get BuildRow.test_id t.id w.builds in
    pending_if (not m.available)
      (model_unavailable, get_or m.unavailable_reason "Modelo indisponível")
    ++ pending_if (not (any (λ q. q.test_id == t.id) w.questions))
        (form_empty, "Formulário sem perguntas")
    ++ pending_if (m.requires_build && not (is_validated_build b))
        (build_not_validated, build_message b)
    ++ pending_if (not (has_reach (get AudienceRow.test_id t.id w.audience)))
        (audience_not_configured, "Público elegível insuficiente ou não configurado")

abbrev pub code_name : PendingCode → String
code_name model_unavailable = "MODEL_UNAVAILABLE"
code_name form_empty = "FORM_EMPTY"
code_name build_not_validated = "BUILD_NOT_VALIDATED"
code_name audience_not_configured = "AUDIENCE_NOT_CONFIGURED"

abbrev pub day_ms : ℕ
day_ms = 24 * 60 * 60 * 1000

abbrev pub publish_patch : ℕ → ℕ → TestRow → TestRow
publish_patch now key t = record t {
  status = published;
  current_step = review;
  published_at = some now;
  starts_at = some now;
  ends_at = some (now + get_or t.duration_days 0 * day_ms);
  publish_idempotency_key = some key;
}

abbrev pub has_key : ℕ → TestRow → Bool
has_key key t = elim t.publish_idempotency_key [ none ↦ false | some k ↦ k == key ]

-- The write of `publish`, under the unique index on `publish_idempotency_key`.
abbrev pub write_published : ℕ → ℕ → TestRow → Exec World TestRow
write_published now key t w =
    if any (λ (r : TestRow). not (r.id == t.id) && has_key key r) w.tests
    then fail unique_violation w
    else update_test t (publish_patch now key) w

abbrev pub publish_locked : ℕ → ℕ → TestRow → Exec World (TestRow × Bool)
publish_locked now key t = if is_published t.status then pure (t, false) else do
  ensure (is_draft t.status) (conflict "Teste não está em rascunho")
  pending ← gets (pending_validations_for t)
  ensure (is_empty pending) (
      validation "Etapas pendentes para publicar"
        (map (λ p. (named (code_name p.0), Message.text p.1)) pending))
  updated ← write_published now key t
  pure (updated, true)

abbrev current_row : ℕ → Text → Exec World (TestRow × Bool)
current_row organization_id id = do
  found ← gets (find_in_org organization_id id)
  t ← require found not_found_default
  pure (t, false)

-- `publish`; the key is absent where the header is missing or empty.
unfoldable pub publish : ℕ → Text → Option ℕ → Clock → Exec World TestRow
unfolding find_in_org pending_validations_for
publish organization_id id key clock = do
  k ← require key (
      validation "Idempotency-Key é obrigatório para publicar"
        ((named "Idempotency-Key", Message.text "Cabeçalho obrigatório") ∷ []))
  result ←
      catch (with_row_lock organization_id id (publish_locked clock.now k))
        (λ e. if is_unique_violation e then current_row organization_id id else fail e)
  if result.1 then invalidate_dashboard_kpis organization_id else pure tt
  pure result.0

abbrev pub status_patch : TestStatus → TestRow → TestRow
status_patch st t = record t { status = st }

-- `setStatus`; the message of the refusal names both statuses, which the model leaves out.
unfoldable pub set_test_status : ℕ → Text → TestStatus → Exec World TestRow
unfolding find_in_org transition_allowed
set_test_status organization_id id st = do
  updated ← with_row_lock organization_id id (λ t. do
    ensure (transition_allowed t.status st) (conflict "Não é possível mudar de status")
    update_test t (status_patch st))
  invalidate_dashboard_kpis organization_id
  pure updated
