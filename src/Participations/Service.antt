-- ===== src/Participations/Service.antt =====
-- modules/participations/participations.service.ts: joining a test, consent, and the result.
use orbitplay_api.Prelude.{
  ℕ, Bool, true, false, not, String, Option, none, some, List, [], ◌∷◌, filter, get_or,
  if◌then◌else◌,
}
use orbitplay_api.Uuid.{Text}
use orbitplay_api.Errors.{
  not_found, not_found_default, conflict, forbidden, validation, named, Message,
  is_unique_violation, Failure,
}
use orbitplay_api.Exec.{Exec, pure, fail, raise, gets, require, ensure, catch, ◌>>=◌, ◌>>◌}
use orbitplay_api.Schema.Enums.{ConsentKind, is_published, TestModelKey}
use orbitplay_api.Schema.Rows.{TestRow, ParticipationRow, ValidationRow}
use orbitplay_api.Eligibility.{age_eligible}
use orbitplay_api.PlayerCta.{ended_by}
use orbitplay_api.TestModels.{required_consents}
use orbitplay_api.World.{World, Clock, invalidate_report_snapshots, invalidate_dashboard_kpis}
use orbitplay_api.Participations.Repository.{
  find_test_by_id, get_test, find_audience_age_range, find_user_birthdate, reserve_participation,
  has_completed_participation, participation_for_user, upsert_consent, granted_for,
}
use orbitplay_api.Participations.SessionQueries.{
  find_open_or_last_session_id, find_session_validation, sum_xp_for_session,
}

-- `assertAgeEligible`
unfoldable pub assert_age_eligible : ℕ → ℕ → Clock → Exec World (Unit {0})
unfolding find_audience_age_range find_user_birthdate
assert_age_eligible test_id user_id clock w =
    ensure
      (age_eligible clock.today (find_audience_age_range test_id w) (find_user_birthdate user_id w))
      (forbidden "Fora da faixa etária deste teste") w

abbrev translate_duplicate : {A : Type 0} → Failure → Exec World A
translate_duplicate e =
    if is_unique_violation e
    then raise (conflict "Já existe uma participação ativa neste teste")
    else fail e

-- `join`, up to the view that it returns.
unfoldable pub join : Text → ℕ → Clock → ℕ → Exec World ParticipationRow
unfolding find_test_by_id assert_age_eligible has_completed_participation reserve_participation
join test_id user_id clock new_id = do
  found ← gets (find_test_by_id test_id)
  test ← require found (not_found "Teste não encontrado")
  ensure (is_published test.status) (conflict "Teste não está aberto para participação")
  ensure (not (ended_by test.ends_at clock.now)) (conflict "Teste expirado")
  assert_age_eligible test.id user_id clock
  done ← gets (has_completed_participation test.id user_id)
  ensure (not done) (conflict "Você já concluiu este teste")
  row ← catch (reserve_participation clock.now test.id user_id new_id) translate_duplicate
  invalidate_dashboard_kpis test.organization_id
  invalidate_report_snapshots test.id
  pure row

-- The kinds that the model requires and the request does not grant.
unfoldable pub missing_required : TestModelKey → List (ConsentKind × Bool) → List ConsentKind
unfolding required_consents
missing_required model given =
    filter (λ k. not (get_or (granted_for k given) false)) (required_consents model)

abbrev pub is_empty {ℓ} : {A : Type ℓ} → List A → Bool
is_empty [] = true
is_empty (x ∷ xs) = false

pub record ConsentRecordView : Type 0 where
  pub participation_id : ℕ
  pub consents : List (ConsentKind × Bool)
  pub recorded_at : ℕ
  pub all_required_granted : Bool

-- `consents`
unfoldable pub record_consents :
    Text → ℕ → List (ConsentKind × Bool) → Clock → Exec World ConsentRecordView
unfolding participation_for_user missing_required upsert_consent
record_consents id user_id given clock = do
  owned ← gets (participation_for_user id user_id)
  participation ← require owned not_found_default
  found ← gets (λ w. get_test participation.test_id w)
  test ← require found not_found_default
  ensure (is_empty (missing_required test.model_key given)) (
      validation "Consentimento obrigatório recusado"
        ((named "consents", Message.text "Obrigatórios não concedidos") ∷ []))
  saved ← upsert_consent participation.id given clock.now
  pure (record {
    participation_id = participation.id;
    consents = given;
    recorded_at = get_or saved.accepted_at clock.now;
    all_required_granted = true;
  })

pub data ResultStatus : Type 0 where
  in_review completed rejected : ResultStatus

-- `ParticipationResultView`; `rating` is always null and `rewardStatus` always `pending`.
pub record ParticipationResultView : Type 0 where
  pub status : ResultStatus
  pub xp_earned : Option ℕ
  pub reward_cents : Option ℕ
  pub invalid_reason : Option String

abbrev result_in_review : ParticipationResultView
result_in_review = record {
  status = in_review;
  xp_earned = none;
  reward_cents = none;
  invalid_reason = none;
}

abbrev reward_of : Option TestRow → Option ℕ
reward_of none = none
reward_of (some t) = t.reward_amount_cents

abbrev result_validated : ℕ → ValidationRow → Option TestRow → World → ParticipationResultView
result_validated session_id v test w =
    if v.valid
    then (record {
      status = completed;
      xp_earned = some (sum_xp_for_session session_id w);
      reward_cents = reward_of test;
      invalid_reason = none;
    })
    else (record {
      status = rejected;
      xp_earned = none;
      reward_cents = none;
      invalid_reason = v.reason;
    })

abbrev result_of_session : Option ℕ → Option TestRow → World → ParticipationResultView
result_of_session none test w = result_in_review
result_of_session (some i) test w = elim (find_session_validation i w) [
  | none ↦ result_in_review
  | some v ↦ result_validated i v test w
]

-- `result`
unfoldable pub participation_result : Text → ℕ → Exec World ParticipationResultView
unfolding participation_for_user find_open_or_last_session_id find_session_validation
    sum_xp_for_session
participation_result id user_id = do
  owned ← gets (participation_for_user id user_id)
  participation ← require owned not_found_default
  session_id ← gets (find_open_or_last_session_id participation.id)
  gets (λ w. result_of_session session_id (get_test participation.test_id w) w)
