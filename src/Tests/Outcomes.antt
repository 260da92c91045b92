-- ===== src/Tests/Outcomes.antt =====
-- Everything that a request to publish a test can lead to.
use orbitplay_api.Prelude.{
  ℕ, ◌≡◌, ◌⊎◌, refl, inl, inr, Bool, true, false, not, ◌&&◌, some, arith, any, get, Bool-cases,
  ◌==◌, map, List, String, ap,
}
use orbitplay_api.Uuid.{uuid}
use orbitplay_api.Errors.{ok, err, app, conflict, validation, named, Message}
use orbitplay_api.Exec.{◌>>=◌}
use orbitplay_api.Schema.Enums.{
  TestStatus, draft, published, paused, finished, expired, is_draft, is_published,
}
use orbitplay_api.Schema.Rows.{TestRow, AudienceRow, QuestionRow, BuildRow}
use orbitplay_api.TestModels.{test_model}
use orbitplay_api.World.{World, Clock, transaction}
use orbitplay_api.Participations.Service.{is_empty}
use orbitplay_api.Tests.{find_in_org}
use orbitplay_api.Tests.Publish.{
  pending_validations_for, publish, publish_patch, has_key, has_reach, is_validated_build,
  code_name, PendingCode, model_unavailable, form_empty, build_not_validated,
  audience_not_configured,
}
use orbitplay_api.Tests.Publishing.{
  in_organization, published_again, publishes_once, nothing_pending_iff,
}

status-cases :
    (s : TestStatus)
    → (s ≡ draft) ⊎ ((s ≡ published) ⊎ ((s ≡ paused) ⊎ ((s ≡ finished) ⊎ (s ≡ expired))))
status-cases draft = inl refl
status-cases published = inr (inl refl)
status-cases paused = inr (inr (inl refl))
status-cases finished = inr (inr (inr (inl refl)))
status-cases expired = inr (inr (inr (inr refl)))

abbrev code_eq : PendingCode → PendingCode → Bool
code_eq model_unavailable model_unavailable = true
code_eq form_empty form_empty = true
code_eq build_not_validated build_not_validated = true
code_eq audience_not_configured audience_not_configured = true
code_eq _ _ = false

abbrev pub names_code : PendingCode → List (PendingCode × String) → Bool
names_code c ps = any (λ p. code_eq p.0 c) ps

-- A refusal names each missing step, and no other.
abbrev pub NamesMissing : TestRow → World → List (PendingCode × String) → Type 0
NamesMissing t w ps =
    (names_code model_unavailable ps ≡ not (test_model t.model_key).available)
    × (names_code form_empty ps ≡ not (any (λ (q : QuestionRow). q.test_id == t.id) w.questions))
    × (names_code build_not_validated ps
        ≡ (test_model t.model_key).requires_build
          && not (is_validated_build (get BuildRow.test_id t.id w.builds)))
    × (names_code audience_not_configured ps
        ≡ not (has_reach (get AudienceRow.test_id t.id w.audience)))

pending-NamesMissing : (t : TestRow) (w : World) → NamesMissing t w (pending_validations_for t w)
unfolding pending_validations_for
pending-NamesMissing t w = (ground arith, ground arith, ground arith, ground arith)

-- A test with every step of the wizard done.
abbrev pub IsReady : TestRow → World → Type 0
IsReady t w =
    ((test_model t.model_key).available ≡ true)
    × (any (λ (q : QuestionRow). q.test_id == t.id) w.questions ≡ true)
    × (((test_model t.model_key).requires_build ≡ false)
        ⊎ (is_validated_build (get BuildRow.test_id t.id w.builds) ≡ true))
    × (has_reach (get AudienceRow.test_id t.id w.audience) ≡ true)

abbrev other_has_key : ℕ → TestRow → World → Bool
other_has_key key t w = any (λ (r : TestRow). not (r.id == t.id) && has_key key r) w.tests

-- What a request to publish a test of the organization can meet, and what it answers.
pub data Published (organization_id i key : ℕ) (clock : Clock) (w : World) (t : TestRow)
    : Type 0 where
  already :
      t.status ≡ published
      → publish organization_id (uuid i) (some key) clock w ≡ (ok t, w)
      → Published organization_id i key clock w t
  closed :
      (t.status ≡ paused) ⊎ ((t.status ≡ finished) ⊎ (t.status ≡ expired))
      → publish organization_id (uuid i) (some key) clock w
        ≡ (err (app (conflict "Teste não está em rascunho")), w)
      → Published organization_id i key clock w t
  incomplete :
      t.status ≡ draft
      → ¬ IsReady t w
      → (ps : List (PendingCode × String)) → NamesMissing t w ps
      → publish organization_id (uuid i) (some key) clock w ≡ (
        err (
            app (
              validation "Etapas pendentes para publicar"
                (map (λ p. (named (code_name p.0), Message.text p.1)) ps))),
        w,
      )
      → Published organization_id i key clock w t
  key_taken :
      t.status ≡ draft
      → IsReady t w
      → other_has_key key t w ≡ true
      → publish organization_id (uuid i) (some key) clock w ≡ (ok t, w)
      → Published organization_id i key clock w t
  done :
      t.status ≡ draft
      → IsReady t w
      → other_has_key key t w ≡ false
      → (publish organization_id (uuid i) (some key) clock w).0 ≡ ok (publish_patch clock.now key t)
      → get TestRow.id i (publish organization_id (uuid i) (some key) clock w).1.tests
        ≡ some (publish_patch clock.now key t)
      → Published organization_id i key clock w t

publish_closed :
    (organization_id i key : ℕ) (clock : Clock) (w : World) (t : TestRow)
    → find_in_org organization_id (uuid i) w ≡ some t
    → is_published t.status ≡ false
    → is_draft t.status ≡ false
    → publish organization_id (uuid i) (some key) clock w
      ≡ (err (app (conflict "Teste não está em rascunho")), w)
unfolding publish transaction ◌>>=◌
publish_closed organization_id i key clock w t found p d = rw (found, p, d) refl

-- A draft, once it is known what is pending and whether another test has the key.
published_draft :
    (organization_id i key : ℕ) (clock : Clock) (w : World) (t : TestRow)
    → get TestRow.id i w.tests ≡ some t
    → t.organization_id ≡ organization_id
    → t.status ≡ draft
    → Published organization_id i key clock w t
unfolding publish transaction ◌>>=◌
published_draft organization_id i key clock w t e o d =
    let found = in_organization organization_id i w t e o in
    let not_yet : is_published t.status ≡ false = ap is_published d in
    let drafted : is_draft t.status ≡ true = ap is_draft d in
    elim (Bool-cases (is_empty (pending_validations_for t w))) [
      | inr missing ↦
          incomplete d (λ r. ground (arith, (nothing_pending_iff t w).1 r, missing))
            (pending_validations_for t w) (pending-NamesMissing t w)
            (rw (found, not_yet, drafted, missing) refl)
      | inl complete ↦ elim (Bool-cases (other_has_key key t w)) [
        | inl taken ↦
            key_taken d ((nothing_pending_iff t w).0 complete) taken
              (rw (found, not_yet, drafted, complete, taken, found) refl)
        | inr fresh ↦
            let stored =
              publishes_once organization_id i key clock w t
                (record { found = e; org = o; in_draft = d; complete = complete; fresh = fresh }) in
            done d ((nothing_pending_iff t w).0 complete) fresh stored.0 stored.1
      ]
    ]

-- Publishing a test of the organization. A published one is returned and a paused, finished or expired
-- one is refused with a conflict. A draft is refused unless its model is available, its form has a
-- question, its build is validated where the model needs one and its audience reaches someone, and the
-- refusal names exactly what is missing. None of these changes anything. A draft with all of this is
-- returned and stored as published, unless another test has the key of the request: then the draft is
-- returned as it is, and nothing changes.
pub publish-Published :
    (organization_id i key : ℕ) (clock : Clock) (w : World) (t : TestRow)
    → get TestRow.id i w.tests ≡ some t
    → t.organization_id ≡ organization_id
    → Published organization_id i key clock w t
publish-Published organization_id i key clock w t e o =
    let found = in_organization organization_id i w t e o in
    elim (status-cases t.status) [
      | inl d ↦ published_draft organization_id i key clock w t e o d
      | inr (inl p) ↦ already p (published_again organization_id i key clock w t e o p)
      | inr (inr c) ↦
          closed c
            (publish_closed organization_id i key clock w t found (ground arith) (ground arith))
    ]
