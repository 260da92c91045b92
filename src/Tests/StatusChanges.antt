-- ===== src/Tests/StatusChanges.antt =====
-- Which changes of a test's status go through.
use orbitplay_api.Prelude.{
  ℕ, ◌≡◌, ◌⊎◌, refl, inl, inr, true, some, arith, get, get-key, get-update, Bool-cases,
}
use orbitplay_api.Uuid.{uuid}
use orbitplay_api.Errors.{ok, err, app, conflict}
use orbitplay_api.Exec.{◌>>=◌}
use orbitplay_api.Schema.Enums.{TestStatus, published, paused, finished}
use orbitplay_api.Schema.Rows.{TestRow}
use orbitplay_api.World.{World, transaction, invalidate_dashboard_kpis}
use orbitplay_api.Tests.{transition_allowed}
use orbitplay_api.Tests.Publish.{set_test_status, status_patch}
use orbitplay_api.Tests.Publishing.{in_organization}

-- The moves of a status: a published test is paused or finished, a paused one is published again or
-- finished.
abbrev pub Moves : TestStatus → TestStatus → Type 0
Moves from to =
    ((from ≡ published) × ((to ≡ paused) ⊎ (to ≡ finished)))
    ⊎ ((from ≡ paused) × ((to ≡ published) ⊎ (to ≡ finished)))

allowed-Moves : (from to : TestStatus) → transition_allowed from to ≡ true → Moves from to
unfolding transition_allowed
allowed-Moves published paused h = inl (refl, inl refl)
allowed-Moves published finished h = inl (refl, inr refl)
allowed-Moves paused published h = inr (refl, inl refl)
allowed-Moves paused finished h = inr (refl, inr refl)
allowed-Moves _ _ h = cc

Moves-allowed : (from to : TestStatus) → Moves from to → transition_allowed from to ≡ true
unfolding transition_allowed
Moves-allowed from to (inl (f, inl t)) = rw (f, t) refl
Moves-allowed from to (inl (f, inr t)) = rw (f, t) refl
Moves-allowed from to (inr (f, inl t)) = rw (f, t) refl
Moves-allowed from to (inr (f, inr t)) = rw (f, t) refl

-- A published test of the organization can be paused or finished and a paused one published again or
-- finished, and then it is returned and stored with its new status; any other change of a status is
-- refused with a conflict and changes nothing.
pub status_changes_allowed :
    (organization_id i : ℕ) (st : TestStatus) (w : World) (t : TestRow)
    → get TestRow.id i w.tests ≡ some t
    → t.organization_id ≡ organization_id
    → (Moves t.status st
        × ((set_test_status organization_id (uuid i) st w).0 ≡ ok (status_patch st t))
        × (get TestRow.id i (set_test_status organization_id (uuid i) st w).1.tests
            ≡ some (status_patch st t)))
      ⊎ ((¬ Moves t.status st)
          × (set_test_status organization_id (uuid i) st w
              ≡ (err (app (conflict "Não é possível mudar de status")), w)))
unfolding set_test_status transaction ◌>>=◌ invalidate_dashboard_kpis
status_changes_allowed organization_id i st w t e o =
    let same : t.id ≡ i = get-key TestRow.id i w.tests t e in
    let found = in_organization organization_id i w t e o in
    elim (Bool-cases (transition_allowed t.status st)) [
      | inr n ↦ inr (λ m. ground (arith, Moves-allowed t.status st m, n), rw (found, n) refl)
      | inl y ↦ inl (
        allowed-Moves t.status st y,
        rw (found, y) refl,
        rw (found, y)
            (ground
              (arith, same, get-update TestRow.id t.id i (status_patch st) w.tests (λ x. refl), e)),
      )
    ]
