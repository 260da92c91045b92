-- ===== src/Tests/Slots.antt =====
-- The wizard keeps the slots of tests sound.
use orbitplay_api.Prelude.{
  ℕ, ◌≡◌, ◌≢◌, refl, inl, inr, true, not, ◌&&◌, Option, some, List, arith, any, get, get-key,
  get-update, update, Bool-cases, Option-cases, ◌==◌,
}
use orbitplay_api.Uuid.{Text, uuid, other}
use orbitplay_api.Exec.{Exec, ◌>>=◌}
use orbitplay_api.Exec.Keeps.{Keeps-bind, keeps_rules}
use orbitplay_api.Schema.Enums.{TestStatus, draft, is_published, is_draft}
use orbitplay_api.Schema.Rows.{TestRow, ParticipationRow}
use orbitplay_api.World.{World, Clock, invalidate_dashboard_kpis}
use orbitplay_api.World.Keeps.{DbKeeps, Keeps-transaction, Keeps-invalidate_kpis}
use orbitplay_api.Participations.Service.{is_empty}
use orbitplay_api.Participations.Slots.{IsSound, SlotsInv, SlotsOf}
use orbitplay_api.Tests.{find_in_org, with_row_lock, transition_allowed}
use orbitplay_api.Tests.Publish.{
  AudienceRequest, has_key, publish_patch, publish_locked, publish, pending_validations_for,
  set_audience, audience_patch, set_test_status, status_patch,
}

-- The row of a test, read in the state in which it is written.
find-row :
    (organization_id : ℕ) (id : Text) (w : World) (t : TestRow)
    → find_in_org organization_id id w ≡ some t
    → get TestRow.id t.id w.tests ≡ some t
unfolding find_in_org
find-row organization_id (uuid i) w t h = elim (Option-cases (get TestRow.id i w.tests)) [
  | inl gone ↦ absurd (ground arith)
  | inr (s, e) ↦
      let key : s.id ≡ i = get-key TestRow.id i w.tests s e in
      let same : s ≡ t = ground (arith, e) in ground (arith, e, key, same)
]
find-row organization_id (other s) w t h = cc

-- A patch of a row that stays sound keeps the slots of every test.
patched :
    (tests : List TestRow) (ps : List ParticipationRow) (t : TestRow) (f : TestRow → TestRow)
    → SlotsInv tests ps
    → get TestRow.id t.id tests ≡ some t
    → ((r : TestRow) → (f r).id ≡ r.id)
    → (IsSound ps t.id t → IsSound ps t.id (f t))
    → SlotsInv (update TestRow.id t.id f tests) ps
patched tests ps t f h e same sound = record { at_test = at; one_active = h.one_active }
  where
    at :
        (i : ℕ) (s : TestRow)
        → get TestRow.id i (update TestRow.id t.id f tests) ≡ some s
        → IsSound ps i s
    at i s g = elim (Bool-cases (t.id == i)) [
      | inl y ↦
          let key : t.id ≡ i = ground arith in
          let row : f t ≡ s = ground (arith, get-update TestRow.id t.id i f tests same, e, key) in
          rw⁻¹ (row, key) (sound (h.at_test t.id t e))
      | inr n ↦ h.at_test i s (ground (arith, get-update TestRow.id t.id i f tests same))
    ]

-- A transaction on a locked row keeps the slots if its body does for the row that it reads.
lock-SlotsOf :
    {A : Type 0} (organization_id : ℕ) (id : Text) (fn : TestRow → Exec World A)
    → ((w : World) (t : TestRow)
        → SlotsOf w.db
        → get TestRow.id t.id w.tests ≡ some t
        → SlotsOf (fn t w).1.db)
    → DbKeeps SlotsOf (with_row_lock organization_id id fn)
unfolding ◌>>=◌
lock-SlotsOf organization_id id fn k = Keeps-transaction SlotsOf _ (record {
  at = λ w h. elim (Option-cases (find_in_org organization_id id w)) [
    | inl gone ↦ rw gone h
    | inr (t, e) ↦ rw e (k w t h (find-row organization_id id w t e))
  ];
})

Keeps-set_audience :
    (organization_id : ℕ) (id : Text) (dto : AudienceRequest) (eligible : ℕ)
    → DbKeeps SlotsOf (set_audience organization_id id dto eligible)
unfolding set_audience ◌>>=◌
Keeps-set_audience organization_id id dto eligible = lock-SlotsOf organization_id id _ (λ w t h e.
    elim (Bool-cases (is_draft t.status)) [
      | inr n ↦ rw n h
      | inl y ↦
          let d : t.status ≡ draft = ground arith in
          rw y (
            patched w.tests w.participations t (audience_patch dto) h e (λ r. refl)
              (λ s. record {
                fits = ground (arith, s.unused d);
                counted = s.counted;
                unused = s.unused;
              }))
    ])

Keeps-kpis : (i : ℕ) → DbKeeps SlotsOf (invalidate_dashboard_kpis i)
Keeps-kpis = Keeps-invalidate_kpis SlotsOf

-- A status that a transition leads to is no draft.
no_draft : (from to : TestStatus) → transition_allowed from to ≡ true → to ≢ draft
unfolding transition_allowed
no_draft from to h e = ground arith

Keeps-set_test_status :
    (organization_id : ℕ) (id : Text) (st : TestStatus)
    → DbKeeps SlotsOf (set_test_status organization_id id st)
unfolding set_test_status ◌>>=◌
Keeps-set_test_status organization_id id st =
    Keeps-bind _ _
      (lock-SlotsOf organization_id id _ (λ w t h e.
        elim (Bool-cases (transition_allowed t.status st)) [
          | inr n ↦ rw n h
          | inl y ↦ rw y (
              patched w.tests w.participations t (status_patch st) h e (λ r. refl)
                (λ s. record {
                  fits = s.fits;
                  counted = s.counted;
                  unused = λ d. absurd (no_draft t.status st y d);
                }))
        ]))
      (λ t. search (keeps_rules, Keeps-kpis) depth 20)

published-IsSound :
    (ps : List ParticipationRow) (now key : ℕ) (t : TestRow)
    → IsSound ps t.id t
    → IsSound ps t.id (publish_patch now key t)
published-IsSound ps now key t s = record {
  fits = s.fits;
  counted = s.counted;
  unused = λ d. absurd (ground (arith, d));
}

Keeps-publish_locked :
    (now key : ℕ) (w : World) (t : TestRow)
    → SlotsOf w.db
    → get TestRow.id t.id w.tests ≡ some t
    → SlotsOf (publish_locked now key t w).1.db
unfolding ◌>>=◌
Keeps-publish_locked now key w t h e = elim (Bool-cases (is_published t.status)) [
  | inl p ↦ rw p h
  | inr p ↦ elim (Bool-cases (is_draft t.status)) [
    | inr n ↦ rw (p, n) h
    | inl d ↦ elim (Bool-cases (is_empty (pending_validations_for t w))) [
      | inr n ↦ rw (p, d, n) h
      | inl y ↦
          elim (Bool-cases (any (λ (r : TestRow). not (r.id == t.id) && has_key key r) w.tests)) [
            | inl z ↦ rw (p, d, y, z) h
            | inr z ↦
                rw (p, d, y, z)
                  (patched w.tests w.participations t (publish_patch now key) h e (λ r. refl)
                    (published-IsSound w.participations now key t))
          ]
    ]
  ]
]

Keeps-publishing :
    (organization_id : ℕ) (id : Text) (now key : ℕ)
    → DbKeeps SlotsOf (with_row_lock organization_id id (publish_locked now key))
Keeps-publishing organization_id id now key =
    lock-SlotsOf organization_id id _ (Keeps-publish_locked now key)

Keeps-publish :
    (organization_id : ℕ) (id : Text) (key : Option ℕ) (clock : Clock)
    → DbKeeps SlotsOf (publish organization_id id key clock)
unfolding publish
Keeps-publish organization_id id key clock =
    search (keeps_rules, Keeps-kpis, Keeps-publishing organization_id id) depth 40

-- Setting the audience, publishing and changing the status keep the slots of every test sound: none
-- is overbooked, each slot taken is a participation, and a draft has none taken, which is why the
-- audience of a draft may set its number of slots freely.
pub wizard_keeps_slots :
    (organization_id : ℕ) (id : Text) (w : World)
    → SlotsOf w.db
    → ((dto : AudienceRequest) (eligible : ℕ)
        → SlotsOf (set_audience organization_id id dto eligible w).1.db)
      × ((key : Option ℕ) (clock : Clock) → SlotsOf (publish organization_id id key clock w).1.db)
      × ((st : TestStatus) → SlotsOf (set_test_status organization_id id st w).1.db)
wizard_keeps_slots organization_id id w h = (
  λ dto eligible. (Keeps-set_audience organization_id id dto eligible).at w h,
  λ key clock. (Keeps-publish organization_id id key clock).at w h,
  λ st. (Keeps-set_test_status organization_id id st).at w h,
)
