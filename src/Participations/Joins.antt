-- ===== src/Participations/Joins.antt =====
-- When a player can join a test, and what a join does.
pub mod Late
use orbitplay_api.Prelude.{
  ℕ, ◌+◌, ◌≤◌, ◌<◌, ◌≡◌, refl, sym, ap, ◌∙◌, ◌⊎◌, inl, inr, Bool, true, false, not, ◌&&◌, Option,
  none, some, String, List, [], ◌∷◌, ◌++◌, arith, ltb, leb, count_if, get, update, count_if-append,
  get-key, any, Bool-cases, Option-cases, ◌==◌, subst, if◌then◌else◌,
}
use orbitplay_api.Uuid.{Text, uuid, other, as_uuid}
use orbitplay_api.Errors.{
  AppException, status_code, error, Failure, Result, ok, err, app, conflict, not_found, forbidden,
  unique_violation,
}
use orbitplay_api.Exec.{Exec, ◌>>=◌, ◌>>◌}
use orbitplay_api.Schema.Enums.{ParticipationStatus, is_active, is_published}
use orbitplay_api.Schema.Rows.{TestRow, ParticipationRow}
use orbitplay_api.Eligibility.{age_eligible}
use orbitplay_api.PlayerCta.{test_unavailable_reason, ended_by, still_open}
use orbitplay_api.World.{
  Db, World, Clock, transaction, invalidate_dashboard_kpis, invalidate_report_snapshots,
}
use orbitplay_api.Participations.Repository.{
  same_pair, holds_slot, take_slot, is_reservable, find_test_by_id, find_audience_age_range,
  find_user_birthdate, new_participation, reserve_participation, has_completed_participation,
  insert_participation,
}
use orbitplay_api.Participations.Service.{join, assert_age_eligible}
use orbitplay_api.Participations.Slots.{Reserved, reserved_rows, reserve_outcome}

-- What the player, the test and the clock must be for a join.
pub record Joinable (test_id user_id : ℕ) (clock : Clock) (w : World) (t : TestRow) : Type 0 where
  pub found : get TestRow.id test_id w.tests ≡ some t
  pub available : test_unavailable_reason t clock.now ≡ none
  pub eligible :
      age_eligible clock.today (find_audience_age_range test_id w) (find_user_birthdate user_id w)
      ≡ true
  pub not_done : has_completed_participation test_id user_id w ≡ false
  pub not_active : count_if (holds_slot test_id user_id) w.participations ≡ 0

pub open_reservable :
    (now : ℕ) (t : TestRow)
    → test_unavailable_reason t now ≡ none
    → (is_published t.status ≡ true)
      × (ended_by t.ends_at now ≡ false)
      × (is_reservable now t ≡ true)
unfolding test_unavailable_reason is_reservable
open_reservable now t h = (ground arith, ground arith, ground arith)

-- The transaction of a join in a state that permits it.
pub reserves :
    (test_id user_id new_id : ℕ) (clock : Clock) (w : World) (t : TestRow)
    → Joinable test_id user_id clock w t
    → reserve_participation clock.now test_id user_id new_id w ≡ (
      ok (new_participation new_id test_id user_id),
      record w {
        db = record w.db {
          tests = update TestRow.id test_id take_slot w.tests;
          participations = reserved_rows test_id user_id new_id w;
        };
      },
    )
unfolding reserve_participation transaction ◌>>=◌
reserves test_id user_id new_id clock w t j =
    let one : count_if (holds_slot test_id user_id) (reserved_rows test_id user_id new_id w) ≡ 1 =
      ground (
        arith,
        j.not_active,
        count_if-append (holds_slot test_id user_id) w.participations
            (new_participation new_id test_id user_id ∷ []),
      ) in
    rw (j.found, (open_reservable clock.now t j.available).2, one) refl

-- A player who may take part in an open test of which the player holds no active or completed
-- participation joins it: the join returns the new reserved participation, one slot is taken, and
-- the participation is written.
pub joins_open_test :
    (test_id user_id new_id : ℕ) (clock : Clock) (w : World) (t : TestRow)
    → Joinable test_id user_id clock w t
    → ((join (uuid test_id) user_id clock new_id w).0
        ≡ ok (new_participation new_id test_id user_id))
      × ((join (uuid test_id) user_id clock new_id w).1.tests
          ≡ update TestRow.id test_id take_slot w.tests)
      × ((join (uuid test_id) user_id clock new_id w).1.participations
          ≡ w.participations ++ new_participation new_id test_id user_id ∷ [])
unfolding join find_test_by_id assert_age_eligible ◌>>=◌ invalidate_dashboard_kpis
    invalidate_report_snapshots
joins_open_test test_id user_id new_id clock w t j =
    let o : (is_published t.status ≡ true)
        × (ended_by t.ends_at clock.now ≡ false)
        × (is_reservable clock.now t ≡ true) =
      open_reservable clock.now t j.available in
    let same : t.id ≡ test_id = get-key TestRow.id test_id w.tests t j.found in
    let r = reserves test_id user_id new_id clock w t j in
    rw (j.found, o.0, o.1, same, j.eligible, j.not_done, r) (refl, refl, refl)

reservable_open :
    (now : ℕ) (t : TestRow) → is_reservable now t ≡ true → test_unavailable_reason t now ≡ none
unfolding test_unavailable_reason is_reservable
reservable_open now t h = ground arith

Reserved-Joinable :
    (test_id user_id new_id : ℕ) (clock : Clock) (w v : World) (p : ParticipationRow)
    → age_eligible clock.today (find_audience_age_range test_id w) (find_user_birthdate user_id w)
      ≡ true
    → has_completed_participation test_id user_id w ≡ false
    → Reserved clock.now test_id user_id new_id w v p
    → (t : TestRow) × Joinable test_id user_id clock w t
Reserved-Joinable test_id user_id new_id clock w v p e d r = (
  r.test,
  record {
    found = r.found;
    available = reservable_open clock.now r.test r.reservable;
    eligible = e;
    not_done = d;
    not_active = ground (
      arith,
      r.alone,
      count_if-append (holds_slot test_id user_id) w.participations
          (new_participation new_id test_id user_id ∷ []),
    );
  },
)

-- Nothing joined: the error is an exception of the API with status 403, 404 or 409, and the whole
-- state is as before.
pub record Refused {A : Type 0} (w : World) (r : Result A × World) : Type 0 where
  pub error : AppException
  pub refused : r.0 ≡ err (app error)
  pub code : (status_code error ≡ 403) ⊎ (status_code error ≡ 404) ⊎ (status_code error ≡ 409)
  pub unchanged : r.1 ≡ w

conflict-Refused :
    {A : Type 0} (w : World) (m : String) → Refused {A = A} w (err (app (conflict m)), w)
unfolding status_code
conflict-Refused w m = record {
  error = conflict m;
  refused = refl;
  code = inr (inr refl);
  unchanged = refl;
}

not_found-Refused :
    {A : Type 0} (w : World) (m : String) → Refused {A = A} w (err (app (not_found m)), w)
unfolding status_code
not_found-Refused w m = record {
  error = not_found m;
  refused = refl;
  code = inr (inl refl);
  unchanged = refl;
}

forbidden-Refused :
    {A : Type 0} (w : World) (m : String) → Refused {A = A} w (err (app (forbidden m)), w)
unfolding status_code
forbidden-Refused w m = record {
  error = forbidden m;
  refused = refl;
  code = inl refl;
  unchanged = refl;
}

-- How a join of a test comes out.
abbrev JoinOutcome : ℕ → ℕ → Clock → ℕ → World → Type 0
JoinOutcome i user_id clock new_id w =
    Refused w (join (uuid i) user_id clock new_id w)
    ⊎ ((t : TestRow) × Joinable i user_id clock w t)

module _ (i user_id : ℕ) (clock : Clock) (new_id : ℕ) (w : World) (t : TestRow) where
  allowed :
      get TestRow.id i w.tests ≡ some t
      → is_published t.status ≡ true
      → ended_by t.ends_at clock.now ≡ false
      → age_eligible clock.today (find_audience_age_range i w) (find_user_birthdate user_id w)
        ≡ true
      → has_completed_participation i user_id w ≡ false
      → JoinOutcome i user_id clock new_id w
  unfolding join find_test_by_id assert_age_eligible ◌>>=◌
  allowed found p o e d =
      let same : t.id ≡ i = get-key TestRow.id i w.tests t found in
      elim (reserve_outcome clock.now i user_id new_id w) [
        | inl (row, won, r) ↦ inr (Reserved-Joinable i user_id new_id clock w _ row e d r)
        | inr (inl (m, lost, un)) ↦
            inl (rw (found, p, o, same, e, d, lost, un) (conflict-Refused w m))
        | inr (inr (lost, un)) ↦ inl (
            rw (found, p, o, same, e, d, lost, un)
              (conflict-Refused w "Já existe uma participação ativa neste teste"))
      ]

  known : get TestRow.id i w.tests ≡ some t → JoinOutcome i user_id clock new_id w
  unfolding join find_test_by_id assert_age_eligible ◌>>=◌
  known found =
      let same : t.id ≡ i = get-key TestRow.id i w.tests t found in
      elim (Bool-cases (is_published t.status)) [
        | inr p ↦ inl (rw (found, p) (conflict-Refused w "Teste não está aberto para participação"))
        | inl p ↦ elim (Bool-cases (ended_by t.ends_at clock.now)) [
          | inl o ↦ inl (rw (found, p, o) (conflict-Refused w "Teste expirado"))
          | inr o ↦
              elim (Bool-cases (
                age_eligible clock.today (find_audience_age_range i w)
                  (find_user_birthdate user_id w))) [
                    | inr e ↦ inl (
                        rw (found, p, o, same, e)
                          (forbidden-Refused w "Fora da faixa etária deste teste"))
                    | inl e ↦ elim (Bool-cases (has_completed_participation i user_id w)) [
                      | inl d ↦ inl (
                          rw (found, p, o, same, e, d)
                            (conflict-Refused w "Você já concluiu este teste"))
                      | inr d ↦ allowed found p o e d
                    ]
                  ]
        ]
      ]

-- A join either is refused with status 403, 404 or 409 and changes nothing, no slot included, or the
-- text is the id of a test that the player can join.
pub join-Refused_or_Joinable :
    (test_id : Text) (user_id : ℕ) (clock : Clock) (new_id : ℕ) (w : World)
    → Refused w (join test_id user_id clock new_id w)
      ⊎ ((i : ℕ) × (test_id ≡ uuid i) × ((t : TestRow) × Joinable i user_id clock w t))
unfolding join find_test_by_id ◌>>=◌
join-Refused_or_Joinable (other s) user_id clock new_id w =
    inl (not_found-Refused w "Teste não encontrado")
join-Refused_or_Joinable (uuid i) user_id clock new_id w =
    elim (Option-cases (get TestRow.id i w.tests)) [
      | inl gone ↦ inl (rw gone (not_found-Refused w "Teste não encontrado"))
      | inr (t, found) ↦ elim (known i user_id clock new_id w t found) [
        | inl r ↦ inl r
        | inr j ↦ inr (i, refl, j)
      ]
    ]
