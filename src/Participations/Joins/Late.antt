-- ===== src/Participations/Joins/Late.antt =====
-- A join between whose check and whose transaction the player completes the test.
use orbitplay_api.Prelude.{
  ℕ, ◌≡◌, refl, true, false, none, some, [], ◌∷◌, arith, count_if, count_if-append, get, update,
  get-key,
}
use orbitplay_api.Uuid.{uuid}
use orbitplay_api.Errors.{ok, err, app, conflict}
use orbitplay_api.Schema.Enums.{is_published}
use orbitplay_api.Exec.{◌>>=◌}
use orbitplay_api.Schema.Rows.{TestRow}
use orbitplay_api.Eligibility.{age_eligible}
use orbitplay_api.PlayerCta.{test_unavailable_reason, ended_by}
use orbitplay_api.World.{World, Clock, transaction}
use orbitplay_api.Participations.Repository.{
  holds_slot, take_slot, find_test_by_id, find_audience_age_range, find_user_birthdate,
  new_participation, reserve_participation, has_completed_participation, is_reservable,
}
use orbitplay_api.Participations.Service.{join, assert_age_eligible}
use orbitplay_api.Participations.Slots.{reserved_rows}
use orbitplay_api.Participations.Joins.{open_reservable}

-- The transaction of a join does not look at completed participations: in a state where the player,
-- of an age that fits, has completed an open test and holds no active participation of it, a join is
-- refused as already concluded, but the transaction of a join whose checks ran before the completion
-- still takes a slot for the player.
pub late_completion_takes_slot :
    (i u new_id : ℕ) (clock : Clock) (w : World) (t : TestRow)
    → get TestRow.id i w.tests ≡ some t
    → test_unavailable_reason t clock.now ≡ none
    → age_eligible clock.today (find_audience_age_range i w) (find_user_birthdate u w) ≡ true
    → has_completed_participation i u w ≡ true
    → count_if (holds_slot i u) w.participations ≡ 0
    → (join (uuid i) u clock new_id w ≡ (err (app (conflict "Você já concluiu este teste")), w))
      × ((reserve_participation clock.now i u new_id w).0 ≡ ok (new_participation new_id i u))
      × ((reserve_participation clock.now i u new_id w).1.tests
          ≡ update TestRow.id i take_slot w.tests)
unfolding join find_test_by_id assert_age_eligible reserve_participation transaction ◌>>=◌
late_completion_takes_slot i u new_id clock w t found open_now e d none_active =
    let o : (is_published t.status ≡ true)
        × (ended_by t.ends_at clock.now ≡ false)
        × (is_reservable clock.now t ≡ true) =
      open_reservable clock.now t open_now in
    let same : t.id ≡ i = get-key TestRow.id i w.tests t found in
    let one : count_if (holds_slot i u) (reserved_rows i u new_id w) ≡ 1 = ground (
      arith,
      none_active,
      count_if-append (holds_slot i u) w.participations (new_participation new_id i u ∷ []),
    ) in
    (rw (found, o.0, o.1, same, e, d) refl, rw (found, o.2, one) refl, rw (found, o.2, one) refl)
