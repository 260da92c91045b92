-- ===== src/Participations/Slots/Kept.antt =====
-- The actions of players and workers on participations keep the slots sound.
use orbitplay_api.Prelude.{
  ℕ, ◌≤◌, ◌≡◌, refl, sym, ◌∙◌, inl, inr, true, false, some, List, [], ◌∷◌, arith, ltb, count_if,
  get, update, count_if-update_same, Bool-cases, Option-cases,
}
use orbitplay_api.Exec.{pure, modify, fail}
use orbitplay_api.Schema.Enums.{ParticipationStatus}
use orbitplay_api.Schema.Rows.{TestRow, ParticipationRow}
use orbitplay_api.World.{World, invalidate_report_snapshots}
use orbitplay_api.World.Keeps.{DbKeeps}
use orbitplay_api.Participations.Repository.{
  holds_slot, same_pair, set_status, set_participation_status, reserve_participation, update_found,
}
use orbitplay_api.Participations.Slots.{
  of_test, IsSound, SlotsOf, reserve_outcome, Reserved-SlotsInv,
}

pub Keeps-invalidate : (i : ℕ) → DbKeeps SlotsOf (invalidate_report_snapshots i)
unfolding invalidate_report_snapshots modify
Keeps-invalidate i = record { at = λ w h. h }

-- A status changes the count of one pair only.
module _ (id : ℕ) (st : ParticipationStatus) where
  other_pair :
      (i u : ℕ) (rows : List ParticipationRow) (p : ParticipationRow)
      → get ParticipationRow.id id rows ≡ some p
      → same_pair i u p ≡ false
      → count_if (holds_slot i u) (update ParticipationRow.id id (set_status st) rows)
        ≡ count_if (holds_slot i u) rows
  unfolding get update
  other_pair i u [] p e n = refl
  other_pair i u (x ∷ rows) p e n = ground (arith, other_pair i u rows p)

  own_pair :
      (i u : ℕ) (p : ParticipationRow) → same_pair i u p ≡ true → (p.test_id ≡ i) × (p.user_id ≡ u)
  own_pair i u p e = (ground arith, ground arith)

  one_after :
      (rows : List ParticipationRow) (p : ParticipationRow)
      → get ParticipationRow.id id rows ≡ some p
      → count_if
          (holds_slot p.test_id p.user_id)
          (update ParticipationRow.id id (set_status st) rows)
        ≤ 1
      → ((i u : ℕ) → count_if (holds_slot i u) rows ≤ 1)
      → (i u : ℕ)
      → count_if (holds_slot i u) (update ParticipationRow.id id (set_status st) rows) ≤ 1
  one_after rows p e own h i u = elim (Bool-cases (same_pair i u p)) [
    | inl y ↦ rw (sym (own_pair i u p y).0, sym (own_pair i u p y).1) own
    | inr n ↦ rw (other_pair i u rows p e n) (h i u)
  ]

  written :
      (w : World) (p : ParticipationRow)
      → get ParticipationRow.id id w.participations ≡ some p
      → SlotsOf w.db
      → SlotsOf (update_found (some p) id st w).1.db
  unfolding fail
  written w p e h =
      let rows : List ParticipationRow =
        update ParticipationRow.id id (set_status st) w.participations in
      elim (Bool-cases (ltb 1 (count_if (holds_slot p.test_id p.user_id) rows))) [
        | inl twice ↦ rw twice h
        | inr once ↦ rw once (record {
          at_test = λ i t found. recounted i t (h.at_test i t found);
          one_active = one_after w.participations p e (ground arith) h.one_active;
        })
      ]
    where
      recounted :
          (i : ℕ) (t : TestRow)
          → IsSound w.participations i t
          → IsSound (update ParticipationRow.id id (set_status st) w.participations) i t
      recounted i t s = record {
        fits = s.fits;
        counted =
            s.counted
            ∙ sym (
                count_if-update_same ParticipationRow.id (of_test i) id (set_status st)
                  w.participations (λ r. refl));
        unused = s.unused;
      }

  pub Keeps-set_status : DbKeeps SlotsOf (set_participation_status id st)
  unfolding set_participation_status pure
  Keeps-set_status = record {
    at = λ w h. elim (Option-cases (get ParticipationRow.id id w.participations)) [
      | inl gone ↦ rw gone h
      | inr (p, e) ↦ rw e (written w p e h)
    ];
  }

pub Keeps-reserve :
    (now test_id user_id new_id : ℕ)
    → DbKeeps SlotsOf (reserve_participation now test_id user_id new_id)
Keeps-reserve now test_id user_id new_id = record {
  at = λ w h. elim (reserve_outcome now test_id user_id new_id w) [
    | inl (p, e, r) ↦ Reserved-SlotsInv now test_id user_id new_id w _ p h r
    | inr (inl (m, f, same)) ↦ rw same h
    | inr (inr (f, same)) ↦ rw same h
  ];
}
