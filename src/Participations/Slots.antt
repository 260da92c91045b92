-- ===== src/Participations/Slots.antt =====
-- The slots of a test: never more taken than there are, one for each participation, and no two
-- active participations of one player.
pub mod Kept
pub mod Overbooking
use orbitplay_api.Prelude.{
  String, ℕ, suc, ◌+◌, ◌≤◌, ◌<◌, ◌≡◌, ◌≢◌, refl, sym, ap, ◌∙◌, ◌⊎◌, inl, inr, Bool, true, false,
  not, ◌&&◌, Option, none, some, List, [], ◌∷◌, ◌++◌, arith, ltb, leb, count_if, get, update,
  get-update, get-key, count_if-append, count_if-update, count_if-update_same, one_if, option_map,
  Bool-cases, Option-cases, ◌==◌, subst, if◌then◌else◌,
}
use orbitplay_api.Errors.{Failure, Result, ok, err, app, conflict, unique_violation}
use orbitplay_api.Exec.{Exec, ◌>>=◌, ◌>>◌}
use orbitplay_api.Schema.Enums.{TestStatus, draft, ParticipationStatus, is_active, is_published}
use orbitplay_api.Schema.Rows.{TestRow, ParticipationRow}
use orbitplay_api.World.{Db, World, Clock, transaction}
use orbitplay_api.Participations.Repository.{
  same_pair, holds_slot, set_status, set_participation_status, take_slot, is_reservable,
  new_participation, reserve_participation,
}

abbrev pub of_test : ℕ → ParticipationRow → Bool
of_test i p = p.test_id == i

-- What holds of a test: its slots are not overbooked, each one taken is a participation, and a draft
-- has none.
pub record IsSound (participations : List ParticipationRow) (i : ℕ) (t : TestRow) : Type 0 where
  pub fits : t.slots_taken ≤ t.slots_total
  pub counted : t.slots_taken ≡ count_if (of_test i) participations
  pub unused : t.status ≡ draft → t.slots_taken ≡ 0

pub record SlotsInv (tests : List TestRow) (participations : List ParticipationRow) : Type 0 where
  pub at_test : (i : ℕ) (t : TestRow) → get TestRow.id i tests ≡ some t → IsSound participations i t
  pub one_active : (i u : ℕ) → count_if (holds_slot i u) participations ≤ 1

abbrev pub SlotsOf : Db → Type 0
SlotsOf d = SlotsInv d.tests d.participations

-- A successful reservation, written out.
abbrev pub reserved_rows : ℕ → ℕ → ℕ → World → List ParticipationRow
reserved_rows test_id user_id new_id w =
    w.participations ++ new_participation new_id test_id user_id ∷ []

pub record Reserved (now test_id user_id new_id : ℕ) (w w' : World) (p : ParticipationRow)
    : Type 0 where
  pub row : p ≡ new_participation new_id test_id user_id
  pub test : TestRow
  pub found : get TestRow.id test_id w.tests ≡ some test
  pub reservable : is_reservable now test ≡ true
  pub alone : count_if (holds_slot test_id user_id) (reserved_rows test_id user_id new_id w) ≤ 1
  pub after : w' ≡ record w {
    db = record w.db {
      tests = update TestRow.id test_id take_slot w.tests;
      participations = reserved_rows test_id user_id new_id w;
    };
  }

pub reserve_outcome :
    (now test_id user_id new_id : ℕ) (w : World)
    → ((p : ParticipationRow) × ((reserve_participation now test_id user_id new_id w).0 ≡ ok p)
        × Reserved now test_id user_id new_id w
            (reserve_participation now test_id user_id new_id w).1
            p)
      ⊎ ((m : String) × ((reserve_participation now test_id user_id new_id w).0
            ≡ err (app (conflict m)))
          × ((reserve_participation now test_id user_id new_id w).1 ≡ w))
      ⊎ (((reserve_participation now test_id user_id new_id w).0 ≡ err unique_violation)
          × ((reserve_participation now test_id user_id new_id w).1 ≡ w))
unfolding reserve_participation transaction ◌>>=◌
reserve_outcome now test_id user_id new_id w =
    elim (Option-cases (get TestRow.id test_id w.tests)) [
      | inl gone ↦ inr (inl ("Teste não está aberto para participação", ground arith, ground arith))
      | inr (t, found) ↦ elim (Bool-cases (is_reservable now t)) [
        | inr shut ↦ elim (Bool-cases (is_published t.status && leb t.slots_total t.slots_taken)) [
          | inl full ↦ inr (inl ("Vagas esgotadas", ground arith, ground arith))
          | inr over ↦
              inr (inl ("Teste não está aberto para participação", ground arith, ground arith))
        ]
        | inl room ↦
            elim (Bool-cases (
              ltb 1
                (count_if (holds_slot test_id user_id) (reserved_rows test_id user_id new_id w)))) [
                  | inl twice ↦ inr (inr (ground arith, ground arith))
                  | inr alone ↦ inl (
                    new_participation new_id test_id user_id,
                    ground arith,
                    record {
                      row = refl;
                      test = t;
                      found = found;
                      reservable = room;
                      alone = ground arith;
                      after = ground arith;
                    },
                  )
                ]
      ]
    ]

pub Reserved-SlotsInv :
    (now test_id user_id new_id : ℕ) (w w' : World) (p : ParticipationRow)
    → SlotsOf w.db
    → Reserved now test_id user_id new_id w w' p
    → SlotsOf w'.db
unfolding is_reservable
Reserved-SlotsInv now test_id user_id new_id w w' p h r =
    subst (λ (v : World). SlotsOf v.db) (sym r.after) (record { at_test = at; one_active = one })
  where
    at :
        (i : ℕ) (t : TestRow)
        → get TestRow.id i (update TestRow.id test_id take_slot w.tests) ≡ some t
        → IsSound (reserved_rows test_id user_id new_id w) i t
    at i t e = elim (Option-cases (get TestRow.id i w.tests)) [
      | inl gone ↦
          absurd (ground (arith, get-update TestRow.id test_id i take_slot w.tests (λ x. refl)))
      | inr (old, was) ↦ record {
        fits = ground (
          arith,
          get-update TestRow.id test_id i take_slot w.tests (λ x. refl),
          r.found,
          h.at_test i old was,
        );
        counted = ground (
          arith,
          get-update TestRow.id test_id i take_slot w.tests (λ x. refl),
          r.found,
          h.at_test i old was,
          count_if-append (of_test i) w.participations
              (new_participation new_id test_id user_id ∷ []),
        );
        unused = ground (
          arith,
          get-update TestRow.id test_id i take_slot w.tests (λ x. refl),
          r.found,
          h.at_test i old was,
        );
      }
    ]

    one : (i u : ℕ) → count_if (holds_slot i u) (reserved_rows test_id user_id new_id w) ≤ 1
    one i u = ground (
      arith,
      h.one_active i u,
      r.alone,
      count_if-append (holds_slot i u) w.participations
          (new_participation new_id test_id user_id ∷ []),
    )
