-- ===== src/Participations/Sessions/Elsewhere.antt =====
-- The writes that leave sessions, verdicts and forms alone.
use orbitplay_api.Prelude.{
  any, ℕ, ◌≡◌, refl, inl, inr, Option, none, some, ltb, count_if, get, update, Bool-cases,
  Option-cases,
}
use orbitplay_api.Exec.{pure, fail}
use orbitplay_api.Schema.Enums.{ParticipationStatus}
use orbitplay_api.Schema.Rows.{SessionRow, XpEventRow, ParticipationRow}
use orbitplay_api.World.{Db, World}
use orbitplay_api.Participations.Repository.{
  holds_slot, set_status, set_participation_status, reserve_participation, update_found,
}
use orbitplay_api.Workers.SessionValidate.{
  same_source, rewards, insert_xp_event, credit_user, credit_session_xp,
}
use orbitplay_api.Participations.Slots.{reserve_outcome}

-- Writes to the tables that a session's end does not look at.
abbrev pub Elsewhere : Db → Db → Type 0
Elsewhere d e =
    (e.sessions ≡ d.sessions)
    × (e.validations ≡ d.validations)
    × (e.form_responses ≡ d.form_responses)

update_found-Elsewhere :
    (p : ParticipationRow) (j : ℕ) (st : ParticipationStatus) (w : World)
    → Elsewhere w.db (update_found (some p) j st w).1.db
unfolding fail
update_found-Elsewhere p j st w =
    elim (Bool-cases (
      ltb 1 (
        count_if (holds_slot p.test_id p.user_id)
          (update ParticipationRow.id j (set_status st) w.participations)))) [
            | inl y ↦ rw y (refl, refl, refl)
            | inr n ↦ rw n (refl, refl, refl)
          ]

pub set_status-Elsewhere :
    (j : ℕ) (st : ParticipationStatus) (w : World)
    → Elsewhere w.db (set_participation_status j st w).1.db
unfolding set_participation_status pure
set_status-Elsewhere j st w = elim (Option-cases (get ParticipationRow.id j w.participations)) [
  | inl gone ↦ rw gone (refl, refl, refl)
  | inr (p, e) ↦ rw e (update_found-Elsewhere p j st w)
]

pub reserve-Elsewhere :
    (now t u n : ℕ) (w : World) → Elsewhere w.db (reserve_participation now t u n w).1.db
reserve-Elsewhere now t u n w = elim (reserve_outcome now t u n w) [
  | inl (p, e, r) ↦ rw r.after (refl, refl, refl)
  | inr (inl (m, e, un)) ↦ rw un (refl, refl, refl)
  | inr (inr (e, un)) ↦ rw un (refl, refl, refl)
]

xp-Elsewhere : (e : XpEventRow) (w : World) → Elsewhere w.db (insert_xp_event e w).1.db
unfolding pure
xp-Elsewhere e w = elim (Bool-cases (any (same_source e.user_id e.source_id) w.xp_events)) [
  | inl y ↦ rw y (refl, refl, refl)
  | inr n ↦ rw n (refl, refl, refl)
]

credit_user-Elsewhere :
    (p : Option ParticipationRow) (s : SessionRow) (w : World)
    → Elsewhere w.db (credit_user p s w).1.db
unfolding pure
credit_user-Elsewhere none s w = (refl, refl, refl)
credit_user-Elsewhere (some p) s w =
    elim (Bool-cases (any (rewards p.user_id s.test_id w.sessions) w.xp_events)) [
      | inl y ↦ rw y (refl, refl, refl)
      | inr n ↦ rw n (xp-Elsewhere _ w)
    ]

pub credit-Elsewhere : (s : SessionRow) (w : World) → Elsewhere w.db (credit_session_xp s w).1.db
unfolding credit_session_xp
credit-Elsewhere s w = credit_user-Elsewhere _ s w
