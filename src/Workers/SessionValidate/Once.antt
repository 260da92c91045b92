-- ===== src/Workers/SessionValidate/Once.antt =====
-- What validating a session leaves behind, and that doing it again changes nothing.
use orbitplay_api.Prelude.{
  ℕ, ◌≤◌, ◌≡◌, refl, subst, inl, inr, Bool, true, false, Option, none, some, List, [], ◌∷◌, ◌++◌,
  arith, any, count_if, count_if-update, ltb, get, get-key, get-append, get-update, update,
  Bool-cases, Option-cases, if◌then◌else◌,
}
use orbitplay_api.Errors.{ok}
use orbitplay_api.Exec.{pure, ◌>>=◌}
use orbitplay_api.Schema.Enums.{is_active}
use orbitplay_api.Schema.Rows.{SessionRow, ParticipationRow, ValidationRow, XpEventRow}
use orbitplay_api.World.{
  World, Clock, transaction, invalidate_report_snapshots, invalidate_dashboard_kpis,
}
use orbitplay_api.Participations.Repository.{holds_slot, set_status, set_participation_status}
use orbitplay_api.Workers.SessionValidate.{
  Verdict, verdict_of, session_completion_xp, rewards, same_source, credit_user, credit_session_xp,
  validated_status, judged_status, apply_verdict, process_session_validate,
}

judged_inactive : (b : Bool) → is_active (judged_status b) ≡ false
judged_inactive true = refl
judged_inactive false = refl

-- A participation that ends leaves the index on active participations intact.
status_written :
    (j : ℕ) (b : Bool) (w : World)
    → ((i u : ℕ) → count_if (holds_slot i u) w.participations ≤ 1)
    → (rows : List ParticipationRow) × (set_participation_status j (judged_status b) w
        ≡ (ok tt, record w { db = record w.db { participations = rows } }))
unfolding set_participation_status pure
status_written j b w one = elim (Option-cases (get ParticipationRow.id j w.participations)) [
  | inl gone ↦ (w.participations, rw gone refl)
  | inr (p, e) ↦
      let fits : ltb 1 (
            count_if (holds_slot p.test_id p.user_id)
              (update ParticipationRow.id j (set_status (judged_status b)) w.participations))
          ≡ false =
        ground (
          arith,
          count_if-update ParticipationRow.id (holds_slot p.test_id p.user_id) j
              (set_status (judged_status b)) w.participations p e,
          one p.test_id p.user_id,
          judged_inactive b,
        ) in
      (
        update ParticipationRow.id j (set_status (judged_status b)) w.participations,
        rw (e, fits) refl,
      )
]

credit_written :
    (s : SessionRow) (p : Option ParticipationRow) (w : World)
    → (es : List XpEventRow) × (credit_user p s w
        ≡ (ok tt, record w { db = record w.db { xp_events = es } }))
unfolding pure
credit_written s none w = (w.xp_events, refl)
credit_written s (some p) w =
    elim (Bool-cases (any (rewards p.user_id s.test_id w.sessions) w.xp_events)) [
      | inl y ↦ (w.xp_events, rw y refl)
      | inr n ↦ elim (Bool-cases (any (same_source p.user_id s.id) w.xp_events)) [
        | inl z ↦ (w.xp_events, rw (n, z) refl)
        | inr z ↦ (
          w.xp_events
              ++ record { user_id = p.user_id; source_id = s.id; xp = session_completion_xp } ∷ [],
          rw (n, z) refl,
        )
      ]
    ]

xp_written :
    (s : SessionRow) (b : Bool) (w : World)
    → (es : List XpEventRow) × ((if b then credit_session_xp s else pure tt) w
        ≡ (ok tt, record w { db = record w.db { xp_events = es } }))
unfolding credit_session_xp pure
xp_written s true w = credit_written s _ w
xp_written s false w = (w.xp_events, refl)

abbrev pub verdict_row : SessionRow → Verdict → ℕ → ValidationRow
verdict_row s v now = record {
  session_id = s.id;
  valid = v.valid;
  reason = v.reason;
  validated_at = now;
}

-- What the transaction writes: the verdict, the session and its participation.
abbrev judged_world :
    SessionRow → Verdict → ℕ → World → List ParticipationRow → List XpEventRow → World
judged_world s v now w rows es = record w {
  db = record w.db {
    validations = w.validations ++ verdict_row s v now ∷ [];
    sessions =
        update SessionRow.id s.id
          (λ (r : SessionRow). record r { status = validated_status v.valid }) w.sessions;
    participations = rows;
    xp_events = es;
  };
}

applied :
    (s : SessionRow) (v : Verdict) (now : ℕ) (w : World)
    → get ValidationRow.session_id s.id w.validations ≡ none
    → ((i u : ℕ) → count_if (holds_slot i u) w.participations ≤ 1)
    → (rows : List ParticipationRow) × (es : List XpEventRow) × (apply_verdict s v now w
        ≡ (ok true, judged_world s v now w rows es))
unfolding apply_verdict transaction ◌>>=◌
applied s v now w new one =
    let before : World = judged_world s v now w w.participations w.xp_events in
    let (rows, st) = status_written s.participation_id v.valid before one in
    let after : World = judged_world s v now w rows w.xp_events in
    let (es, xp) = xp_written s v.valid after in (rows, es, rw (new, st, xp) refl)

settles :
    (clock later : Clock) (w : World) (s : SessionRow)
    → get ValidationRow.session_id s.id w.validations ≡ none
    → get SessionRow.id s.id w.sessions ≡ some s
    → ((i u : ℕ) → count_if (holds_slot i u) w.participations ≤ 1)
    → ((process_session_validate s.id clock w).0 ≡ ok tt)
      × (get ValidationRow.session_id s.id (process_session_validate s.id clock w).1.validations
          ≡ some (verdict_row s (verdict_of s w.recordings) clock.now))
      × (get SessionRow.id s.id (process_session_validate s.id clock w).1.sessions
          ≡ some (record s { status = validated_status (verdict_of s w.recordings).valid }))
      × (process_session_validate s.id later (process_session_validate s.id clock w).1
          ≡ (ok tt, (process_session_validate s.id clock w).1))
unfolding process_session_validate ◌>>=◌ invalidate_dashboard_kpis invalidate_report_snapshots
settles clock later w s new found one =
    let v : Verdict = verdict_of s w.recordings in
    let (rows, es, done) = applied s v clock.now w new one in
    let stored : get ValidationRow.session_id s.id (w.validations ++ verdict_row s v clock.now ∷ [])
        ≡ some (verdict_row s v clock.now) =
      ground (
        arith,
        get-append ValidationRow.session_id s.id w.validations (verdict_row s v clock.now),
      ) in
    let judged : get SessionRow.id s.id (
          update SessionRow.id s.id
            (λ (r : SessionRow). record r { status = validated_status v.valid }) w.sessions)
        ≡ some (record s { status = validated_status v.valid }) =
      ground (
        arith,
        get-update SessionRow.id s.id s.id
            (λ (r : SessionRow). record r { status = validated_status v.valid }) w.sessions
            (λ r. refl),
        found,
      ) in
    rw (new, found, done, stored, judged) (refl, refl, refl, refl)

-- The validation of a session that has no verdict yet succeeds while no player holds two active
-- participations of a test: the verdict is stored, and the session gets the status that
-- follows from it. Validating the session again, at any later time, changes nothing.
pub validation_settles_once :
    (i : ℕ) (clock later : Clock) (w : World) (s : SessionRow)
    → get ValidationRow.session_id i w.validations ≡ none
    → get SessionRow.id i w.sessions ≡ some s
    → ((i u : ℕ) → count_if (holds_slot i u) w.participations ≤ 1)
    → ((process_session_validate i clock w).0 ≡ ok tt)
      × (get ValidationRow.session_id i (process_session_validate i clock w).1.validations
          ≡ some (verdict_row s (verdict_of s w.recordings) clock.now))
      × (get SessionRow.id i (process_session_validate i clock w).1.sessions
          ≡ some (record s { status = validated_status (verdict_of s w.recordings).valid }))
      × (process_session_validate i later (process_session_validate i clock w).1
          ≡ (ok tt, (process_session_validate i clock w).1))
validation_settles_once i clock later w s new found one =
    let key : s.id ≡ i = get-key SessionRow.id i w.sessions s found in
    subst
      (λ n.
        ((process_session_validate n clock w).0 ≡ ok tt)
        × (get ValidationRow.session_id n (process_session_validate n clock w).1.validations
            ≡ some (verdict_row s (verdict_of s w.recordings) clock.now))
        × (get SessionRow.id n (process_session_validate n clock w).1.sessions
            ≡ some (record s { status = validated_status (verdict_of s w.recordings).valid }))
        × (process_session_validate n later (process_session_validate n clock w).1
            ≡ (ok tt, (process_session_validate n clock w).1)))
      key (settles clock later w s (ground (arith, key, new)) (ground (arith, key, found)) one)
