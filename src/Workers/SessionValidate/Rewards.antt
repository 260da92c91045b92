-- ===== src/Workers/SessionValidate/Rewards.antt =====
-- What keeps a player from being rewarded twice for a test, at each write of the participation and
-- session code.
pub mod Always
use orbitplay_api.Prelude.{
  ℕ, ◌≤◌, ◌≡◌, refl, inl, inr, Bool, true, false, Option, none, some, List, [], ◌∷◌, ◌++◌, arith,
  any, All, All-mono, All-append_one, count_if, any-count_if, count_if-append, ltb, get, get-key,
  update, get-update, get-append, Bool-cases, Option-cases, ◌==◌, is_some, subst, sym, option_map,
}
use orbitplay_api.Exec.{pure, fail, ◌>>=◌, modify}
use orbitplay_api.Exec.Keeps.{Keeps-modify}
use orbitplay_api.Schema.Enums.{ParticipationStatus}
use orbitplay_api.Schema.Rows.{SessionRow, ParticipationRow, ValidationRow, XpEventRow}
use orbitplay_api.World.{Db, World, Clock, invalidate_report_snapshots}
use orbitplay_api.World.Keeps.{DbKeeps}
use orbitplay_api.Participations.Repository.{
  holds_slot, set_status, set_participation_status, update_found,
}
use orbitplay_api.Participations.SessionQueries.{update_session}
use orbitplay_api.Participations.Invariants.{Keeps-found}
use orbitplay_api.Workers.SessionValidate.{
  session_test_is, rewards, same_source, session_completion_xp, credit_user, credit_session_xp,
  validated_status, validate_found, process_session_validate,
}

-- No player has two XP events for sessions of one test.
abbrev pub RewardedOnce : List SessionRow → List XpEventRow → Type 0
RewardedOnce ss es = (u t : ℕ) → count_if (rewards u t ss) es ≤ 1

-- The session of an XP event stands in the table.
abbrev pub HasSource : List SessionRow → XpEventRow → Type 0
HasSource ss e = is_some (get SessionRow.id e.source_id ss) ≡ true

pub record IsRewarded (ss : List SessionRow) (es : List XpEventRow) : Type 0 where
  pub once : RewardedOnce ss es
  pub sourced : All (HasSource ss) es

abbrev pub Rewarded : Db → Type 0
Rewarded d = IsRewarded d.sessions d.xp_events

-- A write to a session that keeps its id and its test.
module _ (f : SessionRow → SessionRow) (same : (r : SessionRow) → (f r).id ≡ r.id)
    (test : (r : SessionRow) → (f r).test_id ≡ r.test_id) where
  same_test :
      (t : ℕ) (o : Option SessionRow) → session_test_is t (option_map f o) ≡ session_test_is t o
  same_test t none = refl
  same_test t (some s) = rw (test s) refl

  updated_rewards :
      (j : ℕ) (ss : List SessionRow) (u t : ℕ) (es : List XpEventRow)
      → count_if (rewards u t (update SessionRow.id j f ss)) es ≡ count_if (rewards u t ss) es
  updated_rewards j ss u t [] = refl
  updated_rewards j ss u t (e ∷ es) = ground (
    arith,
    updated_rewards j ss u t es,
    get-update SessionRow.id j e.source_id f ss same,
    same_test t (get SessionRow.id e.source_id ss),
  )

  updated_source :
      (j : ℕ) (ss : List SessionRow) (e : XpEventRow)
      → HasSource ss e
      → HasSource (update SessionRow.id j f ss) e
  updated_source j ss e h = ground (arith, get-update SessionRow.id j e.source_id f ss same, h)

  pub update-IsRewarded :
      (j : ℕ) (ss : List SessionRow) (es : List XpEventRow)
      → IsRewarded ss es
      → IsRewarded (update SessionRow.id j f ss) es
  update-IsRewarded j ss es h = record {
    once = λ u t. rw (updated_rewards j ss u t es) (h.once u t);
    sourced =
        All-mono (HasSource ss) (HasSource (update SessionRow.id j f ss)) es (updated_source j ss)
          h.sourced;
  }

-- A new session takes no reward of an older one with it, whatever its id.
appended_rewards :
    (s : SessionRow) (ss : List SessionRow) (u t : ℕ) (es : List XpEventRow)
    → All (HasSource ss) es
    → count_if (rewards u t (ss ++ s ∷ [])) es ≡ count_if (rewards u t ss) es
appended_rewards s ss u t [] h = refl
appended_rewards s ss u t (e ∷ es) h =
    ground (arith, appended_rewards s ss u t es h.1, get-append SessionRow.id e.source_id ss s, h.0)

pub append-IsRewarded :
    (s : SessionRow) (ss : List SessionRow) (es : List XpEventRow)
    → IsRewarded ss es
    → IsRewarded (ss ++ s ∷ []) es
append-IsRewarded s ss es h = record {
  once = λ u t. rw (appended_rewards s ss u t es h.sourced) (h.once u t);
  sourced =
      All-mono (HasSource ss) (HasSource (ss ++ s ∷ [])) es
        (λ e k. ground (arith, get-append SessionRow.id e.source_id ss s, k)) h.sourced;
}

-- A participation's status is no matter of sessions and XP events.
module _ (Q : List SessionRow → List XpEventRow → Type 0) where
  status_written :
      (j : ℕ) (st : ParticipationStatus) (p : ParticipationRow) (w : World)
      → Q w.sessions w.xp_events
      → Q (update_found (some p) j st w).1.sessions (update_found (some p) j st w).1.xp_events
  unfolding fail
  status_written j st p w r =
      elim (Bool-cases (
        ltb 1 (
          count_if (holds_slot p.test_id p.user_id)
            (update ParticipationRow.id j (set_status st) w.participations)))) [
              | inl y ↦ rw y r
              | inr n ↦ rw n r
            ]

  pub Keeps-status :
      (j : ℕ) (st : ParticipationStatus)
      → DbKeeps (λ d. Q d.sessions d.xp_events) (set_participation_status j st)
  unfolding set_participation_status pure
  Keeps-status j st = record {
    at = λ w r. elim (Option-cases (get ParticipationRow.id j w.participations)) [
      | inl gone ↦ rw gone r
      | inr (p, e) ↦ rw e (status_written j st p w r)
    ];
  }

  pub Keeps-snapshots :
      (i : ℕ) → DbKeeps (λ d. Q d.sessions d.xp_events) (invalidate_report_snapshots i)
  unfolding invalidate_report_snapshots
  Keeps-snapshots i = Keeps-modify _ (λ w r. r)

module _ (s : SessionRow) where
  -- The session that is being validated, whose test does not change.
  record IsRow (ss : List SessionRow) (es : List XpEventRow) : Type 0 where
    row : SessionRow
    found : get SessionRow.id s.id ss ≡ some row
    test : row.test_id ≡ s.test_id
    kept : IsRewarded ss es

  abbrev reward : ParticipationRow → XpEventRow
  reward p = record { user_id = p.user_id; source_id = s.id; xp = session_completion_xp }

  one_more :
      (ss : List SessionRow) (es : List XpEventRow) (p : ParticipationRow) (r : IsRow ss es)
      → any (rewards p.user_id s.test_id ss) es ≡ false
      → RewardedOnce ss (es ++ reward p ∷ [])
  one_more ss es p r h u t = ground (
    arith,
    count_if-append (rewards u t ss) es (reward p ∷ []),
    any-count_if (rewards p.user_id s.test_id ss) es h,
    r.found,
    r.test,
    r.kept.once u t,
  )

  credited :
      (p : Option ParticipationRow) (w : World)
      → IsRow w.sessions w.xp_events
      → IsRow (credit_user p s w).1.sessions (credit_user p s w).1.xp_events
  unfolding pure
  credited none w r = r
  credited (some p) w r =
      elim (Bool-cases (any (rewards p.user_id s.test_id w.sessions) w.xp_events)) [
        | inl y ↦ rw y r
        | inr n ↦ elim (Bool-cases (any (same_source p.user_id s.id) w.xp_events)) [
          | inl z ↦ rw (n, z) r
          | inr z ↦
              rw (n, z)
                (record {
                  row = r.row;
                  found = r.found;
                  test = r.test;
                  kept = record {
                    once = one_more w.sessions w.xp_events p r n;
                    sourced =
                        All-append_one (HasSource w.sessions) w.xp_events (reward p) r.kept.sourced
                          (ground (arith, r.found));
                  };
                })
        ]
      ]

  abbrev RowIn : Db → Type 0
  RowIn d = IsRow d.sessions d.xp_events

  Keeps-credit : DbKeeps RowIn (credit_session_xp s)
  unfolding credit_session_xp
  Keeps-credit = record { at = λ w r. credited _ w r }

  Keeps-judged :
      (j : ℕ) (b : Bool)
      → DbKeeps RowIn (update_session j (λ r. record r { status = validated_status b }))
  Keeps-judged j b = Keeps-modify _ (λ w r.
      let f : SessionRow → SessionRow = λ x. record x { status = validated_status b } in
      let moved = get-update SessionRow.id j s.id f w.sessions (λ x. refl) in
      let kept = update-IsRewarded f (λ x. refl) (λ x. refl) j w.sessions w.xp_events r.kept in
      elim (Bool-cases (j == s.id)) [
        | inl y ↦ record {
          row = f r.row;
          found = ground (arith, moved, r.found);
          test = r.test;
          kept = kept;
        }
        | inr n ↦ record {
          row = r.row;
          found = ground (arith, moved, r.found);
          test = r.test;
          kept = kept;
        }
      ])

  Keeps-run : (clock : Clock) → DbKeeps RowIn (validate_found (some s) clock)
  Keeps-run clock =
      Keeps-found RowIn (Keeps-snapshots IsRow) (Keeps-status IsRow) Keeps-judged
        (λ v. Keeps-modify _ (λ w r. r)) s clock
        (λ r e. subst (λ x. DbKeeps RowIn (credit_session_xp x)) (sym e) Keeps-credit)

-- The validation of a session, also of a further one of a test that the player was rewarded for.
pub Keeps-validate : (i : ℕ) (clock : Clock) → DbKeeps Rewarded (process_session_validate i clock)
unfolding process_session_validate ◌>>=◌
Keeps-validate i clock = record {
  at = λ w kept. elim (Bool-cases (is_some (get ValidationRow.session_id i w.validations))) [
    | inl y ↦ rw y kept
    | inr n ↦ elim (Option-cases (get SessionRow.id i w.sessions)) [
      | inl gone ↦ rw (n, gone) kept
      | inr (s, e) ↦
          let key : s.id ≡ i = get-key SessionRow.id i w.sessions s e in
          rw (n, e)
            ((Keeps-run s clock).at w
              (record { row = s; found = ground (arith, key, e); test = refl; kept = kept })).kept
    ]
  ];
}
