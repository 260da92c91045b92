-- ===== src/PlayerCta.antt =====
-- modules/participations/player-cta.ts, the open-test query of participations.repository.ts, and the
-- helpers of player-catalog.service.ts: what a player may do with a test.
pub mod InSync
use orbitplay_api.Prelude.{
  ℕ, ◌-◌, Bool, true, false, not, ◌&&◌, ◌||◌, String, Option, none, some, List, [], ◌∷◌, leb, ltb,
  count_if, ◌==◌, max, if◌then◌else◌,
}
use orbitplay_api.Schema.Enums.{
  TestStatus, draft, published, paused, finished, expired, is_published, ParticipationStatus,
  reserved, tutorial, ready, playing, form_pending, rejected, abandoned,
}
use orbitplay_api.Schema.Rows.{TestRow}

abbrev pub ended_by : Option ℕ → ℕ → Bool
ended_by none now = false
ended_by (some ends_at) now = leb ends_at now

abbrev reason_when_published : TestRow → ℕ → Option String
reason_when_published t now =
    if ended_by t.ends_at now
    then some "Teste expirado"
    else if leb t.slots_total t.slots_taken
    then some "Vagas esgotadas"
    else none

abbrev reason_for : TestStatus → TestRow → ℕ → Option String
reason_for paused t now = some "Teste pausado pelo estúdio"
reason_for finished t now = some "Teste encerrado"
reason_for expired t now = some "Teste expirado"
reason_for published t now = reason_when_published t now
reason_for draft t now = some "Teste indisponível"

-- `testUnavailableReason`; `none` is an open test.
unfoldable pub test_unavailable_reason : TestRow → ℕ → Option String
test_unavailable_reason t now = reason_for t.status t now

pub data TestCta : Type 0 where
  start continue in_review downloading completed unavailable : TestCta

pub record CtaView : Type 0 where
  pub cta : TestCta
  pub disabled_reason : Option String

abbrev available_or : Option String → CtaView
available_or none = record { cta = TestCta.start; disabled_reason = none }
available_or (some m) = record { cta = TestCta.unavailable; disabled_reason = some m }

abbrev enabled : TestCta → CtaView
enabled c = record { cta = c; disabled_reason = none }

-- `testCta`
unfoldable pub test_cta : Option ParticipationStatus → Option String → CtaView
test_cta (some ParticipationStatus.completed) reason = enabled TestCta.completed
test_cta (some ParticipationStatus.in_review) reason = enabled TestCta.in_review
test_cta (some ParticipationStatus.downloading) reason = enabled TestCta.downloading
test_cta (some reserved) reason = enabled TestCta.continue
test_cta (some tutorial) reason = enabled TestCta.continue
test_cta (some ready) reason = enabled TestCta.continue
test_cta (some playing) reason = enabled TestCta.continue
test_cta (some form_pending) reason = enabled TestCta.continue
test_cta (some rejected) reason = available_or reason
test_cta (some abandoned) reason = available_or reason
test_cta none reason = available_or reason

-- `or(isNull(ends_at), gt(ends_at, now))`
abbrev pub still_open : Option ℕ → ℕ → Bool
still_open none now = true
still_open (some ends_at) now = ltb now ends_at

-- The `where` of `findOpenTestStats`.
unfoldable pub is_open_test : ℕ → ℕ → TestRow → Bool
is_open_test game_id now t =
    (t.game_id == game_id)
    && is_published t.status
    && still_open t.ends_at now
    && ltb t.slots_taken t.slots_total

-- SQL's `max`, which skips nulls and is null where nothing is left.
abbrev pub max_reward : Option ℕ → Option ℕ → Option ℕ
max_reward none b = b
max_reward (some a) none = some a
max_reward (some a) (some b) = some (max a b)

abbrev pub max_reward_of : (TestRow → Bool) → List TestRow → Option ℕ
max_reward_of p [] = none
max_reward_of p (t ∷ ts) =
    let rest = max_reward_of p ts in if p t then max_reward t.reward_amount_cents rest else rest

pub record OpenTestStats : Type 0 where
  pub open_tests : ℕ
  pub max_reward_cents : Option ℕ

unfoldable pub find_open_test_stats : ℕ → ℕ → List TestRow → OpenTestStats
unfolding is_open_test
find_open_test_stats game_id now tests = record {
  open_tests = count_if (is_open_test game_id now) tests;
  max_reward_cents = max_reward_of (is_open_test game_id now) tests;
}

-- `Math.max(0, slotsTotal - slotsTaken)`; `-` stops at 0 by itself.
unfoldable pub spots_left : TestRow → ℕ
spots_left t = t.slots_total - t.slots_taken

-- `isFinishedParticipation`
unfoldable pub is_finished_participation : ParticipationStatus → Bool
is_finished_participation ParticipationStatus.completed = true
is_finished_participation rejected = true
is_finished_participation abandoned = true
is_finished_participation _ = false

-- `progressForParticipation`
unfoldable pub progress_for_participation : ParticipationStatus → ℕ
progress_for_participation reserved = 10
progress_for_participation tutorial = 25
progress_for_participation ParticipationStatus.downloading = 40
progress_for_participation ready = 60
progress_for_participation playing = 75
progress_for_participation form_pending = 90
progress_for_participation ParticipationStatus.in_review = 95
progress_for_participation ParticipationStatus.completed = 100
progress_for_participation rejected = 100
progress_for_participation abandoned = 100
