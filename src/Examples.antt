-- ===== src/Examples.antt =====
-- The data of the tests: one test, one player, and the states that they go through.
pub mod Listings
pub mod Answers
pub mod Builds
pub mod Members
pub mod Players
pub mod Recordings
pub mod Requests
pub mod Starts
pub mod Studios
use orbitplay_api.Prelude.{ℕ, Bool, true, false, Option, none, some, List, [], ◌∷◌}
use orbitplay_api.Schema.Enums.{
  TestStatus, published, draft, WizardStep, review, TestModelKey, free_exploration, BuildStatus,
  QuestionType, scale, ParticipationStatus, playing, in_review, SessionStatus, recording,
}
use orbitplay_api.Schema.Rows.{
  TestRow, AudienceRow, QuestionRow, BuildRow, ParticipationRow, SessionRow, ConsentRow,
}
use orbitplay_api.Eligibility.{Date}
use orbitplay_api.Queue.{Queue}
use orbitplay_api.World.{UserRow, Db, World, Clock}

abbrev pub noon : Clock
noon = record { now = 50000; today = record { year = 2026; month = 3; day = 10 } }

abbrev pub later : Clock
later = record { now = 90000; today = record { year = 2026; month = 3; day = 11 } }

-- A published test with two slots.
abbrev pub open_test : TestRow
open_test = record {
  id = 1;
  organization_id = 3;
  game_id = 2;
  name = none;
  model_key = free_exploration;
  status = published;
  current_step = review;
  slots_total = 2;
  slots_taken = 0;
  duration_days = some 7;
  starts_at = some 1000;
  ends_at = some 600000;
  published_at = some 1000;
  publish_idempotency_key = some 8;
  reward_amount_cents = none;
  gamepad_supported = false;
}

abbrev pub draft_test : TestRow
draft_test = record open_test { status = draft; publish_idempotency_key = none }

abbrev pub taken_test : TestRow
taken_test = record open_test { slots_taken = 1 }

abbrev pub adults : AudienceRow
adults = record {
  test_id = 1;
  age_min = some 18;
  age_max = some 40;
  tester_count = some 2;
  estimated_reach = some 2;
}

abbrev pub rating : QuestionRow
rating = record {
  id = 21;
  test_id = 1;
  type = scale;
  required = true;
  position = 1;
  scale_min = none;
  scale_max = none;
  options = [];
}

abbrev pub game_build : BuildRow
game_build = record {
  id = 31;
  organization_id = 3;
  test_id = 1;
  file_name = 103 ∷ 46 ∷ 122 ∷ 105 ∷ 112 ∷ [];
  size_bytes = some 100;
  checksum = none;
  storage_key = 77;
  status = BuildStatus.validated;
  failure_reason = none;
  created_at = 10;
}

abbrev pub player : UserRow
player = record { id = 7; birthdate = some (record { year = 2000; month = 5; day = 1 }) }

abbrev pub quiet_queue : Queue
quiet_queue = record { jobs = []; in_reach = true }

-- A test of which nobody has taken a slot.
abbrev pub world_of : TestRow → World
world_of t = record {
  db = record {
    users = player ∷ [];
    tests = t ∷ [];
    audience = adults ∷ [];
    questions = rating ∷ [];
    builds = game_build ∷ [];
    build_steps = [];
    participations = [];
    consents = [];
    sessions = [];
    device_events = [];
    recordings = [];
    form_responses = [];
    validations = [];
    xp_events = [];
    report_snapshots = [];
  };
  heartbeats = [];
  kpi_cache = [];
  queue = quiet_queue;
  objects = [];
}

abbrev pub participation_in : ParticipationStatus → ParticipationRow
participation_in st = record { id = 5; test_id = 1; user_id = 7; status = st; resume_point = none }

abbrev pub session_in : SessionStatus → SessionRow
session_in st = record {
  id = 9;
  participation_id = 5;
  test_id = 1;
  organization_id = 3;
  status = st;
  started_at = 20000;
  ended_at = none;
  duration_ms = some 30000;
}

-- The player in a session of the test.
abbrev pub session_world : ParticipationStatus → SessionStatus → World
session_world p s = record (world_of taken_test) {
  db = record (world_of taken_test).db {
    participations = participation_in p ∷ [];
    sessions = session_in s ∷ [];
  };
  heartbeats = 9 ∷ [];
}
