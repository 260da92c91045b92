-- ===== src/Examples/Listings.antt =====
-- Runs of the paged listings and of the job queue.
use orbitplay_api.Prelude.{ℕ, ◌≡◌, refl, Bool, true, none, some, List, [], ◌∷◌, arith, leb}
use orbitplay_api.Uuid.{Text}
use orbitplay_api.Pagination.{Base64Url}
use orbitplay_api.Pagination.Walk.{walk, walk-eq-filter}
use orbitplay_api.Pagination.Walk.Lists.{Descending}
use orbitplay_api.Queue.{Queue, failed, ensure_job_enqueued, session_validate_job_id}
use orbitplay_api.Queue.Ensure.{IsEnsured, ensure_settles}

-- A codec that leaves texts as they are.
abbrev plain : Base64Url
plain = record {
  Cursor = Text;
  to_base64url = λ t. t;
  from_base64url = λ t. some t;
  round_trip = λ t. refl;
}

abbrev same : ℕ → ℕ
same n = n

abbrev ids : List ℕ
ids = 9 ∷ 7 ∷ 5 ∷ 4 ∷ 2 ∷ []

abbrev at_least_four : ℕ → Bool
at_least_four n = leb 4 n

Descending-ids : Descending same ids
Descending-ids = ground arith

walk-eq-filter_example : walk plain same at_least_four ids 2 9 none ≡ 9 ∷ 7 ∷ 5 ∷ 4 ∷ []
walk-eq-filter_example =
    walk-eq-filter plain same at_least_four ids 2 9 Descending-ids (omega arith) (omega arith)

-- A queue whose job has failed twice.
abbrev failing : Queue
failing = record {
  jobs = record { id = session_validate_job_id 9; state = failed; attempts_made = 2 } ∷ [];
  in_reach = true;
}

ensure_settles_example :
    IsEnsured
      (session_validate_job_id 9)
      failing
      (ensure_job_enqueued (session_validate_job_id 9) failing).1
    × ((ensure_job_enqueued
          (session_validate_job_id 9)
          (ensure_job_enqueued (session_validate_job_id 9) failing).1).1
        ≡ (ensure_job_enqueued (session_validate_job_id 9) failing).1)
ensure_settles_example = ensure_settles (session_validate_job_id 9) failing refl
