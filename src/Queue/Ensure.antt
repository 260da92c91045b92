-- ===== src/Queue/Ensure.antt =====
-- What ensuring a job does, in every state of the job and of the queue.
use orbitplay_api.Prelude.{
  ℕ, ◌+◌, ◌≤◌, ◌≡◌, ◌⊎◌, refl, inl, inr, Bool, true, false, Option, none, some, List, [], ◌∷◌, ◌++◌,
  arith, leb, count_if, count_if-append, Bool-cases, if◌then◌else◌,
}
use orbitplay_api.Errors.{error, ok}
use orbitplay_api.Exec.{fail, ◌>>=◌}
use orbitplay_api.Queue.{
  Job, JobId, JobName, Queue, EnsureJobOutcome, enqueued, exists, exhausted, retried, is_failed,
  max_job_runs, same_name, same_job, find_job, update_job, retry, new_job, ensure_found,
  ensure_job_enqueued,
}

answers :
    (found : Option Job) (j : JobId) (q : Queue)
    → (o : EnsureJobOutcome) × ((ensure_found found j q).0 ≡ ok o)
unfolding ◌>>=◌
answers none j q = (enqueued, refl)
answers (some job) j q = elim (Bool-cases (is_failed job.state)) [
  | inr n ↦ (exists, rw n refl)
  | inl y ↦ elim (Bool-cases (leb max_job_runs job.attempts_made)) [
    | inl e ↦ (exhausted, rw (y, e) refl)
    | inr e ↦ (retried, rw (y, e) refl)
  ]
]

pub ensure_answers :
    (j : JobId) (q : Queue)
    → q.in_reach ≡ true
    → (o : EnsureJobOutcome) × ((ensure_job_enqueued j q).0 ≡ ok o)
unfolding ensure_job_enqueued
ensure_answers j q h = let (o, e) = answers (find_job j q.jobs) j q in (o, ground (arith, e))

same_name_refl : (n : JobName) → same_name n n ≡ true
same_name_refl n = ground arith

same_job_refl : (j : JobId) → same_job j j ≡ true
same_job_refl j = ground (arith, same_name_refl j.name)

same_job_trans : (a b c : JobId) → same_job a b ≡ true → same_job c b ≡ same_job c a
same_job_trans a b c h = ground arith

find_job-append :
    (j : JobId) (js : List Job)
    → find_job j js ≡ none
    → find_job j (js ++ new_job j ∷ []) ≡ some (new_job j)
unfolding find_job
find_job-append j [] h = ground (arith, same_job_refl j)
find_job-append j (x ∷ js) h = ground (arith, find_job-append j js)

find_job-update :
    (j : JobId) (f : Job → Job) (js : List Job) (x : Job)
    → ((y : Job) → (f y).id ≡ y.id)
    → find_job j js ≡ some x
    → find_job j (update_job j f js) ≡ some (f x)
unfolding find_job update_job
find_job-update j f [] x keeps h = cc
find_job-update j f (y ∷ js) x keeps h = ground (arith, find_job-update j f js x keeps, keeps y)

abbrev pub count_of : JobId → List Job → ℕ
count_of j jobs = count_if (λ x. same_job x.id j) jobs

none-count : (j : JobId) (js : List Job) → find_job j js ≡ none → count_of j js ≡ 0
unfolding find_job
none-count j [] h = refl
none-count j (x ∷ js) h = ground (arith, none-count j js)

count-append :
    (j i : JobId) (js : List Job)
    → count_of i (js ++ new_job j ∷ []) ≡ count_of i js + count_of i (new_job j ∷ [])
count-append j i js = count_if-append (λ x. same_job x.id i) js (new_job j ∷ [])

count-update :
    (j i : JobId) (f : Job → Job) (js : List Job)
    → ((y : Job) → (f y).id ≡ y.id)
    → count_of i (update_job j f js) ≡ count_of i js
unfolding update_job
count-update j i f [] keeps = refl
count-update j i f (x ∷ js) keeps = ground (arith, count-update j i f js keeps, keeps x)

-- What the queue holds of a job that has been ensured.
pub record IsEnsured (j : JobId) (before after : Queue) : Type 0 where
  pub job : Job
  pub held : find_job j after.jobs ≡ some job
  -- the job will run, runs or has run, or it is given up and the queue is as before
  pub runs :
      (is_failed job.state ≡ false)
      ⊎ ((is_failed job.state ≡ true) × (max_job_runs ≤ job.attempts_made) × (after ≡ before))
  pub alone : (i : JobId) → count_of i before.jobs ≤ 1 → count_of i after.jobs ≤ 1

count-same : (j i : JobId) (js : List Job) → same_job j i ≡ true → count_of i js ≡ count_of j js
count-same j i [] y = refl
count-same j i (x ∷ js) y = ground (arith, count-same j i js y, same_job_trans j i x.id y)

alone_new :
    (j i : JobId) (js : List Job)
    → find_job j js ≡ none
    → count_of i js ≤ 1
    → count_of i (js ++ new_job j ∷ []) ≤ 1
alone_new j i js h one = elim (Bool-cases (same_job j i)) [
  | inl y ↦ ground (arith, count-append j i js, count-same j i js y, none-count j js h)
  | inr n ↦ ground (arith, count-append j i js)
]

IsEnsured-found :
    (found : Option Job) (j : JobId) (q : Queue)
    → find_job j q.jobs ≡ found
    → IsEnsured j q (ensure_found found j q).1
unfolding ◌>>=◌
IsEnsured-found none j q e = record {
  job = new_job j;
  held = find_job-append j q.jobs e;
  runs = inl refl;
  alone = λ i one. alone_new j i q.jobs e one;
}
IsEnsured-found (some x) j q e = elim (Bool-cases (is_failed x.state)) [
  | inr n ↦ rw n (record { job = x; held = e; runs = inl n; alone = λ i one. one })
  | inl y ↦ elim (Bool-cases (leb max_job_runs x.attempts_made)) [
    | inl m ↦
        rw (y, m)
          (record { job = x; held = e; runs = inr (y, ground arith, refl); alone = λ i one. one })
    | inr m ↦
        rw (y, m)
          (record {
            job = retry x;
            held = find_job-update j retry q.jobs x (λ z. refl) e;
            runs = inl refl;
            alone = λ i one. rw (count-update j i retry q.jobs (λ z. refl)) one;
          })
  ]
]

ensured :
    (j : JobId) (q : Queue) (b : Bool)
    → b ≡ true
    → IsEnsured j q
        (if b then ensure_found (find_job j q.jobs) j q else fail (error "queue out of reach") q).1
ensured j q true e = IsEnsured-found (find_job j q.jobs) j q refl
ensured j q false e = absurd (ground arith)

settled_again :
    (found : Option Job) (j : JobId) (q : Queue) (x : Job)
    → found ≡ some x
    → (is_failed x.state ≡ false) ⊎ ((is_failed x.state ≡ true) × (max_job_runs ≤ x.attempts_made))
    → (ensure_found found j q).1 ≡ q
unfolding ◌>>=◌
settled_again none j q x e h = cc
settled_again (some y) j q x e h = elim (Bool-cases (is_failed y.state)) [
  | inr n ↦ rw n refl
  | inl f ↦ let m : leb max_job_runs y.attempts_made ≡ true = ground arith in rw (f, m) refl
]

ensured_again :
    (j : JobId) (before after : Queue)
    → IsEnsured j before after
    → (ensure_job_enqueued j after).1 ≡ after
unfolding ensure_job_enqueued fail
ensured_again j before after e = go after.in_reach
  where
    go :
        (b : Bool)
        → (if b
            then ensure_found (find_job j after.jobs) j after
            else fail (error "queue out of reach") after).1
          ≡ after
    go true = settled_again (find_job j after.jobs) j after e.job e.held (ground (arith, e.runs))
    go false = refl

-- Ensuring a job on a queue in reach leaves it in the queue, not failed, unless it is failed after
-- the allowed number of runs, and then the queue stays as it was; a queue with one job for each id
-- keeps one; and ensuring the job again changes nothing.
pub ensure_settles :
    (j : JobId) (q : Queue)
    → q.in_reach ≡ true
    → IsEnsured j q (ensure_job_enqueued j q).1
      × ((ensure_job_enqueued j (ensure_job_enqueued j q).1).1 ≡ (ensure_job_enqueued j q).1)
unfolding ensure_job_enqueued
ensure_settles j q reach = let e = ensured j q q.in_reach reach in (e, ensured_again j q _ e)
