-- ===== src/Workers/SessionValidate/Verdicts.antt =====
-- Which sessions are found valid.
use orbitplay_api.Prelude.{
  ℕ, ◌<◌, ◌≡◌, ◌≢◌, ◌↔◌, inl, inr, true, false, none, some, List, arith, any, Option-cases,
}
use orbitplay_api.Schema.Enums.{invalidated}
use orbitplay_api.Schema.Rows.{SessionRow, RecordingRow}
use orbitplay_api.Workers.SessionValidate.{verdict_of, is_failed_recording}

-- A session is found valid exactly when it was not invalidated, it has a positive duration, and none
-- of its recordings failed; and a verdict has a reason exactly when it is negative. The comments of the
-- processor and of the schema say otherwise of recordings: that a failed one leaves the session valid.
pub verdict_exact :
    (s : SessionRow) (recordings : List RecordingRow)
    → (((verdict_of s recordings).valid ≡ true) ↔ (
        (s.status ≢ invalidated)
        × ((d : ℕ) × (s.duration_ms ≡ some d) × (0 < d))
        × (any (is_failed_recording s.id) recordings ≡ false)))
      × (((verdict_of s recordings).reason ≡ none) ↔ ((verdict_of s recordings).valid ≡ true))
unfolding verdict_of
verdict_exact s recordings = (
  (
    λ h. (
      (λ e. ground arith),
      elim (Option-cases s.duration_ms) [
        | inl n ↦ absurd (ground arith)
        | inr (d, e) ↦ (d, e, ground arith)
      ],
      ground arith,
    ),
    λ (n, (d, e, p), q). ground arith,
  ),
  (λ h. ground arith, λ h. ground arith),
)
