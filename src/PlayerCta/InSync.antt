-- ===== src/PlayerCta/InSync.antt =====
-- The two statements of when a test is open, in the service and in SQL, agree.
use orbitplay_api.Prelude.{
  ℕ, ◌≡◌, refl, inl, inr, ◌⊎◌, ◌↔◌, ◌<◌, true, false, Option, none, some, arith,
}
use orbitplay_api.Schema.Enums.{published, ParticipationStatus, rejected, abandoned}
use orbitplay_api.Schema.Rows.{TestRow}
use orbitplay_api.PlayerCta.{
  test_unavailable_reason, is_open_test, ended_by, test_cta, TestCta, spots_left,
}

-- A test of a game is counted by the SQL query exactly when the service finds no reason against
-- joining it.
pub open_in_sync :
    (game_id now : ℕ) (t : TestRow)
    → t.game_id ≡ game_id
    → (is_open_test game_id now t ≡ true) ↔ (test_unavailable_reason t now ≡ none)
unfolding is_open_test test_unavailable_reason
open_in_sync game_id now t g = (λ h. ground arith, λ h. ground arith)

ends_later :
    (now : ℕ) (ends : Option ℕ)
    → ended_by ends now ≡ false
    → (ends ≡ none) ⊎ ((e : ℕ) × (ends ≡ some e) × (now < e))
ends_later now none h = inl refl
ends_later now (some e) h = inr (e, refl, ground arith)

-- What a test without a reason against joining it is: published, not past its end, and with a slot
-- left.
open_means :
    (now : ℕ) (t : TestRow)
    → test_unavailable_reason t now ≡ none
    → (t.status ≡ published)
      × ((t.ends_at ≡ none) ⊎ ((e : ℕ) × (t.ends_at ≡ some e) × (now < e)))
      × (0 < spots_left t)
unfolding test_unavailable_reason spots_left
open_means now t h = (ground arith, ends_later now t.ends_at (ground arith), ground arith)

-- The start button is shown exactly where the player's last participation, if there is one, was
-- rejected or abandoned, and the service finds no reason against joining the test.
pub cta_start :
    (status : Option ParticipationStatus) (now : ℕ) (t : TestRow)
    → ((test_cta status (test_unavailable_reason t now)).cta ≡ TestCta.start) ↔ (
        ((status ≡ none) ⊎ (status ≡ some rejected) ⊎ (status ≡ some abandoned))
        × (test_unavailable_reason t now ≡ none))
unfolding test_cta
cta_start status now t = (λ h. (ground arith, ground arith), λ h. ground arith)
