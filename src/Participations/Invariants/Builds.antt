-- ===== src/Participations/Invariants/Builds.antt =====
-- What the build job keeps.
use orbitplay_api.Prelude.{ℕ, Bool, true, false, String, Option, none, some, List}
use orbitplay_api.Exec.Keeps.{keeps_rules}
use orbitplay_api.Schema.Enums.{BuildStepKey}
use orbitplay_api.Schema.Rows.{BuildRow}
use orbitplay_api.World.{Db}
use orbitplay_api.World.Keeps.{DbKeeps}
use orbitplay_api.Workers.BuildValidate.{
  Units, Deps, Signature, unknown, inherited, bytes, set_step, update_build, fail_step, scan,
  check_format, check_object, check_stored, check_build, process_build_validate,
}
use orbitplay_api.Participations.Invariants.{Writes}

module _ (Q : Db → Type 0) (K : Writes Q) (now : ℕ) (id : ℕ) where
  Keeps-fail_step : (key : BuildStepKey) (reason : String) → DbKeeps Q (fail_step now id key reason)
  unfolding fail_step set_step update_build
  Keeps-fail_step key reason = search (keeps_rules, K.builds, K.build_steps) depth 40

  Keeps-scan : (bypass : Bool) → DbKeeps Q (scan now id bypass)
  unfolding scan set_step update_build
  Keeps-scan true = search (keeps_rules, K.builds, K.build_steps) depth 40
  Keeps-scan false = Keeps-fail_step _ _

  Keeps-format :
      (bypass : Bool) (head : List ℕ) (g : Signature)
      → DbKeeps Q (check_format now id bypass head g)
  unfolding check_format set_step
  Keeps-format bypass head unknown = Keeps-fail_step _ _
  Keeps-format bypass head inherited = search keeps_rules depth 40
  Keeps-format bypass head (bytes s) =
      search (keeps_rules, K.build_steps, Keeps-scan, Keeps-fail_step) depth 40

  Keeps-object :
      (deps : Deps) (b : BuildRow) (o : Option (Units × List ℕ))
      → DbKeeps Q (check_object now id deps b o)
  unfolding check_object set_step update_build
  Keeps-object deps b none = Keeps-fail_step _ _
  Keeps-object deps b (some hashed) =
      search (keeps_rules, K.builds, K.build_steps, Keeps-format, Keeps-fail_step) depth 40

  Keeps-stored : (deps : Deps) (b : BuildRow) (s : Bool) → DbKeeps Q (check_stored now id deps b s)
  Keeps-stored deps b true = Keeps-object deps b _
  Keeps-stored deps b false = Keeps-fail_step _ _

  Keeps-build : (deps : Deps) (b : Option BuildRow) → DbKeeps Q (check_build now id deps b)
  Keeps-build deps none = search keeps_rules depth 40
  Keeps-build deps (some b) = search (keeps_rules, Keeps-stored) depth 40

  pub Keeps-build_validate : (deps : Deps) → DbKeeps Q (process_build_validate now id deps)
  unfolding process_build_validate
  Keeps-build_validate deps = search (keeps_rules, Keeps-build) depth 40
